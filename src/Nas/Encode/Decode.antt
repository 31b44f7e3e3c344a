-- ===== src/Nas/Encode/Decode.antt =====
-- What an 80386 makes of the bytes of an instruction, for the instructions of the assembler: the
-- mnemonic and the operands. It is written from the opcode map and not from the assembler.
use nano_s.Common.{
  ℕ, ◌+◌, ◌-◌, ◌*◌, ◌/◌, ◌%◌, ◌&&◌, List, [], ◌∷◌, Option, none, some, ◌==◌, ltb, if◌then◌else◌,
}
use nano_s.Ulib.Text.{codes}
use nano_s.Nas.{word}

-- A register by its number in the machine, the memory at the address in a register or at an
-- address, and a value.
pub data Operand : Type 0 where
  reg ind mem imm : ℕ → Operand

pub record Decoded : Type 0 where
  pub mnemonic : List ℕ
  pub operands : List Operand

-- How the bytes behind an opcode are to be read.
pub data Form : Type 0 where
  alone opcode_reg opcode_reg_imm imm_byte near short rm_reg reg_rm : List ℕ → Form
  alu_imm unary unknown : Form

abbrev pub alu_name : ℕ → Option (List ℕ)
alu_name n =
    if n == 0
    then some (codes "add")
    else if n == 1
    then some (codes "or")
    else if n == 4
    then some (codes "and")
    else if n == 5
    then some (codes "sub")
    else if n == 7
    then some (codes "cmp")
    else none

abbrev pub unary_name : ℕ → Option (List ℕ)
unary_name n =
    if n == 2
    then some (codes "not")
    else if n == 4
    then some (codes "mul")
    else if n == 6
    then some (codes "div")
    else none

abbrev condition_name : ℕ → Option (List ℕ)
condition_name n =
    if n == 2
    then some (codes "jc")
    else if n == 3
    then some (codes "jnc")
    else if n == 4
    then some (codes "je")
    else if n == 5
    then some (codes "jne")
    else if n == 12
    then some (codes "jl")
    else if n == 13
    then some (codes "jge")
    else if n == 14
    then some (codes "jle")
    else if n == 15
    then some (codes "jg")
    else none

abbrev with_name : Option (List ℕ) → (List ℕ → Form) → Form
with_name none f = unknown
with_name (some name) f = f name

abbrev pub form_of : ℕ → Form
form_of c =
    if ltb c 64 && c % 8 == 1
    then with_name (alu_name (c / 8)) rm_reg
    else if ltb c 64 && c % 8 == 3
    then with_name (alu_name (c / 8)) reg_rm
    else if c == 0x89
    then rm_reg (codes "mov")
    else if c == 0x8B
    then reg_rm (codes "mov")
    else if c / 8 == 10
    then opcode_reg (codes "push")
    else if c / 8 == 11
    then opcode_reg (codes "pop")
    else if c / 8 == 23
    then opcode_reg_imm (codes "mov")
    else if c / 16 == 7
    then with_name (condition_name (c % 16)) short
    else if c == 0x81
    then alu_imm
    else if c == 0xF7
    then unary
    else if c == 0xC3
    then alone (codes "ret")
    else if c == 0xCD
    then imm_byte (codes "int")
    else if c == 0xE8
    then near (codes "call")
    else if c == 0xE9
    then near (codes "jmp")
    else unknown

abbrev pub le32 : List ℕ → ℕ
le32 (a ∷ b ∷ c ∷ d ∷ _) = a + b * 256 + c * 65536 + d * 16777216
le32 _ = 0

-- The operand of the byte ModRM. With rm = 4 and no register a further byte follows, and other modes
-- have a displacement; these give nothing.
unfoldable pub decode_rm : (modrm : ℕ) → (rest : List ℕ) → Option Operand
decode_rm m rest =
    if m / 64 == 3
    then some (reg (m % 8))
    else if m / 64 == 0
    then (if m % 8 == 5
        then some (mem (le32 rest))
        else if m % 8 == 4
        then none
        else some (ind (m % 8)))
    else none

abbrev pub answer : Option (List ℕ) → Option Operand → (Operand → List Operand) → Option Decoded
answer (some name) (some rm) f = some (record { mnemonic = name; operands = f rm })
answer (some name) none f = none
answer none rm f = none

abbrev pub sign_extend : ℕ → ℕ
sign_extend v = if ltb v 128 then v else v + (word - 256)

-- `address` is that of the instruction; jumps go from the next one.
unfoldable pub decode_form : Form → (address c : ℕ) → List ℕ → Option Decoded
decode_form (alone name) address c _ = some (record { mnemonic = name; operands = [] })
decode_form (opcode_reg name) address c _ =
    some (record { mnemonic = name; operands = reg (c % 8) ∷ [] })
decode_form (opcode_reg_imm name) address c rest =
    some (record { mnemonic = name; operands = reg (c % 8) ∷ imm (le32 rest) ∷ [] })
decode_form (imm_byte name) address c (v ∷ _) =
    some (record { mnemonic = name; operands = imm v ∷ [] })
decode_form (near name) address c rest =
    some (record { mnemonic = name; operands = imm ((address + 5 + le32 rest) % word) ∷ [] })
decode_form (short name) address c (v ∷ _) =
    some (record { mnemonic = name; operands = imm ((address + 2 + sign_extend v) % word) ∷ [] })
decode_form (rm_reg name) address c (m ∷ rest) =
    answer (some name) (decode_rm m rest) (λ rm. rm ∷ reg (m / 8 % 8) ∷ [])
decode_form (reg_rm name) address c (m ∷ rest) =
    answer (some name) (decode_rm m rest) (λ rm. reg (m / 8 % 8) ∷ rm ∷ [])
decode_form alu_imm address c (m ∷ rest) =
    answer (alu_name (m / 8 % 8)) (decode_rm m rest) (λ rm. rm ∷ imm (le32 rest) ∷ [])
decode_form unary address c (m ∷ rest) =
    answer (unary_name (m / 8 % 8)) (decode_rm m rest) (λ rm. rm ∷ [])
decode_form _ address c _ = none

unfoldable pub decode : (address : ℕ) → List ℕ → Option Decoded
unfolding decode_form
decode address [] = none
decode address (c ∷ rest) = decode_form (form_of c) address c rest
