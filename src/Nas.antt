-- ===== src/Nas.antt =====
-- The assembler of source/programs/nas.c: its tables of registers and instructions, and the state
-- of a run. A token or a name is the list of its bytes; fields of two operands are lists.
pub mod Encode
pub mod Find
pub mod Symbols
pub mod Lines
pub mod Assemble
mod Tests
use nano_s.Common.{ℕ, ◌^◌, List, [], ◌∷◌, get_or, replicate}
use nano_s.Ulib.Text.{codes}

abbrev pub word : ℕ
word = 2 ^ 32

-- Operand types.
abbrev pub o_any : ℕ
o_any = 0

abbrev pub o_rd : ℕ
o_rd = 1

abbrev pub o_rmd : ℕ
o_rmd = 2

abbrev pub o_md : ℕ
o_md = 3

abbrev pub o_ix : ℕ
o_ix = 4

pub record RegData : Type 0 where
  pub name : List ℕ
  pub type : ℕ
  pub encoding : ℕ

abbrev double : List ℕ → ℕ → RegData
double name encoding = record { name = name; type = o_rd; encoding = encoding }

abbrev pub no_register : RegData
no_register = record { name = codes "NO"; type = o_any; encoding = 0 }

abbrev pub r_data : List RegData
r_data =
    no_register
    ∷ double (codes "eax") 0
    ∷ double (codes "ecx") 1
    ∷ double (codes "edx") 2
    ∷ double (codes "ebx") 3
    ∷ double (codes "esp") 4
    ∷ double (codes "ebp") 5
    ∷ double (codes "esi") 6
    ∷ double (codes "edi") 7
    ∷ []

abbrev pub encoding : ℕ → ℕ
encoding r = (get_or r_data r no_register).encoding

-- The instructions. No other number is an instruction id in the program.
pub data InstrId : Type 0 where
  push pop mov_rid mov_rrd mov_rmd mov_mrd mov_rrmd mov_rmrd : InstrId
  cmp_rid cmp_rrd cmp_rmd cmp_mrd cmp_rrmd cmp_rmrd ret int : InstrId
  call jmp je jne jg jge jl jle : InstrId
  jc jnc add_rid add_rrd add_rmd add_mrd add_rrmd add_rmrd : InstrId
  sub_rid sub_rrd sub_rmd sub_mrd sub_rrmd sub_rmrd mul_rd div_rd : InstrId
  not_rd and_rid and_rrd and_rmd and_mrd and_rrmd and_rmrd or_rid : InstrId
  or_rrd or_rmd or_mrd or_rrmd or_rmrd : InstrId

-- The entries of the enumeration, in its order.
abbrev pub all_ids : List InstrId
all_ids =
    push ∷ pop ∷ mov_rid ∷ mov_rrd ∷ mov_rmd ∷ mov_mrd ∷ mov_rrmd ∷ mov_rmrd ∷ cmp_rid ∷ cmp_rrd
    ∷ cmp_rmd ∷ cmp_mrd ∷ cmp_rrmd ∷ cmp_rmrd ∷ ret ∷ int ∷ call ∷ jmp ∷ je ∷ jne ∷ jg ∷ jge ∷ jl
    ∷ jle ∷ jc ∷ jnc ∷ add_rid ∷ add_rrd ∷ add_rmd ∷ add_mrd ∷ add_rrmd ∷ add_rmrd ∷ sub_rid
    ∷ sub_rrd ∷ sub_rmd ∷ sub_mrd ∷ sub_rrmd ∷ sub_rmrd ∷ mul_rd ∷ div_rd ∷ not_rd ∷ and_rid
    ∷ and_rrd ∷ and_rmd ∷ and_mrd ∷ and_rrmd ∷ and_rmrd ∷ or_rid ∷ or_rrd ∷ or_rmd ∷ or_mrd
    ∷ or_rrmd ∷ or_rmrd ∷ []

pub record Idata : Type 0 where
  pub mnemonic : List ℕ
  pub opcode : ℕ
  pub nops : ℕ
  pub op_type : List ℕ
  pub op_value : List ℕ

-- No row restricts the value of an operand.
abbrev row : List ℕ → (opcode nops type₀ type₁ : ℕ) → Idata
row mnemonic opcode nops type₀ type₁ = record {
  mnemonic = mnemonic;
  opcode = opcode;
  nops = nops;
  op_type = type₀ ∷ type₁ ∷ [];
  op_value = 0 ∷ 0 ∷ [];
}

abbrev pub i_data : InstrId → Idata
i_data push = row (codes "push") 0x50 1 o_rd o_any
i_data pop = row (codes "pop") 0x58 1 o_rd o_any
i_data mov_rid = row (codes "mov") 0xB8 2 o_rd o_ix
i_data mov_rrd = row (codes "mov") 0x89 2 o_rd o_rd
i_data mov_rmd = row (codes "mov") 0x8B 2 o_rd o_md
i_data mov_mrd = row (codes "mov") 0x89 2 o_md o_rd
i_data mov_rrmd = row (codes "mov") 0x8B 2 o_rd o_rmd
i_data mov_rmrd = row (codes "mov") 0x89 2 o_rmd o_rd
i_data cmp_rid = row (codes "cmp") 0x81 2 o_rd o_ix
i_data cmp_rrd = row (codes "cmp") 0x39 2 o_rd o_rd
i_data cmp_rmd = row (codes "cmp") 0x3B 2 o_rd o_md
i_data cmp_mrd = row (codes "cmp") 0x39 2 o_md o_rd
i_data cmp_rrmd = row (codes "cmp") 0x3B 2 o_rd o_rmd
i_data cmp_rmrd = row (codes "cmp") 0x39 2 o_rmd o_rd
i_data ret = row (codes "ret") 0xC3 0 o_any o_any
i_data int = row (codes "int") 0xCD 1 o_ix o_any
i_data call = row (codes "call") 0xE8 1 o_ix o_any
i_data jmp = row (codes "jmp") 0xE9 1 o_ix o_any
i_data je = row (codes "je") 0x74 1 o_ix o_any
i_data jne = row (codes "jne") 0x75 1 o_ix o_any
i_data jg = row (codes "jg") 0x7F 1 o_ix o_any
i_data jge = row (codes "jge") 0x7D 1 o_ix o_any
i_data jl = row (codes "jl") 0x7C 1 o_ix o_any
i_data jle = row (codes "jle") 0x7E 1 o_ix o_any
i_data jc = row (codes "jc") 0x72 1 o_ix o_any
i_data jnc = row (codes "jnc") 0x73 1 o_ix o_any
i_data add_rid = row (codes "add") 0x81 2 o_rd o_ix
i_data add_rrd = row (codes "add") 0x01 2 o_rd o_rd
i_data add_rmd = row (codes "add") 0x03 2 o_rd o_md
i_data add_mrd = row (codes "add") 0x01 2 o_md o_rd
i_data add_rrmd = row (codes "add") 0x03 2 o_rd o_rmd
i_data add_rmrd = row (codes "add") 0x01 2 o_rmd o_rd
i_data sub_rid = row (codes "sub") 0x81 2 o_rd o_ix
i_data sub_rrd = row (codes "sub") 0x29 2 o_rd o_rd
i_data sub_rmd = row (codes "sub") 0x2B 2 o_rd o_md
i_data sub_mrd = row (codes "sub") 0x29 2 o_md o_rd
i_data sub_rrmd = row (codes "sub") 0x2B 2 o_rd o_rmd
i_data sub_rmrd = row (codes "sub") 0x29 2 o_rmd o_rd
i_data mul_rd = row (codes "mul") 0xF7 2 o_rd o_any
i_data div_rd = row (codes "div") 0xF7 2 o_rd o_any
i_data not_rd = row (codes "not") 0xF7 2 o_rd o_any
i_data and_rid = row (codes "and") 0x81 2 o_rd o_ix
i_data and_rrd = row (codes "and") 0x21 2 o_rd o_rd
i_data and_rmd = row (codes "and") 0x23 2 o_rd o_md
i_data and_mrd = row (codes "and") 0x21 2 o_md o_rd
i_data and_rrmd = row (codes "and") 0x23 2 o_rd o_rmd
i_data and_rmrd = row (codes "and") 0x21 2 o_rmd o_rd
i_data or_rid = row (codes "or") 0x81 2 o_rd o_ix
i_data or_rrd = row (codes "or") 0x09 2 o_rd o_rd
i_data or_rmd = row (codes "or") 0x0B 2 o_rd o_md
i_data or_mrd = row (codes "or") 0x09 2 o_md o_rd
i_data or_rrmd = row (codes "or") 0x0B 2 o_rd o_rmd
i_data or_rmrd = row (codes "or") 0x09 2 o_rmd o_rd

-- Symbol types.
abbrev pub s_label : ℕ
s_label = 0

abbrev pub s_datad : ℕ
s_datad = 1

abbrev pub s_dataw : ℕ
s_dataw = 2

abbrev pub s_datab : ℕ
s_datab = 3

abbrev pub s_max : ℕ
s_max = 32

abbrev pub name_size : ℕ
name_size = 8

pub record Symbol : Type 0 where
  pub name : List ℕ
  pub type : ℕ
  pub value : ℕ

abbrev pub no_symbol : Symbol
no_symbol = record { name = replicate name_size 0; type = 0; value = 0 }

-- A reference to a symbol: where the instruction stands, which operand it is and the instruction.
pub record SymbolRef : Type 0 where
  pub offset : ℕ
  pub symbol : ℕ
  pub operand : ℕ
  pub instr_id : InstrId
  pub instruction : Idata

-- The variables of the program. `ooffset` is where the next byte goes in the output buffer.
pub record Asm : Type 0 where
  pub origin : ℕ
  pub s_table : List Symbol
  pub s_ref : List SymbolRef
  pub obuff : List ℕ
  pub ooffset : ℕ

abbrev pub no_ref : SymbolRef
no_ref = record { offset = 0; symbol = 0; operand = 0; instr_id = push; instruction = i_data push }

abbrev pub obuff_size : ℕ
obuff_size = 1024

abbrev pub start : Asm
start = record {
  origin = 0x20000;
  s_table = replicate s_max no_symbol;
  s_ref = replicate s_max no_ref;
  obuff = replicate obuff_size 0;
  ooffset = 0;
}
