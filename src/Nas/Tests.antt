-- ===== src/Nas/Tests.antt =====
-- Runs of the assembler of source/programs/nas.c, and the theorems at concrete inputs.
use nano_s.Common.{
  ℕ, ◌+◌, ◌<◌, ◌≤◌, ◌≡◌, ◌≢◌, ◌⊎◌, refl, true, List, [], ◌∷◌, ◌++◌, take, replicate, get_or, Option,
  none, some, arith,
}
use Prim.Native.String.{String}
use nano_s.Ulib.Text.{codes, cstr}
use nano_s.Nas.{Asm, Symbol, i_data, start, no_symbol, mov_rrd, mov_rid, je, mul_rd, div_rd, not_rd}
use nano_s.Nas.Encode.{instruction_bytes, encode_instruction}
use nano_s.Nas.Encode.Decode.{decode}
use nano_s.Nas.Encode.Correct.{assembled, decode-instruction_bytes}
use nano_s.Nas.Encode.Place.{encode_instruction_again}
use nano_s.Nas.Find.{find_instruction}
use nano_s.Nas.Find.Row.{Fits, like_row, find_instruction-Fits}
use nano_s.Fs.Types.{error_not_found}
use nano_s.Nas.Symbols.{find_or_add_symbol, find_symbol}
use nano_s.Nas.Symbols.Lookup.{AreSized, IsShort, find_or_add_symbol-found}
use nano_s.Nas.Lines.{tokenize_line, sisu}
use nano_s.Nas.Assemble.{read_instruction, assemble_line, finish, output_name}
use nano_s.Nas.Assemble.Unary.{mul-div-not_unreachable}

abbrev from_line : Option Asm → String → Option Asm
unfolding tokenize_line assemble_line
from_line none l = none
from_line (some asm) l = assemble_line (tokenize_line 32 (codes l)) asm

abbrev output : Option Asm → List ℕ
unfolding finish
output none = []
output (some asm) = let done = finish asm in take done.ooffset done.obuff

abbrev assemble : List String → Option Asm → Option Asm
unfolding from_line
assemble [] asm = asm
assemble (l ∷ lines) asm = assemble lines (from_line asm l)

data_lem : output (assemble ("  ORG 0x100" ∷ "nop_: dd 1" ∷ []) (some start)) ≡ 1 ∷ 0 ∷ 0 ∷ 0 ∷ []
unfolding output assemble
data_lem = refl

-- A backward and a forward reference.
loop_lem :
    output (
      assemble
        ("ORG 0x100" ∷ "again:" ∷ "mov eax, [ebx] ; a comment" ∷ "cmp eax, 7" ∷ "je done"
          ∷ "jmp again" ∷ "done:" ∷ "ret" ∷ [])
        (some start))
    ≡ 0x8B ∷ 3 ∷ 0x81 ∷ 0xF8 ∷ 7 ∷ 0 ∷ 0 ∷ 0 ∷ 0x74 ∷ 5 ∷ 0xE9 ∷ 0xF1 ∷ 0xFF ∷ 0xFF ∷ 0xFF ∷ 0xC3
      ∷ []
unfolding output assemble
loop_lem = refl

-- A colon passes for a digit.
sisu_lem : sisu (codes ":") ≡ true
unfolding sisu
sisu_lem = refl

output_name_lem : take 9 (output_name (codes "prog.s")) ≡ codes "prog.bin" ++ 0 ∷ []
unfolding output_name
output_name_lem = refl

decode-instruction_bytes_example :
    decode (0x100 + 8) (instruction_bytes je 0x100 8 0x10F 0) ≡ some (assembled je 0x10F 0)
decode-instruction_bytes_example =
    decode-instruction_bytes je 0x100 8 0x10F 0 (omega arith) (omega arith) (5, omega arith, refl)

encode_instruction_again_example :
    let first = encode_instruction 0 (replicate 16 0) 3 mov_rid (1 ∷ 0 ∷ []) in
    (encode_instruction 0 first.0 3 mov_rid (1 ∷ 0x1234 ∷ [])
      ≡ encode_instruction 0 (replicate 16 0) 3 mov_rid (1 ∷ 0x1234 ∷ []))
    × ((i : ℕ) → (i < 3) ⊎ (first.1 ≤ i) → get_or first.0 i 0 ≡ get_or (replicate 16 0) i 0)
encode_instruction_again_example =
    encode_instruction_again 0 (replicate 16 0) 3 mov_rid (1 ∷ 0 ∷ []) (1 ∷ 0x1234 ∷ [])

find_instruction-Fits_example :
    (find_instruction (like_row mov_rrd 1 3) ≡ some mov_rrd
      → Fits (like_row mov_rrd 1 3) (i_data mov_rrd))
    × (find_instruction (like_row mov_rrd 1 3) ≡ some mov_rrd)
find_instruction-Fits_example = find_instruction-Fits (like_row mov_rrd 1 3) mov_rrd 1 3

abbrev table : List Symbol
table = record no_symbol { name = codes "loop" ++ replicate 4 0 } ∷ replicate 3 no_symbol

done-IsShort : IsShort (codes "done")
unfolding cstr
done-IsShort = (omega arith, omega arith)

table-AreSized : AreSized table
table-AreSized = (refl, (refl, (refl, (refl, tt))))

done_present : (find_or_add_symbol (codes "done") table).0 ≢ error_not_found
unfolding find_or_add_symbol
done_present = omega arith

find_or_add_symbol-found_example :
    let r = find_or_add_symbol (codes "done") table in
    (find_or_add_symbol (codes "done") r.1 ≡ r) × (find_symbol (codes "done") r.1 ≡ r.0)
find_or_add_symbol-found_example =
    find_or_add_symbol-found (codes "done") table table-AreSized done-IsShort done_present

-- A name of 8 characters is cut off and added again each time.
long_name_lem :
    let r = find_or_add_symbol (codes "continue") table in
    (r.0 ≡ 1) × ((find_or_add_symbol (codes "continue") r.1).0 ≡ 2)
unfolding find_or_add_symbol
long_name_lem = (refl, refl)

mul-div-not_unreachable_example :
    let found =
      find_instruction (read_instruction (codes "mul") (codes "eax" ∷ codes "ecx" ∷ []) start).ci in
    (found ≢ some mul_rd) × (found ≢ some div_rd) × (found ≢ some not_rd)
mul-div-not_unreachable_example =
    mul-div-not_unreachable (codes "mul") (codes "eax" ∷ codes "ecx" ∷ []) start
