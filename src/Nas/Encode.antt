-- ===== src/Nas/Encode.antt =====
-- encode_instruction and encode_data of source/programs/nas.c. Each case of the switch writes its
-- bytes one behind the other; a write past the end of the buffer is dropped.
pub mod Decode
pub mod Correct
pub mod Place
use nano_s.Common.{
  ℕ, ◌+◌, ◌-◌, ◌*◌, ◌/◌, ◌%◌, ◌^◌, bit_or, List, [], ◌∷◌, ◌++◌, length, get_or, set, ◌==◌,
  if◌then◌else◌,
}
use nano_s.Ulib.Text.{sub32}
use nano_s.Nas.{
  word, encoding, InstrId, i_data, s_datad, s_dataw, s_datab, push, pop, mov_rid, mov_rrd, mov_rmd,
  mov_mrd, mov_rrmd, mov_rmrd, cmp_rid, cmp_rrd, cmp_rmd, cmp_mrd, cmp_rrmd, cmp_rmrd, ret, int,
  call, jmp, je, jne, jg, jge, jl, jle, jc, jnc, add_rid, add_rrd, add_rmd, add_mrd, add_rrmd,
  add_rmrd, sub_rid, sub_rrd, sub_rmd, sub_mrd, sub_rrmd, sub_rmrd, mul_rd, div_rd, not_rd, and_rid,
  and_rrd, and_rmd, and_mrd, and_rrmd, and_rmrd, or_rid, or_rrd, or_rmd, or_mrd, or_rrmd, or_rmrd,
}

abbrev pub imm32 : ℕ → List ℕ
imm32 v = v % 256 ∷ v / 256 % 256 ∷ v / 65536 % 256 ∷ v / 16777216 % 256 ∷ []

-- The byte behind the opcode: `or3 a b c` is a|(b<<3)|c.
abbrev pub or3 : ℕ → ℕ → ℕ → ℕ
or3 a b c = bit_or (bit_or a (b * 8)) c

abbrev pub opcode : InstrId → ℕ
opcode id = (i_data id).opcode

-- The forms that several cases of the switch share.
abbrev short_jump : InstrId → (origin offset target : ℕ) → List ℕ
short_jump id origin offset target =
    opcode id ∷ sub32 (sub32 target origin) ((offset + 1 + 1) % word) % 256 ∷ []

abbrev long_jump : InstrId → (origin offset target : ℕ) → List ℕ
long_jump id origin offset target =
    opcode id ∷ imm32 (sub32 (sub32 target origin) ((offset + 5) % word))

abbrev reg_imm : InstrId → (extension : ℕ) → (op₀ op₁ : ℕ) → List ℕ
reg_imm id extension op₀ op₁ = opcode id ∷ or3 0xC0 extension (encoding op₀) ∷ imm32 op₁

abbrev one_reg : InstrId → (extension : ℕ) → (op₀ : ℕ) → List ℕ
one_reg id extension op₀ = opcode id ∷ or3 0xC0 extension (encoding op₀) ∷ []

abbrev reg_mem : InstrId → (op₀ op₁ : ℕ) → List ℕ
reg_mem id op₀ op₁ = opcode id ∷ bit_or 0x05 (encoding op₀ * 8) ∷ imm32 op₁

abbrev mem_reg : InstrId → (op₀ op₁ : ℕ) → List ℕ
mem_reg id op₀ op₁ = opcode id ∷ bit_or 0x05 (encoding op₁ * 8) ∷ imm32 op₁

abbrev reg_reg : InstrId → (op₀ op₁ : ℕ) → List ℕ
reg_reg id op₀ op₁ = opcode id ∷ or3 0xC0 (encoding op₁) (encoding op₀) ∷ []

abbrev reg_ind : InstrId → (op₀ op₁ : ℕ) → List ℕ
reg_ind id op₀ op₁ = opcode id ∷ bit_or (encoding op₀ * 8) (encoding op₁) ∷ []

abbrev ind_reg : InstrId → (op₀ op₁ : ℕ) → List ℕ
ind_reg id op₀ op₁ = opcode id ∷ bit_or (encoding op₁ * 8) (encoding op₀) ∷ []

-- The bytes of an instruction that stands at `offset`.
unfoldable pub instruction_bytes : InstrId → (origin offset op₀ op₁ : ℕ) → List ℕ
instruction_bytes push g o a b = (opcode push + encoding a) % 256 ∷ []
instruction_bytes pop g o a b = (opcode pop + encoding a) % 256 ∷ []
instruction_bytes mov_rid g o a b = (opcode mov_rid + encoding a) % 256 ∷ imm32 b
instruction_bytes mov_rrd g o a b = reg_reg mov_rrd a b
instruction_bytes mov_rmd g o a b = reg_mem mov_rmd a b
instruction_bytes mov_mrd g o a b = mem_reg mov_mrd a b
instruction_bytes mov_rrmd g o a b = reg_ind mov_rrmd a b
instruction_bytes mov_rmrd g o a b = ind_reg mov_rmrd a b
instruction_bytes cmp_rid g o a b = reg_imm cmp_rid 7 a b
instruction_bytes cmp_rrd g o a b = reg_reg cmp_rrd a b
instruction_bytes cmp_rmd g o a b = reg_mem cmp_rmd a b
instruction_bytes cmp_mrd g o a b = mem_reg cmp_mrd a b
instruction_bytes cmp_rrmd g o a b = reg_ind cmp_rrmd a b
instruction_bytes cmp_rmrd g o a b = ind_reg cmp_rmrd a b
instruction_bytes ret g o a b = opcode ret ∷ []
instruction_bytes int g o a b = opcode int ∷ a % 256 ∷ []
instruction_bytes call g o a b = long_jump call g o a
instruction_bytes jmp g o a b = long_jump jmp g o a
instruction_bytes je g o a b = short_jump je g o a
instruction_bytes jne g o a b = short_jump jne g o a
instruction_bytes jg g o a b = short_jump jg g o a
instruction_bytes jge g o a b = short_jump jge g o a
instruction_bytes jl g o a b = short_jump jl g o a
instruction_bytes jle g o a b = short_jump jle g o a
instruction_bytes jc g o a b = short_jump jc g o a
instruction_bytes jnc g o a b = short_jump jnc g o a
instruction_bytes add_rid g o a b = reg_imm add_rid 0 a b
instruction_bytes add_rrd g o a b = reg_reg add_rrd a b
instruction_bytes add_rmd g o a b = reg_mem add_rmd a b
instruction_bytes add_mrd g o a b = mem_reg add_mrd a b
instruction_bytes add_rrmd g o a b = reg_ind add_rrmd a b
instruction_bytes add_rmrd g o a b = ind_reg add_rmrd a b
instruction_bytes sub_rid g o a b = reg_imm sub_rid 5 a b
instruction_bytes sub_rrd g o a b = reg_reg sub_rrd a b
instruction_bytes sub_rmd g o a b = reg_mem sub_rmd a b
instruction_bytes sub_mrd g o a b = mem_reg sub_mrd a b
instruction_bytes sub_rrmd g o a b = reg_ind sub_rrmd a b
instruction_bytes sub_rmrd g o a b = ind_reg sub_rmrd a b
instruction_bytes mul_rd g o a b = one_reg mul_rd 4 a
instruction_bytes div_rd g o a b = one_reg div_rd 6 a
instruction_bytes not_rd g o a b = one_reg not_rd 2 a
instruction_bytes and_rid g o a b = reg_imm and_rid 4 a b
instruction_bytes and_rrd g o a b = reg_reg and_rrd a b
instruction_bytes and_rmd g o a b = reg_mem and_rmd a b
instruction_bytes and_mrd g o a b = mem_reg and_mrd a b
instruction_bytes and_rrmd g o a b = reg_ind and_rrmd a b
instruction_bytes and_rmrd g o a b = ind_reg and_rmrd a b
instruction_bytes or_rid g o a b = reg_imm or_rid 1 a b
instruction_bytes or_rrd g o a b = reg_reg or_rrd a b
instruction_bytes or_rmd g o a b = reg_mem or_rmd a b
instruction_bytes or_mrd g o a b = mem_reg or_mrd a b
instruction_bytes or_rrmd g o a b = reg_ind or_rrmd a b
instruction_bytes or_rmrd g o a b = ind_reg or_rmrd a b

unfoldable pub write_bytes : List ℕ → ℕ → (bytes : List ℕ) → List ℕ
write_bytes buffer offset [] = buffer
write_bytes buffer offset (b ∷ bytes) = write_bytes (set buffer offset b) (offset + 1) bytes

-- The buffer, and the offset behind the bytes written.
unfoldable pub encode_instruction :
    (origin : ℕ) → (buffer : List ℕ) → (offset : ℕ) → InstrId → (op : List ℕ) → List ℕ × ℕ
unfolding instruction_bytes write_bytes
encode_instruction origin buffer offset id op =
    let bytes = instruction_bytes id origin offset (get_or op 0 0) (get_or op 1 0) in
    (write_bytes buffer offset bytes, offset + length bytes)

unfoldable pub data_bytes : (type value : ℕ) → List ℕ
data_bytes type value =
    if type == s_datad
    then imm32 value
    else if type == s_dataw
    then value % 256 ∷ value / 256 % 256 ∷ []
    else if type == s_datab
    then value % 256 ∷ []
    else []

unfoldable pub encode_data : (buffer : List ℕ) → (offset type value : ℕ) → List ℕ × ℕ
unfolding data_bytes write_bytes
encode_data buffer offset type value =
    let bytes = data_bytes type value in (write_bytes buffer offset bytes, offset + length bytes)
