-- ===== src/Nas/Encode/Correct.antt =====
-- The bytes that encode_instruction of source/programs/nas.c writes against what an 80386 makes of
-- them.
pub mod Registers
mod Forms
pub mod Jumps
use nano_s.Common.{
  ℕ, zero, suc, ◌+◌, ◌-◌, ◌*◌, ◌/◌, ◌%◌, ◌^◌, ◌≤◌, ◌<◌, ◌≡◌, ◌≢◌, refl, sym, ap, bit_or, Bool, true,
  ◌&&◌, List, [], ◌∷◌, ◌++◌, Option, none, some, ◌==◌, if◌then◌else◌, arith, ne→==, Bool-cases, inl,
  inr, ltb,
}
use nano_s.Common.Bytes.{all_pairs, all_pairs_sound}
use nano_s.Ulib.Text.{codes, sub32}
use nano_s.Nas.{
  word, encoding, InstrId, Idata, i_data, o_any, o_rd, o_rmd, o_md, push, pop, mov_rid, mov_rrd,
  mov_rmd, mov_mrd, mov_rrmd, mov_rmrd, cmp_rid, cmp_rrd, cmp_rmd, cmp_mrd, cmp_rrmd, cmp_rmrd, ret,
  int, call, jmp, je, jne, jg, jge, jl, jle, jc, jnc, add_rid, add_rrd, add_rmd, add_mrd, add_rrmd,
  add_rmrd, sub_rid, sub_rrd, sub_rmd, sub_mrd, sub_rrmd, sub_rmrd, mul_rd, div_rd, not_rd, and_rid,
  and_rrd, and_rmd, and_mrd, and_rrmd, and_rmrd, or_rid, or_rrd, or_rmd, or_mrd, or_rrmd, or_rmrd,
}
use nano_s.Nas.Encode.{opcode, imm32, or3, instruction_bytes}
use nano_s.Nas.Encode.Decode.{
  form_of, Operand, reg, ind, mem, imm, Decoded, Form, rm_reg, reg_rm, alu_imm, unary, short, near,
  opcode_reg, opcode_reg_imm, alu_name, unary_name, le32, decode_rm, answer, sign_extend,
  decode_form, decode,
}
use nano_s.Nas.Encode.Correct.Registers.{
  IsReg, IsBase, IsWord, every_register, encoding-reg, direct_fields, indirect_fields,
  absolute_fields, le32-imm32, decode-direct, decode-indirect, decode-absolute,
}
use nano_s.Nas.Encode.Correct.Forms.{
  by_reg_reg, by_ind_reg, by_reg_ind, by_reg_mem, by_mem_reg, by_reg_imm, by_one_reg, push_lem,
  pop_lem, mov_lem,
}
use nano_s.Nas.Encode.Correct.Jumps.{InReach, long_target, short_target}

-- An operand as the instruction table types it.
abbrev pub typed : (type value : ℕ) → List Operand → List Operand
typed type value rest =
    if type == o_any
    then rest
    else if type == o_rd
    then reg (value - 1) ∷ rest
    else if type == o_rmd
    then ind (value - 1) ∷ rest
    else if type == o_md
    then mem value ∷ rest
    else imm value ∷ rest

abbrev two : List ℕ → (op₀ op₁ : ℕ) → List Operand
two (t₀ ∷ t₁ ∷ _) op₀ op₁ = typed t₀ op₀ (typed t₁ op₁ [])
two _ op₀ op₁ = []

-- The mnemonic and the operands of the instruction that is assembled.
abbrev pub assembled : InstrId → (op₀ op₁ : ℕ) → Decoded
assembled id op₀ op₁ = record {
  mnemonic = (i_data id).mnemonic;
  operands = two (i_data id).op_type op₀ op₁;
}

-- What an instruction can express.
abbrev pub Encodable : InstrId → (origin offset op₀ op₁ : ℕ) → Type 0
Encodable push g o a b = IsReg a
Encodable pop g o a b = IsReg a
Encodable mov_rid g o a b = IsReg a × IsWord b
Encodable mov_rrd g o a b = IsReg a × IsReg b
Encodable mov_rmd g o a b = IsReg a × IsWord b
Encodable mov_mrd g o a b = (a ≡ b) × IsReg b
Encodable mov_rrmd g o a b = IsReg a × IsBase b
Encodable mov_rmrd g o a b = IsBase a × IsReg b
Encodable cmp_rid g o a b = IsReg a × IsWord b
Encodable cmp_rrd g o a b = IsReg a × IsReg b
Encodable cmp_rmd g o a b = IsReg a × IsWord b
Encodable cmp_mrd g o a b = (a ≡ b) × IsReg b
Encodable cmp_rrmd g o a b = IsReg a × IsBase b
Encodable cmp_rmrd g o a b = IsBase a × IsReg b
Encodable ret g o a b = Unit {0}
Encodable int g o a b = a < 256
Encodable call g o a b = IsWord a
Encodable jmp g o a b = IsWord a
Encodable je g o a b = InReach (g + o) a
Encodable jne g o a b = InReach (g + o) a
Encodable jg g o a b = InReach (g + o) a
Encodable jge g o a b = InReach (g + o) a
Encodable jl g o a b = InReach (g + o) a
Encodable jle g o a b = InReach (g + o) a
Encodable jc g o a b = InReach (g + o) a
Encodable jnc g o a b = InReach (g + o) a
Encodable add_rid g o a b = IsReg a × IsWord b
Encodable add_rrd g o a b = IsReg a × IsReg b
Encodable add_rmd g o a b = IsReg a × IsWord b
Encodable add_mrd g o a b = (a ≡ b) × IsReg b
Encodable add_rrmd g o a b = IsReg a × IsBase b
Encodable add_rmrd g o a b = IsBase a × IsReg b
Encodable sub_rid g o a b = IsReg a × IsWord b
Encodable sub_rrd g o a b = IsReg a × IsReg b
Encodable sub_rmd g o a b = IsReg a × IsWord b
Encodable sub_mrd g o a b = (a ≡ b) × IsReg b
Encodable sub_rrmd g o a b = IsReg a × IsBase b
Encodable sub_rmrd g o a b = IsBase a × IsReg b
Encodable mul_rd g o a b = IsReg a
Encodable div_rd g o a b = IsReg a
Encodable not_rd g o a b = IsReg a
Encodable and_rid g o a b = IsReg a × IsWord b
Encodable and_rrd g o a b = IsReg a × IsReg b
Encodable and_rmd g o a b = IsReg a × IsWord b
Encodable and_mrd g o a b = (a ≡ b) × IsReg b
Encodable and_rrmd g o a b = IsReg a × IsBase b
Encodable and_rmrd g o a b = IsBase a × IsReg b
Encodable or_rid g o a b = IsReg a × IsWord b
Encodable or_rrd g o a b = IsReg a × IsReg b
Encodable or_rmd g o a b = IsReg a × IsWord b
Encodable or_mrd g o a b = (a ≡ b) × IsReg b
Encodable or_rrmd g o a b = IsReg a × IsBase b
Encodable or_rmrd g o a b = IsBase a × IsReg b

-- For every instruction of the table, with operands that the instruction can express, the processor
-- reads from the bytes that encode_instruction writes the mnemonic of the line and its operands.
-- The exceptions are in Encodable: the address of an instruction that stores to an absolute address
-- is the number of the register stored, and [esp] and [ebp] are no operands.
pub decode-instruction_bytes :
    (id : InstrId) (g o a b : ℕ)
    → g < word
    → o + 5 < word
    → Encodable id g o a b
    → decode (g + o) (instruction_bytes id g o a b) ≡ some (assembled id a b)
unfolding decode decode_form instruction_bytes
decode-instruction_bytes push g o a b hg ho h = push_lem (g + o) a h
decode-instruction_bytes pop g o a b hg ho h = pop_lem (g + o) a h
decode-instruction_bytes mov_rid g o a b hg ho h = mov_lem (g + o) a b h
decode-instruction_bytes mov_rrd g o a b hg ho h = by_reg_reg _ (g + o) (opcode mov_rrd) a b h.0 h.1
decode-instruction_bytes mov_rmd g o a b hg ho h = by_reg_mem _ (g + o) (opcode mov_rmd) a b h.0 h.1
decode-instruction_bytes mov_mrd g o a b hg ho h = by_mem_reg _ (g + o) (opcode mov_mrd) a b h
decode-instruction_bytes mov_rrmd g o a b hg ho h =
    by_reg_ind _ (g + o) (opcode mov_rrmd) a b h.0 h.1
decode-instruction_bytes mov_rmrd g o a b hg ho h =
    by_ind_reg _ (g + o) (opcode mov_rmrd) a b h.0 h.1
decode-instruction_bytes cmp_rid g o a b hg ho h =
    by_reg_imm _ (g + o) (opcode cmp_rid) 7 a b (omega arith) refl h
decode-instruction_bytes cmp_rrd g o a b hg ho h = by_reg_reg _ (g + o) (opcode cmp_rrd) a b h.0 h.1
decode-instruction_bytes cmp_rmd g o a b hg ho h = by_reg_mem _ (g + o) (opcode cmp_rmd) a b h.0 h.1
decode-instruction_bytes cmp_mrd g o a b hg ho h = by_mem_reg _ (g + o) (opcode cmp_mrd) a b h
decode-instruction_bytes cmp_rrmd g o a b hg ho h =
    by_reg_ind _ (g + o) (opcode cmp_rrmd) a b h.0 h.1
decode-instruction_bytes cmp_rmrd g o a b hg ho h =
    by_ind_reg _ (g + o) (opcode cmp_rmrd) a b h.0 h.1
decode-instruction_bytes ret g o a b hg ho h = refl
decode-instruction_bytes int g o a b hg ho h = let e : a % 256 ≡ a = omega arith in rw e refl
decode-instruction_bytes call g o a b hg ho h = rw (long_target g o a hg ho h) refl
decode-instruction_bytes jmp g o a b hg ho h = rw (long_target g o a hg ho h) refl
decode-instruction_bytes je g o a b hg ho h = rw (short_target g o a hg ho h) refl
decode-instruction_bytes jne g o a b hg ho h = rw (short_target g o a hg ho h) refl
decode-instruction_bytes jg g o a b hg ho h = rw (short_target g o a hg ho h) refl
decode-instruction_bytes jge g o a b hg ho h = rw (short_target g o a hg ho h) refl
decode-instruction_bytes jl g o a b hg ho h = rw (short_target g o a hg ho h) refl
decode-instruction_bytes jle g o a b hg ho h = rw (short_target g o a hg ho h) refl
decode-instruction_bytes jc g o a b hg ho h = rw (short_target g o a hg ho h) refl
decode-instruction_bytes jnc g o a b hg ho h = rw (short_target g o a hg ho h) refl
decode-instruction_bytes add_rid g o a b hg ho h =
    by_reg_imm _ (g + o) (opcode add_rid) 0 a b (omega arith) refl h
decode-instruction_bytes add_rrd g o a b hg ho h = by_reg_reg _ (g + o) (opcode add_rrd) a b h.0 h.1
decode-instruction_bytes add_rmd g o a b hg ho h = by_reg_mem _ (g + o) (opcode add_rmd) a b h.0 h.1
decode-instruction_bytes add_mrd g o a b hg ho h = by_mem_reg _ (g + o) (opcode add_mrd) a b h
decode-instruction_bytes add_rrmd g o a b hg ho h =
    by_reg_ind _ (g + o) (opcode add_rrmd) a b h.0 h.1
decode-instruction_bytes add_rmrd g o a b hg ho h =
    by_ind_reg _ (g + o) (opcode add_rmrd) a b h.0 h.1
decode-instruction_bytes sub_rid g o a b hg ho h =
    by_reg_imm _ (g + o) (opcode sub_rid) 5 a b (omega arith) refl h
decode-instruction_bytes sub_rrd g o a b hg ho h = by_reg_reg _ (g + o) (opcode sub_rrd) a b h.0 h.1
decode-instruction_bytes sub_rmd g o a b hg ho h = by_reg_mem _ (g + o) (opcode sub_rmd) a b h.0 h.1
decode-instruction_bytes sub_mrd g o a b hg ho h = by_mem_reg _ (g + o) (opcode sub_mrd) a b h
decode-instruction_bytes sub_rrmd g o a b hg ho h =
    by_reg_ind _ (g + o) (opcode sub_rrmd) a b h.0 h.1
decode-instruction_bytes sub_rmrd g o a b hg ho h =
    by_ind_reg _ (g + o) (opcode sub_rmrd) a b h.0 h.1
decode-instruction_bytes mul_rd g o a b hg ho h =
    by_one_reg _ (g + o) (opcode mul_rd) 4 a (omega arith) refl h
decode-instruction_bytes div_rd g o a b hg ho h =
    by_one_reg _ (g + o) (opcode div_rd) 6 a (omega arith) refl h
decode-instruction_bytes not_rd g o a b hg ho h =
    by_one_reg _ (g + o) (opcode not_rd) 2 a (omega arith) refl h
decode-instruction_bytes and_rid g o a b hg ho h =
    by_reg_imm _ (g + o) (opcode and_rid) 4 a b (omega arith) refl h
decode-instruction_bytes and_rrd g o a b hg ho h = by_reg_reg _ (g + o) (opcode and_rrd) a b h.0 h.1
decode-instruction_bytes and_rmd g o a b hg ho h = by_reg_mem _ (g + o) (opcode and_rmd) a b h.0 h.1
decode-instruction_bytes and_mrd g o a b hg ho h = by_mem_reg _ (g + o) (opcode and_mrd) a b h
decode-instruction_bytes and_rrmd g o a b hg ho h =
    by_reg_ind _ (g + o) (opcode and_rrmd) a b h.0 h.1
decode-instruction_bytes and_rmrd g o a b hg ho h =
    by_ind_reg _ (g + o) (opcode and_rmrd) a b h.0 h.1
decode-instruction_bytes or_rid g o a b hg ho h =
    by_reg_imm _ (g + o) (opcode or_rid) 1 a b (omega arith) refl h
decode-instruction_bytes or_rrd g o a b hg ho h = by_reg_reg _ (g + o) (opcode or_rrd) a b h.0 h.1
decode-instruction_bytes or_rmd g o a b hg ho h = by_reg_mem _ (g + o) (opcode or_rmd) a b h.0 h.1
decode-instruction_bytes or_mrd g o a b hg ho h = by_mem_reg _ (g + o) (opcode or_mrd) a b h
decode-instruction_bytes or_rrmd g o a b hg ho h = by_reg_ind _ (g + o) (opcode or_rrmd) a b h.0 h.1
decode-instruction_bytes or_rmrd g o a b hg ho h = by_ind_reg _ (g + o) (opcode or_rmrd) a b h.0 h.1
