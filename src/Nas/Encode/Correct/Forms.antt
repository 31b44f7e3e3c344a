-- ===== src/Nas/Encode/Correct/Forms.antt =====
-- The forms of two bytes and more of encode_instruction of source/programs/nas.c, decoded.
use nano_s.Common.{ℕ, ◌+◌, ◌-◌, ◌*◌, ◌%◌, ◌<◌, ◌≡◌, refl, bit_or, List, [], ◌∷◌, some, arith}
use nano_s.Ulib.Text.{codes}
use nano_s.Nas.{encoding}
use nano_s.Nas.Encode.{imm32, or3}
use nano_s.Nas.Encode.Decode.{
  form_of, reg, ind, mem, imm, rm_reg, reg_rm, alu_imm, unary, opcode_reg_imm, alu_name, unary_name,
  decode_form, decode,
}
use nano_s.Nas.Encode.Correct.Registers.{
  IsReg, IsBase, IsWord, every_register, encoding-reg, direct_fields, indirect_fields,
  absolute_fields, le32-imm32, decode-direct, decode-indirect, decode-absolute,
}

module _ (name : List ℕ) (address c : ℕ) where
  pub by_reg_reg :
      (a b : ℕ)
      → IsReg a
      → IsReg b
      → decode_form (rm_reg name) address c (or3 0xC0 (encoding b) (encoding a) ∷ [])
        ≡ some (record { mnemonic = name; operands = reg (a - 1) ∷ reg (b - 1) ∷ [] })
  unfolding decode_form
  by_reg_reg a b ha hb =
      rw
        (
          encoding-reg a ha,
          encoding-reg b hb,
          decode-direct (a - 1) (b - 1) [] (omega arith) (omega arith),
          (direct_fields (b - 1) (a - 1) (omega arith) (omega arith)).1,
        )
        refl

  pub by_ind_reg :
      (a b : ℕ)
      → IsBase a
      → IsReg b
      → decode_form (rm_reg name) address c (bit_or (encoding b * 8) (encoding a) ∷ [])
        ≡ some (record { mnemonic = name; operands = ind (a - 1) ∷ reg (b - 1) ∷ [] })
  unfolding decode_form
  by_ind_reg a b ha hb =
      rw
        (
          encoding-reg a (ha.0, ha.1),
          encoding-reg b hb,
          decode-indirect (a - 1) (b - 1) [] (omega arith) (omega arith) (omega arith)
              (omega arith),
          (indirect_fields (b - 1) (a - 1) (omega arith) (omega arith)).1,
        )
        refl

  pub by_reg_ind :
      (a b : ℕ)
      → IsReg a
      → IsBase b
      → decode_form (reg_rm name) address c (bit_or (encoding a * 8) (encoding b) ∷ [])
        ≡ some (record { mnemonic = name; operands = reg (a - 1) ∷ ind (b - 1) ∷ [] })
  unfolding decode_form
  by_reg_ind a b ha hb =
      rw
        (
          encoding-reg a ha,
          encoding-reg b (hb.0, hb.1),
          decode-indirect (b - 1) (a - 1) [] (omega arith) (omega arith) (omega arith)
              (omega arith),
          (indirect_fields (a - 1) (b - 1) (omega arith) (omega arith)).1,
        )
        refl

  pub by_reg_mem :
      (a b : ℕ)
      → IsReg a
      → IsWord b
      → decode_form (reg_rm name) address c (bit_or 0x05 (encoding a * 8) ∷ imm32 b)
        ≡ some (record { mnemonic = name; operands = reg (a - 1) ∷ mem b ∷ [] })
  unfolding decode_form
  by_reg_mem a b ha hb =
      rw
        (
          encoding-reg a ha,
          decode-absolute (a - 1) b (omega arith) hb,
          (absolute_fields (a - 1) (omega arith)).1,
        )
        refl

  -- The address is the number of the register, as the assembler has it.
  pub by_mem_reg :
      (a b : ℕ)
      → (a ≡ b) × IsReg b
      → decode_form (rm_reg name) address c (bit_or 0x05 (encoding b * 8) ∷ imm32 b)
        ≡ some (record { mnemonic = name; operands = mem a ∷ reg (b - 1) ∷ [] })
  unfolding decode_form
  by_mem_reg a b h =
      rw
        (
          encoding-reg b h.1,
          decode-absolute (b - 1) b (omega arith) (omega arith),
          (absolute_fields (b - 1) (omega arith)).1,
          h.0,
        )
        refl

  pub by_reg_imm :
      (x a b : ℕ)
      → x < 8
      → alu_name x ≡ some name
      → IsReg a × IsWord b
      → decode_form alu_imm address c (or3 0xC0 x (encoding a) ∷ imm32 b)
        ≡ some (record { mnemonic = name; operands = reg (a - 1) ∷ imm b ∷ [] })
  unfolding decode_form
  by_reg_imm x a b hx named h =
      rw
        (
          encoding-reg a h.0,
          decode-direct (a - 1) x (imm32 b) (omega arith) hx,
          (direct_fields x (a - 1) hx (omega arith)).1,
          named,
          le32-imm32 b h.1,
        )
        refl

  pub by_one_reg :
      (x a : ℕ)
      → x < 8
      → unary_name x ≡ some name
      → IsReg a
      → decode_form unary address c (or3 0xC0 x (encoding a) ∷ [])
        ≡ some (record { mnemonic = name; operands = reg (a - 1) ∷ [] })
  unfolding decode_form
  by_one_reg x a hx named h =
      rw
        (
          encoding-reg a h,
          decode-direct (a - 1) x [] (omega arith) hx,
          (direct_fields x (a - 1) hx (omega arith)).1,
          named,
        )
        refl

pub push_lem :
    (address v : ℕ)
    → IsReg v
    → decode address ((0x50 + encoding v) % 256 ∷ [])
      ≡ some (record { mnemonic = codes "push"; operands = reg (v - 1) ∷ [] })
unfolding decode
push_lem address =
    every_register
      (λ v.
        decode address ((0x50 + encoding v) % 256 ∷ [])
        ≡ some (record { mnemonic = codes "push"; operands = reg (v - 1) ∷ [] }))
      refl refl refl refl refl refl refl refl

pub pop_lem :
    (address v : ℕ)
    → IsReg v
    → decode address ((0x58 + encoding v) % 256 ∷ [])
      ≡ some (record { mnemonic = codes "pop"; operands = reg (v - 1) ∷ [] })
unfolding decode
pop_lem address =
    every_register
      (λ v.
        decode address ((0x58 + encoding v) % 256 ∷ [])
        ≡ some (record { mnemonic = codes "pop"; operands = reg (v - 1) ∷ [] }))
      refl refl refl refl refl refl refl refl

mov_form :
    (v : ℕ)
    → IsReg v
    → (form_of ((0xB8 + encoding v) % 256) ≡ opcode_reg_imm (codes "mov"))
      × ((0xB8 + encoding v) % 256 % 8 ≡ v - 1)
mov_form =
    every_register
      (λ v.
        (form_of ((0xB8 + encoding v) % 256) ≡ opcode_reg_imm (codes "mov"))
        × ((0xB8 + encoding v) % 256 % 8 ≡ v - 1))
      (refl, refl) (refl, refl) (refl, refl) (refl, refl) (refl, refl) (refl, refl) (refl, refl)
      (refl, refl)

pub mov_lem :
    (address v n : ℕ)
    → IsReg v × IsWord n
    → decode address ((0xB8 + encoding v) % 256 ∷ imm32 n)
      ≡ some (record { mnemonic = codes "mov"; operands = reg (v - 1) ∷ imm n ∷ [] })
unfolding decode
mov_lem address v n h = let f = mov_form v h.0 in rw (f.0, f.1, le32-imm32 n h.1) refl
