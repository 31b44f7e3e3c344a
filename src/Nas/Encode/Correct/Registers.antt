-- ===== src/Nas/Encode/Correct/Registers.antt =====
-- Registers of source/programs/nas.c and the byte ModRM behind an opcode.
use nano_s.Common.{
  ℕ, zero, suc, ◌-◌, ◌*◌, ◌/◌, ◌%◌, ◌^◌, ◌≤◌, ◌<◌, ◌≡◌, ◌≢◌, refl, bit_or, Bool, true, ◌&&◌, List,
  some, ◌==◌, arith, ne→==,
}
use nano_s.Common.Bytes.{all_pairs, all_pairs_sound}
use nano_s.Nas.{encoding}
use nano_s.Nas.Encode.{imm32, or3}
use nano_s.Nas.Encode.Decode.{reg, ind, mem, le32, decode_rm}

abbrev pub IsReg : ℕ → Type 0
IsReg v = (1 ≤ v) × (v ≤ 8)

-- A register that can hold an address: not esp or ebp.
abbrev pub IsBase : ℕ → Type 0
IsBase v = (1 ≤ v) × (v ≤ 8) × (v ≢ 5) × (v ≢ 6)

abbrev pub IsWord : ℕ → Type 0
IsWord v = v < 2 ^ 32

-- What holds of each register holds of all.
pub every_register :
    (P : ℕ → Type 0) → P 1 → P 2 → P 3 → P 4 → P 5 → P 6 → P 7 → P 8 → (v : ℕ) → IsReg v → P v
every_register P p₁ p₂ p₃ p₄ p₅ p₆ p₇ p₈ zero h = absurd (omega arith)
every_register P p₁ p₂ p₃ p₄ p₅ p₆ p₇ p₈ (suc zero) h = p₁
every_register P p₁ p₂ p₃ p₄ p₅ p₆ p₇ p₈ (suc (suc zero)) h = p₂
every_register P p₁ p₂ p₃ p₄ p₅ p₆ p₇ p₈ (suc (suc (suc zero))) h = p₃
every_register P p₁ p₂ p₃ p₄ p₅ p₆ p₇ p₈ (suc (suc (suc (suc zero)))) h = p₄
every_register P p₁ p₂ p₃ p₄ p₅ p₆ p₇ p₈ (suc (suc (suc (suc (suc zero))))) h = p₅
every_register P p₁ p₂ p₃ p₄ p₅ p₆ p₇ p₈ (suc (suc (suc (suc (suc (suc zero)))))) h = p₆
every_register P p₁ p₂ p₃ p₄ p₅ p₆ p₇ p₈ (suc (suc (suc (suc (suc (suc (suc zero))))))) h = p₇
every_register P p₁ p₂ p₃ p₄ p₅ p₆ p₇ p₈ (suc (suc (suc (suc (suc (suc (suc (suc zero)))))))) h = p₈
every_register P p₁ p₂ p₃ p₄ p₅ p₆ p₇ p₈ (suc (suc (suc (suc (suc (suc (suc (suc (suc n))))))))) h =
    absurd (omega arith)

pub encoding-reg : (v : ℕ) → IsReg v → encoding v ≡ v - 1
encoding-reg = every_register (λ v. encoding v ≡ v - 1) refl refl refl refl refl refl refl refl

-- The fields of a byte ModRM.
abbrev HasFields : (m mode middle rm : ℕ) → Type 0
HasFields m mode middle rm = (m / 64 ≡ mode) × (m / 8 % 8 ≡ middle) × (m % 8 ≡ rm)

fields_test : (m mode middle rm : ℕ) → Bool
fields_test m mode middle rm = m / 64 == mode && (m / 8 % 8 == middle && m % 8 == rm)

fields_test_sound :
    (m mode middle rm : ℕ) → fields_test m mode middle rm ≡ true → HasFields m mode middle rm
unfolding fields_test
fields_test_sound m mode middle rm h = ground arith

fields_table :
    (f : ℕ → ℕ → ℕ) (mode : ℕ) (x y : ℕ)
    → all_pairs (λ x y. fields_test (f x y) mode x y) ≡ true
    → x < 8
    → y < 8
    → HasFields (f x y) mode x y
fields_table f mode x y table hx hy =
    fields_test_sound (f x y) mode x y
      (all_pairs_sound (λ x y. fields_test (f x y) mode x y) x y table hx hy)

pub direct_fields : (x y : ℕ) → x < 8 → y < 8 → HasFields (or3 0xC0 x y) 3 x y
unfolding all_pairs fields_test
direct_fields x y = fields_table (or3 0xC0) 3 x y refl

pub indirect_fields : (x y : ℕ) → x < 8 → y < 8 → HasFields (bit_or (x * 8) y) 0 x y
unfolding all_pairs fields_test
indirect_fields x y = fields_table (λ x y. bit_or (x * 8) y) 0 x y refl

absolute_test : (x y : ℕ) → Bool
absolute_test x y = fields_test (bit_or 0x05 (x * 8)) 0 x 5

pub absolute_fields : (x : ℕ) → x < 8 → HasFields (bit_or 0x05 (x * 8)) 0 x 5
unfolding all_pairs fields_test absolute_test
absolute_fields x hx =
    fields_test_sound (bit_or 0x05 (x * 8)) 0 x 5
      (all_pairs_sound absolute_test x 0 refl hx (omega arith))

pub le32-imm32 : (v : ℕ) → IsWord v → le32 (imm32 v) ≡ v
le32-imm32 v h = omega arith

-- What stands behind the opcode, for the registers `a` and `b` of the machine.
pub decode-direct :
    (a b : ℕ) (rest : List ℕ) → a < 8 → b < 8 → decode_rm (or3 0xC0 b a) rest ≡ some (reg a)
unfolding decode_rm
decode-direct a b rest ha hb = let f = direct_fields b a hb ha in rw (f.0, f.2) refl

pub decode-indirect :
    (a b : ℕ) (rest : List ℕ)
    → a < 8
    → b < 8
    → a ≢ 4
    → a ≢ 5
    → decode_rm (bit_or (b * 8) a) rest ≡ some (ind a)
unfolding decode_rm
decode-indirect a b rest ha hb h₄ h₅ =
    let f = indirect_fields b a hb ha in rw (f.0, f.2, ne→== a 5 h₅, ne→== a 4 h₄) refl

pub decode-absolute :
    (b v : ℕ) → b < 8 → IsWord v → decode_rm (bit_or 0x05 (b * 8)) (imm32 v) ≡ some (mem v)
unfolding decode_rm
decode-absolute b v hb hv = let f = absolute_fields b hb in rw (f.0, f.2, le32-imm32 v hv) refl
