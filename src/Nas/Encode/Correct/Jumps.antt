-- ===== src/Nas/Encode/Correct/Jumps.antt =====
-- The targets of the jumps that encode_instruction of source/programs/nas.c writes.
use nano_s.Common.{ℕ, ◌+◌, ◌%◌, ◌<◌, ◌≡◌, sym, arith, Bool-cases, inl, inr, ltb}
use nano_s.Ulib.Text.{sub32}
use nano_s.Nas.{word}
use nano_s.Nas.Encode.{imm32}
use nano_s.Nas.Encode.Decode.{le32, sign_extend}
use nano_s.Nas.Encode.Correct.Registers.{IsWord, le32-imm32}

-- The distance from the next instruction fits in a signed byte.
abbrev pub InReach : (address target : ℕ) → Type 0
InReach address target = (k : ℕ) × (k < 256) × (target ≡ (address + 2 + sign_extend k) % word)

-- The processor jumps to the target.
pub long_target :
    (g o a : ℕ)
    → g < word
    → o + 5 < word
    → IsWord a
    → (g + o + 5 + le32 (imm32 (sub32 (sub32 a g) ((o + 5) % word)))) % word ≡ a
long_target g o a hg ho ha =
    rw (le32-imm32 (sub32 (sub32 a g) ((o + 5) % word)) (omega arith)) (omega arith)

short_byte :
    (g o a k : ℕ)
    → g < word
    → o + 5 < word
    → k < 256
    → a ≡ (g + o + 2 + sign_extend k) % word
    → sub32 (sub32 a g) ((o + 1 + 1) % word) % 256 ≡ k
short_byte g o a k hg ho hk e = elim (Bool-cases (ltb k 128)) [
  | inl low ↦ omega (arith, rw low at e)
  | inr high ↦ omega (arith, rw high at e)
]

pub short_target :
    (g o a : ℕ)
    → g < word
    → o + 5 < word
    → InReach (g + o) a
    → (g + o + 2 + sign_extend (sub32 (sub32 a g) ((o + 1 + 1) % word) % 256)) % word ≡ a
short_target g o a hg ho (k, hk, e) = rw (short_byte g o a k hg ho hk e) (sym e)
