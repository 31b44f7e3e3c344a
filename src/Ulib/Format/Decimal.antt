-- ===== src/Ulib/Format/Decimal.antt =====
-- The round trip of a number through formatstr and stou of source/ulib/ulib.c.
use nano_s.Common.{
  ℕ, zero, suc, ◌+◌, ◌*◌, ◌/◌, ◌%◌, ◌^◌, ◌≤◌, ◌<◌, ◌≡◌, ◌≢◌, refl, ap, ◌∙◌, Bool, true, false, not,
  ◌&&◌, ◌||◌, List, [], ◌∷◌, append-nil, ◌==◌, ltb, arith, Bool-cases, inl, inr, ==→eq, ==→ne,
  ne→==, lt→ltb, le→ltb,
}
use nano_s.Ulib.Text.{codes, stou, stou_loop, digit_value, starts_hex}
use nano_s.Ulib.Format.{number, digit_char, digits, digits_loop, convert, plain, format_from, word}

-- Each character is a decimal digit.
abbrev pub AreDigits : List ℕ → Type 0
AreDigits [] = Unit {0}
AreDigits (c ∷ s) = (48 ≤ c) × (c ≤ 57) × AreDigits s

digit_value-digit_char : (d : ℕ) → d < 10 → digit_value (digit_char d) ≡ d
unfolding digit_value
digit_value-digit_char d h = ground arith

digit_char_nonzero : (d : ℕ) → d < 10 → (digit_char d == 0) ≡ false
digit_char_nonzero d h = ground arith

-- 10 to the power k
abbrev pow10 : ℕ → ℕ
pow10 zero = 1
pow10 (suc k) = 10 * pow10 k

-- One digit read.
read-digit :
    (x d : ℕ) (acc : List ℕ)
    → d < 10
    → x * 10 + d < word
    → stou_loop 10 x (digit_char d ∷ acc) ≡ stou_loop 10 (x * 10 + d) acc
unfolding stou_loop
read-digit x d acc h small =
    let no_wrap : (x * 10 + d) % 2 ^ 32 ≡ x * 10 + d = omega arith in
    rw (digit_char_nonzero d h, digit_value-digit_char d h, no_wrap) refl

-- The loop ends with its first digit, or goes on.
loop-last :
    (fuel v n : ℕ) (acc : List ℕ)
    → (v / 10 == 0) ≡ true
    → digits_loop (suc fuel) 10 0 v n acc ≡ digit_char (v % 10) ∷ acc
unfolding digits_loop
loop-last fuel v n acc last = rw (last, le→ltb (n + 1) 0 (omega arith)) refl

loop-more :
    (fuel v n : ℕ) (acc : List ℕ)
    → (v / 10 == 0) ≡ false
    → n + 1 < 23
    → digits_loop (suc fuel) 10 0 v n acc
      ≡ digits_loop fuel 10 0 (v / 10) (n + 1) (digit_char (v % 10) ∷ acc)
unfolding digits_loop
loop-more fuel v n acc more room = rw (more, lt→ltb (n + 1) 23 room) refl

-- The value that is read from the digits of `v` and what is behind them.
read-digits :
    (fuel k v n : ℕ) (acc : List ℕ)
    → v < word
    → v < pow10 k
    → k < fuel
    → n + k ≤ 23
    → stou_loop 10 0 (digits_loop fuel 10 0 v n acc) ≡ stou_loop 10 v acc
read-digits zero k v n acc b h f m = absurd (omega arith)
read-digits (suc fuel) k v n acc b h f m = elim (Bool-cases (v / 10 == 0)) [
  | inl last ↦
      let whole : 0 * 10 + v % 10 ≡ v = omega (arith, ==→eq (v / 10) 0 last) in
      rw (loop-last fuel v n acc last)
        (read-digit 0 (v % 10) acc (omega arith) (omega arith) ∙ ap (λ x. stou_loop 10 x acc) whole)
  | inr more ↦ step k h f m (==→ne (v / 10) 0 more) more (λ k' h' f' m'.
      read-digits fuel k' (v / 10) (n + 1) (digit_char (v % 10) ∷ acc) (omega arith) h' f' m')
]
  where
    step :
        (k : ℕ)
        → v < pow10 k
        → k < suc fuel
        → n + k ≤ 23
        → v / 10 ≢ 0
        → (v / 10 == 0) ≡ false
        → ((k' : ℕ)
            → v / 10 < pow10 k'
            → k' < fuel
            → n + 1 + k' ≤ 23
            → stou_loop 10 0 (digits_loop fuel 10 0 (v / 10) (n + 1) (digit_char (v % 10) ∷ acc))
              ≡ stou_loop 10 (v / 10) (digit_char (v % 10) ∷ acc))
        → stou_loop 10 0 (digits_loop (suc fuel) 10 0 v n acc) ≡ stou_loop 10 v acc
    step zero h f m ne more rec = absurd (omega arith)
    step (suc zero) h f m ne more rec = absurd (omega arith)
    step (suc (suc k)) h f m ne more rec =
        let whole : v / 10 * 10 + v % 10 ≡ v = omega arith in
        rw (loop-more fuel v n acc more (omega arith)) (
          rec (suc k) (omega arith) (omega arith) (omega arith)
          ∙ read-digit (v / 10) (v % 10) acc (omega arith) (omega arith)
          ∙ ap (λ x. stou_loop 10 x acc) whole)

digit_char_bounds : (d : ℕ) → d < 10 → (48 ≤ digit_char d) × (digit_char d ≤ 57)
digit_char_bounds d h = ground arith

digits_loop-AreDigits :
    (fuel v n : ℕ) (acc : List ℕ) → AreDigits acc → AreDigits (digits_loop fuel 10 0 v n acc)
unfolding digits_loop
digits_loop-AreDigits zero v n acc h = h
digits_loop-AreDigits (suc fuel) v n acc h =
    let (lo, hi) = digit_char_bounds (v % 10) (omega arith) in
    elim (Bool-cases (not (v / 10 == 0) && ltb (n + 1) 23 || ltb (n + 1) 0)) [
      | inl more ↦
          rw more
            (digits_loop-AreDigits fuel (v / 10) (n + 1) (digit_char (v % 10) ∷ acc) (lo, hi, h))
      | inr last ↦ rw last (lo, hi, h)
    ]

AreDigits-decimal : (s : List ℕ) → AreDigits s → starts_hex s ≡ false
AreDigits-decimal [] h = refl
AreDigits-decimal (a ∷ []) h = refl
AreDigits-decimal (a ∷ b ∷ s) (lo, hi, (lo', hi', h)) =
    rw (ne→== b b'x' (omega arith)) (and-false (a == b'0'))
  where
    and-false : (x : Bool) → (x && false) ≡ false
    and-false true = refl
    and-false false = refl

-- What formatstr puts out for a number of 32 bits by the conversion %u is read back by stou.
pub stou-format_from :
    (v : ℕ) → v < word → stou (format_from plain (codes "%u") (number v ∷ []) 0) ≡ v
unfolding stou format_from convert digits
stou-format_from v h =
    rw
      (
        append-nil (digits_loop 24 10 0 v 0 []),
        AreDigits-decimal (digits_loop 24 10 0 v 0 []) (digits_loop-AreDigits 24 v 0 [] tt),
      )
      (read-digits 24 10 v 0 [] h (omega arith) (omega arith) (omega arith))
