-- ===== src/Ulib/Text/Copy.antt =====
-- What strncpy and strncat of source/ulib/ulib.c leave in the array.
use nano_s.Common.{
  ℕ, zero, suc, ◌-◌, ◌≤◌, ◌<◌, ◌≡◌, refl, sym, ap, ◌∙◌, false, List, [], ◌∷◌, ◌++◌, take, drop,
  length, length-append, length-take, length-drop, ◌==◌, ltb, arith, Bool-cases, inl, inr, ltb→lt,
  ltb→le,
}
use nano_s.Ulib.Text.{cstr, strlen, copy_loop, strncpy, strncat}

pub strlen-cstr : (s : List ℕ) → strlen s ≡ length (cstr s)
unfolding strlen cstr
strlen-cstr [] = refl
strlen-cstr (c ∷ s) = elim (Bool-cases (c == 0)) [
  | inl e ↦ rw e refl
  | inr e ↦ rw e (ap suc (strlen-cstr s))
]

-- What the loop leaves: the string in the array, how many characters were copied, and an array of
-- the same length.
record Copied (src dst : List ℕ) (room : ℕ) (out : ℕ × List ℕ) : Type 0 where
  string : cstr out.1 ≡ take (room - 1) (cstr src)
  count : out.0 ≡ length (take (room - 1) (cstr src))
  kept : length out.1 ≡ length dst

take-nil : (n : ℕ) → take {A = ℕ} n [] ≡ []
take-nil zero = refl
take-nil (suc n) = refl

-- The loop stops at once.
stop-Copied :
    (src dst : List ℕ) (room d : ℕ)
    → take (room - 1) (cstr src) ≡ []
    → Copied src (d ∷ dst) room (0, 0 ∷ dst)
unfolding cstr
stop-Copied src dst room d e = record { string = sym e; count = ap length (sym e); kept = refl }

-- The loop copies one character.
step-Copied :
    (c d : ℕ) (src dst : List ℕ) (room : ℕ) {out : ℕ × List ℕ}
    → (c == 0) ≡ false
    → 1 < room
    → Copied src dst (room - 1) out
    → Copied (c ∷ src) (d ∷ dst) room (suc out.0, c ∷ out.1)
unfolding cstr
step-Copied c d src dst room nz more r =
    let k : room - 1 ≡ suc (room - 1 - 1) = omega arith in
    record {
      string = rw (nz, k) (ap (◌∷◌ c) r.string);
      count = rw (nz, k) (ap suc r.count);
      kept = ap suc r.kept;
    }

copy_loop-Copied :
    (src dst : List ℕ) (room : ℕ)
    → 0 < room
    → room ≤ length dst
    → Copied src dst room (copy_loop src dst room)
unfolding copy_loop cstr
copy_loop-Copied [] [] room some fits = absurd (omega arith)
copy_loop-Copied [] (d ∷ dst) room some fits = stop-Copied [] dst room d (take-nil (room - 1))
copy_loop-Copied (c ∷ src) [] room some fits = absurd (omega arith)
copy_loop-Copied (c ∷ src) (d ∷ dst) room some fits = elim (Bool-cases (c == 0)) [
  | inl end ↦ rw end (stop-Copied (c ∷ src) dst room d (rw end (take-nil (room - 1))))
  | inr nz ↦ elim (Bool-cases (ltb 1 room)) [
    | inl more ↦
        rw (nz, more)
          (step-Copied c d src dst room nz (ltb→lt 1 room more) (
            copy_loop-Copied src dst (room - 1) (omega (arith, ltb→lt 1 room more))
              (omega (arith, ltb→lt 1 room more))))
    | inr full ↦
        let one : room - 1 ≡ 0 = omega (arith, ltb→le 1 room full) in
        rw (nz, full) (stop-Copied (c ∷ src) dst room d (rw one refl))
  ]
]

-- strncpy into an array of at least n bytes, n not 0, leaves there the source string cut off after
-- n - 1 characters, returns the length of that, and writes nothing past the array.
pub strncpy-truncates :
    (dst src : List ℕ) (n : ℕ)
    → 0 < n
    → n ≤ length dst
    → let out = strncpy dst src n in
      (cstr out.1 ≡ take (n - 1) (cstr src))
      × (out.0 ≡ length (cstr out.1))
      × (length out.1 ≡ length dst)
unfolding strncpy
strncpy-truncates dst src n some fits =
    let r = copy_loop-Copied src dst n some fits in
    (r.string, r.count ∙ ap length (sym r.string), r.kept)

cstr-take_drop : (dst tail : List ℕ) → cstr (take (strlen dst) dst ++ tail) ≡ cstr dst ++ cstr tail
unfolding cstr strlen
cstr-take_drop [] tail = refl
cstr-take_drop (c ∷ dst) tail = elim (Bool-cases (c == 0)) [
  | inl e ↦ rw e refl
  | inr e ↦ rw e (rw e (ap (◌∷◌ c) (cstr-take_drop dst tail)))
]

take-append_more :
    (n : ℕ) (xs ys : List ℕ)
    → length xs < n
    → xs ++ take (n - length xs - 1) ys ≡ take (n - 1) (xs ++ ys)
take-append_more n [] ys h = ap (λ k. take k ys) (omega arith)
take-append_more n (x ∷ xs) ys h =
    let k : n - 1 ≡ suc (n - 1 - 1) = omega arith in
    let j : n - suc (length xs) - 1 ≡ n - 1 - length xs - 1 = omega arith in
    rw (k, j) (ap (◌∷◌ x) (take-append_more (n - 1) xs ys (omega arith)))

-- strncat to a string shorter than n, in an array of at least n bytes, leaves there the two strings
-- after one another cut off after n - 1 characters, returns the length of that, and writes nothing
-- past the array.
strncat-truncates :
    (dst src : List ℕ) (n : ℕ)
    → length (cstr dst) < n
    → n ≤ length dst
    → let out = strncat dst src n in
      (cstr out.1 ≡ take (n - 1) (cstr dst ++ cstr src))
      × (out.0 ≡ length (cstr out.1))
      × (length out.1 ≡ length dst)
unfolding strncat
strncat-truncates dst src n short fits =
    let i = strlen dst in
    let len = strlen-cstr dst in
    let r =
      copy_loop-Copied src (drop i dst) (n - i) (omega arith) (omega (arith, length-drop i dst)) in
    let whole = cstr-take_drop dst (copy_loop src (drop i dst) (n - i)).1 in
    (
      whole ∙ rw (r.string, len) (take-append_more n (cstr dst) (cstr src) short),
      rw (whole, length-append, r.string) (omega (arith, r.count)),
      omega (
        arith,
        length-append (take i dst) (copy_loop src (drop i dst) (n - i)).1,
        r.kept,
        length-take i dst,
        length-drop i dst,
      ),
    )
