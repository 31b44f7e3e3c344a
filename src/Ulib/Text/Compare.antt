-- ===== src/Ulib/Text/Compare.antt =====
-- strcmp of source/ulib/ulib.c as the test for the same string.
use nano_s.Common.{
  ℕ, length, ◌^◌, ◌<◌, ◌≡◌, ◌≢◌, ◌↔◌, refl, sym, ap, ap₂, ◌∙◌, false, List, [], ◌∷◌, ◌==◌, arith,
  Bool-cases, inl, inr, ==→eq, ==→ne, eq→==, ne→==,
}
use nano_s.Ulib.Text.{cstr, char_to_uint, sub32, head_or_zero, strcmp}

-- Each element is a byte.
abbrev pub AreBytes : List ℕ → Type 0
AreBytes [] = Unit {0}
AreBytes (c ∷ s) = (c < 256) × AreBytes s

sub32-zero : (a b : ℕ) → a < 2 ^ 32 → b < 2 ^ 32 → sub32 a b ≡ 0 → a ≡ b
sub32-zero a b ha hb h = omega arith

sub32_self : (a : ℕ) → a < 2 ^ 32 → sub32 a a ≡ 0
sub32_self a h = omega arith

char-bound : (c : ℕ) → c < 256 → char_to_uint c < 2 ^ 32
char-bound c h = ground arith

char-injective : (c d : ℕ) → c < 256 → d < 256 → sub32 (char_to_uint c) (char_to_uint d) ≡ 0 → c ≡ d
char-injective c d hc hd h =
    same c d hc hd
      (sub32-zero (char_to_uint c) (char_to_uint d) (char-bound c hc) (char-bound d hd) h)
  where
    same : (c d : ℕ) → c < 256 → d < 256 → char_to_uint c ≡ char_to_uint d → c ≡ d
    same c d hc hd h = ground arith

-- The first elements of two strings that compare equal.
pub strcmp→cstr : (s t : List ℕ) → AreBytes s → AreBytes t → strcmp s t ≡ 0 → cstr s ≡ cstr t
unfolding strcmp cstr
strcmp→cstr [] [] bs bt h = refl
strcmp→cstr [] (d ∷ t) bs (b, bt) h =
    let z : 0 ≡ d = char-injective 0 d (omega arith) b h in rw (eq→== d 0 (sym z)) refl
strcmp→cstr (c ∷ s) [] (b, bs) bt h =
    let z : c ≡ 0 = char-injective c 0 b (omega arith) h in rw (eq→== c 0 z) refl
strcmp→cstr (c ∷ s) (d ∷ t) (b, bs) (b', bt) h = elim (Bool-cases (c == d)) [
  | inr ne ↦ absurd (==→ne c d ne (char-injective c d b b' (rw ne at h)))
  | inl e ↦ elim (Bool-cases (c == 0)) [
    | inl z ↦ rw (z, eq→== d 0 (sym (==→eq c d e) ∙ ==→eq c 0 z)) refl
    | inr nz ↦
        let nz' : (d == 0) ≡ false = ne→== d 0 (λ z. ==→ne c 0 nz (==→eq c d e ∙ z)) in
        rw (nz, nz') (ap₂ (◌∷◌) (==→eq c d e) (strcmp→cstr s t bs bt (rw (e, nz) at h)))
  ]
]

abbrev tail_of : List ℕ → List ℕ
tail_of [] = []
tail_of (c ∷ s) = s

some≢none : (c : ℕ) (s : List ℕ) → (c ∷ s) ≢ []
some≢none c s e = absurd (omega (arith, ap length e))

pub cstr→strcmp : (s t : List ℕ) → cstr s ≡ cstr t → strcmp s t ≡ 0
unfolding strcmp cstr
cstr→strcmp [] [] h = refl
cstr→strcmp [] (d ∷ t) h = elim (Bool-cases (d == 0)) [
  | inl z ↦ rw (==→eq d 0 z) refl
  | inr nz ↦ absurd (some≢none d (cstr t) (sym (rw nz at h)))
]
cstr→strcmp (c ∷ s) [] h = elim (Bool-cases (c == 0)) [
  | inl z ↦ rw (==→eq c 0 z) refl
  | inr nz ↦ absurd (some≢none c (cstr s) (rw nz at h))
]
cstr→strcmp (c ∷ s) (d ∷ t) h = elim (Bool-cases (c == 0)) [
  | inl z ↦ elim (Bool-cases (d == 0)) [
    | inl z' ↦ rw (==→eq c 0 z, ==→eq d 0 z') refl
    | inr nz' ↦ absurd (some≢none d (cstr t) (sym (rw (z, nz') at h)))
  ]
  | inr nz ↦ elim (Bool-cases (d == 0)) [
    | inl z' ↦ absurd (some≢none c (cstr s) (rw (nz, z') at h))
    | inr nz' ↦
        let h' : (c ∷ cstr s) ≡ (d ∷ cstr t) = rw (nz, nz') at h in
        let e = eq→== c d (ap head_or_zero h') in rw (e, nz) (cstr→strcmp s t (ap tail_of h'))
  ]
]

-- For arrays of bytes strcmp returns 0 exactly when they hold the same string.
pub strcmp-same : (s t : List ℕ) → AreBytes s → AreBytes t → (strcmp s t ≡ 0) ↔ (cstr s ≡ cstr t)
strcmp-same s t bs bt = (strcmp→cstr s t bs bt, cstr→strcmp s t)
