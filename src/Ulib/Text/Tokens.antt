-- ===== src/Ulib/Text/Tokens.antt =====
-- What strtok of source/ulib/ulib.c splits a string into.
use nano_s.Common.{
  length, false, arith, suc, ℕ, ◌≡◌, ◌≢◌, ◌⊎◌, refl, sym, ap, ◌∙◌, List, [], ◌∷◌, ◌++◌, replicate,
  ◌==◌, Bool-cases, inl, inr, ==→eq, ==→ne, ne→==,
}
use nano_s.Ulib.Text.{cstr, Token, scan_token, strtok, in_token, skip_one}

-- No character of the list is this one.
abbrev pub Lacks : ℕ → List ℕ → Type 0
Lacks d [] = Unit {0}
Lacks d (c ∷ s) = (c ≢ d) × Lacks d s

-- The token and the rest make up the string behind the delimiters that are skipped: there is a
-- delimiter between them, or the token is all of it. The token is empty only where the string holds
-- nothing but delimiters.
abbrev pub IsSplit : ℕ → List ℕ → Token → Type 0
IsSplit d str t =
    Lacks d t.token
    × ((str ≡ replicate t.skipped d ++ (t.token ++ (d ∷ t.rest)))
        ⊎ ((str ≡ replicate t.skipped d ++ t.token) × (t.rest ≡ [])))
    × ((t.token ≢ []) ⊎ (str ≡ replicate t.skipped d))

-- The same behind the delimiters that are skipped.
IsScan : ℕ → List ℕ → Token → Type 0
IsScan d str t =
    (t.skipped ≡ 0)
    × Lacks d t.token
    × ((str ≡ t.token ++ (d ∷ t.rest)) ⊎ ((str ≡ t.token) × (t.rest ≡ [])))

longer-IsScan :
    (d c : ℕ) (str : List ℕ) (t : Token)
    → c ≢ d
    → IsScan d str t
    → IsScan d (c ∷ str) (in_token c t)
unfolding IsScan
longer-IsScan d c str t ne (z, lacks, inl e) = (z, (ne, lacks), inl (ap (◌∷◌ c) e))
longer-IsScan d c str t ne (z, lacks, inr (e, last)) = (z, (ne, lacks), inr (ap (◌∷◌ c) e, last))

scan_token-IsScan : (d : ℕ) (s : List ℕ) → IsScan d (cstr s) (scan_token d s)
unfolding scan_token cstr IsScan
scan_token-IsScan d [] = (refl, tt, inr (refl, refl))
scan_token-IsScan d (c ∷ s) = elim (Bool-cases (c == 0)) [
  | inl z ↦ rw z (refl, tt, inr (refl, refl))
  | inr nz ↦ elim (Bool-cases (c == d)) [
    | inl e ↦ rw (nz, e) (refl, tt, inl (ap (λ x. x ∷ cstr s) (==→eq c d e)))
    | inr ne ↦
        rw (nz, ne)
          (longer-IsScan d c (cstr s) (scan_token d s) (==→ne c d ne) (scan_token-IsScan d s))
  ]
]

scan-IsSplit :
    (d : ℕ) (str : List ℕ) (t : Token)
    → (t.token ≢ []) ⊎ (str ≡ [])
    → IsScan d str t
    → IsSplit d str t
unfolding IsScan
scan-IsSplit d str t some (z, lacks, inl e) = (lacks, inl (rw z e), rw z some)
scan-IsSplit d str t some (z, lacks, inr (e, last)) = (lacks, inr (rw z e, last), rw z some)

skip_none :
    (d : ℕ) (str : List ℕ) (t : Token)
    → (t.token ≢ []) ⊎ (str ≡ replicate t.skipped d)
    → (t.token ≢ []) ⊎ ((d ∷ str) ≡ replicate (suc t.skipped) d)
skip_none d str t (inl some) = inl some
skip_none d str t (inr none) = inr (ap (◌∷◌ d) none)

skip-IsSplit :
    (d : ℕ) (str : List ℕ) (t : Token) → IsSplit d str t → IsSplit d (d ∷ str) (skip_one t)
skip-IsSplit d str t (lacks, inl e, none) = (lacks, inl (ap (◌∷◌ d) e), skip_none d str t none)
skip-IsSplit d str t (lacks, inr (e, last), none) =
    (lacks, inr (ap (◌∷◌ d) e, last), skip_none d str t none)

-- A scan from a character other than the delimiter finds a token, or the end.
scan_token-some :
    (d c : ℕ) (s : List ℕ)
    → (c == d) ≡ false
    → ((scan_token d (c ∷ s)).token ≢ []) ⊎ (cstr (c ∷ s) ≡ [])
unfolding scan_token cstr
scan_token-some d c s ne = elim (Bool-cases (c == 0)) [
  | inl z ↦ rw z (inr refl)
  | inr nz ↦ rw (nz, ne) (inl (λ e. absurd (omega (arith, ap length e))))
]

-- For a delimiter other than 0, strtok skips all the delimiters at the start of the string and splits
-- the rest into the token, which holds no delimiter and is empty only where nothing but delimiters
-- was there, and what is behind the next delimiter; if there is none, the token is all the rest and
-- nothing is left.
pub strtok-IsSplit : (d : ℕ) (s : List ℕ) → d ≢ 0 → IsSplit d (cstr s) (strtok d s)
unfolding strtok cstr
strtok-IsSplit d [] nz = (tt, inr (refl, refl), inr refl)
strtok-IsSplit d (c ∷ s) nz = elim (Bool-cases (c == d)) [
  | inl e ↦
      let same = ==→eq c d e in
      rw (e, ne→== c 0 (λ z. nz (sym same ∙ z)), same)
        (skip-IsSplit d (cstr s) (strtok d s) (strtok-IsSplit d s nz))
  | inr ne ↦
      let scan =
        scan-IsSplit d (cstr (c ∷ s)) (scan_token d (c ∷ s)) (scan_token-some d c s ne)
          (scan_token-IsScan d (c ∷ s)) in
      rw ne (rw ne at scan)
]
