-- ===== src/Nas/Symbols/Lookup.antt =====
-- Symbols that are added to the table of source/programs/nas.c are found again.
use nano_s.Common.{
  ℕ, ◌+◌, ◌≡◌, ◌≢◌, ◌<◌, ◌∙◌, refl, ap, false, List, [], ◌∷◌, length, take_all, ◌==◌, Bool-cases,
  inl, inr, eq→==, arith,
}
use nano_s.Ulib.Text.{cstr, strcmp, strncpy, head_or_zero}
use nano_s.Ulib.Text.Compare.{cstr→strcmp}
use nano_s.Ulib.Text.Copy.{strncpy-truncates}
use nano_s.Nas.{Symbol, name_size}
use nano_s.Fs.Types.{error_not_found}
use nano_s.Nas.Symbols.{
  is_free, find_or_add_from, find_or_add_symbol, find_symbol_from, find_symbol,
}

-- The names are arrays of 8 bytes.
abbrev pub AreSized : List Symbol → Type 0
AreSized [] = Unit {0}
AreSized (x ∷ table) = (length x.name ≡ name_size) × AreSized table

-- A name that fits with its final 0.
abbrev pub IsShort : List ℕ → Type 0
IsShort name = (0 < length (cstr name)) × (length (cstr name) < name_size)

added : Symbol → List ℕ → Symbol
added x name = record x { name = (strncpy x.name name name_size).1 }

added-name :
    (x : Symbol) (name : List ℕ)
    → length x.name ≡ name_size
    → IsShort name
    → cstr (added x name).name ≡ cstr name
unfolding added
added-name x name sized short =
    (strncpy-truncates x.name name name_size (omega arith) (omega arith)).0
    ∙ take_all 7 (cstr name) (omega arith)

not-free : (xs : List ℕ) → 0 < length (cstr xs) → (head_or_zero xs == 0) ≡ false
unfolding cstr
not-free [] h = absurd (omega arith)
not-free (c ∷ xs) h = elim (Bool-cases (c == 0)) [
  | inl z ↦ absurd (omega (arith, rw z at h))
  | inr nz ↦ nz
]

find_or_add_again :
    (s : ℕ) (name : List ℕ) (table : List Symbol)
    → AreSized table
    → IsShort name
    → let r = find_or_add_from s name table in
      r.0 ≢ error_not_found
      → (find_or_add_from s name r.1 ≡ r) × (find_symbol_from s name r.1 ≡ r.0)
unfolding find_or_add_from find_symbol_from
find_or_add_again s name [] sized short found = absurd (found refl)
find_or_add_again s name (x ∷ table) sized short found = elim (Bool-cases (is_free x)) [
  | inl free ↦
      let e = added-name x name sized.0 short in
      let n = not-free (added x name).name (omega (arith, ap length e)) in
      let same =
        eq→== (strcmp (added x name).name name) 0 (cstr→strcmp (added x name).name name e) in
      unfold added in (rw (free, n, same) refl, rw (free, n, same) refl)
  | inr used ↦ elim (Bool-cases (strcmp x.name name == 0)) [
    | inl same ↦ (rw (used, same, used, same) refl, rw (used, same, used, same) refl)
    | inr other ↦
        let ih = find_or_add_again (s + 1) name table sized.1 short (rw (used, other) at found) in
        (
          rw (used, other, used, other) (ap (λ (r : ℕ × List Symbol). (r.0, x ∷ r.1)) ih.0),
          rw (used, other, used, other) ih.1,
        )
  ]
]

-- For a name of 1 to 7 characters: if find_or_add_symbol finds it or has room for it, it finds it
-- again in the new table, at the same index and with no further change, and so does find_symbol.
pub find_or_add_symbol-found :
    (name : List ℕ) (table : List Symbol)
    → AreSized table
    → IsShort name
    → let r = find_or_add_symbol name table in
      r.0 ≢ error_not_found → (find_or_add_symbol name r.1 ≡ r) × (find_symbol name r.1 ≡ r.0)
unfolding find_or_add_symbol find_symbol
find_or_add_symbol-found name table = find_or_add_again 0 name table
