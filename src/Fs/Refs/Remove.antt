-- ===== src/Fs/Refs/Remove.antt =====
-- The invariant of the loop of remove_ref_in_entry of source/fs.c, for a directory that fits one
-- entry.
pub mod Loop
pub mod Result
use nano_s.Common.{
  ℕ, zero, suc, ◌+◌, ◌-◌, ◌%◌, ◌≤◌, ◌<◌, ◌≡◌, ◌≢◌, refl, sym, subst, ap, ◌∙◌, Bool, true, false,
  not, ◌&&◌, ◌||◌, List, [], ◌∷◌, ◌++◌, take, length, get_or, set, length-set, length-append,
  get_or-set_self, get_or-set_ne, ◌==◌, ltb, if◌then◌else◌, min, arith, lt→ltb, le→ltb, ne→==,
  eq→==, ==→eq, ==→ne, Bool-cases, inl, inr, append_assoc,
}
use nano_s.Fs.Types.{Entry, System, sfs_entryrefs, is_dir, is_file}
use nano_s.Fs.Monad.{Res, ok, M}
use nano_s.Fs.Disk.Sectors.{Healthy}
use nano_s.Fs.Table.{get_entry_n, write_entry}
use nano_s.Fs.Table.Access.{
  entry_at, table_limit, put_entry, put_entry-same, put_entry-other, put_entry-Healthy,
  get_entry_n-ok, write_entry-ok,
}
use nano_s.Fs.Chain.{
  zero_entry, clear_refs, first_unused, set_entry_refcount, set_entry_size, get_entry_refcount,
}
use nano_s.Fs.Refs.{set_ref, ref_at, Removal, turn, shift, removal_loop, remove_ref_in_entry}
use nano_s.Fs.Refs.Single.{set_entry_refcount-single, set_entry_size-single, dir_fits}
use nano_s.Fs.Refs.Items.{items, take-set, IsDirectory}

-- The value is in the list.
abbrev pub contains : ℕ → List ℕ → Bool
contains v [] = false
contains v (x ∷ xs) = x == v || contains v xs

-- The list without the first occurrence of the value.
abbrev pub remove_first : ℕ → List ℕ → List ℕ
remove_first v [] = []
remove_first v (x ∷ xs) = if x == v then xs else x ∷ remove_first v xs

pub contains-append :
    (v : ℕ) (xs : List ℕ) (y : ℕ) → contains v (xs ++ (y ∷ [])) ≡ (contains v xs || y == v)
contains-append v [] y = elim (Bool-cases (y == v)) [ inl e ↦ rw e | inr e ↦ rw e ]
contains-append v (x ∷ xs) y = elim (Bool-cases (x == v)) [
  | inl e ↦ rw e
  | inr e ↦ rw e (contains-append v xs y)
]

remove_first-append :
    (v : ℕ) (xs ys : List ℕ)
    → contains v xs ≡ true
    → remove_first v (xs ++ ys) ≡ remove_first v xs ++ ys
remove_first-append v [] ys h = absurd (ground arith)
remove_first-append v (x ∷ xs) ys h = elim (Bool-cases (x == v)) [
  | inl e ↦ rw e
  | inr e ↦ rw e (ap (◌∷◌ x) (remove_first-append v xs ys (rw e at h)))
]

remove_first-last :
    (v : ℕ) (xs : List ℕ) (y : ℕ)
    → contains v xs ≡ false
    → y ≡ v
    → remove_first v (xs ++ (y ∷ [])) ≡ xs
remove_first-last v [] y h e = rw (eq→== y v e)
remove_first-last v (x ∷ xs) y h e = elim (Bool-cases (x == v)) [
  | inl t ↦ absurd (ground arith)
  | inr t ↦ rw t (ap (◌∷◌ x) (remove_first-last v xs y (rw t at h) e))
]

pub length-remove_first :
    (v : ℕ) (xs : List ℕ) → contains v xs ≡ true → length (remove_first v xs) + 1 ≡ length xs
length-remove_first v [] h = absurd (ground arith)
length-remove_first v (x ∷ xs) h = elim (Bool-cases (x == v)) [
  | inl e ↦ rw e (omega arith)
  | inr e ↦ rw e (omega (arith, length-remove_first v xs (rw e at h)))
]

pub take-suc :
    (k : ℕ) (xs : List ℕ) → k < length xs → take (suc k) xs ≡ take k xs ++ (get_or xs k 0 ∷ [])
take-suc k [] h = absurd (omega arith)
take-suc zero (x ∷ xs) h = refl
take-suc (suc k) (x ∷ xs) h = ap (◌∷◌ x) (take-suc k xs (omega arith))

-- Where the loop stands after `r` references of a directory with the references `xs`.
pub record Inv (e : Entry) (ref r : ℕ) (found : Bool) (ys : List ℕ) : Type 0 where
  pub full : length ys ≡ sfs_entryrefs
  pub ahead : (k : ℕ) → r ≤ k → get_or ys k 0 ≡ get_or e.ref k 0
  pub before : found ≡ contains ref (take r e.ref)
  pub unfound : found ≡ false → ys ≡ e.ref
  pub shifted :
      found ≡ true → take r ys ≡ remove_first ref (take r e.ref) ++ (get_or e.ref r 0 ∷ [])

pub get_or-past : (xs : List ℕ) (k : ℕ) → length xs ≤ k → get_or xs k 0 ≡ 0
get_or-past [] k h = refl
get_or-past (x ∷ xs) zero h = absurd (omega arith)
get_or-past (x ∷ xs) (suc k) h = get_or-past xs k (omega arith)

-- A step that has found the value before, one that finds it, and one that does not.
pub Inv-again :
    (e : Entry) (ref r v : ℕ) (ys : List ℕ)
    → length e.ref ≡ sfs_entryrefs
    → r < sfs_entryrefs
    → v ≡ get_or e.ref (suc r) 0
    → Inv e ref r true ys
    → Inv e ref (suc r) true (set ys r v)
Inv-again e ref r v ys full small next i = record {
  full = length-set ys r v ∙ i.full;
  ahead = λ k h. get_or-set_ne ys r k v 0 (omega arith) ∙ i.ahead k (omega arith);
  before = rw (take-suc r e.ref (omega arith), contains-append, ← i.before) refl;
  unfound = λ h. absurd (ground arith);
  shifted = λ h.
      take-set r ys v (omega (arith, i.full))
      ∙ rw
          (
            i.shifted refl,
            next,
            take-suc r e.ref (omega arith),
            remove_first-append ref (take r e.ref) (get_or e.ref r 0 ∷ []) (sym i.before),
          )
          refl;
}

pub Inv-found :
    (e : Entry) (ref r v : ℕ) (ys : List ℕ)
    → length e.ref ≡ sfs_entryrefs
    → r < sfs_entryrefs
    → v ≡ get_or e.ref (suc r) 0
    → get_or e.ref r 0 ≡ ref
    → Inv e ref r false ys
    → Inv e ref (suc r) true (set ys r v)
Inv-found e ref r v ys full small next this i = record {
  full = length-set ys r v ∙ i.full;
  ahead = λ k h. get_or-set_ne ys r k v 0 (omega arith) ∙ i.ahead k (omega arith);
  before = rw (take-suc r e.ref (omega arith), contains-append, ← i.before, eq→== _ _ this) refl;
  unfound = λ h. absurd (ground arith);
  shifted = λ h.
      take-set r ys v (omega (arith, i.full))
      ∙ rw
          (
            i.unfound refl,
            next,
            take-suc r e.ref (omega arith),
            remove_first-last ref (take r e.ref) (get_or e.ref r 0) (sym i.before) this,
          )
          refl;
}

pub Inv-missed :
    (e : Entry) (ref r : ℕ) (ys : List ℕ)
    → length e.ref ≡ sfs_entryrefs
    → r < sfs_entryrefs
    → (get_or e.ref r 0 == ref) ≡ false
    → Inv e ref r false ys
    → Inv e ref (suc r) false ys
Inv-missed e ref r ys full small other i = record {
  full = i.full;
  ahead = λ k h. i.ahead k (omega arith);
  before = rw (take-suc r e.ref (omega arith), contains-append, ← i.before, other) refl;
  unfound = i.unfound;
  shifted = λ h. absurd (ground arith);
}
