-- ===== src/Fs/Refs/Items.antt =====
-- A directory as the list of its items (add_ref_in_entry and set_entry_refcount of source/fs.c), for
-- a directory that fits one entry.
use nano_s.Common.{
  ℕ, zero, suc, ◌+◌, ◌%◌, ◌≤◌, ◌<◌, ◌≡◌, ◌≢◌, refl, subst, sym, ap, ◌∙◌, true, false, List, [], ◌∷◌,
  ◌++◌, take, length, get_or, set, length-set, ltb, if◌then◌else◌, min, arith, lt→ltb, le→ltb,
}
use nano_s.Fs.Types.{Entry, System, sfs_entryrefs, is_dir, is_file}
use nano_s.Fs.Monad.{ok}
use nano_s.Fs.Disk.Sectors.{Healthy}
use nano_s.Fs.Table.Access.{entry_at, table_limit, put_entry, put_entry-same, put_entry-other}
use nano_s.Fs.Chain.{clear_refs, first_unused, set_entry_refcount}
use nano_s.Fs.Refs.{set_ref, ref_at, add_ref_in_entry}
use nano_s.Fs.Refs.Single.{with_ref, add_ref-single, set_entry_refcount-single}

-- The indexes of the entries in a directory.
abbrev pub items : Entry → List ℕ
items e = take e.size e.ref

pub take-set :
    (k : ℕ) (xs : List ℕ) (v : ℕ)
    → k < length xs
    → take (suc k) (set xs k v) ≡ take k xs ++ (v ∷ [])
take-set k [] v h = absurd (omega arith)
take-set zero (x ∷ xs) v h = refl
take-set (suc k) (x ∷ xs) v h = ap (◌∷◌ x) (take-set k xs v (omega arith))

pub get_or-clear_refs :
    (i j : ℕ) (xs : List ℕ) → get_or (clear_refs i xs) j 0 ≡ (if ltb j i then get_or xs j 0 else 0)
unfolding clear_refs
get_or-clear_refs i j [] = ground arith
get_or-clear_refs zero zero (x ∷ xs) = refl
get_or-clear_refs zero (suc j) (x ∷ xs) =
    get_or-clear_refs zero j xs ∙ rw (le→ltb j 0 (omega arith), le→ltb (suc j) 0 (omega arith)) refl
get_or-clear_refs (suc i) zero (x ∷ xs) = rw (lt→ltb 0 (suc i) (omega arith)) refl
get_or-clear_refs (suc i) (suc j) (x ∷ xs) = get_or-clear_refs i j xs ∙ (ground arith)

-- A directory in one entry: the entry is marked as one, with no chained entries and as many items
-- as references at the most.
pub record IsDirectory (e : Entry) : Type 0 where
  pub dir : is_dir e ≡ true
  pub no_file : is_file e ≡ false
  pub alone : e.next ≡ 0
  pub full : length e.ref ≡ sfs_entryrefs
  pub room : e.size ≤ sfs_entryrefs

with_ref-appends :
    (e : Entry) (ref : ℕ)
    → length e.ref ≡ sfs_entryrefs
    → e.size < sfs_entryrefs
    → items (with_ref e ref) ≡ items e ++ (ref ∷ [])
with_ref-appends e ref full small =
    let i : e.size % 120 ≡ e.size = omega arith in
    let next : e.size + 1 ≡ suc e.size = omega arith in
    rw (i, next, take-set e.size e.ref ref (omega arith)) refl

with_ref-IsDirectory :
    (e : Entry) (ref : ℕ) → IsDirectory e → e.size < sfs_entryrefs → IsDirectory (with_ref e ref)
with_ref-IsDirectory e ref d small = record {
  dir = d.dir;
  no_file = d.no_file;
  alone = d.alone;
  full = length-set e.ref (e.size % sfs_entryrefs) ref ∙ d.full;
  room = omega arith;
}

module _ {s : System} {disk : ℕ} (h : Healthy s disk) (n : ℕ) (inside : n < table_limit) where
  -- add_ref_in_entry, for a directory with less than 120 items, succeeds and appends the reference
  -- to the list of its items; the entry stays a directory in one entry, and every other entry of
  -- the table is as it was.
  pub add_ref_in_entry-appends :
      (fuel ref : ℕ)
      → IsDirectory (entry_at s disk n)
      → (entry_at s disk n).size < sfs_entryrefs
      → let out = add_ref_in_entry (suc fuel) disk n ref s in
        (out.0 ≡ ok 0)
        × (items (entry_at out.1 disk n) ≡ items (entry_at s disk n) ++ (ref ∷ []))
        × IsDirectory (entry_at out.1 disk n)
        × ((m : ℕ) → m ≢ n → entry_at out.1 disk m ≡ entry_at s disk m)
  add_ref_in_entry-appends fuel ref d small =
      let e = entry_at s disk n in
      let s1 = put_entry s disk n (set_ref e (e.size % sfs_entryrefs) ref) in
      let now = put_entry-same s1 disk n (with_ref e ref) in
      rw (add_ref-single h n inside d.alone fuel ref d.dir d.no_file small) (
        refl,
        ap items now ∙ with_ref-appends e ref d.full small,
        subst IsDirectory (sym now) (with_ref-IsDirectory e ref d small),
        λ m ne.
            put_entry-other s1 disk n m (with_ref e ref) ne
            ∙ put_entry-other s disk n m (set_ref e (e.size % sfs_entryrefs) ref) ne,
      )

  -- set_entry_refcount, for an entry with no chained entries and at most 120 references to keep,
  -- succeeds with any fuel, keeps the references below `min 119 refcount` and sets all others to 0.
  -- So with 120 references to keep, the last one is lost.
  pub set_entry_refcount-keeps :
      (fuel refcount j : ℕ)
      → (entry_at s disk n).next ≡ 0
      → refcount ≤ sfs_entryrefs
      → let out = set_entry_refcount fuel disk n refcount s in
        (out.0 ≡ ok 0)
        × (ref_at (entry_at out.1 disk n) j
            ≡ (if ltb j (min 119 refcount) then ref_at (entry_at s disk n) j else 0))
  set_entry_refcount-keeps fuel refcount j alone small =
      let e = entry_at s disk n in
      let first : first_unused refcount ≡ min 119 refcount = omega arith in
      rw (set_entry_refcount-single h n inside alone fuel refcount small) (
        refl,
        ap (λ x. ref_at x j)
              (put_entry-same s disk n
                (record e { ref = clear_refs (first_unused refcount) e.ref }))
            ∙ get_or-clear_refs (first_unused refcount) j e.ref
            ∙ rw first refl,
      )
