-- ===== src/Fs/Table/Search.antt =====
-- What find_free_entry and the search of a directory return.
use nano_s.Common.{
  ℕ, zero, suc, ◌+◌, ◌≤◌, ◌<◌, ◌≡◌, ◌≢◌, refl, Bool, true, false, ◌==◌, List, arith, Bool-cases,
  inl, inr, not, eq→==, ne→==, bit_and, ==→eq, ==→ne,
}
use nano_s.Ulib.Text.{cstr, strcmp}
use nano_s.Ulib.Text.Compare.{AreBytes, strcmp→cstr, cstr→strcmp}
use nano_s.Fs.Types.{Entry, System, is_used, error_no_space, error_not_found}
use nano_s.Fs.Monad.{Res, ok, err, spin}
use nano_s.Fs.Table.{find_free_entry, find_free_entry_from, search, search_from, is_named}
use nano_s.Fs.Disk.Sectors.{Healthy}
use nano_s.Fs.Table.Access.{entry_at, super_of, table_limit, get_entry_n-ok, read_super-ok}

-- What a search of the entries with indexes from `lo` on, below `hi`, tells of the entries with a
-- property: the first one, or that there is none.
abbrev pub FirstAt : (ℕ → Bool) → (lo hi : ℕ) → (code : ℕ) → Res ℕ → Type 0
FirstAt p lo hi code (ok n) =
    (lo ≤ n) × (n < hi) × (p n ≡ true) × ((m : ℕ) → lo ≤ m → m < n → p m ≡ false)
FirstAt p lo hi code (err c) = (c ≡ code) × ((m : ℕ) → lo ≤ m → m < hi → p m ≡ false)
FirstAt p lo hi code spin = ⊥

pub skip_eq : (p : ℕ → Bool) (n m : ℕ) → p n ≡ false → (n ≢ m → p m ≡ false) → p m ≡ false
skip_eq p n m pn f = elim (Bool-cases (n == m)) [
  | inl e ↦ rw (← ==→eq n m e) pn
  | inr e ↦ f (==→ne n m e)
]

FirstAt-suc :
    (p : ℕ → Bool) (n hi code : ℕ) (r : Res ℕ)
    → p n ≡ false
    → FirstAt p (n + 1) hi code r
    → FirstAt p n hi code r
FirstAt-suc p n hi code (ok k) pn (a, b, c, f) =
    (omega arith, b, c, λ m l u. skip_eq p n m pn (λ ne. f m (omega arith) u))
FirstAt-suc p n hi code (err c) pn (e, f) =
    (e, λ m l u. skip_eq p n m pn (λ ne. f m (omega arith) u))
FirstAt-suc p n hi code spin pn h = h

FirstAt-here : (p : ℕ → Bool) (n hi code : ℕ) → n < hi → p n ≡ true → FirstAt p n hi code (ok n)
FirstAt-here p n hi code h pn = (omega arith, h, pn, λ m l u. absurd (omega arith))

FirstAt-none : (p : ℕ → Bool) (n hi code : ℕ) → hi ≤ n → FirstAt p n hi code (err code)
FirstAt-none p n hi code h = (refl, λ m l u. absurd (omega arith))

abbrev pub is_free : System → ℕ → ℕ → Bool
is_free s disk n = not (is_used (entry_at s disk n))

abbrev pub index_of : Res (Entry × ℕ) → Res ℕ
index_of (ok (e, n)) = ok n
index_of (err c) = err c
index_of spin = spin

-- The entry returned is the one at the index returned.
abbrev pub IsEntryAt : System → ℕ → Res (Entry × ℕ) → Type 0
IsEntryAt s disk (ok (e, n)) = e ≡ entry_at s disk n
IsEntryAt s disk _ = Unit {0}

-- The entry is in use, as a directory or as a file, in the directory with this index, and its name
-- is this string.
abbrev pub Matches : Entry → (parent : ℕ) → List ℕ → Type 0
Matches e parent name = (bit_and e.flags 0x03 ≢ 0) × (e.parent ≡ parent) × (cstr e.name ≡ cstr name)

-- The result is the first entry that matches, with its index; or no entry does.
abbrev pub FoundAt : System → (disk parent : ℕ) → List ℕ → (nentries : ℕ) → Res (Entry × ℕ) → Type 0
FoundAt s disk parent name nentries (ok (e, n)) =
    (n < nentries)
    × (e ≡ entry_at s disk n)
    × Matches (entry_at s disk n) parent name
    × ((m : ℕ) → m < n → Matches (entry_at s disk m) parent name → ⊥)
FoundAt s disk parent name nentries (err c) =
    (c ≡ error_not_found) × ((m : ℕ) → m < nentries → Matches (entry_at s disk m) parent name → ⊥)
FoundAt s disk parent name nentries spin = ⊥

-- The same by the test of the code.
abbrev FoundBy : System → (disk parent : ℕ) → List ℕ → (lo hi : ℕ) → Res (Entry × ℕ) → Type 0
FoundBy s disk parent name lo hi r =
    FirstAt (λ n. is_named parent name (entry_at s disk n)) lo hi error_not_found (index_of r)
    × IsEntryAt s disk r

is_named-true :
    (parent : ℕ) (name : List ℕ) (e : Entry)
    → AreBytes name
    → AreBytes e.name
    → is_named parent name e ≡ true
    → Matches e parent name
unfolding is_named
is_named-true parent name e b b' h = elim (Bool-cases (bit_and e.flags 0x03 == 0)) [
  | inl free ↦ absurd (cc)
  | inr used ↦ elim (Bool-cases (e.parent == parent)) [
    | inr other ↦ absurd (cc)
    | inl same ↦ elim (Bool-cases (strcmp e.name name == 0)) [
      | inr differs ↦ absurd (cc)
      | inl equal ↦ (
        ==→ne (bit_and e.flags 0x03) 0 used,
        ==→eq e.parent parent same,
        strcmp→cstr e.name name b' b (==→eq (strcmp e.name name) 0 equal),
      )
    ]
  ]
]

is_named-false :
    (parent : ℕ) (name : List ℕ) (e : Entry)
    → is_named parent name e ≡ false
    → Matches e parent name
    → ⊥
unfolding is_named
is_named-false parent name e h (used, same, equal) = absurd (
    cc (
      ne→== (bit_and e.flags 0x03) 0 used,
      eq→== e.parent parent same,
      eq→== (strcmp e.name name) 0 (cstr→strcmp e.name name equal),
    ))

FoundBy-FoundAt :
    (s : System) (disk parent : ℕ) (name : List ℕ) (nentries : ℕ) (r : Res (Entry × ℕ))
    → AreBytes name
    → ((n : ℕ) → n < nentries → AreBytes (entry_at s disk n).name)
    → FoundBy s disk parent name 0 nentries r
    → FoundAt s disk parent name nentries r
FoundBy-FoundAt s disk parent name nentries (ok (e, n)) b bs ((low, high, here, before), same) = (
  high,
  same,
  is_named-true parent name (entry_at s disk n) b (bs n high) here,
  λ m l. is_named-false parent name (entry_at s disk m) (before m (omega arith) l),
)
FoundBy-FoundAt s disk parent name nentries (err c) b bs ((code, none), same) =
    (code, λ m l. is_named-false parent name (entry_at s disk m) (none m (omega arith) l))
FoundBy-FoundAt s disk parent name nentries spin b bs h = h.0

module _ {s : System} {disk : ℕ} (h : Healthy s disk) where
  find_free_entry_from-FirstAt :
      (left n hi : ℕ)
      → n + left ≡ hi
      → hi ≤ table_limit
      → FirstAt (is_free s disk) n hi error_no_space (find_free_entry_from disk left n s).0
        × ((find_free_entry_from disk left n s).1 ≡ s)
  unfolding find_free_entry_from
  find_free_entry_from-FirstAt zero n hi e small = (FirstAt-none _ n hi _ (omega arith), refl)
  find_free_entry_from-FirstAt (suc left) n hi e small =
      let rest = find_free_entry_from-FirstAt left (n + 1) hi (omega arith) small in
      rw (get_entry_n-ok h n (omega arith)) (elim (Bool-cases (is_used (entry_at s disk n))) [
        | inl used ↦ rw used (FirstAt-suc _ n hi error_no_space _ (rw used) rest.0, rest.1)
        | inr free ↦ rw free (FirstAt-here _ n hi error_no_space (omega arith) (rw free), refl)
      ])

  -- On a disk none of whose sectors fail, with a table of at most 2^22 entries, find_free_entry
  -- returns the first free entry of the table, or ERROR_NO_SPACE exactly when every entry is in use;
  -- it changes nothing.
  pub find_free_entry-FirstAt :
      (super_of s disk).nentries ≤ table_limit
      → FirstAt
          (is_free s disk)
          0
          (super_of s disk).nentries
          error_no_space
          (find_free_entry disk s).0
        × ((find_free_entry disk s).1 ≡ s)
  unfolding find_free_entry
  find_free_entry-FirstAt small =
      rw (read_super-ok h) (find_free_entry_from-FirstAt _ 0 _ (omega arith) small)

  search_from-FoundBy :
      (parent : ℕ) (name : List ℕ) (left n hi : ℕ)
      → n + left ≡ hi
      → hi ≤ table_limit
      → FoundBy s disk parent name n hi (search_from disk parent name left n s).0
        × ((search_from disk parent name left n s).1 ≡ s)
  unfolding search_from
  search_from-FoundBy parent name zero n hi e small =
      ((FirstAt-none _ n hi _ (omega arith), tt), refl)
  search_from-FoundBy parent name (suc left) n hi e small =
      let (rest, same) = search_from-FoundBy parent name left (n + 1) hi (omega arith) small in
      rw (get_entry_n-ok h n (omega arith))
        (elim (Bool-cases (is_named parent name (entry_at s disk n))) [
          | inl this ↦
              rw this ((FirstAt-here _ n hi error_not_found (omega arith) this, refl), refl)
          | inr other ↦ rw other ((FirstAt-suc _ n hi error_not_found _ other rest.0, rest.1), same)
        ])

  -- On a disk none of whose sectors fail, with a table of at most 2^22 entries, and where names are
  -- bytes, the search of a directory returns the first entry in use with this parent and this name,
  -- with its index, or ERROR_NOT_FOUND exactly when there is none; it changes nothing.
  pub search-FoundAt :
      (parent : ℕ) (name : List ℕ)
      → (super_of s disk).nentries ≤ table_limit
      → AreBytes name
      → ((n : ℕ) → n < (super_of s disk).nentries → AreBytes (entry_at s disk n).name)
      → FoundAt s disk parent name (super_of s disk).nentries (search disk parent name s).0
        × ((search disk parent name s).1 ≡ s)
  unfolding search
  search-FoundAt parent name small b bs =
      let (by, same) =
        search_from-FoundBy parent name (super_of s disk).nentries 0 (super_of s disk).nentries
          (omega arith) small in
      rw (read_super-ok h) (
        FoundBy-FoundAt s disk parent name (super_of s disk).nentries
            (search_from disk parent name (super_of s disk).nentries 0 s).0 b bs by,
        same,
      )
