-- ===== src/Fs/Table/Blocks.antt =====
-- What find_free_block returns.
use nano_s.Common.{
  List, [], ◌∷◌, ne→==, min, bit_and, length, get_or, ◌*◌, ℕ, zero, suc, ◌+◌, ◌≤◌, ◌<◌, ◌≡◌, ◌≢◌,
  refl, Bool, true, false, ◌==◌, arith, Bool-cases, inl, inr, ==→eq, ==→ne,
}
use nano_s.Fs.Types.{Entry, System, sfs_entryrefs, error_no_space}
use nano_s.Fs.Monad.{Res, ok, err, spin}
use nano_s.Fs.Table.{
  find_free_block, find_free_block_from, block_in_use, uses_block, has_ref, needed_blocks,
  first_data_block,
}
use nano_s.Fs.Disk.Sectors.{Healthy}
use nano_s.Fs.Table.Access.{entry_at, super_of, table_limit, get_entry_n-ok, read_super-ok}
use nano_s.Fs.Table.Search.{skip_eq}

-- The entry is a file, and the block holds a byte of it: a reference to it stands where one of the
-- bytes of the file, 512 in each block, is.
abbrev pub Refers : Entry → (block : ℕ) → Type 0
Refers e block =
    (bit_and e.flags 0x02 ≢ 0)
    × (i : ℕ) × (i < 120)
    × (i * 512 < e.size)
    × (i < length e.ref)
    × (get_or e.ref i 0 ≡ block)

-- Some entry of the table refers to the block.
abbrev pub IsReferenced : System → ℕ → (nentries block : ℕ) → Type 0
IsReferenced s disk nentries block = (n : ℕ) × (n < nentries) × Refers (entry_at s disk n) block

-- What find_free_block tells of the blocks from `lo` on, below `hi`.
abbrev pub FreeBlock : System → (disk nentries lo hi : ℕ) → Res ℕ → Type 0
FreeBlock s disk nentries lo hi (ok b) =
    (lo ≤ b)
    × (b < hi)
    × ((n : ℕ) → n < nentries → Refers (entry_at s disk n) b → ⊥)
    × ((m : ℕ) → lo ≤ m → m < b → IsReferenced s disk nentries m)
FreeBlock s disk nentries lo hi (err c) =
    (c ≡ error_no_space) × ((m : ℕ) → lo ≤ m → m < hi → IsReferenced s disk nentries m)
FreeBlock s disk nentries lo hi spin = ⊥

has_ref-true :
    (block n : ℕ) (refs : List ℕ)
    → has_ref block n refs ≡ true
    → (i : ℕ) × (i < n) × (i < length refs) × (get_or refs i 0 ≡ block)
unfolding has_ref
has_ref-true block zero refs h = absurd (cc)
has_ref-true block (suc n) [] h = absurd (cc)
has_ref-true block (suc n) (r ∷ refs) h = elim (Bool-cases (r == block)) [
  | inl e ↦ (0, omega arith, omega arith, ==→eq r block e)
  | inr ne ↦
      let (i, low, inside, same) = has_ref-true block n refs (rw ne at h) in
      (suc i, omega arith, omega arith, same)
]

has_ref-false :
    (block n : ℕ) (refs : List ℕ)
    → has_ref block n refs ≡ false
    → (i : ℕ) → i < n
    → i < length refs
    → get_or refs i 0 ≢ block
unfolding has_ref
has_ref-false block zero refs h i low inside = absurd (omega arith)
has_ref-false block (suc n) [] h i low inside = absurd (omega arith)
has_ref-false block (suc n) (r ∷ refs) h zero low inside = elim (Bool-cases (r == block)) [
  | inl e ↦ absurd (ground arith)
  | inr ne ↦ ==→ne r block ne
]
has_ref-false block (suc n) (r ∷ refs) h (suc i) low inside = elim (Bool-cases (r == block)) [
  | inl e ↦ absurd (ground arith)
  | inr ne ↦ has_ref-false block n refs (rw ne at h) i (omega arith) (omega arith)
]

-- The blocks that needed_blocks counts are those with a byte of the file.
block_of_size :
    (size i : ℕ)
    → (i < min (needed_blocks size) sfs_entryrefs → (i < 120) × (i * 512 < size))
      × (i < 120 → i * 512 < size → i < min (needed_blocks size) sfs_entryrefs)
unfolding needed_blocks
block_of_size size i = (λ h. ground arith, λ a b. ground arith)

uses_block-Refers : (block : ℕ) (e : Entry) → uses_block block e ≡ true → Refers e block
unfolding uses_block
uses_block-Refers block e h = elim (Bool-cases (bit_and e.flags 0x02 == 0)) [
  | inl none ↦ absurd (ground arith)
  | inr file ↦
      let (i, low, inside, same) =
        has_ref-true block (min (needed_blocks e.size) sfs_entryrefs) e.ref (rw file at h) in
      let (few, within) = (block_of_size e.size i).0 low in
      (==→ne (bit_and e.flags 0x02) 0 file, i, few, within, inside, same)
]

uses_block-not_Refers : (block : ℕ) (e : Entry) → uses_block block e ≡ false → Refers e block → ⊥
unfolding uses_block
uses_block-not_Refers block e h (file, i, few, within, inside, same) =
    has_ref-false block (min (needed_blocks e.size) sfs_entryrefs) e.ref
      (rw (ne→== (bit_and e.flags 0x02) 0 file) at h) i ((block_of_size e.size i).1 few within)
      inside same

skip-IsReferenced :
    (s : System) (disk nentries n m : ℕ)
    → IsReferenced s disk nentries n
    → (n ≢ m → IsReferenced s disk nentries m)
    → IsReferenced s disk nentries m
skip-IsReferenced s disk nentries n m used f = elim (Bool-cases (n == m)) [
  | inl e ↦ rw (← ==→eq n m e) used
  | inr e ↦ f (==→ne n m e)
]

FreeBlock-suc :
    (s : System) (disk nentries lo hi : ℕ) (r : Res ℕ)
    → IsReferenced s disk nentries lo
    → FreeBlock s disk nentries (lo + 1) hi r
    → FreeBlock s disk nentries lo hi r
FreeBlock-suc s disk nentries lo hi (ok b) used (x, y, z, f) = (
  omega arith,
  y,
  z,
  λ m l u. skip-IsReferenced s disk nentries lo m used (λ ne. f m (omega arith) u),
)
FreeBlock-suc s disk nentries lo hi (err c) used (e, f) =
    (e, λ m l u. skip-IsReferenced s disk nentries lo m used (λ ne. f m (omega arith) u))
FreeBlock-suc s disk nentries lo hi spin used h = h

module _ {s : System} {disk : ℕ} (h : Healthy s disk) where
  -- The walk along the table for a block: whether an entry refers to it.
  block_in_use_lem :
      (block left n hi : ℕ)
      → n + left ≡ hi
      → hi ≤ table_limit
      → (b : Bool) × (block_in_use disk block left n s ≡ (ok b, s))
        × (b ≡ true → (m : ℕ) × (m < hi) × (uses_block block (entry_at s disk m) ≡ true))
        × (b ≡ false → (m : ℕ) → n ≤ m → m < hi → uses_block block (entry_at s disk m) ≡ false)
  unfolding block_in_use
  block_in_use_lem block zero n hi e small = (false, refl, λ x. cc, λ x m l u. absurd (omega arith))
  block_in_use_lem block (suc left) n hi e small =
      let rest = block_in_use_lem block left (n + 1) hi (omega arith) small in
      rw (get_entry_n-ok h n (omega arith))
        (elim (Bool-cases (uses_block block (entry_at s disk n))) [
          | inl used ↦ rw used (true, refl, λ x. (n, omega arith, used), λ x. cc)
          | inr free ↦ rw free (
            rest.0,
            rest.1,
            rest.2,
            λ x m l u.
                skip_eq (λ k. uses_block block (entry_at s disk k)) n m free
                  (λ ne. rest.3 x m (omega arith) u),
          )
        ])

  referenced :
      {block hi : ℕ}
      → (m : ℕ) × (m < hi) × (uses_block block (entry_at s disk m) ≡ true)
      → IsReferenced s disk hi block
  referenced {block} (m, below, used) = (m, below, uses_block-Refers block (entry_at s disk m) used)

  find_free_block_from-FreeBlock :
      (count left lo hi : ℕ)
      → lo + left ≡ hi
      → count ≤ table_limit
      → FreeBlock s disk count lo hi (find_free_block_from disk count left lo s).0
        × ((find_free_block_from disk count left lo s).1 ≡ s)
  unfolding find_free_block_from
  find_free_block_from-FreeBlock count zero lo hi e small =
      ((refl, λ m l u. absurd (omega arith)), refl)
  find_free_block_from-FreeBlock count (suc left) lo hi e small =
      let rest = find_free_block_from-FreeBlock count left (lo + 1) hi (omega arith) small in
      let walked = block_in_use_lem lo count 0 count (omega arith) small in
      rw walked.1 (elim (Bool-cases walked.0) [
        | inl used ↦
            rw used (FreeBlock-suc s disk count lo hi _ (referenced (walked.2 used)) rest.0, rest.1)
        | inr free ↦ rw free (
          (
            omega arith,
            omega arith,
            λ n u. uses_block-not_Refers lo (entry_at s disk n) (walked.3 free n (omega arith) u),
            λ m l u. absurd (omega arith),
          ),
          refl,
        )
      ])

  -- On a disk none of whose sectors fail, with a table of at most 2^22 entries within the size of the
  -- file system, find_free_block returns the first block behind the superblock and the table, which
  -- has one block for each entry, and below the size of the file system to which no file of the
  -- table refers, or ERROR_NO_SPACE exactly when a file refers to each of them; it changes nothing.
  pub find_free_block-FreeBlock :
      (super_of s disk).nentries ≤ table_limit
      → 2 + (super_of s disk).nentries ≤ (super_of s disk).size
      → FreeBlock s disk
          (super_of s disk).nentries
          (2 + (super_of s disk).nentries)
          (super_of s disk).size
          (find_free_block disk s).0
        × ((find_free_block disk s).1 ≡ s)
  unfolding find_free_block
  find_free_block-FreeBlock small fits =
      let first : first_data_block (super_of s disk) ≡ 2 + (super_of s disk).nentries =
        omega arith in
      rw (read_super-ok h, first)
        (find_free_block_from-FreeBlock (super_of s disk).nentries _
          (2 + (super_of s disk).nentries) (super_of s disk).size (omega arith) small)
