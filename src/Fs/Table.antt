-- ===== src/Fs/Table.antt =====
-- The entries table (get_entry_n, write_entry, find_free_entry, find_free_block and the search of
-- fs_get_entry in source/fs.c).
pub mod Access
pub mod Search
pub mod Blocks
use nano_s.Common.{
  ℕ, zero, suc, ◌+◌, ◌-◌, ◌*◌, ◌/◌, ◌%◌, min, Bool, true, false, ◌&&◌, ◌||◌, List, [], ◌∷◌, ◌==◌,
  leb, if◌then◌else◌,
}
use nano_s.Ulib.Text.{strcmp}
use nano_s.Fs.Types.{
  Entry, Superblock, of_entry, block_size, word, entry_size, sfs_entryrefs, error_io, error_any,
  error_not_found, error_no_space, is_used, is_file,
}
use nano_s.Fs.Monad.{M, pure, fail, recode, ◌>>=◌}
use nano_s.Fs.Disk.{read_block, write_block, as_entry, as_super}

-- The block of entry `n`; an entry fills its block, so its offset there is 0.
abbrev pub entry_block : ℕ → ℕ
entry_block n = (2 + n * entry_size % word / block_size) % word

unfoldable pub read_super : ℕ → M Superblock
unfolding read_block as_super
read_super disk = recode error_io (do b ← read_block disk 1; pure (as_super b))

-- The entry, if its index is none of the error codes, which the callers test for.
unfoldable pub get_entry_n : ℕ → ℕ → M Entry
unfolding read_block as_entry
get_entry_n disk n = do
  b ← recode error_io (read_block disk (entry_block n))
  if leb error_any n then fail n else pure (as_entry b)

unfoldable pub write_entry : Entry → ℕ → ℕ → M (Unit {0})
unfolding write_block
write_entry e disk n = recode error_io (write_block disk (entry_block n) (of_entry e))

-- The loop over the table: `left` entries from `n` on.
unfoldable pub find_free_entry_from : ℕ → (left n : ℕ) → M ℕ
unfolding get_entry_n
find_free_entry_from disk zero n = fail error_no_space
find_free_entry_from disk (suc left) n = do
  e ← get_entry_n disk n
  if is_used e then find_free_entry_from disk left (n + 1) else pure n

unfoldable pub find_free_entry : ℕ → M ℕ
unfolding read_super find_free_entry_from
find_free_entry disk = do sb ← read_super disk; find_free_entry_from disk sb.nentries 0

unfoldable pub needed_blocks : ℕ → ℕ
needed_blocks size = if size % block_size == 0 then size / block_size else size / block_size + 1

-- One of the first `n` references is `block`.
unfoldable pub has_ref : ℕ → ℕ → List ℕ → Bool
has_ref block zero refs = false
has_ref block (suc n) [] = false
has_ref block (suc n) (r ∷ refs) = r == block || has_ref block n refs

-- The block is one that this entry refers to.
unfoldable pub uses_block : ℕ → Entry → Bool
unfolding has_ref needed_blocks
uses_block block e = is_file e && has_ref block (min (needed_blocks e.size) sfs_entryrefs) e.ref

unfoldable pub block_in_use : ℕ → ℕ → (left n : ℕ) → M Bool
unfolding get_entry_n uses_block
block_in_use disk block zero n = pure false
block_in_use disk block (suc left) n = do
  e ← get_entry_n disk n
  if uses_block block e then pure true else block_in_use disk block left (n + 1)

unfoldable pub find_free_block_from : ℕ → ℕ → (left block : ℕ) → M ℕ
unfolding block_in_use
find_free_block_from disk nentries zero block = fail error_no_space
find_free_block_from disk nentries (suc left) block = do
  used ← block_in_use disk block nentries 0
  if used then find_free_block_from disk nentries left (block + 1) else pure block

abbrev pub first_data_block : Superblock → ℕ
first_data_block sb = 2 + sb.nentries * entry_size % word / block_size

unfoldable pub find_free_block : ℕ → M ℕ
unfolding read_super find_free_block_from
find_free_block disk = do
  sb ← read_super disk
  find_free_block_from disk sb.nentries (sb.size - first_data_block sb) (first_data_block sb)

-- The entry has this parent and this name.
unfoldable pub is_named : ℕ → List ℕ → Entry → Bool
unfolding strcmp
is_named parent name e = is_used e && (e.parent == parent && strcmp e.name name == 0)

unfoldable pub search_from : ℕ → ℕ → List ℕ → (left n : ℕ) → M (Entry × ℕ)
unfolding get_entry_n is_named
search_from disk parent name zero n = fail error_not_found
search_from disk parent name (suc left) n = do
  e ← get_entry_n disk n
  if is_named parent name e then pure (e, n) else search_from disk parent name left (n + 1)

-- fs_get_entry from the read of the superblock on: the search of one directory.
unfoldable pub search : ℕ → ℕ → List ℕ → M (Entry × ℕ)
unfolding read_super search_from
search disk parent name = do sb ← read_super disk; search_from disk parent name sb.nentries 0
