-- ===== src/Fs/File.antt =====
-- Files (fs_read_file, fs_write_file and fs_print_map of source/fs.c).
pub mod Alloc
pub mod Content
use nano_s.Common.{
  ℕ, zero, suc, ◌+◌, ◌-◌, ◌*◌, ◌/◌, ◌%◌, min, ◌&&◌, List, [], ◌++◌, length, take, drop, replicate,
  ◌==◌, ltb, leb, if◌then◌else◌,
}
use nano_s.Ulib.Text.{strncpy}
use nano_s.Fs.Types.{
  Entry, sfs_entryrefs, sfs_namesize, block_size, word, t_file, wf_create, wf_truncate,
  unknown_value, error_io, error_not_found, is_file, is_dir, has_flag,
}
use nano_s.Fs.Monad.{M, pure, fail, get, settle, recode, ◌>>=◌, ◌>>◌}
use nano_s.Fs.Disk.{read_disk, write_disk}
use nano_s.Fs.Table.{get_entry_n, write_entry, find_free_entry, find_free_block, needed_blocks}
use nano_s.Fs.Path.{path_get_disk, path_parse_disk_parent_name, fs_get_entry, string_to_name}
use nano_s.Fs.Chain.{
  zero_entry, get_nref_entry_from_entry, set_entry_refcount, set_entry_size,
  set_entry_time_to_current,
}
use nano_s.Fs.Refs.{ref_at, set_ref, add_ref_in_entry, if_missing}

-- The loop of fs_read_file: `left` bytes from `off` in block `block` on. Each round reads at least
-- one byte, so `left` rounds are enough.
unfoldable pub read_loop : (fuel : ℕ) → ℕ → Entry × ℕ → (block off left : ℕ) → M (List ℕ)
unfolding get_nref_entry_from_entry read_disk
read_loop zero disk (e, n) block off left = pure []
read_loop (suc fuel) disk (e, n) block off left = if left == 0 then pure [] else do
  (t, _) ← get_nref_entry_from_entry e disk n block
  let count = min (block_size - off) left
  bytes ← recode error_io (read_disk disk (ref_at t (block % sfs_entryrefs)) off count)
  rest ← read_loop fuel disk (e, n) (block + 1) 0 (left - count)
  pure (bytes ++ rest)

-- The bytes that are put into `buff`; the value returned is their number.
unfoldable pub fs_read_file : (path : List ℕ) → (offset count : ℕ) → M (List ℕ)
unfolding fs_get_entry read_loop path_get_disk
fs_read_file path offset count = do
  (e, n) ← fs_get_entry path unknown_value unknown_value
  s ← get
  let start = min offset e.size
  let total = min count (e.size - start)
  if is_file e
      then read_loop total (path_get_disk path s) (e, n) (start / block_size) (start % block_size)
          total
      else fail error_not_found

-- An open file: its entry, the index of that and its disk.
pub record Handle : Type 0 where
  pub entry : Entry
  pub nentry : ℕ
  pub disk : ℕ

-- "Create file if needed"
unfoldable pub create_file : (fuel : ℕ) → List ℕ → M Handle
unfolding path_parse_disk_parent_name string_to_name find_free_entry write_entry add_ref_in_entry
    strncpy
create_file fuel path = do
  w ← path_parse_disk_parent_name path
  let name = string_to_name (drop w.pos path)
  n ← find_free_entry w.disk
  let e = record zero_entry {
    parent = w.parent;
    flags = t_file;
    name = (strncpy (replicate sfs_namesize 0) name sfs_namesize).1;
  }
  write_entry e w.disk n
  add_ref_in_entry fuel w.disk w.parent n
  pure (record { entry = e; nentry = n; disk = w.disk })

-- A file that is there; a directory is refused.
unfoldable pub find_file : List ℕ → M Handle
unfolding fs_get_entry path_get_disk
find_file path = do
  (e, n) ← fs_get_entry path unknown_value unknown_value
  s ← get
  pure (record { entry = e; nentry = n; disk = path_get_disk path s })

unfoldable pub open_file : (fuel : ℕ) → List ℕ → (flags : ℕ) → M Handle
unfolding find_file create_file
open_file fuel path flags = do
  h ←
      if_missing (find_file path)
        (if has_flag flags wf_create then create_file fuel path else fail error_not_found)
  if is_dir h.entry then fail error_not_found else pure h

-- The inner loop of the allocation: on to the chained entry with this reference. `block` rounds
-- are enough.
unfoldable pub skip_loop : (fuel : ℕ) → ℕ → Entry × ℕ → (block : ℕ) → M (Entry × ℕ × ℕ)
unfolding get_entry_n write_entry
skip_loop zero disk (t, n) block = pure (t, n, block)
skip_loop (suc fuel) disk (t, n) block = if ltb block sfs_entryrefs then pure (t, n, block) else do
  write_entry t disk n
  t' ← get_entry_n disk t.next
  skip_loop fuel disk (t', t.next) (block - sfs_entryrefs)

-- "Allocate blocks": `more` blocks for the references from `block` on.
unfoldable pub alloc_loop : (more : ℕ) → ℕ → Entry × ℕ → (block : ℕ) → M (Entry × ℕ)
unfolding skip_loop find_free_block
alloc_loop zero disk (t, n) block = pure (t, n)
alloc_loop (suc more) disk (t, n) block = do
  (t', n', block') ← skip_loop block disk (t, n) block
  free ← find_free_block disk
  alloc_loop more disk (set_ref t' block' free, n') (block' + 1)

-- "Resize: grow if needed"
unfoldable pub grow : (fuel : ℕ) → Handle → (size : ℕ) → M Handle
unfolding set_entry_refcount set_entry_size get_entry_n write_entry alloc_loop needed_blocks
grow fuel h size =
    let current = needed_blocks h.entry.size in
    let required = needed_blocks size in
    if ltb h.entry.size size
    then (do
      set_entry_refcount fuel h.disk h.nentry required
      set_entry_size fuel h.disk h.nentry size
      t ← get_entry_n h.disk h.nentry
      (t', n') ← alloc_loop (required - current) h.disk (t, h.nentry) current
      write_entry t' h.disk n'
      e ← get_entry_n h.disk h.nentry
      pure (record h { entry = e }))
    else pure h

-- "Resize: shrink if needed"
unfoldable pub shrink : (fuel : ℕ) → Handle → (size flags : ℕ) → M Handle
unfolding set_entry_refcount set_entry_size get_entry_n needed_blocks
shrink fuel h size flags =
    if ltb size h.entry.size && has_flag flags wf_truncate
    then (do
      set_entry_refcount fuel h.disk h.nentry (needed_blocks size)
      set_entry_size fuel h.disk h.nentry size
      e ← get_entry_n h.disk h.nentry
      pure (record h { entry = e }))
    else pure h

-- On to the chained entry with the current block; `block` rounds are enough. Each entry passed
-- takes its bytes off the offset.
unfoldable pub seek_loop : (fuel : ℕ) → ℕ → Entry → (offset block : ℕ) → M (Entry × ℕ × ℕ)
unfolding get_entry_n
seek_loop zero disk e offset block = pure (e, offset, block)
seek_loop (suc fuel) disk e offset block =
    if ltb block sfs_entryrefs
    then pure (e, offset, block)
    else if e.next == 0
    then fail error_io
    else do
      e' ← get_entry_n disk e.next
      seek_loop fuel disk e' (offset - sfs_entryrefs * block_size) (block - sfs_entryrefs)

-- "Now file has the right size: write data". Each round writes at least one byte.
unfoldable pub write_loop : (fuel : ℕ) → ℕ → Entry → (offset : ℕ) → List ℕ → M (Unit {0})
unfolding seek_loop write_disk needed_blocks
write_loop zero disk e offset buff = pure tt
write_loop (suc fuel) disk e offset buff = if length buff == 0 then pure tt else do
  let to_copy = min (length buff) (block_size - offset % block_size)
  let current = needed_blocks (offset + 1) - 1
  (e', offset', block) ← seek_loop current disk e offset current
  if leb (ref_at e' block) 1 then fail error_io else do
    write_disk disk (ref_at e' block) (offset' % block_size) (take to_copy buff)
    write_loop fuel disk e' (offset' + to_copy) (drop to_copy buff)

-- fs_write_file of `buff` whole; the code of a failed write_disk is returned as it is.
unfoldable pub fs_write_file : (fuel : ℕ) → (buff path : List ℕ) → (offset flags : ℕ) → M ℕ
unfolding open_file grow shrink write_loop set_entry_time_to_current
fs_write_file fuel buff path offset flags = settle (do
  h ← open_file fuel path flags
  let size = (offset + length buff) % word
  h ← grow fuel h size
  h ← shrink fuel h size flags
  write_loop (length buff) h.disk h.entry offset buff
  set_entry_time_to_current fuel h.disk h.nentry
  pure (length buff))

-- fs_print_map without its output: the bytes that the entries of the file stand for.
unfoldable pub map_loop : (fuel : ℕ) → ℕ → Entry × ℕ → (block read : ℕ) → M ℕ
unfolding get_nref_entry_from_entry
map_loop zero disk (e, n) block read = pure read
map_loop (suc fuel) disk (e, n) block read = if leb e.size read then pure read else do
  get_nref_entry_from_entry e disk n block
  map_loop fuel disk (e, n) (block + sfs_entryrefs) (read + sfs_entryrefs * block_size)

unfoldable pub fs_print_map : List ℕ → M ℕ
unfolding fs_get_entry map_loop path_get_disk
fs_print_map path = do
  (e, n) ← fs_get_entry path unknown_value unknown_value
  s ← get
  if is_file e then map_loop e.size (path_get_disk path s) (e, n) 0 0 else fail error_not_found
