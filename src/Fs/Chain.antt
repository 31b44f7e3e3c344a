-- ===== src/Fs/Chain.antt =====
-- Chained entries (get_nref_entry_from_entry, set_entry_time_to_current, set_entry_refcount,
-- set_entry_size and get_entry_refcount of source/fs.c). A loop along a chain takes fuel: `next`
-- fields on a disk may form a cycle, on which the code does not return.
use nano_s.Common.{
  ℕ, zero, suc, ◌+◌, ◌-◌, ◌*◌, ◌/◌, ◌%◌, min, not, ◌&&◌, ◌||◌, List, [], ◌∷◌, replicate, ◌==◌, ltb,
  if◌then◌else◌,
}
use nano_s.Fs.Types.{
  Entry, Time, sfs_entryrefs, sfs_namesize, block_size, error_io, error_not_found, is_file, is_dir,
}
use nano_s.Fs.Monad.{M, ok, pure, fail, stuck, ◌>>=◌, ◌>>◌}
use nano_s.Fs.Table.{get_entry_n, write_entry, find_free_entry, needed_blocks}
use nano_s.Fs.Time.{fs_systime_to_fstime}

-- `memset(&entry, 0, sizeof(entry))`
abbrev pub zero_entry : Entry
zero_entry = record {
  flags = 0;
  name = replicate sfs_namesize 0;
  time = 0;
  size = 0;
  parent = 0;
  next = 0;
  ref = replicate sfs_entryrefs 0;
}

-- The loop: each round takes SFS_ENTRYREFS off `nref`, so `nref` rounds are enough.
unfoldable pub nref_loop : (fuel : ℕ) → ℕ → Entry × ℕ → (nref : ℕ) → M (Entry × ℕ)
unfolding get_entry_n
nref_loop zero disk (e, n) nref = pure (e, n)
nref_loop (suc fuel) disk (e, n) nref =
    if ltb nref sfs_entryrefs
    then pure (e, n)
    else if e.next == 0
    then fail error_not_found
    else do e' ← get_entry_n disk e.next; nref_loop fuel disk (e', e.next) (nref - sfs_entryrefs)

unfoldable pub get_nref_entry_from_entry : Entry → (disk nentry nref : ℕ) → M (Entry × ℕ)
unfolding nref_loop
get_nref_entry_from_entry e disk nentry nref = nref_loop nref disk (e, nentry) nref

-- get_datetime: one reading of the clock.
abbrev pub get_datetime : M Time
get_datetime s = (ok (s.clock s.ticks), record s { ticks = s.ticks + 1 })

unfoldable pub set_time_loop : (fuel : ℕ) → ℕ → (fstime nentry : ℕ) → M ℕ
unfolding get_entry_n write_entry
set_time_loop zero disk fstime nentry = stuck
set_time_loop (suc fuel) disk fstime nentry = do
  e ← get_entry_n disk nentry
  write_entry (record e { time = fstime }) disk nentry
  if nentry == e.next && not (nentry == 0)
      then fail error_io
      else if e.next == 0
      then pure 0
      else set_time_loop fuel disk fstime e.next

unfoldable pub set_entry_time_to_current : (fuel : ℕ) → ℕ → ℕ → M ℕ
unfolding set_time_loop fs_systime_to_fstime
set_entry_time_to_current fuel disk nentry = do
  now ← get_datetime
  set_time_loop fuel disk (fs_systime_to_fstime now) nentry

-- What is left of a size behind one entry of this kind.
unfoldable pub size_behind : Entry → ℕ → ℕ
size_behind e size =
    if is_file e
    then size - min size (sfs_entryrefs * block_size)
    else if is_dir e
    then size - min size sfs_entryrefs
    else size

unfoldable pub set_entry_size : (fuel : ℕ) → ℕ → (nentry size : ℕ) → M ℕ
unfolding get_entry_n write_entry size_behind
set_entry_size zero disk nentry size = stuck
set_entry_size (suc fuel) disk nentry size = do
  e ← get_entry_n disk nentry
  let left = size_behind e size
  write_entry (record e { size = size }) disk nentry
  if ltb 0 left && e.next == 0 || left == 0 && not (e.next == 0)
      then fail error_io
      else if e.next == 0
      then pure 0
      else set_entry_size fuel disk e.next left

unfoldable pub get_entry_refcount : Entry → ℕ
unfolding needed_blocks
get_entry_refcount e = if is_file e then needed_blocks e.size else if is_dir e then e.size else 0

-- The number of entries that `refcount` references take.
unfoldable pub needed_entries : ℕ → ℕ
needed_entries refcount =
    if refcount % sfs_entryrefs == 0 then refcount / sfs_entryrefs else refcount / sfs_entryrefs + 1

-- A new entry at the end of the chain: like the last one, with no size and no references.
unfoldable pub extend_chain : ℕ → Entry × ℕ → M (Entry × ℕ)
unfolding find_free_entry write_entry
extend_chain disk (e, n) = do
  free ← find_free_entry disk
  write_entry (record e { next = free }) disk n
  let new = record e { parent = n; next = 0; size = 0; ref = replicate sfs_entryrefs 0 }
  write_entry new disk free
  pure (new, free)

-- "Advance to the last chained entry, create if needed": `more` entries behind this one.
unfoldable pub advance_chain : (more : ℕ) → ℕ → Entry × ℕ → M (Entry × ℕ)
unfolding get_entry_n extend_chain
advance_chain zero disk (e, n) = pure (e, n)
advance_chain (suc more) disk (e, n) =
    if e.next == 0
    then (extend_chain disk (e, n) >>= advance_chain more disk)
    else (do e' ← get_entry_n disk e.next; advance_chain more disk (e', e.next))

-- "Delete remaining chained entries"
unfoldable pub delete_rest : (fuel : ℕ) → ℕ → (next : ℕ) → M ℕ
unfolding get_entry_n write_entry
delete_rest zero disk next = stuck
delete_rest (suc fuel) disk next = do
  e ← get_entry_n disk next
  write_entry zero_entry disk next
  if e.next == 0 then pure 0 else delete_rest fuel disk e.next

-- `min(SFS_ENTRYREFS-1,refcount)%SFS_ENTRYREFS`, the first reference that is cleared.
abbrev pub first_unused : ℕ → ℕ
first_unused refcount = min (sfs_entryrefs - 1) refcount % sfs_entryrefs

-- The references from index `i` on set to 0.
unfoldable pub clear_refs : ℕ → List ℕ → List ℕ
clear_refs i [] = []
clear_refs zero (r ∷ refs) = 0 ∷ clear_refs zero refs
clear_refs (suc i) (r ∷ refs) = r ∷ clear_refs i refs

unfoldable pub set_entry_refcount : (fuel : ℕ) → ℕ → (nentry refcount : ℕ) → M ℕ
unfolding get_entry_n write_entry needed_entries advance_chain delete_rest clear_refs
set_entry_refcount fuel disk nentry refcount = do
  e ← get_entry_n disk nentry
  (last, n) ← advance_chain (needed_entries refcount - 1) disk (e, nentry)
  let kept = record last { ref = clear_refs (first_unused refcount) last.ref }
  write_entry kept disk n
  if kept.next == 0
      then pure 0
      else do write_entry (record kept { next = 0 }) disk n; delete_rest fuel disk kept.next
