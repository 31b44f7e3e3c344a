-- ===== src/Fs/Dir.antt =====
-- Directories (delete_n, fs_delete, fs_create_directory and fs_list of source/fs.c).
use nano_s.Common.{
  ℕ, zero, suc, min, true, false, not, List, [], ◌∷◌, take, drop, replicate, ◌==◌, ltb,
  if◌then◌else◌,
}
use nano_s.Ulib.Text.{strncpy}
use nano_s.Fs.Types.{
  Entry, sfs_entryrefs, sfs_namesize, t_dir, unknown_value, error_exists, error_not_found, is_dir,
}
use nano_s.Fs.Monad.{M, pure, fail, stuck, get, ◌>>=◌, ◌>>◌}
use nano_s.Fs.Table.{get_entry_n, write_entry, find_free_entry}
use nano_s.Fs.Path.{path_get_disk, path_parse_disk_parent_name, fs_get_entry, string_to_name, Walk}
use nano_s.Fs.Chain.{zero_entry, get_nref_entry_from_entry, set_entry_time_to_current}
use nano_s.Fs.Refs.{ref_at, add_ref_in_entry, remove_ref_in_entry, if_missing}

abbrev pub for_each : (ℕ → M ℕ) → List ℕ → M ℕ
for_each f [] = pure 0
for_each f (x ∷ xs) = f x >> for_each f xs

-- "Delete entry by index": `depth` bounds the nesting of the calls, `fuel` the chains.
unfoldable pub delete_n : (fuel depth : ℕ) → (disk n : ℕ) → M ℕ
unfolding get_entry_n write_entry remove_ref_in_entry
delete_n fuel zero disk n = stuck
delete_n fuel (suc depth) disk n = do
  e ← get_entry_n disk n
  remove_ref_in_entry fuel disk e.parent n
  if is_dir e
      then for_each (delete_n fuel depth disk) (take (min e.size sfs_entryrefs) e.ref)
      else pure 0
  if e.next == 0 then pure 0 else delete_n fuel depth disk e.next
  write_entry zero_entry disk n
  pure 0

unfoldable pub fs_delete : (fuel depth : ℕ) → List ℕ → M ℕ
unfolding path_get_disk fs_get_entry delete_n
fs_delete fuel depth path = do
  s ← get
  (e, n) ← fs_get_entry path unknown_value unknown_value
  delete_n fuel depth (path_get_disk path s) n

-- "Check destination does not exist": an entry that is found is the error ERROR_EXISTS.
unfoldable pub check_absent : Walk → List ℕ → M (Unit {0})
unfolding fs_get_entry
check_absent w name = do
  found ← if_missing (do fs_get_entry name w.parent w.disk >>= (λ _. pure true)) (pure false)
  if found then fail error_exists else pure tt

unfoldable pub fs_create_directory : (fuel : ℕ) → List ℕ → M ℕ
unfolding path_parse_disk_parent_name string_to_name check_absent find_free_entry write_entry
    set_entry_time_to_current add_ref_in_entry strncpy
fs_create_directory fuel path = do
  w ← path_parse_disk_parent_name path
  let name = string_to_name (drop w.pos path)
  check_absent w name
  n ← find_free_entry w.disk
  let e = record zero_entry {
    name = (strncpy (replicate sfs_namesize 0) name sfs_namesize).1;
    flags = t_dir;
    parent = w.parent;
  }
  write_entry e w.disk n
  set_entry_time_to_current fuel w.disk n
  if n == w.parent then pure 0 else add_ref_in_entry fuel w.disk w.parent n
  pure n

-- The number of items, and the entry with index `n`, which is cleared if there is none.
unfoldable pub fs_list : (path : List ℕ) → (n : ℕ) → M (ℕ × Entry)
unfolding fs_get_entry get_nref_entry_from_entry get_entry_n path_get_disk
fs_list path n = do
  (dir, i) ← fs_get_entry path unknown_value unknown_value
  s ← get
  if not (is_dir dir)
      then fail error_not_found
      else if ltb n dir.size
      then (do
        (d, _) ← get_nref_entry_from_entry dir (path_get_disk path s) i n
        e ← get_entry_n (path_get_disk path s) (ref_at d n)
        pure (d.size, e))
      else pure (dir.size, zero_entry)
