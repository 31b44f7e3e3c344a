-- ===== src/Fs/Copy.antt =====
-- Copies and moves (fs_copy and fs_move of source/fs.c).
use nano_s.Common.{
  ℕ, zero, suc, ◌+◌, List, [], ◌∷◌, ◌++◌, length, take, drop, replicate, ◌==◌, if◌then◌else◌,
}
use nano_s.Ulib.Text.{cstr, strncpy, strncat}
use nano_s.Fs.Types.{
  Entry, sfs_namesize, block_size, unknown_value, error_not_found, wf_create, is_dir, is_file,
}
use nano_s.Fs.Monad.{M, pure, fail, stuck, get, ◌>>=◌, ◌>>◌}
use nano_s.Fs.Table.{get_entry_n, write_entry}
use nano_s.Fs.Path.{
  path_get_disk, path_parse_disk_parent_name, fs_get_entry, string_to_name, path_separator, Walk,
}
use nano_s.Fs.Refs.{ref_at, add_ref_in_entry, remove_ref_in_entry}
use nano_s.Fs.File.{fs_read_file, fs_write_file}
use nano_s.Fs.Dir.{check_absent, delete_n, fs_create_directory}

-- The destination path once string_to_name has cleaned its name in place.
abbrev pub clean_path : Walk → List ℕ → List ℕ
clean_path w path = take w.pos path ++ string_to_name (drop w.pos path)

-- "just read and write the full file": a round for each block of the source.
unfoldable pub copy_file : (rounds fuel : ℕ) → (src dst : List ℕ) → (offset : ℕ) → M ℕ
unfolding fs_read_file fs_write_file
copy_file zero fuel src dst offset = stuck
copy_file (suc rounds) fuel src dst offset = do
  bytes ← fs_read_file src offset block_size
  if length bytes == 0 then pure 0 else do
    fs_write_file fuel bytes dst offset wf_create
    copy_file rounds fuel src dst (offset + length bytes)

-- `path/name` in a buffer of `n` bytes.
unfoldable pub join_path : (n : ℕ) → (path name : List ℕ) → List ℕ
unfolding strncpy strncat cstr
join_path n path name =
    let copied = (strncpy (replicate n 0) path n).1 in
    let slash = (strncat copied (path_separator ∷ []) n).1 in cstr (strncat slash name n).1

abbrev pub for_each_ref : (ℕ → M ℕ) → Entry → (count i : ℕ) → M ℕ
for_each_ref f e zero i = pure 0
for_each_ref f e (suc count) i = f (ref_at e i) >> for_each_ref f e count (i + 1)

unfoldable pub fs_copy : (fuel depth : ℕ) → (srcpath dstpath : List ℕ) → M ℕ
unfolding path_parse_disk_parent_name string_to_name check_absent path_get_disk fs_get_entry
    copy_file fs_create_directory get_entry_n join_path
fs_copy fuel zero srcpath dstpath = stuck
fs_copy fuel (suc depth) srcpath dstpath = do
  w ← path_parse_disk_parent_name dstpath
  let dst = clean_path w dstpath
  check_absent w (drop w.pos dst)
  s ← get
  (e, n) ← fs_get_entry srcpath unknown_value unknown_value
  if is_file e
      then copy_file fuel fuel srcpath dst 0
      else if is_dir e
      then (do
        fs_create_directory fuel dst
        for_each_ref
            (λ ref. do
              t ← get_entry_n (path_get_disk srcpath s) ref
              fs_copy fuel depth (join_path 64 srcpath t.name) (join_path 64 dst t.name))
            e e.size 0)
      else fail error_not_found

-- The two ways of fs_move, once the source `e` has been found at index `n`: between disks a copy
-- and a delete, on one disk a change of the parent and the name.
unfoldable pub move_between : (fuel depth : ℕ) → (src dst : List ℕ) → (srcdisk n : ℕ) → M ℕ
unfolding fs_copy delete_n
move_between fuel depth src dst srcdisk n = do
  fs_copy fuel depth src dst
  delete_n fuel depth srcdisk n

unfoldable pub move_within :
    (fuel : ℕ) → (w : Walk) → (name : List ℕ) → (srcdisk : ℕ) → Entry × ℕ → M ℕ
unfolding remove_ref_in_entry write_entry add_ref_in_entry strncpy
move_within fuel w name srcdisk (e, n) = do
  remove_ref_in_entry fuel srcdisk e.parent n
  write_entry
      (record e {
        name = (strncpy (replicate sfs_namesize 0) name sfs_namesize).1;
        parent = w.parent;
      })
      w.disk n
  add_ref_in_entry fuel w.disk w.parent n

unfoldable pub fs_move : (fuel depth : ℕ) → (srcpath dstpath : List ℕ) → M ℕ
unfolding path_parse_disk_parent_name string_to_name check_absent path_get_disk fs_get_entry
    move_between move_within
fs_move fuel depth srcpath dstpath = do
  w ← path_parse_disk_parent_name dstpath
  let dst = clean_path w dstpath
  check_absent w (drop w.pos dst)
  s ← get
  let srcdisk = path_get_disk srcpath s
  (e, n) ← fs_get_entry srcpath unknown_value unknown_value
  if srcdisk == w.disk
      then move_within fuel w (drop w.pos dst) srcdisk (e, n)
      else move_between fuel depth srcpath dst srcdisk n
  pure n
