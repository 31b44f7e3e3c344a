-- ===== src/Fs/Format.antt =====
-- Disks as a whole (fs_format, fs_init_info and fs_get_info of source/fs.c).
pub mod Layout
pub mod Empty
use nano_s.Common.{
  ℕ, zero, suc, ◌+◌, ◌-◌, ◌*◌, ◌/◌, ◌%◌, min, not, ◌&&◌, List, replicate, Option, none, some, ◌==◌,
  leb, if◌then◌else◌,
}
use nano_s.Ulib.Text.{strncpy}
use nano_s.Fs.Types.{
  Entry, Superblock, of_super, DiskInfo, System, block_size, word, entry_size, max_disk,
  sfs_namesize, sfs_type_id, fs_type_nsfs, fs_type_unknown, t_dir, error_io,
}
use nano_s.Fs.Monad.{M, Res, ok, err, spin, pure, get, recode, ◌>>=◌, ◌>>◌}
use nano_s.Fs.Disk.{read_block, write_block}
use nano_s.Fs.Table.{read_super, get_entry_n, write_entry}
use nano_s.Fs.Path.{root_dir_name, disk_to_string, blocks_to_mb}
use nano_s.Fs.Chain.{zero_entry, set_entry_time_to_current}
use nano_s.Fs.Copy.{join_path, fs_copy}

abbrev pub set_info : ℕ → (ℕ × ℕ) → M (Unit {0})
set_info disk (kind, blocks) s = (
  ok tt,
  record s {
    info =
        λ d. if d == disk then record (s.info d) { fstype = kind; fssize = blocks } else s.info d;
  },
)

-- What a superblock tells of a disk.
abbrev pub kind_of : Superblock → ℕ × ℕ
kind_of sb = if sb.kind == sfs_type_id then (fs_type_nsfs, sb.size) else (fs_type_unknown, 0)

-- A read that fails leaves the disk unknown.
abbrev pub or_unknown_res : Res Superblock × System → Res (ℕ × ℕ) × System
or_unknown_res (ok sb, s) = (ok (kind_of sb), s)
or_unknown_res (err code, s) = (ok (fs_type_unknown, 0), s)
or_unknown_res (spin, s) = (spin, s)

abbrev pub or_unknown : M Superblock → M (ℕ × ℕ)
or_unknown m s = or_unknown_res (m s)

unfoldable pub init_disk : ℕ → M (Unit {0})
unfolding read_super
init_disk disk = do
  s ← get
  found ←
      if (s.info disk).size == 0 then pure (fs_type_unknown, 0) else or_unknown (read_super disk)
  set_info disk found

unfoldable pub init_from : (left disk : ℕ) → M (Unit {0})
unfolding init_disk
init_from zero disk = pure tt
init_from (suc left) disk = init_disk disk >> init_from left (disk + 1)

unfoldable pub fs_init_info : M (Unit {0})
unfolding init_from
fs_init_info = init_from max_disk 0

pub record FsInfo : Type 0 where
  pub name : List ℕ
  pub id : ℕ
  pub fs_type : ℕ
  pub fs_size : ℕ
  pub disk_size : ℕ

-- The loop of fs_get_info: the disks counted so far and the disk chosen, 0xFFFF if none is.
unfoldable pub count_disks : (left i : ℕ) → (disk n j : ℕ) → System → ℕ × ℕ
count_disks zero i disk n j s = (n, j)
count_disks (suc left) i disk n j s =
    let present = not ((s.info i).size == 0) in
    count_disks left (i + 1) disk (if present then n + 1 else n)
      (if present && n == disk then disk else j) s

unfoldable pub fs_get_info : ℕ → System → ℕ × Option FsInfo
unfolding count_disks disk_to_string blocks_to_mb strncpy
fs_get_info disk s =
    let (n, j) = count_disks max_disk 0 disk 0 0xFFFF s in
    if leb max_disk disk
    then (1, none)
    else if not (j == 0xFFFF) && not ((s.info j).size == 0)
    then (
      n,
      some (record {
        name = (strncpy (replicate 4 0) (disk_to_string s j) 4).1;
        id = j;
        fs_type = (s.info j).fstype;
        fs_size = blocks_to_mb (s.info j).fssize;
        disk_size = (s.info j).size;
      }),
    )
    else (n, none)

-- The superblock that fs_format writes.
unfoldable pub new_super : DiskInfo → Superblock
new_super d =
    let size = d.sectors * d.sides * d.cylinders % word in
    let nentries = min (size * block_size % word / 10 / entry_size) 1024 in
    record {
      kind = sfs_type_id;
      size = size;
      nentries = nentries;
      bootstart = 2 + nentries * entry_size / block_size;
    }

abbrev pub root_entry : Entry
root_entry = record zero_entry {
  name = (strncpy (replicate sfs_namesize 0) root_dir_name sfs_namesize).1;
  flags = t_dir;
}

-- "Write empty entries table": `left` entries from `n` on.
unfoldable pub clear_table : ℕ → (left n : ℕ) → M (Unit {0})
unfolding write_entry
clear_table disk zero n = pure tt
clear_table disk (suc left) n = do write_entry zero_entry disk n; clear_table disk left (n + 1)

unfoldable pub fs_format : (fuel depth : ℕ) → ℕ → M ℕ
unfolding read_block write_block new_super write_entry set_entry_time_to_current clear_table
    get_entry_n join_path disk_to_string fs_copy fs_init_info strncpy
fs_format fuel depth disk = do
  s ← get
  boot ← recode error_io (read_block s.system_disk 0)
  recode error_io (write_block disk 0 boot)
  let sb = new_super (s.info disk)
  recode error_io (write_block disk 1 (of_super sb))
  write_entry root_entry disk 0
  set_entry_time_to_current fuel disk 0
  clear_table disk (sb.nentries - 1) 1
  e ← get_entry_n s.system_disk 1
  result ←
      fs_copy fuel depth (join_path 32 (disk_to_string s s.system_disk) e.name)
        (join_path 32 (disk_to_string s disk) e.name)
  fs_init_info
  pure result
