-- ===== src/Fs/Frame/ReadOnly.antt =====
-- The queries of source/fs.c change nothing, whatever the disk holds and whichever sector fails.
use nano_s.Common.{ℕ, zero, suc, Bool, true, false, List, [], ◌∷◌, ◌≡◌, refl, if◌then◌else◌, ◌==◌}
use nano_s.Fs.Types.{System, Entry}
use nano_s.Fs.Disk.{
  disk_read_sector, check_disk, read_block, read_disk, io_disk_read, read_tail, read_sectors,
}
use nano_s.Fs.Table
use nano_s.Fs.Table.{
  get_entry_n, read_super, search_from, find_free_entry_from, find_free_entry, find_free_block,
  find_free_block_from, block_in_use,
}
use nano_s.Fs.Path.{walk, Walk, path_parse_disk_parent_name, fs_get_entry}
use nano_s.Fs.Chain.{nref_loop, get_nref_entry_from_entry}
use nano_s.Fs.File.{read_loop, fs_read_file}
use nano_s.Fs.Dir.{fs_list}
use nano_s.Fs.Frame.{ReadsOnly, read_only, fail-ReadsOnly}

if-state :
    {A : Type 0} (b : Bool) (x y : A × System) (s : System)
    → x.1 ≡ s
    → y.1 ≡ s
    → (if b then x else y).1 ≡ s
if-state true x y s hx hy = hx
if-state false x y s hx hy = hy

pub disk_read_sector-ReadsOnly : (disk n : ℕ) → ReadsOnly (disk_read_sector disk n)
unfolding disk_read_sector
disk_read_sector-ReadsOnly disk n = record {
  kept = λ s. if-state (s.read_fault disk n == 0) _ _ s refl refl;
}

pub check_disk-ReadsOnly : (disk : ℕ) → ReadsOnly (check_disk disk)
unfolding check_disk
check_disk-ReadsOnly disk = record {
  kept = λ s. if-state ((s.info disk).size == 0) _ _ s refl refl;
}

read_block-ReadsOnly : (disk b : ℕ) → ReadsOnly (read_block disk b)
unfolding read_block
read_block-ReadsOnly disk b = search (read_only, check_disk-ReadsOnly, disk_read_sector-ReadsOnly)

read_super-ReadsOnly : (disk : ℕ) → ReadsOnly (read_super disk)
unfolding read_super
read_super-ReadsOnly disk = search (read_only, read_block-ReadsOnly)

pub get_entry_n-ReadsOnly : (disk n : ℕ) → ReadsOnly (get_entry_n disk n)
unfolding get_entry_n
get_entry_n-ReadsOnly disk n = search (read_only, read_block-ReadsOnly)

search_from-ReadsOnly :
    (disk parent : ℕ) (name : List ℕ) (left n : ℕ) → ReadsOnly (search_from disk parent name left n)
unfolding search_from
search_from-ReadsOnly disk parent name zero n = search (read_only, fail-ReadsOnly)
search_from-ReadsOnly disk parent name (suc left) n =
    search (read_only, get_entry_n-ReadsOnly, search_from-ReadsOnly disk parent name left)

search-ReadsOnly : (disk parent : ℕ) (name : List ℕ) → ReadsOnly (Table.search disk parent name)
unfolding Table.search
search-ReadsOnly disk parent name = search (read_only, read_super-ReadsOnly, search_from-ReadsOnly)

find_free_entry_from-ReadsOnly : (disk left n : ℕ) → ReadsOnly (find_free_entry_from disk left n)
unfolding find_free_entry_from
find_free_entry_from-ReadsOnly disk zero n = search (read_only, fail-ReadsOnly)
find_free_entry_from-ReadsOnly disk (suc left) n =
    search (read_only, get_entry_n-ReadsOnly, find_free_entry_from-ReadsOnly disk left)

pub find_free_entry-ReadsOnly : (disk : ℕ) → ReadsOnly (find_free_entry disk)
unfolding find_free_entry
find_free_entry-ReadsOnly disk =
    search (read_only, read_super-ReadsOnly, find_free_entry_from-ReadsOnly)

block_in_use-ReadsOnly : (disk block left n : ℕ) → ReadsOnly (block_in_use disk block left n)
unfolding block_in_use
block_in_use-ReadsOnly disk block zero n = search (read_only, fail-ReadsOnly)
block_in_use-ReadsOnly disk block (suc left) n =
    search (read_only, get_entry_n-ReadsOnly, block_in_use-ReadsOnly disk block left)

find_free_block_from-ReadsOnly :
    (disk nentries left block : ℕ) → ReadsOnly (find_free_block_from disk nentries left block)
unfolding find_free_block_from
find_free_block_from-ReadsOnly disk nentries zero block = search (read_only, fail-ReadsOnly)
find_free_block_from-ReadsOnly disk nentries (suc left) block =
    search (read_only, block_in_use-ReadsOnly, find_free_block_from-ReadsOnly disk nentries left)

pub find_free_block-ReadsOnly : (disk : ℕ) → ReadsOnly (find_free_block disk)
unfolding find_free_block
find_free_block-ReadsOnly disk =
    search (read_only, read_super-ReadsOnly, find_free_block_from-ReadsOnly)

walk-ReadsOnly :
    (fuel : ℕ) (first : Bool) (rest : List ℕ) (at : ℕ) (w : Walk)
    → ReadsOnly (walk fuel first rest at w)
unfolding walk
walk-ReadsOnly zero first rest at w = search (read_only, fail-ReadsOnly)
walk-ReadsOnly (suc fuel) first [] at w = search (read_only, fail-ReadsOnly)
walk-ReadsOnly (suc fuel) first (c ∷ cs) at w =
    search (read_only, search-ReadsOnly, walk-ReadsOnly fuel false) depth 8

pub path_parse-ReadsOnly : (path : List ℕ) → ReadsOnly (path_parse_disk_parent_name path)
unfolding path_parse_disk_parent_name
path_parse-ReadsOnly path = search (read_only, walk-ReadsOnly)

pub fs_get_entry-ReadsOnly :
    (path : List ℕ) (parent disk : ℕ) → ReadsOnly (fs_get_entry path parent disk)
unfolding fs_get_entry
fs_get_entry-ReadsOnly path parent disk = search (read_only, path_parse-ReadsOnly, search-ReadsOnly)

nref_loop-ReadsOnly :
    (fuel disk : ℕ) (e : Entry × ℕ) (nref : ℕ) → ReadsOnly (nref_loop fuel disk e nref)
unfolding nref_loop
nref_loop-ReadsOnly zero disk (e, n) nref = search (read_only, fail-ReadsOnly)
nref_loop-ReadsOnly (suc fuel) disk (e, n) nref =
    search (read_only, get_entry_n-ReadsOnly, nref_loop-ReadsOnly fuel disk)

pub get_nref-ReadsOnly :
    (e : Entry) (disk n nref : ℕ) → ReadsOnly (get_nref_entry_from_entry e disk n nref)
unfolding get_nref_entry_from_entry
get_nref-ReadsOnly e disk n nref = nref_loop-ReadsOnly nref disk (e, n) nref

read_sectors-ReadsOnly : (n disk sector : ℕ) → ReadsOnly (read_sectors n disk sector)
unfolding read_sectors
read_sectors-ReadsOnly zero disk sector = search (read_only, fail-ReadsOnly)
read_sectors-ReadsOnly (suc n) disk sector =
    search (read_only, disk_read_sector-ReadsOnly, read_sectors-ReadsOnly n)

read_tail-ReadsOnly : (disk sector size : ℕ) → ReadsOnly (read_tail disk sector size)
unfolding read_tail
read_tail-ReadsOnly disk sector size =
    search (read_only, disk_read_sector-ReadsOnly, read_sectors-ReadsOnly)

read_disk-ReadsOnly : (disk block offset size : ℕ) → ReadsOnly (read_disk disk block offset size)
unfolding read_disk io_disk_read
read_disk-ReadsOnly disk block offset size =
    search (read_only, check_disk-ReadsOnly, disk_read_sector-ReadsOnly, read_tail-ReadsOnly) depth
      8

read_loop-ReadsOnly :
    (fuel disk : ℕ) (e : Entry × ℕ) (block off left : ℕ)
    → ReadsOnly (read_loop fuel disk e block off left)
unfolding read_loop
read_loop-ReadsOnly zero disk (e, n) block off left = search (read_only, fail-ReadsOnly)
read_loop-ReadsOnly (suc fuel) disk (e, n) block off left =
    search
      (read_only, get_nref-ReadsOnly, read_disk-ReadsOnly, read_loop-ReadsOnly fuel disk (e, n))
      depth 8

fs_read_file-ReadsOnly :
    (path : List ℕ) (offset count : ℕ) → ReadsOnly (fs_read_file path offset count)
unfolding fs_read_file
fs_read_file-ReadsOnly path offset count =
    search (read_only, fs_get_entry-ReadsOnly, read_loop-ReadsOnly)

fs_list-ReadsOnly : (path : List ℕ) (n : ℕ) → ReadsOnly (fs_list path n)
unfolding fs_list
fs_list-ReadsOnly path n =
    search (read_only, fs_get_entry-ReadsOnly, get_nref-ReadsOnly, get_entry_n-ReadsOnly) depth 8

-- Whatever the state of the disks and whichever sectors fail, a look-up of a path, a read of a file
-- and a listing of a directory end in the state in which they began.
pub queries-ReadsOnly :
    (path : List ℕ) (parent disk offset count n : ℕ)
    → ReadsOnly (fs_get_entry path parent disk)
      × ReadsOnly (fs_read_file path offset count)
      × ReadsOnly (fs_list path n)
queries-ReadsOnly path parent disk offset count n = (
  fs_get_entry-ReadsOnly path parent disk,
  fs_read_file-ReadsOnly path offset count,
  fs_list-ReadsOnly path n,
)
