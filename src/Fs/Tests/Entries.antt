-- ===== src/Fs/Tests/Entries.antt =====
-- The theorems on the entries table at concrete inputs.
use nano_s.Common.{ℕ, zero, suc, ◌<◌, ◌≡◌, ◌≢◌, refl, [], ◌∷◌, replicate, arith}
use nano_s.Ulib.Text.{codes, strncpy}
use nano_s.Ulib.Text.Compare.{AreBytes}
use nano_s.Fs.Types.{System, Entry, error_no_space}
use nano_s.Fs.Monad.{ok}
use nano_s.Fs.Disk.{as_entry, as_super}
use nano_s.Fs.Disk.Sectors.{Healthy}
use nano_s.Fs.Table
use nano_s.Fs.Table.{find_free_entry, find_free_block, first_data_block}
use nano_s.Fs.Table.Access.{entry_at, put_entry, put_entry-Healthy}
use nano_s.Fs.Table.Search.{FirstAt, FoundAt, is_free, find_free_entry-FirstAt, search-FoundAt}
use nano_s.Fs.Table.Blocks.{FreeBlock, find_free_block-FreeBlock}
use nano_s.Fs.Chain.{set_entry_refcount}
use nano_s.Fs.Refs.{ref_at, set_ref, add_ref_in_entry, remove_ref_in_entry}
use nano_s.Fs.Refs.Items.{items, IsDirectory, add_ref_in_entry-appends, set_entry_refcount-keeps}
use nano_s.Fs.Refs.Remove.Result.{remove_ref_in_entry-removes}
use nano_s.Fs.Refs.Overflow.{add_ref_in_entry-full}
use nano_s.Fs.Format.{root_entry}
use nano_s.Fs.Sample.{sample}
use nano_s.Fs.Tests.{sample-Healthy}

-- A directory with three items at index 1.
abbrev three : Entry
three = record root_entry { size = 3; ref = 2 ∷ 3 ∷ 2 ∷ replicate 117 0 }

abbrev with_three : System
with_three = put_entry sample 0 1 three

with_three-Healthy : Healthy with_three 0
with_three-Healthy = put_entry-Healthy sample-Healthy 1 three

three-IsDirectory : IsDirectory three
three-IsDirectory = record {
  dir = refl;
  no_file = refl;
  alone = refl;
  full = refl;
  room = omega arith;
}

add_ref_in_entry-appends_example :
    let out = add_ref_in_entry 1 0 1 9 with_three in
    (out.0 ≡ ok 0)
    × (items (entry_at out.1 0 1) ≡ 2 ∷ 3 ∷ 2 ∷ 9 ∷ [])
    × IsDirectory (entry_at out.1 0 1)
    × ((m : ℕ) → m ≢ 1 → entry_at out.1 0 m ≡ entry_at with_three 0 m)
unfolding as_entry as_super
add_ref_in_entry-appends_example =
    add_ref_in_entry-appends with_three-Healthy 1 (omega arith) 0 9 three-IsDirectory (omega arith)

remove_ref_in_entry-removes_example :
    let out = remove_ref_in_entry 4 0 1 2 with_three in
    (out.0 ≡ ok 0)
    × (items (entry_at out.1 0 1) ≡ 3 ∷ 2 ∷ [])
    × IsDirectory (entry_at out.1 0 1)
    × ((m : ℕ) → m ≢ 1 → entry_at out.1 0 m ≡ entry_at with_three 0 m)
unfolding as_entry as_super
remove_ref_in_entry-removes_example =
    remove_ref_in_entry-removes with_three-Healthy 1 (omega arith) 3 2 three-IsDirectory
      (omega arith)

-- 120 references to keep, and the last one is lost.
abbrev full_dir : Entry
full_dir = record root_entry { size = 120; ref = replicate 120 3 }

abbrev with_full : System
with_full = put_entry sample 0 1 full_dir

with_full-Healthy : Healthy with_full 0
with_full-Healthy = put_entry-Healthy sample-Healthy 1 full_dir

set_entry_refcount-keeps_example :
    let out = set_entry_refcount 0 0 1 120 with_full in
    (out.0 ≡ ok 0) × (ref_at (entry_at out.1 0 1) 119 ≡ 0)
unfolding as_entry as_super
set_entry_refcount-keeps_example =
    set_entry_refcount-keeps with_full-Healthy 1 (omega arith) 0 120 119 refl (omega arith)

full_dir-IsDirectory : IsDirectory full_dir
full_dir-IsDirectory = record {
  dir = refl;
  no_file = refl;
  alone = refl;
  full = refl;
  room = omega arith;
}

free_lem : find_free_entry 0 with_full ≡ (ok 2, with_full)
unfolding find_free_entry
free_lem = refl

add_ref_in_entry-full_example :
    let out = add_ref_in_entry 2 0 1 9 with_full in
    (out.0 ≡ ok 0)
    × (entry_at out.1 0 0 ≡ set_ref root_entry 0 9)
    × ((i : ℕ) → ref_at (entry_at out.1 0 2) i ≡ 0)
unfolding as_entry as_super
add_ref_in_entry-full_example =
    add_ref_in_entry-full with_full-Healthy 1 2 (omega arith) (omega arith) (omega arith)
      (omega arith) (omega arith) full_dir-IsDirectory refl free_lem 9 0

-- The root directory, a free entry that still has the name, and a directory with it.
abbrev with_name : System
with_name =
    put_entry (put_entry sample 0 1 (record root_entry { flags = 0; name = codes "a"; parent = 0 }))
      0 2 (record root_entry { name = codes "a"; parent = 0 })

with_name-Healthy : Healthy with_name 0
with_name-Healthy =
    put_entry-Healthy
      (put_entry-Healthy sample-Healthy 1
        (record root_entry { flags = 0; name = codes "a"; parent = 0 }))
      2 (record root_entry { name = codes "a"; parent = 0 })

found_lem : elim ((Table.search 0 0 (codes "a") with_name).0) [ ok (e, n) ↦ n | _ ↦ 9 ] ≡ 2
unfolding Table.search strncpy
found_lem = refl

zeros-AreBytes : (n : ℕ) → AreBytes (replicate n 0)
zeros-AreBytes zero = tt
zeros-AreBytes (suc n) = (omega arith, zeros-AreBytes n)

with_name-AreBytes : (n : ℕ) → n < 4 → AreBytes (entry_at with_name 0 n).name
unfolding as_entry strncpy
with_name-AreBytes zero h = (omega arith, zeros-AreBytes 14)
with_name-AreBytes (suc zero) h = (omega arith, tt)
with_name-AreBytes (suc (suc zero)) h = (omega arith, tt)
with_name-AreBytes (suc (suc (suc zero))) h = zeros-AreBytes 15
with_name-AreBytes (suc (suc (suc (suc n)))) h = absurd (omega arith)

search-FoundAt_example :
    FoundAt with_name 0 0 (codes "a") 4 (Table.search 0 0 (codes "a") with_name).0
    × ((Table.search 0 0 (codes "a") with_name).1 ≡ with_name)
unfolding as_entry as_super
search-FoundAt_example =
    search-FoundAt with_name-Healthy 0 (codes "a") (omega arith) (omega arith, tt)
      with_name-AreBytes

find_free_entry-FirstAt_example :
    FirstAt (is_free sample 0) 0 4 error_no_space (find_free_entry 0 sample).0
    × ((find_free_entry 0 sample).1 ≡ sample)
unfolding as_entry as_super
find_free_entry-FirstAt_example = find_free_entry-FirstAt sample-Healthy (omega arith)

-- A file that fills one block and a part of another.
abbrev part_file : Entry
part_file = record root_entry { flags = 2; size = 600; ref = 6 ∷ 7 ∷ 8 ∷ replicate 117 0 }

abbrev with_part : System
with_part = put_entry sample 0 1 part_file

with_part-Healthy : Healthy with_part 0
with_part-Healthy = put_entry-Healthy sample-Healthy 1 part_file

behind_file_lem : find_free_block 0 with_part ≡ (ok 8, with_part)
unfolding find_free_block
behind_file_lem = refl

find_free_block-FreeBlock_example :
    FreeBlock with_part 0 4 6 18 (find_free_block 0 with_part).0
    × ((find_free_block 0 with_part).1 ≡ with_part)
unfolding as_entry as_super
find_free_block-FreeBlock_example =
    find_free_block-FreeBlock with_part-Healthy (omega arith) (omega arith)
