-- ===== src/Fs/Format/Layout.antt =====
-- The layout that fs_format of source/fs.c gives to a disk.
use nano_s.Common.{◌+◌, ◌*◌, ◌/◌, ◌<◌, ◌≡◌, min, arith}
use nano_s.Fs.Types.{DiskInfo}
use nano_s.Fs.Disk.Sectors.{block_limit}
use nano_s.Fs.Table.{first_data_block}
use nano_s.Fs.Format.{new_super}

-- For a disk of at least three and less than 2^23 blocks, the superblock of fs_format counts its
-- blocks, the boot program begins at the first data block, directly behind the table, the table has
-- an entry for each ten blocks, up to 1024, and there is a data block below the end of the disk.
new_super-layout :
    (d : DiskInfo)
    → 2 < d.sectors * d.sides * d.cylinders
    → d.sectors * d.sides * d.cylinders < block_limit
    → let sb = new_super d in
      (sb.size ≡ d.sectors * d.sides * d.cylinders)
      × (sb.bootstart ≡ first_data_block sb)
      × (sb.bootstart ≡ 2 + sb.nentries)
      × (sb.nentries ≡ min (sb.size / 10) 1024)
      × (sb.bootstart < sb.size)
unfolding new_super
new_super-layout d some small = (omega arith, omega arith, omega arith, omega arith, omega arith)
