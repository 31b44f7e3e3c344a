-- ===== src/Fs/Sample.antt =====
-- A small disk for the tests and the instances.
use nano_s.Common.{ℕ, List, [], ◌==◌, if◌then◌else◌}
use nano_s.Ulib.Text.{codes}
use nano_s.Fs.Types.{Superblock, raw, of_entry, of_super, DiskInfo, Time, System, sfs_type_id}
use nano_s.Fs.Format.{root_entry}

abbrev pub no_disk : List ℕ → DiskInfo
no_disk name = record {
  name = name;
  fstype = 0;
  fssize = 0;
  sectors = 0;
  sides = 0;
  cylinders = 0;
  size = 0;
}

-- fd0 is a disk of 18 blocks.
abbrev pub sample_info : ℕ → DiskInfo
sample_info d =
    if d == 0
    then record (no_disk (codes "fd0")) { sectors = 9; sides = 2; cylinders = 1; size = 1 }
    else no_disk (if d == 1 then codes "fd1" else if d == 2 then codes "hd0" else codes "hd1")

abbrev pub sample_super : Superblock
sample_super = record { kind = sfs_type_id; size = 18; nentries = 4; bootstart = 6 }

abbrev pub noon : Time
noon = record { year = 2018; month = 6; day = 15; hour = 12; minute = 30; second = 59 }

-- An empty root directory and three free entries.
abbrev pub sample : System
sample = record {
  info = sample_info;
  system_disk = 0;
  blocks = λ d n.
      if n == 1 then of_super sample_super else if n == 2 then of_entry root_entry else raw [];
  read_fault = λ d n. 0;
  write_fault = λ d n. 0;
  clock = λ t. noon;
  ticks = 0;
  scratch = λ d n. [];
}
