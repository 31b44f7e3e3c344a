-- ===== src/Fs/Types.antt =====
-- The on-disk structures of source/fs.h, the disk table of source/kernel.h and the state on which
-- the file system runs. A sector holds a typed block, since a struct that C writes is read back as
-- the same struct; `Fs.Disk` has the casts between the three views of a sector.
use nano_s.Common.{ℕ, ◌^◌, List, Bool, not, ◌==◌, bit_and}

abbrev pub block_size : ℕ
block_size = 512

abbrev pub disk_sector_size : ℕ
disk_sector_size = 512

abbrev pub word : ℕ
word = 2 ^ 32

-- sizeof(sfs_entry_t): 1 + 15 + 4 * 4 + 120 * 4
abbrev pub entry_size : ℕ
entry_size = 512

abbrev pub sfs_type_id : ℕ
sfs_type_id = 0x05F50010

abbrev pub sfs_namesize : ℕ
sfs_namesize = 15

abbrev pub sfs_entryrefs : ℕ
sfs_entryrefs = 120

abbrev pub t_dir : ℕ
t_dir = 1

abbrev pub t_file : ℕ
t_file = 2

abbrev pub f_used : ℕ
f_used = 3

abbrev pub wf_create : ℕ
wf_create = 1

abbrev pub wf_truncate : ℕ
wf_truncate = 2

abbrev pub max_disk : ℕ
max_disk = 4

abbrev pub fs_type_unknown : ℕ
fs_type_unknown = 0

abbrev pub fs_type_nsfs : ℕ
fs_type_nsfs = 1

abbrev pub error_not_found : ℕ
error_not_found = 0xFFFFFFFF

abbrev pub error_exists : ℕ
error_exists = 0xFFFFFFFE

abbrev pub error_io : ℕ
error_io = 0xFFFFFFFD

abbrev pub error_no_space : ℕ
error_no_space = 0xFFFFFFFC

abbrev pub error_any : ℕ
error_any = 0xFFFFFFFA

abbrev pub unknown_value : ℕ
unknown_value = 0xFFFFFFFF

pub record Entry : Type 0 where
  pub flags : ℕ
  pub name : List ℕ
  pub time : ℕ
  pub size : ℕ
  pub parent : ℕ
  pub next : ℕ
  pub ref : List ℕ

pub record Superblock : Type 0 where
  pub kind : ℕ
  pub size : ℕ
  pub nentries : ℕ
  pub bootstart : ℕ

-- `flags & mask`
abbrev pub has_flag : ℕ → ℕ → Bool
has_flag flags mask = not (bit_and flags mask == 0)

abbrev pub is_used : Entry → Bool
is_used e = has_flag e.flags f_used

abbrev pub is_file : Entry → Bool
is_file e = has_flag e.flags t_file

abbrev pub is_dir : Entry → Bool
is_dir e = has_flag e.flags t_dir

pub data Block : Type 0 where
  raw : List ℕ → Block
  of_entry : Entry → Block
  of_super : Superblock → Block

-- struct disk_info_t: what the kernel knows of a disk.
pub record DiskInfo : Type 0 where
  pub name : List ℕ
  pub fstype : ℕ
  pub fssize : ℕ
  pub sectors : ℕ
  pub sides : ℕ
  pub cylinders : ℕ
  pub size : ℕ

-- struct time_t
pub record Time : Type 0 where
  pub year : ℕ
  pub month : ℕ
  pub day : ℕ
  pub hour : ℕ
  pub minute : ℕ
  pub second : ℕ

-- What the hardware does is a part of the state that no operation writes: the code with which a
-- sector fails to be read or written (0 for a success), the readings of the clock, and what the
-- scratch buffer holds after a failed read.
pub record System : Type 0 where
  pub info : ℕ → DiskInfo
  pub system_disk : ℕ
  pub blocks : ℕ → ℕ → Block
  pub read_fault : ℕ → ℕ → ℕ
  pub write_fault : ℕ → ℕ → ℕ
  pub clock : ℕ → Time
  pub ticks : ℕ
  pub scratch : ℕ → ℕ → List ℕ
