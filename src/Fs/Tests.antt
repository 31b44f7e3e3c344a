-- ===== src/Fs/Tests.antt =====
-- Runs of the file system of source/fs.c on the sample disk, and the theorems at concrete inputs.

mod Contents
mod Entries
mod Frames
mod Names
use nano_s.Common.{
  ℕ, zero, suc, ◌+◌, ◌*◌, ◌/◌, ◌%◌, ◌≡◌, ◌≢◌, ◌≤◌, ◌<◌, refl, List, [], ◌∷◌, ◌++◌, replicate,
  length, take, get_or, map, ◌&&◌, ltb, leb, if◌then◌else◌, arith, inl, inr, ◌⊎◌,
}
use nano_s.Ulib.Text.{codes, cstr}
use nano_s.Fs.Types.{
  System, Entry, Time, word, wf_create, t_file, t_dir, sfs_namesize, sfs_entryrefs, block_size,
  error_not_found, error_no_space,
}
use nano_s.Fs.Monad.{Res, ok, pure, ◌>>=◌, ◌>>◌}
use nano_s.Fs.Disk.{read_disk, write_disk, encode_entry, decode_entry}
use nano_s.Fs.Disk.Sectors.{Healthy}
use nano_s.Fs.Disk.Codec.{AllBelow, IsRepresentable}
use nano_s.Fs.Disk.ReadWrite.{read_disk-write_disk}
use nano_s.Fs.Chain.{zero_entry}
use nano_s.Fs.File.{fs_write_file, fs_read_file, write_loop, read_loop}
use nano_s.Fs.Dir.{fs_create_directory, fs_list, fs_delete}
use nano_s.Fs.Time.{fs_fstime_to_systime, fs_systime_to_fstime}
use nano_s.Fs.Time.RoundTrip.{IsStorable, fstime_round_trip}
use nano_s.Fs.Sample.{sample, noon}

run : Res (List ℕ)
run =
    ((do
      fs_write_file 9 (codes "hello") (codes "a.txt") 0 wf_create
      fs_create_directory 9 (codes "dir")
      fs_write_file 9 (codes "bye") (codes "fd0/dir/b?") 0 wf_create
      fs_read_file (codes "dir/b_") 0 100)
      sample).0

-- A file in a new directory, with a name that is cleaned, is read back.
run_lem : run ≡ ok (codes "bye")
unfolding run fs_write_file fs_create_directory fs_read_file
run_lem = refl

pub sample-Healthy : Healthy sample 0
sample-Healthy = record { present = omega arith; reads = λ n. refl; writes = λ n. refl }

fstime_round_trip_example : fs_fstime_to_systime (fs_systime_to_fstime noon) ≡ noon
fstime_round_trip_example = fstime_round_trip noon (record {
  year_from = omega arith;
  months = omega arith;
  month_from = omega arith;
  month_to = omega arith;
  day_from = omega arith;
  day_to = omega arith;
  hour_to = omega arith;
  minute_to = omega arith;
  second_to = omega arith;
})

abbrev pub a_file : Entry
a_file = record zero_entry { flags = t_file; size = 1000; ref = 7 ∷ 9 ∷ replicate 118 0 }

read_disk-write_disk_example :
    (read_disk 0 7 510 2 (write_disk 0 7 510 (1 ∷ 2 ∷ []) sample).1).0 ≡ ok (1 ∷ 2 ∷ [])
read_disk-write_disk_example =
    read_disk-write_disk sample-Healthy 7 510 (1 ∷ 2 ∷ []) (omega arith) (omega arith) (omega arith)
