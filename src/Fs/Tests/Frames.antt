-- ===== src/Fs/Tests/Frames.antt =====
-- The theorems on what an operation leaves alone, at concrete inputs.
use nano_s.Ulib.Text.{codes}
use nano_s.Fs.Path.{fs_get_entry}
use nano_s.Fs.File.{Handle, fs_read_file}
use nano_s.Fs.Dir.{delete_n, fs_list}
use nano_s.Fs.Frame.{ReadsOnly}
use nano_s.Fs.Frame.ReadOnly.{queries-ReadsOnly}
use nano_s.Fs.Frame.Disks.{WritesOnly, delete_n-WritesOnly}
use nano_s.Fs.Tests.{a_file}

queries-ReadsOnly_example :
    ReadsOnly (fs_get_entry (codes "dir/a") 0 1)
    × ReadsOnly (fs_read_file (codes "dir/a") 10 20)
    × ReadsOnly (fs_list (codes "dir/a") 3)
queries-ReadsOnly_example = queries-ReadsOnly (codes "dir/a") 0 1 10 20 3

delete_n-WritesOnly_example : WritesOnly 1 (delete_n 5 2 1 3)
delete_n-WritesOnly_example = delete_n-WritesOnly 5 2 1 3

abbrev handle : Handle
handle = record { entry = a_file; nentry = 1; disk = 0 }
