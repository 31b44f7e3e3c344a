-- ===== src/Fs/Frame/Files.antt =====
-- The steps of fs_write_file of source/fs.c that follow the opening of the file.
use nano_s.Common.{ℕ, zero, suc, List, refl}
use nano_s.Fs.Types.{Entry}
use nano_s.Fs.Disk.{write_disk, io_disk_write, write_tail, write_sectors, modify_sector}
use nano_s.Fs.Chain.{set_entry_time_to_current, get_datetime}
use nano_s.Fs.File.{Handle, skip_loop, alloc_loop, grow, shrink, seek_loop, write_loop}
use nano_s.Fs.Frame.{ReadsOnly, read_only, fail-ReadsOnly}
use nano_s.Fs.Frame.ReadOnly.{get_entry_n-ReadsOnly}
use nano_s.Fs.Frame.Disks.{
  WritesOnly, writes, if-Elsewhere, write_entry-WritesOnly, set_entry_refcount-WritesOnly,
  set_entry_size-WritesOnly, set_time_loop-WritesOnly, disk_write_sector-WritesOnly,
}

modify_sector-WritesOnly :
    (disk n off : ℕ) (bs : List ℕ) → WritesOnly disk (modify_sector disk n off bs)
unfolding modify_sector
modify_sector-WritesOnly disk n off bs = record {
  elsewhere = λ s.
      let h = (disk_write_sector-WritesOnly disk n _).elsewhere s in if-Elsewhere disk s _ _ _ h h;
}

write_sectors-WritesOnly :
    (n disk sector : ℕ) (bs : List ℕ) → WritesOnly disk (write_sectors n disk sector bs)
unfolding write_sectors
write_sectors-WritesOnly zero disk sector bs = search writes
write_sectors-WritesOnly (suc n) disk sector bs =
    search (writes, disk_write_sector-WritesOnly, write_sectors-WritesOnly n disk) depth 8

write_disk-WritesOnly : (disk b off : ℕ) (bs : List ℕ) → WritesOnly disk (write_disk disk b off bs)
unfolding write_disk io_disk_write write_tail
write_disk-WritesOnly disk b off bs =
    search (writes, modify_sector-WritesOnly, write_sectors-WritesOnly) depth 10

skip_loop-WritesOnly :
    (fuel disk : ℕ) (t : Entry × ℕ) (block : ℕ) → WritesOnly disk (skip_loop fuel disk t block)
unfolding skip_loop
skip_loop-WritesOnly zero disk (t, n) block = search writes
skip_loop-WritesOnly (suc fuel) disk (t, n) block =
    search (writes, write_entry-WritesOnly, skip_loop-WritesOnly fuel disk) depth 8

alloc_loop-WritesOnly :
    (more disk : ℕ) (t : Entry × ℕ) (block : ℕ) → WritesOnly disk (alloc_loop more disk t block)
unfolding alloc_loop
alloc_loop-WritesOnly zero disk (t, n) block = search writes
alloc_loop-WritesOnly (suc more) disk (t, n) block =
    search (writes, skip_loop-WritesOnly, alloc_loop-WritesOnly more disk) depth 8

grow-WritesOnly : (fuel : ℕ) (h : Handle) (size : ℕ) → WritesOnly h.disk (grow fuel h size)
unfolding grow
grow-WritesOnly fuel h size =
    search
      (
        writes, set_entry_refcount-WritesOnly, set_entry_size-WritesOnly, alloc_loop-WritesOnly,
        write_entry-WritesOnly,
      )
      depth 10

shrink-WritesOnly :
    (fuel : ℕ) (h : Handle) (size flags : ℕ) → WritesOnly h.disk (shrink fuel h size flags)
unfolding shrink
shrink-WritesOnly fuel h size flags =
    search (writes, set_entry_refcount-WritesOnly, set_entry_size-WritesOnly) depth 10

seek_loop-ReadsOnly :
    (fuel disk : ℕ) (e : Entry) (offset block : ℕ) → ReadsOnly (seek_loop fuel disk e offset block)
unfolding seek_loop
seek_loop-ReadsOnly zero disk e offset block = search (read_only, fail-ReadsOnly)
seek_loop-ReadsOnly (suc fuel) disk e offset block =
    search (read_only, get_entry_n-ReadsOnly, seek_loop-ReadsOnly fuel disk)

write_loop-WritesOnly :
    (fuel disk : ℕ) (e : Entry) (offset : ℕ) (bs : List ℕ)
    → WritesOnly disk (write_loop fuel disk e offset bs)
unfolding write_loop
write_loop-WritesOnly zero disk e offset bs = search writes
write_loop-WritesOnly (suc fuel) disk e offset bs =
    search (writes, seek_loop-ReadsOnly, write_disk-WritesOnly, write_loop-WritesOnly fuel disk)
      depth 10

get_datetime-WritesOnly : (disk : ℕ) → WritesOnly disk get_datetime
get_datetime-WritesOnly disk = record {
  elsewhere = λ s. record { others = λ d n h. refl; same_info = refl; same_system = refl };
}

set_time-WritesOnly : (fuel disk n : ℕ) → WritesOnly disk (set_entry_time_to_current fuel disk n)
unfolding set_entry_time_to_current
set_time-WritesOnly fuel disk n =
    search (writes, get_datetime-WritesOnly, set_time_loop-WritesOnly) depth 8

-- For an open file, the growth, the shrinking, the writing of the bytes and the change of the time
-- stamp touch only the disk of the file: the other disks, the disk table and the choice of the
-- system disk are the same after each of them, also after an error.
file_steps-WritesOnly :
    (fuel : ℕ) (h : Handle) (size flags offset : ℕ) (bs : List ℕ)
    → WritesOnly h.disk (grow fuel h size)
      × WritesOnly h.disk (shrink fuel h size flags)
      × WritesOnly h.disk (write_loop fuel h.disk h.entry offset bs)
      × WritesOnly h.disk (set_entry_time_to_current fuel h.disk h.nentry)
file_steps-WritesOnly fuel h size flags offset bs = (
  grow-WritesOnly fuel h size,
  shrink-WritesOnly fuel h size flags,
  write_loop-WritesOnly fuel h.disk h.entry offset bs,
  set_time-WritesOnly fuel h.disk h.nentry,
)
