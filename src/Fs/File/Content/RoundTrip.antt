-- ===== src/Fs/File/Content/RoundTrip.antt =====
-- The loops of fs_write_file and fs_read_file of source/fs.c after one another, for a file that
-- fits one entry and whose blocks are its own.
use nano_s.Common.{
  ℕ, ◌+◌, ◌-◌, ◌*◌, ◌/◌, ◌%◌, ◌≤◌, ◌<◌, ◌≡◌, ◌≢◌, refl, ap, ◌∙◌, List, length, get_or, arith,
  lt→ltb, le→leb,
}
use nano_s.Fs.Types.{Entry, System, block_size}
use nano_s.Fs.Monad.{ok}
use nano_s.Fs.Disk.{as_bytes}
use nano_s.Fs.Disk.Sectors.{Healthy}
use nano_s.Fs.Refs.{ref_at}
use nano_s.Fs.File.{read_loop, write_loop}
use nano_s.Fs.File.Content.{content, IsMapped, list_ext}
use nano_s.Fs.File.Content.Read.{read_loop-ReadsAt}
use nano_s.Fs.File.Content.Write.{overwritten, Writes, write_loop-Writes}

position : (p : ℕ) → p / block_size * block_size + p % block_size ≡ p
position p = omega arith

module _ {s : System} {disk : ℕ} (h : Healthy s disk) (e : Entry) (n nblocks : ℕ)
    (m : IsMapped e nblocks) (at : ℕ) (bs : List ℕ)
    (fits : at + length bs ≤ nblocks * block_size) where
  written : Writes s disk e nblocks at bs (write_loop (length bs) disk e at bs s)
  written = write_loop-Writes disk e nblocks m (length bs) at bs h (omega arith) fits

  abbrev after : System
  after = (write_loop (length bs) disk e at bs s).1

  -- Any part of the file read after a write of `bs` at `at` holds the bytes of `bs` where they
  -- were written and the bytes from before elsewhere; write and read succeed, each loop within as
  -- many rounds as it has bytes to move.
  pub read_loop-write_loop :
      (from len : ℕ)
      → from + len ≤ nblocks * block_size
      → ((write_loop (length bs) disk e at bs s).0 ≡ ok tt)
        × (new : List ℕ) × ((read_loop len disk
              (e, n)
              (from / block_size)
              (from % block_size)
              len
              after).0
            ≡ ok new)
        × (length new ≡ len)
        × ((i : ℕ) → i < len → get_or new i 0 ≡ overwritten at bs (content s disk e) (from + i))
  read_loop-write_loop from len inside =
      let r =
        read_loop-ReadsAt written.healthy e n nblocks m len (from / 512) (from % 512) len
          (omega arith) (omega arith) (omega arith) in
      (
        written.result,
        r.bytes,
        ap (λ x. x.0) r.result,
        r.count,
        λ i l.
            r.same i l
            ∙ ap (λ x. content after disk e (x + i)) (position from)
            ∙ written.bytes (from + i) (omega arith),
      )

  -- A read of the bytes just written returns them.
  read_back :
      (read_loop (length bs) disk (e, n) (at / block_size) (at % block_size) (length bs) after).0
      ≡ ok bs
  read_back =
      let (_, new, result, count, same) = read_loop-write_loop at (length bs) fits in
      result
      ∙ ap ok (
          list_ext new bs count (λ i l.
            same i (omega arith)
            ∙ let d : at + i - at ≡ i = omega arith in
              rw
                (
                  le→leb at (at + i) (omega arith),
                  lt→ltb (at + i) (at + length bs) (omega arith),
                  d,
                )
                refl))

  -- A write leaves the bytes of every other file, whose blocks are not among those of this one, as
  -- they were.
  pub write_loop-other :
      (e' : Entry) (p : ℕ)
      → ((k : ℕ) → k < nblocks → ref_at e' (p / block_size) ≢ ref_at e k)
      → content after disk e' p ≡ content s disk e' p
  write_loop-other e' p apart =
      ap (λ b. get_or (as_bytes b) (p % block_size) 0)
        (written.kept (ref_at e' (p / block_size)) apart)
