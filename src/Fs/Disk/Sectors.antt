-- ===== src/Fs/Disk/Sectors.antt =====
-- Reads and writes of bytes within one block of a disk whose sectors work.
use nano_s.Common.{
  ℕ, ◌+◌, ◌-◌, ◌/◌, ◌%◌, ◌^◌, ◌≤◌, ◌<◌, ◌≡◌, ◌≢◌, min, false, List, [], ◌∷◌, length, drop, take,
  arith, append-nil, length-drop, take_all, drop_all, ne→==, ◌==◌, Bool-cases, inl, inr, ==→eq,
  ==→ne,
}
use nano_s.Fs.Types.{Block, raw, of_entry, of_super, System, block_size}
use nano_s.Fs.Monad.{ok}
use nano_s.Fs.Disk.{
  as_bytes, patch, put_block, disk_read_sector, disk_write_sector, check_disk, read_sectors,
  write_sectors, read_tail, write_tail, modify_sector, io_disk_read, io_disk_write, read_disk,
  write_disk, sector_of, encode_super, le32_all,
}
use nano_s.Fs.Disk.Codec.{length-pad, length-encode_entry}
use native.Mathlib.Nat.{add-zero}

-- The disk is present and no sector fails.
pub record Healthy (s : System) (disk : ℕ) : Type 0 where
  pub present : (s.info disk).size ≢ 0
  pub reads : (n : ℕ) → s.read_fault disk n ≡ 0
  pub writes : (n : ℕ) → s.write_fault disk n ≡ 0

pub length-as_bytes : (b : Block) → length (as_bytes b) ≡ block_size
unfolding as_bytes encode_super
length-as_bytes (raw bs) = length-pad block_size bs
length-as_bytes (of_entry e) = length-encode_entry e
length-as_bytes (of_super sb) =
    length-pad block_size (le32_all (sb.kind ∷ sb.size ∷ sb.nentries ∷ sb.bootstart ∷ []))

-- The number of blocks whose byte offsets are uints.
abbrev pub block_limit : ℕ
block_limit = 2 ^ 23

-- 512 bytes take the place of the whole sector.
patch_whole : (b : Block) (bs : List ℕ) → length bs ≡ 512 → patch (as_bytes b) 0 bs ≡ bs
unfolding patch
patch_whole b bs e =
    rw (drop_all (0 + length bs) (as_bytes b) (omega (arith, length-as_bytes b)), append-nil bs)

module _ {s : System} {disk : ℕ} (h : Healthy s disk) where
  check_disk-ok : check_disk disk s ≡ (ok tt, s)
  unfolding check_disk
  check_disk-ok = rw (ne→== _ _ h.present)

  disk_read_sector-ok : (n : ℕ) → disk_read_sector disk n s ≡ (ok (s.blocks disk n), s)
  unfolding disk_read_sector
  disk_read_sector-ok n = rw (h.reads n)

  disk_write_sector-ok :
      (n : ℕ) (b : Block) → disk_write_sector disk n b s ≡ (ok tt, put_block s disk n b)
  unfolding disk_write_sector
  disk_write_sector-ok n b = rw (h.writes n)

  read_tail_whole :
      (n : ℕ) → read_tail disk n 512 s ≡ (ok (take 512 (as_bytes (s.blocks disk n))), s)
  unfolding read_tail read_sectors
  read_tail_whole n =
      let b = as_bytes (s.blocks disk n) in
      let len : length b ≤ 512 = omega (arith, length-as_bytes (s.blocks disk n)) in
      rw (disk_read_sector-ok n, append-nil b, take_all 512 b len)

  read_tail_short :
      (n size : ℕ)
      → size ≤ block_size
      → read_tail disk n size s ≡ (ok (take size (as_bytes (s.blocks disk n))), s)
  unfolding read_tail read_sectors
  read_tail_short n size small = elim (Bool-cases (size == 512)) [
    | inl e ↦ rw (==→eq size 512 e) (read_tail_whole n)
    | inr ne ↦
        let q : size / 512 ≡ 0 = omega (arith, ==→ne size 512 ne) in
        let r : size % 512 ≡ size = omega (arith, ==→ne size 512 ne) in
        rw (q, r)
          (elim (Bool-cases (size == 0)) [
            | inl z ↦ rw (==→eq size 0 z)
            | inr nz ↦ rw (nz, add-zero, disk_read_sector-ok n)
          ])
  ]

  modify_sector-ok :
      (n off : ℕ) (bs : List ℕ)
      → modify_sector disk n off bs s
        ≡ (ok tt, put_block s disk n (raw (patch (as_bytes (s.blocks disk n)) off bs)))
  unfolding modify_sector
  modify_sector-ok n off bs = rw (
    disk_read_sector-ok n,
    disk_write_sector-ok n (raw (patch (as_bytes (s.blocks disk n)) off bs)),
  )

  write_tail_whole :
      (n : ℕ) (bs : List ℕ)
      → length bs ≡ 512
      → write_tail disk n bs s ≡ (ok tt, put_block s disk n (raw bs))
  unfolding write_tail write_sectors
  write_tail_whole n bs e =
      let len : length (drop 512 bs) ≡ 0 = omega (arith, length-drop 512 bs) in
      rw (e, len, disk_write_sector-ok n (raw (take 512 bs)), take_all 512 bs (omega arith))

  write_tail_part :
      (n : ℕ) (bs : List ℕ)
      → length bs < 512
      → 0 < length bs
      → write_tail disk n bs s
        ≡ (ok tt, put_block s disk n (raw (patch (as_bytes (s.blocks disk n)) 0 bs)))
  unfolding write_tail write_sectors
  write_tail_part n bs small some =
      let q : length bs / 512 ≡ 0 = omega arith in
      let nz : (length bs == 0) ≡ false = ground arith in
      rw (q, nz, add-zero, modify_sector-ok n 0 bs)

  write_tail_short :
      (n : ℕ) (bs : List ℕ)
      → length bs ≤ block_size
      → 0 < length bs
      → write_tail disk n bs s
        ≡ (ok tt, put_block s disk n (raw (patch (as_bytes (s.blocks disk n)) 0 bs)))
  write_tail_short n bs small some = elim (Bool-cases (length bs == 512)) [
    | inl e ↦
        let whole = ==→eq (length bs) 512 e in
        rw (patch_whole (s.blocks disk n) bs whole) (write_tail_whole n bs whole)
    | inr ne ↦ write_tail_part n bs (omega (arith, ==→ne (length bs) 512 ne)) some
  ]

  -- A read within one block gives the bytes that the block holds there, and changes nothing.
  pub read_disk-ok :
      (b off size : ℕ)
      → b < block_limit
      → off + size ≤ block_size
      → off < block_size
      → read_disk disk b off size s ≡ (ok (take size (drop off (as_bytes (s.blocks disk b)))), s)
  unfolding read_disk io_disk_read
  read_disk-ok b off size small fits inside =
      let sec : sector_of b off + off % 512 / 512 ≡ b = omega arith in
      let o : off % 512 % 512 ≡ off = omega arith in
      rw (check_disk-ok, sec, o)
        (elim (Bool-cases (off == 0)) [
          | inl z ↦ rw (==→eq off 0 z) (read_tail_short b size (omega (arith, ==→eq off 0 z)))
          | inr nz ↦
              let i : min (512 - off) size ≡ size = omega arith in
              let left : size - size ≡ 0 = omega arith in
              rw (nz, disk_read_sector-ok b, i, left, append-nil)
        ])

  -- A write within one block changes the bytes there, and no other byte of the disk.
  pub write_disk-ok :
      (b off : ℕ) (bs : List ℕ)
      → b < block_limit
      → off + length bs ≤ block_size
      → 0 < length bs
      → write_disk disk b off bs s
        ≡ (ok tt, put_block s disk b (raw (patch (as_bytes (s.blocks disk b)) off bs)))
  unfolding write_disk io_disk_write
  write_disk-ok b off bs small fits some =
      let sec : sector_of b off + off % 512 / 512 ≡ b = omega arith in
      let o : off % 512 % 512 ≡ off = omega arith in
      rw (check_disk-ok, sec, o)
        (elim (Bool-cases (off == 0)) [
          | inl z ↦ rw (==→eq off 0 z) (write_tail_short b bs (omega arith) some)
          | inr nz ↦
              let i : min (512 - off) (length bs) ≡ length bs = omega arith in
              rw (
                nz,
                i,
                take_all (length bs) bs (omega arith),
                drop_all (length bs) bs (omega arith),
                modify_sector-ok b off bs,
              )
        ])
