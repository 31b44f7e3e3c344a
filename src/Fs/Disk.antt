-- ===== src/Fs/Disk.antt =====
-- Sector access: io_disk_read and io_disk_write of source/hwio.c over a driver that moves one
-- sector or fails with a code, and read_disk and write_disk of source/fs.c.
pub mod Codec
pub mod Sectors
pub mod ReadWrite
use nano_s.Common.{
  ℕ, zero, suc, ◌+◌, ◌-◌, ◌*◌, ◌/◌, ◌%◌, min, ◌&&◌, List, [], ◌∷◌, ◌++◌, take, drop, length, ◌==◌,
  if◌then◌else◌,
}
use nano_s.Fs.Types.{
  Entry, Superblock, Block, raw, of_entry, of_super, System, block_size, disk_sector_size, word,
  error_io, sfs_namesize, sfs_entryrefs,
}
use nano_s.Fs.Monad.{M, Res, ok, err, spin, pure, ◌>>=◌, ◌>>◌}

-- A uint32_t in memory, lowest byte first.
unfoldable pub le32 : ℕ → List ℕ
le32 w = w % 256 ∷ w / 256 % 256 ∷ w / 65536 % 256 ∷ w / 16777216 % 256 ∷ []

unfoldable pub le32_all : List ℕ → List ℕ
unfolding le32
le32_all [] = []
le32_all (w ∷ ws) = le32 w ++ le32_all ws

unfoldable pub pad : ℕ → List ℕ → List ℕ
pad zero xs = []
pad (suc n) [] = 0 ∷ pad n []
pad (suc n) (x ∷ xs) = x ∷ pad n xs

unfoldable pub word_of : List ℕ → ℕ
word_of (a ∷ b ∷ c ∷ d ∷ _) = a + b * 256 + c * 65536 + d * 16777216
word_of _ = 0

unfoldable pub words_of : ℕ → List ℕ → List ℕ
unfolding word_of
words_of zero bs = []
words_of (suc n) bs = word_of bs ∷ words_of n (drop 4 bs)

unfoldable pub encode_entry : Entry → List ℕ
unfolding le32_all pad
encode_entry e =
    e.flags % 256
    ∷ (pad sfs_namesize e.name
        ++ le32_all (e.time ∷ e.size ∷ e.parent ∷ e.next ∷ pad sfs_entryrefs e.ref))

unfoldable pub decode_entry : List ℕ → Entry
unfolding words_of pad
decode_entry bs = record {
  flags = word_of (take 1 bs ++ (0 ∷ 0 ∷ 0 ∷ []));
  name = pad sfs_namesize (drop 1 bs);
  time = word_of (drop 16 bs);
  size = word_of (drop 20 bs);
  parent = word_of (drop 24 bs);
  next = word_of (drop 28 bs);
  ref = words_of sfs_entryrefs (drop 32 bs);
}

unfoldable pub encode_super : Superblock → List ℕ
unfolding le32_all pad
encode_super sb = pad block_size (le32_all (sb.kind ∷ sb.size ∷ sb.nentries ∷ sb.bootstart ∷ []))

unfoldable pub decode_super : List ℕ → Superblock
unfolding word_of
decode_super bs = record {
  kind = word_of bs;
  size = word_of (drop 4 bs);
  nentries = word_of (drop 8 bs);
  bootstart = word_of (drop 12 bs);
}

-- The casts between the views of a sector.
unfoldable pub as_bytes : Block → List ℕ
unfolding encode_entry encode_super pad
as_bytes (raw bs) = pad block_size bs
as_bytes (of_entry e) = encode_entry e
as_bytes (of_super sb) = encode_super sb

unfoldable pub as_entry : Block → Entry
unfolding decode_entry as_bytes
as_entry (of_entry e) = e
as_entry (raw bs) = decode_entry bs
as_entry (of_super sb) = decode_entry (as_bytes (of_super sb))

unfoldable pub as_super : Block → Superblock
unfolding decode_super as_bytes
as_super (of_super sb) = sb
as_super (raw bs) = decode_super bs
as_super (of_entry e) = decode_super (as_bytes (of_entry e))

-- disk_read_sector and disk_write_sector for one sector: the driver is hardware.
unfoldable pub disk_read_sector : ℕ → ℕ → M Block
disk_read_sector disk sector s =
    if s.read_fault disk sector == 0
    then (ok (s.blocks disk sector), s)
    else (err (s.read_fault disk sector), s)

abbrev pub put_block : System → ℕ → ℕ → Block → System
put_block s disk sector b = record s {
  blocks = λ d n. if d == disk && n == sector then b else s.blocks d n;
}

unfoldable pub disk_write_sector : ℕ → ℕ → Block → M (Unit {0})
disk_write_sector disk sector b s =
    if s.write_fault disk sector == 0
    then (ok tt, put_block s disk sector b)
    else (err (s.write_fault disk sector), s)

-- `if(disk_info[disk].size == 0) return ERROR_IO;`
unfoldable pub check_disk : ℕ → M (Unit {0})
check_disk disk s = if (s.info disk).size == 0 then (err error_io, s) else (ok tt, s)

-- `n_sectors` whole sectors.
unfoldable pub read_sectors : ℕ → ℕ → ℕ → M (List ℕ)
unfolding disk_read_sector as_bytes
read_sectors zero disk sector = pure []
read_sectors (suc n) disk sector = do
  b ← disk_read_sector disk sector
  rest ← read_sectors n disk (sector + 1)
  pure (as_bytes b ++ rest)

unfoldable pub write_sectors : ℕ → ℕ → ℕ → List ℕ → M (Unit {0})
unfolding disk_write_sector
write_sectors zero disk sector bs = pure tt
write_sectors (suc n) disk sector bs = do
  disk_write_sector disk sector (raw (take disk_sector_size bs))
  write_sectors n disk (sector + 1) (drop disk_sector_size bs)

-- The last part of io_disk_read: whole sectors, then the head of one more.
unfoldable pub read_tail : ℕ → ℕ → ℕ → M (List ℕ)
unfolding read_sectors
read_tail disk sector size = do
  whole ← read_sectors (size / disk_sector_size) disk sector
  let left = size % disk_sector_size
  if left == 0 then pure whole else do
    b ← disk_read_sector disk (sector + size / disk_sector_size)
    pure (whole ++ take left (as_bytes b))

unfoldable pub io_disk_read : (disk sector offset size : ℕ) → M (List ℕ)
unfolding check_disk read_tail
io_disk_read disk sector offset size = do
  check_disk disk
  let first = sector + offset / disk_sector_size
  let off = offset % disk_sector_size
  if off == 0 then read_tail disk first size else do
    b ← disk_read_sector disk first
    let i = min (disk_sector_size - off) size
    rest ← read_tail disk (first + 1) (size - i)
    pure (take i (drop off (as_bytes b)) ++ rest)

-- Overwrite bytes of a sector: it is read, changed and written. Both calls are made, and their codes
-- are added; after a failed read the scratch buffer holds what it held.
unfoldable pub patch : List ℕ → ℕ → List ℕ → List ℕ
patch sector off bs = take off sector ++ (bs ++ drop (off + length bs) sector)

abbrev pub code_of : {A : Type 0} → Res A × System → ℕ
code_of (ok _, _) = 0
code_of (err code, _) = code
code_of (spin, _) = 0

abbrev pub bytes_or : List ℕ → Res Block × System → List ℕ
bytes_or old (ok b, _) = as_bytes b
bytes_or old (err _, _) = old
bytes_or old (spin, _) = old

unfoldable pub modify_sector : ℕ → ℕ → ℕ → List ℕ → M (Unit {0})
unfolding disk_read_sector disk_write_sector patch as_bytes
modify_sector disk sector off bs s =
    let was = disk_read_sector disk sector s in
    let new = patch (bytes_or (s.scratch disk sector) was) off bs in
    let done = disk_write_sector disk sector (raw new) s in
    let code = (code_of was + code_of done) % word in
    if code == 0 then (ok tt, done.1) else (err code, done.1)

unfoldable pub write_tail : ℕ → ℕ → List ℕ → M (Unit {0})
unfolding write_sectors modify_sector
write_tail disk sector bs = do
  let n = length bs / disk_sector_size
  write_sectors n disk sector bs
  let left = drop (n * disk_sector_size) bs
  if length left == 0 then pure tt else modify_sector disk (sector + n) 0 left

unfoldable pub io_disk_write : (disk sector offset : ℕ) → List ℕ → M (Unit {0})
unfolding check_disk write_tail modify_sector
io_disk_write disk sector offset bs = do
  check_disk disk
  let first = sector + offset / disk_sector_size
  let off = offset % disk_sector_size
  if off == 0 then write_tail disk first bs else do
    let i = min (disk_sector_size - off) (length bs)
    modify_sector disk first off (take i bs)
    write_tail disk (first + 1) (drop i bs)

-- Blocks to sectors; `block * BLOCK_SIZE` is a uint.
abbrev pub sector_of : ℕ → ℕ → ℕ
sector_of block offset = block * block_size % word / disk_sector_size + offset / disk_sector_size

unfoldable pub read_disk : (disk block offset size : ℕ) → M (List ℕ)
unfolding io_disk_read
read_disk disk block offset size =
    io_disk_read disk (sector_of block offset) (offset % disk_sector_size) size

unfoldable pub write_disk : (disk block offset : ℕ) → List ℕ → M (Unit {0})
unfolding io_disk_write
write_disk disk block offset bs =
    io_disk_write disk (sector_of block offset) (offset % disk_sector_size) bs

-- read_disk of a struct that begins at the start of a block, and write_disk of one that fills it:
-- one whole sector, kept in the view in which it was written.
unfoldable pub read_block : ℕ → ℕ → M Block
unfolding check_disk disk_read_sector
read_block disk block = do check_disk disk; disk_read_sector disk (sector_of block 0)

unfoldable pub write_block : ℕ → ℕ → Block → M (Unit {0})
unfolding check_disk disk_write_sector
write_block disk block b = do check_disk disk; disk_write_sector disk (sector_of block 0) b
