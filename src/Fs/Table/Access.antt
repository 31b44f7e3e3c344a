-- ===== src/Fs/Table/Access.antt =====
-- Reads and writes of the entries table on a disk whose sectors work.
use nano_s.Common.{refl, eq→==, ℕ, ◌+◌, ◌^◌, ◌<◌, ◌≡◌, ◌≢◌, false, ◌==◌, arith, ne→==, lt→leb}
use nano_s.Fs.Types.{error_any, Entry, Superblock, Block, of_entry, System}
use nano_s.Fs.Monad.{ok}
use nano_s.Fs.Disk.{as_entry, as_super, put_block, sector_of, read_block, write_block}
use nano_s.Fs.Table.{get_entry_n, write_entry, read_super, entry_block}
use nano_s.Fs.Disk.Sectors.{Healthy}

-- Entry `n` as the disk holds it; its block is 2 + n.
abbrev pub entry_at : System → ℕ → ℕ → Entry
entry_at s disk n = as_entry (s.blocks disk (2 + n))

abbrev pub super_of : System → ℕ → Superblock
super_of s disk = as_super (s.blocks disk 1)

-- The largest table whose byte offsets are uints.
abbrev pub table_limit : ℕ
table_limit = 2 ^ 22

sector-entry_block : (n : ℕ) → n < table_limit → sector_of (entry_block n) 0 ≡ 2 + n
sector-entry_block n small = omega arith

module _ {s : System} {disk : ℕ} (h : Healthy s disk) where
  absent : ((s.info disk).size == 0) ≡ false
  absent = ne→== _ _ h.present

  read_block-ok : (b : ℕ) → read_block disk b s ≡ (ok (s.blocks disk (sector_of b 0)), s)
  unfolding read_block
  read_block-ok b = rw (absent, h.reads (sector_of b 0))

  pub write_block-ok :
      (b : ℕ) (v : Block) → write_block disk b v s ≡ (ok tt, put_block s disk (sector_of b 0) v)
  unfolding write_block
  write_block-ok b v = rw (absent, h.writes (sector_of b 0))

  pub get_entry_n-ok :
      (n : ℕ) → n < table_limit → get_entry_n disk n s ≡ (ok (entry_at s disk n), s)
  unfolding get_entry_n
  get_entry_n-ok n small =
      rw (
        read_block-ok (entry_block n),
        sector-entry_block n small,
        lt→leb error_any n (omega arith),
      )

  pub read_super-ok : read_super disk s ≡ (ok (super_of s disk), s)
  unfolding read_super
  read_super-ok = rw (read_block-ok 1)

  pub write_entry-ok :
      (e : Entry) (n : ℕ)
      → n < table_limit
      → write_entry e disk n s ≡ (ok tt, put_block s disk (2 + n) (of_entry e))
  unfolding write_entry
  write_entry-ok e n small =
      rw (write_block-ok (entry_block n) (of_entry e), sector-entry_block n small)

-- The state after a write of entry `n`.
abbrev pub put_entry : System → (disk n : ℕ) → Entry → System
put_entry s disk n e = put_block s disk (2 + n) (of_entry e)

pub put_entry-same :
    (s : System) (disk n : ℕ) (e : Entry) → entry_at (put_entry s disk n e) disk n ≡ e
unfolding as_entry
put_entry-same s disk n e = rw (eq→== disk disk refl, eq→== (2 + n) (2 + n) refl) refl

pub put_entry-other :
    (s : System) (disk n m : ℕ) (e : Entry)
    → m ≢ n
    → entry_at (put_entry s disk n e) disk m ≡ entry_at s disk m
put_entry-other s disk n m e ne =
    rw (eq→== disk disk refl, ne→== (2 + m) (2 + n) (omega arith)) refl

pub put_entry-Healthy :
    {s : System} {disk : ℕ} (h : Healthy s disk) (n : ℕ) (e : Entry)
    → Healthy (put_entry s disk n e) disk
put_entry-Healthy h n e = record { present = h.present; reads = h.reads; writes = h.writes }
