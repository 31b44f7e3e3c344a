-- ===== src/Fs/Disk/ReadWrite.antt =====
-- Bytes that are written are read back, and the others are as they were.
use nano_s.Common.{
  subst, ℕ, zero, suc, ◌+◌, ◌≤◌, ◌<◌, ◌≡◌, ◌≢◌, refl, ap, sym, ◌∙◌, List, [], ◌∷◌, ◌++◌, length,
  drop, take, take-append, drop_all, length-append, length-take, length-drop, eq→==, Bool-cases,
  ==→eq, ==→ne, append-nil, arith, ◌⊎◌, inl, inr, ne→==, ◌==◌,
}
use nano_s.Fs.Types.{Block, raw, System, block_size}
use nano_s.Fs.Monad.{ok}
use nano_s.Fs.Disk.{as_bytes, patch, put_block, read_disk, write_disk}
use nano_s.Fs.Disk.Codec.{pad_self}
use nano_s.Fs.Disk.Sectors.{Healthy, block_limit, length-as_bytes, read_disk-ok, write_disk-ok}

patch-suc : (c off : ℕ) (sec bs : List ℕ) → patch (c ∷ sec) (suc off) bs ≡ c ∷ patch sec off bs
unfolding patch
patch-suc c off sec bs = let e : suc off + length bs ≡ suc (off + length bs) = omega arith in rw e

patch-zero : (sec bs : List ℕ) → patch sec 0 bs ≡ bs ++ drop (length bs) sec
unfolding patch
patch-zero sec bs = let e : 0 + length bs ≡ length bs = omega arith in rw e

take-patch :
    (off : ℕ) (sec bs : List ℕ)
    → off + length bs ≤ length sec
    → take (length bs) (drop off (patch sec off bs)) ≡ bs
take-patch zero sec bs h = rw patch-zero (take-append bs _)
take-patch (suc off) [] bs h = absurd (omega arith)
take-patch (suc off) (c ∷ sec) bs h = rw patch-suc (take-patch off sec bs (omega arith))

take-patch_before :
    (at size off : ℕ) (sec bs : List ℕ)
    → at + size ≤ off
    → off ≤ length sec
    → take size (drop at (patch sec off bs)) ≡ take size (drop at sec)
take-patch_before zero zero off sec bs h k = refl
take-patch_before zero (suc size) zero sec bs h k = absurd (omega arith)
take-patch_before zero (suc size) (suc off) [] bs h k = absurd (omega arith)
take-patch_before zero (suc size) (suc off) (c ∷ sec) bs h k =
    rw patch-suc (ap (◌∷◌ c) (take-patch_before zero size off sec bs (omega arith) (omega arith)))
take-patch_before (suc at) size zero sec bs h k = absurd (omega arith)
take-patch_before (suc at) size (suc off) [] bs h k = absurd (omega arith)
take-patch_before (suc at) size (suc off) (c ∷ sec) bs h k =
    rw patch-suc (take-patch_before at size off sec bs (omega arith) (omega arith))

drop-append_past :
    (at : ℕ) (bs sec : List ℕ) → length bs ≤ at → drop at (bs ++ drop (length bs) sec) ≡ drop at sec
drop-append_past at [] sec h = refl
drop-append_past zero (b ∷ bs) sec h = absurd (omega arith)
drop-append_past (suc at) (b ∷ bs) [] h = rw append-nil (drop_all at bs (omega arith))
drop-append_past (suc at) (b ∷ bs) (c ∷ sec) h = drop-append_past at bs sec (omega arith)

drop-patch_past :
    (at off : ℕ) (sec bs : List ℕ)
    → off + length bs ≤ at
    → off ≤ length sec
    → drop at (patch sec off bs) ≡ drop at sec
drop-patch_past at zero sec bs h k = rw patch-zero (drop-append_past at bs sec (omega arith))
drop-patch_past at (suc off) [] bs h k = absurd (omega arith)
drop-patch_past zero (suc off) (c ∷ sec) bs h k = absurd (omega arith)
drop-patch_past (suc at) (suc off) (c ∷ sec) bs h k =
    rw patch-suc (drop-patch_past at off sec bs (omega arith) (omega arith))

take-patch_apart :
    (at size off : ℕ) (sec bs : List ℕ)
    → off + length bs ≤ length sec
    → (at + size ≤ off) ⊎ (off + length bs ≤ at)
    → take size (drop at (patch sec off bs)) ≡ take size (drop at sec)
take-patch_apart at size off sec bs h (inl before) =
    take-patch_before at size off sec bs before (omega arith)
take-patch_apart at size off sec bs h (inr past) =
    ap (take size) (drop-patch_past at off sec bs past (omega arith))

length-patch :
    (off : ℕ) (sec bs : List ℕ)
    → off + length bs ≤ length sec
    → length (patch sec off bs) ≡ length sec
unfolding patch
length-patch off sec bs h = omega (
  arith,
  length-append {0} (take off sec) (bs ++ drop (off + length bs) sec),
  length-append {0} bs (drop (off + length bs) sec),
  length-take {0} off sec,
  length-drop {0} (off + length bs) sec,
)

-- The bytes of a sector that was patched.
pub as_bytes-patch :
    (v : Block) (off : ℕ) (bs : List ℕ)
    → off + length bs ≤ block_size
    → as_bytes (raw (patch (as_bytes v) off bs)) ≡ patch (as_bytes v) off bs
unfolding as_bytes
as_bytes-patch v off bs h = pad_self block_size _ (
    omega (
      arith,
      length-as_bytes v,
      length-patch off (as_bytes v) bs (omega (arith, length-as_bytes v)),
    ))

pub put_block-Healthy :
    {s : System} {disk : ℕ}
    → Healthy s disk
    → (b : ℕ) (v : Block) → Healthy (put_block s disk b v) disk
put_block-Healthy h b v = record { present = h.present; reads = h.reads; writes = h.writes }

pub put_block-same :
    (s : System) (disk b : ℕ) (v : Block) → (put_block s disk b v).blocks disk b ≡ v
put_block-same s disk b v = rw (eq→== disk disk refl, eq→== b b refl)

pub put_block-other :
    (s : System) (disk b c : ℕ) (v : Block)
    → c ≢ b
    → (put_block s disk b v).blocks disk c ≡ s.blocks disk c
put_block-other s disk b c v ne = rw (eq→== disk disk refl, ne→== c b ne)

-- Two ranges of bytes have no byte in common.
abbrev pub Apart : (b off len b' off' len' : ℕ) → Type 0
Apart b off len b' off' len' = (b' ≢ b) ⊎ ((off' + len' ≤ off) ⊎ (off + len ≤ off'))

module _ {s : System} {disk : ℕ} (h : Healthy s disk) (b off : ℕ) (bs : List ℕ)
    (small : b < block_limit) (fits : off + length bs ≤ block_size) (some : 0 < length bs) where
  abbrev written : System
  written = put_block s disk b (raw (patch (as_bytes (s.blocks disk b)) off bs))

  written-Healthy : Healthy written disk
  written-Healthy = put_block-Healthy h b _

  same-block : as_bytes (written.blocks disk b) ≡ patch (as_bytes (s.blocks disk b)) off bs
  same-block = rw (put_block-same s disk b _) (as_bytes-patch (s.blocks disk b) off bs fits)

  abbrev Unchanged : (b' off' size : ℕ) → Type 0
  Unchanged b' off' size =
      take size (drop off' (as_bytes (written.blocks disk b')))
      ≡ take size (drop off' (as_bytes (s.blocks disk b')))

  patch-part : (b' off' size : ℕ) → Apart b off (length bs) b' off' size → Unchanged b' off' size
  patch-part b' off' size (inl ne) =
      ap (λ v. take size (drop off' (as_bytes v))) (put_block-other s disk b b' _ ne)
  patch-part b' off' size (inr apart) = elim (Bool-cases (b' == b)) [
    | inl e ↦
        subst (λ c. Unchanged c off' size) (sym (==→eq b' b e))
          (ap (λ xs. take size (drop off' xs)) same-block
            ∙ take-patch_apart off' size off (as_bytes (s.blocks disk b)) bs
                (omega (arith, length-as_bytes (s.blocks disk b))) apart)
    | inr ne ↦
        ap (λ v. take size (drop off' (as_bytes v))) (put_block-other s disk b b' _ (==→ne b' b ne))
  ]

  -- write_disk of some bytes within one block makes read_disk return them there.
  pub read_disk-write_disk :
      (read_disk disk b off (length bs) (write_disk disk b off bs s).1).0 ≡ ok bs
  read_disk-write_disk =
      rw
        (
          write_disk-ok h b off bs small fits some,
          read_disk-ok written-Healthy b off (length bs) small fits (omega arith),
          same-block,
        )
        (ap ok (
          take-patch off (as_bytes (s.blocks disk b)) bs
            (omega (arith, length-as_bytes (s.blocks disk b)))))

  -- What read_disk returns of bytes that have none in common with those written is what it
  -- returned before the write.
  read_disk-write_disk-Apart :
      (b' off' size : ℕ)
      → b' < block_limit
      → off' + size ≤ block_size
      → off' < block_size
      → Apart b off (length bs) b' off' size
      → (read_disk disk b' off' size (write_disk disk b off bs s).1).0
        ≡ (read_disk disk b' off' size s).0
  read_disk-write_disk-Apart b' off' size small' fits' inside' apart =
      rw
        (
          write_disk-ok h b off bs small fits some,
          read_disk-ok written-Healthy b' off' size small' fits' inside',
          read_disk-ok h b' off' size small' fits' inside',
        )
        (ap ok (patch-part b' off' size apart))
