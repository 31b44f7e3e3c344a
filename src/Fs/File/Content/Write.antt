-- ===== src/Fs/File/Content/Write.antt =====
-- The bytes that the writing loop of fs_write_file of source/fs.c changes.
use nano_s.Common.{
  ℕ, zero, suc, ◌+◌, ◌-◌, ◌*◌, ◌/◌, ◌%◌, ◌≤◌, ◌<◌, ◌≡◌, ◌≢◌, refl, ap, ◌∙◌, false, ◌&&◌, List, take,
  drop, length, length-take, length-drop, get_or, ◌==◌, ltb, leb, if◌then◌else◌, min, arith,
  Bool-cases, inl, inr, ==→eq, ==→ne, lt→ltb, le→ltb, lt→leb, le→leb, leb→le, leb→lt,
}
use nano_s.Fs.Types.{Entry, System, raw, block_size, sfs_entryrefs}
use nano_s.Fs.Monad.{Res, ok}
use nano_s.Fs.Disk.{as_bytes, patch, put_block}
use nano_s.Fs.Disk.Sectors.{Healthy, write_disk-ok, length-as_bytes}
use nano_s.Fs.Disk.ReadWrite.{put_block-Healthy, put_block-same, put_block-other, as_bytes-patch}
use nano_s.Fs.Table.{needed_blocks}
use nano_s.Fs.Refs.{ref_at}
use nano_s.Fs.File.{seek_loop, write_loop}
use nano_s.Fs.File.Content.{content, IsMapped, get_or-take, get_or-drop, get_or-patch}

-- The byte of a file at `p` after a write of `bs` at `at`.
abbrev pub overwritten : (at : ℕ) → List ℕ → (ℕ → ℕ) → ℕ → ℕ
overwritten at bs old p = if leb at p && ltb p (at + length bs) then get_or bs (p - at) 0 else old p

seek-first :
    (disk : ℕ) (e : Entry) (offset block : ℕ) (s : System)
    → block < sfs_entryrefs
    → seek_loop block disk e offset block s ≡ (ok (e, offset, block), s)
unfolding seek_loop
seek-first disk e offset zero s h = refl
seek-first disk e offset (suc block) s h = rw (lt→ltb (suc block) sfs_entryrefs h) refl

block-of : (offset : ℕ) → needed_blocks (offset + 1) - 1 ≡ offset / block_size
unfolding needed_blocks
block-of offset = ground arith

-- A write within one block, and the write of what is behind it.
overwritten-split :
    (at k : ℕ) (bs : List ℕ) (old : ℕ → ℕ) (p : ℕ)
    → k ≤ length bs
    → overwritten (at + k) (drop k bs) (overwritten at (take k bs) old) p ≡ overwritten at bs old p
overwritten-split at k bs old p h =
    let a : length (take k bs) ≡ k = omega (arith, length-take k bs) in
    let b : length (drop k bs) ≡ length bs - k = length-drop k bs in
    rw (a, b, get_or-drop k (p - (at + k)) bs)
      (elim (Bool-cases (leb (at + k) p)) [
        | inl past ↦
            let l = leb→le (at + k) p past in
            let i : k + (p - (at + k)) ≡ p - at = omega arith in
            let end : at + k + (length bs - k) ≡ at + length bs = omega arith in
            rw (past, i, end, le→leb at p (omega arith), le→ltb p (at + k) (omega arith)) refl
        | inr early ↦
            let l = leb→lt (at + k) p early in
            rw (early, lt→ltb p (at + k) l, lt→ltb p (at + length bs) (omega arith))
              (elim (Bool-cases (leb at p)) [
                | inl after ↦
                    rw after (get_or-take k (p - at) bs (omega (arith, leb→le at p after)))
                | inr before ↦ rw before refl
              ])
      ])

leb-offsets :
    (at p : ℕ)
    → p / block_size ≡ at / block_size
    → leb (at % block_size) (p % block_size) ≡ leb at p
leb-offsets at p e = ground arith

ltb-offsets :
    (at p len : ℕ)
    → p / block_size ≡ at / block_size
    → ltb (p % block_size) (at % block_size + len) ≡ ltb p (at + len)
ltb-offsets at p len e = ground arith

overwritten-none : (at p len : ℕ) → len ≡ 0 → (leb at p && ltb p (at + len)) ≡ false
overwritten-none at p len z = ground arith

outside :
    (at p len : ℕ)
    → p / block_size ≢ at / block_size
    → at % block_size + len ≤ block_size
    → (leb at p && ltb p (at + len)) ≡ false
outside at p len ne fits = ground arith

module _ {s : System} {disk : ℕ} (h : Healthy s disk) (e : Entry) (nblocks : ℕ)
    (m : IsMapped e nblocks) where
  block-overwritten :
      (at : ℕ) (bs : List ℕ) (p : ℕ)
      → at / block_size < nblocks
      → p / block_size < nblocks
      → at % block_size + length bs ≤ block_size
      → let b = ref_at e (at / block_size) in
        content
          (put_block s disk b (raw (patch (as_bytes (s.blocks disk b)) (at % block_size) bs)))
          disk
          e
          p
        ≡ overwritten at bs (content s disk e) p
  block-overwritten at bs p inside inside' fits = elim (Bool-cases (p / 512 == at / 512)) [
    | inl here ↦
        let q = ==→eq (p / 512) (at / 512) here in
        let b = ref_at e (at / block_size) in
        let d : p % 512 - at % 512 ≡ p - at = omega arith in
        rw
          (
            q,
            put_block-same s disk b (raw (patch (as_bytes (s.blocks disk b)) (at % block_size) bs)),
            as_bytes-patch (s.blocks disk b) (at % block_size) bs fits,
            get_or-patch (at % block_size) (p % block_size) (as_bytes (s.blocks disk b)) bs
                (omega (arith, length-as_bytes (s.blocks disk b))),
            leb-offsets at p q,
            ltb-offsets at p (length bs) q,
            d,
          )
          refl
    | inr other ↦
        let ne = ==→ne (p / 512) (at / 512) other in
        let b = ref_at e (at / block_size) in
        let apart = m.own (p / 512) (at / 512) inside' inside ne in
        rw
          (
            outside at p (length bs) ne fits,
            put_block-other s disk b (ref_at e (p / 512))
                (raw (patch (as_bytes (s.blocks disk b)) (at % block_size) bs)) apart,
          )
          refl
  ]

-- The write succeeds; the bytes of the file are those written, and the old ones elsewhere; the
-- blocks that are not the file's are as they were.
pub record Writes (s : System) (disk : ℕ) (e : Entry) (nblocks at : ℕ) (bs : List ℕ)
    (out : Res (Unit {0}) × System) : Type 0 where
  pub result : out.0 ≡ ok tt
  pub healthy : Healthy out.1 disk
  pub bytes :
      (p : ℕ)
      → p / block_size < nblocks
      → content out.1 disk e p ≡ overwritten at bs (content s disk e) p
  pub kept :
      (b : ℕ) → ((k : ℕ) → k < nblocks → b ≢ ref_at e k) → out.1.blocks disk b ≡ s.blocks disk b

Writes-none :
    {s : System} {disk : ℕ} (h : Healthy s disk) (e : Entry) (nblocks at : ℕ) (bs : List ℕ)
    → length bs ≡ 0
    → Writes s disk e nblocks at bs (ok tt, s)
Writes-none h e nblocks at bs z = record {
  result = refl;
  healthy = h;
  bytes = λ p l. rw (overwritten-none at p (length bs) z) refl;
  kept = λ b ne. refl;
}

module _ (disk : ℕ) (e : Entry) (nblocks : ℕ) (m : IsMapped e nblocks) where
  abbrev after : System → ℕ → List ℕ → System
  after s at bs =
      let b = ref_at e (at / block_size) in
      put_block s disk b (raw (patch (as_bytes (s.blocks disk b)) (at % block_size) bs))

  -- A write within a block, then the others.
  Writes-then :
      {s : System} (h : Healthy s disk) (at k : ℕ) (bs : List ℕ) {out : Res (Unit {0}) × System}
      → at / block_size < nblocks
      → k ≤ length bs
      → at % block_size + k ≤ block_size
      → Writes (after s at (take k bs)) disk e nblocks (at + k) (drop k bs) out
      → Writes s disk e nblocks at bs out
  Writes-then {s} h at k bs inside some fits w =
      let len : length (take k bs) ≡ k = omega (arith, length-take k bs) in
      record {
        result = w.result;
        healthy = w.healthy;
        bytes = λ p l.
            w.bytes p l
            ∙ ap
                (λ x.
                  if leb (at + k) p && ltb p (at + k + length (drop k bs))
                  then get_or (drop k bs) (p - (at + k)) 0
                  else x)
                (block-overwritten h e nblocks m at (take k bs) p inside l (omega arith))
            ∙ overwritten-split at k bs (content s disk e) p some;
        kept = λ b ne.
            w.kept b ne
            ∙ put_block-other s disk (ref_at e (at / block_size)) b _ (ne (at / block_size) inside);
      }

  pub write_loop-Writes :
      (fuel at : ℕ) (bs : List ℕ) {s : System}
      → Healthy s disk
      → length bs ≤ fuel
      → at + length bs ≤ nblocks * block_size
      → Writes s disk e nblocks at bs (write_loop fuel disk e at bs s)
  unfolding write_loop
  write_loop-Writes zero at bs h f fits = Writes-none h e nblocks at bs (omega arith)
  write_loop-Writes (suc fuel) at bs {s} h f fits = elim (Bool-cases (length bs == 0)) [
    | inl z ↦ rw z (Writes-none h e nblocks at bs (==→eq (length bs) 0 z))
    | inr nz ↦
        let some : 0 < length bs = omega (arith, ==→ne (length bs) 0 nz) in
        let k = min (length bs) (512 - at % 512) in
        let c = at / 512 in
        let inside : c < nblocks = omega arith in
        let len : length (take k bs) ≡ k = omega (arith, length-take k bs) in
        rw
          (
            nz,
            block-of at,
            seek-first disk e at c s (omega (arith, m.few)),
            lt→leb (ref_at e c) 1 (m.above c inside),
            write_disk-ok h (ref_at e c) (at % 512) (take k bs) (m.below c inside) (omega arith)
                (omega arith),
          )
          (Writes-then h at k bs inside (omega arith) (omega arith) (
            write_loop-Writes fuel (at + k) (drop k bs) (put_block-Healthy h _ _)
              (omega (arith, length-drop k bs)) (omega (arith, length-drop k bs))))
  ]
