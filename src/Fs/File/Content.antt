-- ===== src/Fs/File/Content.antt =====
-- The bytes of a file that fits one entry, by position (fs_read_file and fs_write_file of
-- source/fs.c).
pub mod Read
pub mod Write
pub mod RoundTrip
use nano_s.Common.{
  ℕ, zero, suc, ◌+◌, ◌-◌, ◌*◌, ◌/◌, ◌%◌, ◌≤◌, ◌<◌, ◌≡◌, ◌≢◌, refl, ap, ap₂, ◌∙◌, Bool, true, false,
  ◌&&◌, List, [], ◌∷◌, ◌++◌, take, drop, length, get_or, ◌==◌, ltb, leb, if◌then◌else◌, arith,
  length-take, Bool-cases, inl, inr, ltb→lt, ltb→le, lt→leb, le→leb,
}
use nano_s.Fs.Types.{Entry, System, block_size, sfs_entryrefs}
use nano_s.Fs.Disk.{as_bytes, patch}
use nano_s.Fs.Disk.Sectors.{block_limit}
use nano_s.Fs.Refs.{ref_at}

-- Byte `p` of the file.
abbrev pub content : System → (disk : ℕ) → Entry → ℕ → ℕ
content s disk e p =
    get_or (as_bytes (s.blocks disk (ref_at e (p / block_size)))) (p % block_size) 0

-- The first `nblocks` references are blocks of their own, behind the superblock.
pub record IsMapped (e : Entry) (nblocks : ℕ) : Type 0 where
  pub few : nblocks ≤ sfs_entryrefs
  pub above : (k : ℕ) → k < nblocks → 1 < ref_at e k
  pub below : (k : ℕ) → k < nblocks → ref_at e k < block_limit
  pub own : (k l : ℕ) → k < nblocks → l < nblocks → k ≢ l → ref_at e k ≢ ref_at e l

pub get_or-take : (n i : ℕ) (xs : List ℕ) → i < n → get_or (take n xs) i 0 ≡ get_or xs i 0
get_or-take zero i xs h = absurd (omega arith)
get_or-take (suc n) i [] h = refl
get_or-take (suc n) zero (x ∷ xs) h = refl
get_or-take (suc n) (suc i) (x ∷ xs) h = get_or-take n i xs (omega arith)

suc-plus : (n i : ℕ) → suc (n + i) ≡ suc n + i
suc-plus n i = omega arith

pub get_or-drop : (n i : ℕ) (xs : List ℕ) → get_or (drop n xs) i 0 ≡ get_or xs (n + i) 0
get_or-drop zero i xs = ap (λ k. get_or xs k 0) (omega arith)
get_or-drop (suc n) i [] = refl
get_or-drop (suc n) i (x ∷ xs) = get_or-drop n i xs ∙ ap (λ k. get_or (x ∷ xs) k 0) (suc-plus n i)

pub get_or-append :
    (xs ys : List ℕ) (i : ℕ)
    → get_or (xs ++ ys) i 0
      ≡ (if ltb i (length xs) then get_or xs i 0 else get_or ys (i - length xs) 0)
get_or-append [] ys i = ground arith
get_or-append (x ∷ xs) ys zero = ground arith
get_or-append (x ∷ xs) ys (suc i) = get_or-append xs ys i ∙ (ground arith)

pub list_ext :
    (xs ys : List ℕ)
    → length xs ≡ length ys
    → ((i : ℕ) → i < length xs → get_or xs i 0 ≡ get_or ys i 0)
    → xs ≡ ys
list_ext [] [] len h = refl
list_ext [] (y ∷ ys) len h = absurd (omega arith)
list_ext (x ∷ xs) [] len h = absurd (omega arith)
list_ext (x ∷ xs) (y ∷ ys) len h =
    ap₂ (◌∷◌) (h 0 (omega arith)) (list_ext xs ys (omega arith) (λ i l. h (suc i) (omega arith)))

pub get_or-patch :
    (off i : ℕ) (sec bs : List ℕ)
    → off + length bs ≤ length sec
    → get_or (patch sec off bs) i 0
      ≡ (if leb off i && ltb i (off + length bs) then get_or bs (i - off) 0 else get_or sec i 0)
unfolding patch
get_or-patch off i sec bs fits =
    let head : length (take off sec) ≡ off = omega (arith, length-take off sec) in
    rw
      (
        get_or-append (take off sec) (bs ++ drop (off + length bs) sec) i,
        head,
        get_or-append bs (drop (off + length bs) sec) (i - off),
        get_or-drop (off + length bs) (i - off - length bs) sec,
      )
      (elim (Bool-cases (ltb i off)) [
        | inl before ↦
            let out : leb off i ≡ false = lt→leb off i (ltb→lt i off before) in
            rw (before, out) (get_or-take off i sec (ltb→lt i off before))
        | inr behind ↦
            let from : leb off i ≡ true = le→leb off i (ltb→le i off behind) in
            rw (behind, from)
              (elim (Bool-cases (ltb i (off + length bs))) [
                | inl within ↦
                    let w : ltb (i - off) (length bs) ≡ true =
                      ground (arith, ltb→lt i _ within, ltb→le i off behind) in
                    rw (within, w)
                | inr past ↦
                    let w : ltb (i - off) (length bs) ≡ false =
                      ground (arith, ltb→le i _ past, ltb→le i off behind) in
                    let k : off + length bs + (i - off - length bs) ≡ i =
                      omega (arith, ltb→le i _ past, ltb→le i off behind) in
                    rw (past, w, k)
              ])
      ])
