-- ===== src/Fs/File/Content/Read.antt =====
-- The bytes that the loop of fs_read_file of source/fs.c returns.
use nano_s.Common.{
  ℕ, zero, suc, ◌+◌, ◌-◌, ◌*◌, ◌/◌, ◌%◌, ◌≤◌, ◌<◌, ◌≡◌, refl, sym, ap, ◌∙◌, List, [], ◌++◌, take,
  drop, length, length-take, length-drop, length-append, get_or, ◌==◌, ltb, min, arith, Bool-cases,
  inl, inr, ltb→lt, ltb→le, ==→eq, ==→ne,
}
use nano_s.Fs.Types.{Entry, System, block_size}
use nano_s.Fs.Monad.{Res, ok, pure, and_then}
use nano_s.Fs.Disk.{as_bytes}
use nano_s.Fs.Disk.Sectors.{Healthy, read_disk-ok, length-as_bytes}
use nano_s.Fs.Refs.{ref_at}
use nano_s.Fs.Refs.Single.{first_entry}
use nano_s.Fs.File.{read_loop}
use nano_s.Fs.File.Content.{content, IsMapped, get_or-take, get_or-drop, get_or-append}

-- The bytes returned are those of the file from position `at` on, and the state is unchanged.
pub record ReadsAt (s : System) (disk : ℕ) (e : Entry) (at len : ℕ) (out : Res (List ℕ) × System)
    : Type 0 where
  pub bytes : List ℕ
  pub result : out ≡ (ok bytes, s)
  pub count : length bytes ≡ len
  pub same : (i : ℕ) → i < len → get_or bytes i 0 ≡ content s disk e (at + i)

module _ {s : System} {disk : ℕ} (h : Healthy s disk) (e : Entry) (n nblocks : ℕ)
    (m : IsMapped e nblocks) where
  abbrev first_part : (block off count : ℕ) → List ℕ
  first_part block off count = take count (drop off (as_bytes (s.blocks disk (ref_at e block))))

  length-first_part :
      (block off count : ℕ) → off + count ≤ block_size → length (first_part block off count) ≡ count
  length-first_part block off count fits = omega (
    arith,
    length-take count (drop off (as_bytes (s.blocks disk (ref_at e block)))),
    length-drop off (as_bytes (s.blocks disk (ref_at e block))),
    length-as_bytes (s.blocks disk (ref_at e block)),
  )

  get_or-first_part :
      (block off count i : ℕ)
      → off + count ≤ block_size
      → i < count
      → get_or (first_part block off count) i 0 ≡ content s disk e (block * block_size + off + i)
  get_or-first_part block off count i fits l =
      let q : (block * 512 + off + i) / 512 ≡ block = omega arith in
      let r : (block * 512 + off + i) % 512 ≡ off + i = omega arith in
      rw (q, r) (get_or-take count i _ l ∙ get_or-drop off i _)

  append-ReadsAt :
      (block off left count : ℕ) {out : Res (List ℕ) × System}
      → 0 < left
      → off + count ≤ block_size
      → off < block_size
      → count ≡ min (block_size - off) left
      → ReadsAt s disk e ((block + 1) * block_size + 0) (left - count) out
      → ReadsAt s disk e
          (block * block_size + off)
          left
          (and_then out (λ rest. pure (first_part block off count ++ rest)))
  append-ReadsAt block off left count some fits o c rest =
      let len = length-first_part block off count fits in
      rw rest.result (record {
        bytes = first_part block off count ++ rest.bytes;
        result = refl;
        count = omega (arith, length-append (first_part block off count) rest.bytes, rest.count);
        same = λ i l.
            rw (get_or-append (first_part block off count) rest.bytes i, len)
              (elim (Bool-cases (ltb i count)) [
                | inl here ↦
                    rw here (get_or-first_part block off count i fits (ltb→lt i count here))
                | inr later ↦
                    let p : (block + 1) * 512 + 0 + (i - count) ≡ block * 512 + off + i =
                      omega (arith, ltb→le i count later) in
                    rw later (
                      rest.same (i - count) (omega (arith, ltb→le i count later))
                      ∙ ap (content s disk e) p)
              ]);
      })

  pub read_loop-ReadsAt :
      (fuel block off left : ℕ)
      → left ≤ fuel
      → off < block_size
      → block * block_size + off + left ≤ nblocks * block_size
      → ReadsAt s disk e
          (block * block_size + off)
          left
          (read_loop fuel disk (e, n) block off left s)
  unfolding read_loop
  read_loop-ReadsAt zero block off left f o b =
      let z : left ≡ 0 = omega arith in
      record { bytes = []; result = refl; count = sym z; same = λ i l. absurd (omega arith) }
  read_loop-ReadsAt (suc fuel) block off left f o b = elim (Bool-cases (left == 0)) [
    | inl z ↦ rw z (record {
      bytes = [];
      result = refl;
      count = sym (==→eq left 0 z);
      same = λ i l. absurd (omega (arith, ==→eq left 0 z));
    })
    | inr nz ↦
        let nz' : 0 < left = omega (arith, ==→ne left 0 nz) in
        let count = min (512 - off) left in
        let fits : off + count ≤ 512 = omega arith in
        let inside : block < nblocks = omega arith in
        let i : block % 120 ≡ block = omega (arith, m.few) in
        rw
          (
            nz,
            first_entry disk n block e s (omega (arith, m.few)),
            i,
            read_disk-ok h (ref_at e block) off count (m.below block inside) (omega arith) o,
          )
          (append-ReadsAt block off left count nz' fits o refl (
            read_loop-ReadsAt fuel (block + 1) 0 (left - count) (omega arith) (omega arith)
              (omega arith)))
  ]
