-- ===== src/Fs/Tests/Contents.antt =====
-- The theorems on the contents of files at concrete inputs.
use nano_s.Common.{
  ℕ, zero, suc, ◌+◌, ◌≡◌, ◌≢◌, ◌<◌, refl, List, [], ◌∷◌, replicate, length, get_or, arith,
}
use nano_s.Fs.Types.{Entry, t_file}
use nano_s.Fs.Monad.{ok}
use nano_s.Fs.Table.{find_free_block}
use nano_s.Fs.Chain.{zero_entry}
use nano_s.Fs.Refs.{ref_at}
use nano_s.Fs.File.{write_loop, read_loop, alloc_loop}
use nano_s.Fs.File.Alloc.{FilledWith, alloc_loop-FilledWith}
use nano_s.Fs.File.Content.{content, IsMapped}
use nano_s.Fs.File.Content.Write.{overwritten}
use nano_s.Fs.File.Content.RoundTrip.{read_loop-write_loop, write_loop-other}
use nano_s.Fs.Sample.{sample}
use nano_s.Fs.Tests.{a_file, sample-Healthy}

a_file-above : (k : ℕ) → k < 2 → 1 < ref_at a_file k
a_file-above zero h = omega arith
a_file-above (suc zero) h = omega arith
a_file-above (suc (suc k)) h = absurd (omega arith)

a_file-below : (k : ℕ) → k < 2 → ref_at a_file k < 8388608
a_file-below zero h = omega arith
a_file-below (suc zero) h = omega arith
a_file-below (suc (suc k)) h = absurd (omega arith)

a_file-own : (k l : ℕ) → k < 2 → l < 2 → k ≢ l → ref_at a_file k ≢ ref_at a_file l
a_file-own zero zero h h' ne = absurd (ne refl)
a_file-own zero (suc zero) h h' ne = omega arith
a_file-own (suc zero) zero h h' ne = omega arith
a_file-own (suc zero) (suc zero) h h' ne = absurd (ne refl)
a_file-own zero (suc (suc l)) h h' ne = absurd (omega arith)
a_file-own (suc zero) (suc (suc l)) h h' ne = absurd (omega arith)
a_file-own (suc (suc k)) l h h' ne = absurd (omega arith)

a_file-IsMapped : IsMapped a_file 2
a_file-IsMapped = record {
  few = omega arith;
  above = a_file-above;
  below = a_file-below;
  own = a_file-own;
}

-- Three bytes over the border of two blocks.
abbrev bytes : List ℕ
bytes = 1 ∷ 2 ∷ 3 ∷ []

read_loop-write_loop_example :
    ((write_loop 3 0 a_file 511 bytes sample).0 ≡ ok tt)
    × (new : List ℕ) × ((read_loop 5 0
          (a_file, 1)
          0
          510
          5
          (write_loop 3 0 a_file 511 bytes sample).1).0
        ≡ ok new)
    × (length new ≡ 5)
    × ((i : ℕ) → i < 5 → get_or new i 0 ≡ overwritten 511 bytes (content sample 0 a_file) (510 + i))
read_loop-write_loop_example =
    read_loop-write_loop sample-Healthy a_file 1 2 a_file-IsMapped 511 bytes (omega arith) 510 5
      (omega arith)

abbrev other_file : Entry
other_file = record zero_entry { flags = t_file; size = 10; ref = 8 ∷ replicate 119 0 }

other_file-apart : (k : ℕ) → k < 2 → ref_at other_file 0 ≢ ref_at a_file k
other_file-apart zero h = omega arith
other_file-apart (suc zero) h = omega arith
other_file-apart (suc (suc k)) h = absurd (omega arith)

write_loop-other_example :
    content (write_loop 3 0 a_file 511 bytes sample).1 0 other_file 4
    ≡ content sample 0 other_file 4
write_loop-other_example =
    write_loop-other sample-Healthy a_file 1 2 a_file-IsMapped 511 bytes (omega arith) other_file 4
      other_file-apart

-- A file of three blocks is given the same block three times.
free_block_lem : find_free_block 0 sample ≡ (ok 6, sample)
unfolding find_free_block
free_block_lem = refl

alloc_loop-FilledWith_example :
    (t' : Entry) × (alloc_loop 3 0 (zero_entry, 1) 0 sample ≡ (ok (t', 1), sample))
    × FilledWith 6 0 3 zero_entry t'
alloc_loop-FilledWith_example =
    alloc_loop-FilledWith 3 0 zero_entry 1 0 6 sample free_block_lem (omega arith) refl
