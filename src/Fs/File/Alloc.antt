-- ===== src/Fs/File/Alloc.antt =====
-- The allocation of blocks for a file that grows (the loop of fs_write_file).
use nano_s.Common.{
  ℕ, zero, suc, ◌+◌, ◌≤◌, ◌<◌, ◌≡◌, refl, length, arith, length-set, get_or-set_self, get_or-set_ne,
  lt→ltb, Bool-cases, ◌==◌, inl, inr, ==→eq, ==→ne,
}
use nano_s.Fs.Types.{Entry, System, sfs_entryrefs}
use nano_s.Fs.Monad.{ok}
use nano_s.Fs.Table.{find_free_block}
use nano_s.Fs.Refs.{ref_at, set_ref}
use nano_s.Fs.File.{skip_loop, alloc_loop}

-- `t'` is `t` with the references from `lo` on, below `hi`, set to `b`.
pub record FilledWith (b lo hi : ℕ) (t t' : Entry) : Type 0 where
  pub filled : (i : ℕ) → lo ≤ i → i < hi → ref_at t' i ≡ b
  pub below : (i : ℕ) → i < lo → ref_at t' i ≡ ref_at t i
  pub above : (i : ℕ) → hi ≤ i → ref_at t' i ≡ ref_at t i
  pub size : t'.size ≡ t.size
  pub next : t'.next ≡ t.next

skip_loop-small :
    (fuel disk : ℕ) (t : Entry) (n block : ℕ) (s : System)
    → block < sfs_entryrefs
    → skip_loop fuel disk (t, n) block s ≡ (ok (t, n, block), s)
unfolding skip_loop
skip_loop-small zero disk t n block s h = refl
skip_loop-small (suc fuel) disk t n block s h = rw (lt→ltb block sfs_entryrefs h)

FilledWith-set :
    (b lo hi : ℕ) (t t' : Entry)
    → lo < length t.ref
    → lo < hi
    → FilledWith b (lo + 1) hi (set_ref t lo b) t'
    → FilledWith b lo hi t t'
FilledWith-set b lo hi t t' inside h f = record {
  filled = λ i l u. elim (Bool-cases (lo == i)) [
    | inl e ↦
        rw (← ==→eq lo i e)
          (omega (arith, f.below lo (omega arith), get_or-set_self t.ref lo b 0 inside))
    | inr e ↦ f.filled i (omega (arith, ==→ne lo i e)) u
  ];
  below = λ i u. omega (arith, f.below i (omega arith), get_or-set_ne t.ref lo i b 0 (omega arith));
  above = λ i l. omega (arith, f.above i l, get_or-set_ne t.ref lo i b 0 (omega arith));
  size = f.size;
  next = f.next;
}

-- Within one entry, each reference that is allocated in one call is the block that find_free_block
-- returns in the state before it: the entry is written only after the loop, so the search finds the
-- same block each time. The other references keep their values.
pub alloc_loop-FilledWith :
    (more disk : ℕ) (t : Entry) (n block b : ℕ) (s : System)
    → find_free_block disk s ≡ (ok b, s)
    → block + more ≤ sfs_entryrefs
    → length t.ref ≡ sfs_entryrefs
    → (t' : Entry) × (alloc_loop more disk (t, n) block s ≡ (ok (t', n), s))
      × FilledWith b block (block + more) t t'
unfolding alloc_loop
alloc_loop-FilledWith zero disk t n block b s free fits len = (
  t,
  refl,
  record {
    filled = λ i l u. absurd (omega arith);
    below = λ i u. refl;
    above = λ i l. refl;
    size = refl;
    next = refl;
  },
)
alloc_loop-FilledWith (suc more) disk t n block b s free fits len =
    let t1 = set_ref t block b in
    let (t', run, f) =
      alloc_loop-FilledWith more disk t1 n (block + 1) b s free (omega arith)
        (omega (arith, length-set t.ref block b)) in
    let same : block + suc more ≡ block + 1 + more = omega arith in
    (
      t',
      rw (skip_loop-small block disk t n block s (omega arith), free) run,
      rw same (FilledWith-set b block (block + 1 + more) t t' (omega arith) (omega arith) f),
    )
