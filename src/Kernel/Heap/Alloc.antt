-- ===== src/Kernel/Heap/Alloc.antt =====
-- What heap_alloc returns and when it fails.
use nano_s.Common.{
  ℕ, suc, ◌+◌, ◌-◌, ◌*◌, ◌≤◌, ◌<◌, ◌≡◌, ◌≢◌, refl, ap, ◌∙◌, true, false, [], ◌∷◌, length, Option,
  none, some, arith, Bool-cases, inl, inr, ◌⊎◌, ==→eq, ==→ne, ne→==, ◌==◌, leb, leb→le, leb→lt,
}
use nano_s.Kernel.Heap.{
  HeapBlock, Heap, block_of, heapaddr, heap_block_size, null, blocks_for, find_run, mark,
  heap_alloc,
}
use nano_s.Kernel.Heap.Marks.{at, length-mark, mark_outside, mark_inside}

-- `bs` is what is left of `h` from index `i` on.
record IsSuffix (h : Heap) (i : ℕ) (bs : Heap) : Type 0 where
  len : length h ≡ i + length bs
  rest : (k : ℕ) → at h (i + k) ≡ at bs k

IsSuffix-tail :
    (h : Heap) (i : ℕ) (b : HeapBlock) (bs : Heap) → IsSuffix h i (b ∷ bs) → IsSuffix h (i + 1) bs
IsSuffix-tail h i b bs s = record {
  len = omega (arith, s.len);
  rest = λ k. ap (at h) (omega arith) ∙ s.rest (suc k);
}

IsSuffix-head : (h : Heap) (i : ℕ) (b : HeapBlock) (bs : Heap) → IsSuffix h i (b ∷ bs) → at h i ≡ b
IsSuffix-head h i b bs s = ap (at h) (omega arith) ∙ s.rest 0

-- The blocks from `k` on, `n` of them, are free.
abbrev pub AllFree : Heap → (k n : ℕ) → Type 0
AllFree h k n = (m : ℕ) → k ≤ m → m < k + n → (at h m).used ≡ false

-- One of the blocks from `k` on, `n` of them, is in use.
abbrev pub SomeUsed : Heap → (k n : ℕ) → Type 0
SomeUsed h k n = (m : ℕ) × (k ≤ m) × (m < k + n) × ((at h m).used ≡ true)

-- What the search tells.
abbrev Found : Heap → (n i nf : ℕ) → Option ℕ → Type 0
Found h n i nf (some j) = (j < length h) × (n ≤ j + 1) × AllFree h (j + 1 - n) n
Found h n i nf none = (k : ℕ) → i ≤ k + nf → k + n ≤ length h → SomeUsed h k n

-- A block in use at `i` breaks each run over it.
Found-restart :
    (h : Heap) (n i nf : ℕ)
    → nf < n
    → (at h i).used ≡ true
    → (r : Option ℕ) → Found h n (i + 1) 0 r
    → Found h n i nf r
Found-restart h n i nf lt used (some j) f = f
Found-restart h n i nf lt used none f = λ k a b. elim (Bool-cases (leb k i)) [
  | inl e ↦ (i, leb→le k i e, omega (arith, leb→le k i e), used)
  | inr e ↦ f k (omega (arith, leb→lt k i e)) b
]

Found-extend :
    (h : Heap) (n i nf : ℕ) (r : Option ℕ) → Found h n (i + 1) (nf + 1) r → Found h n i nf r
Found-extend h n i nf (some j) f = f
Found-extend h n i nf none f = λ k a b. f k (omega arith) b

-- The blocks before `i` that are free in a row, and block `i`.
run-extend :
    (h : Heap) (i nf : ℕ)
    → (at h i).used ≡ false
    → ((m : ℕ) → i ≤ m + nf → m < i → (at h m).used ≡ false)
    → (m : ℕ) → i ≤ m + nf
    → m < i + 1
    → (at h m).used ≡ false
run-extend h i nf unused free m a b = elim (Bool-cases (m == i)) [
  | inl e ↦ rw (==→eq m i e) unused
  | inr e ↦ free m a (omega (arith, ==→ne m i e))
]

find_run-Found :
    (h : Heap) (n : ℕ) (bs : Heap) (i nf : ℕ)
    → IsSuffix h i bs
    → nf < n
    → nf ≤ i
    → ((m : ℕ) → i ≤ m + nf → m < i → (at h m).used ≡ false)
    → Found h n i nf (find_run n bs i nf)
unfolding find_run
find_run-Found h n [] i nf s lt le free = λ k a b. absurd (omega (arith, s.len))
find_run-Found h n (b ∷ bs) i nf s lt le free =
    let here = IsSuffix-head h i b bs s in
    let tail = IsSuffix-tail h i b bs s in
    elim (Bool-cases b.used) [
      | inl used ↦ rw used (
          Found-restart h n i nf lt (rw here used) (find_run n bs (i + 1) 0) (
            find_run-Found h n bs (i + 1) 0 tail (omega arith) (omega arith)
              (λ m a c. absurd (omega arith))))
      | inr unused ↦
          let free' = run-extend h i nf (rw here unused) free in
          rw unused (elim (Bool-cases (leb n (nf + 1))) [
            | inl done ↦ rw done (
              omega (arith, s.len),
              omega (arith, leb→le n (nf + 1) done),
              λ m a c.
                  free' m (omega (arith, leb→le n (nf + 1) done))
                    (omega (arith, leb→le n (nf + 1) done)),
            )
            | inr more ↦ rw more (
                Found-extend h n i nf (find_run n bs (i + 1) (nf + 1)) (
                  find_run-Found h n bs (i + 1) (nf + 1) tail (leb→lt n (nf + 1) more) (omega arith)
                    (λ m a c. free' m (omega arith) c)))
          ])
    ]

-- The address of the block with index `k`.
abbrev pub address : ℕ → ℕ
address k = heapaddr + k * heap_block_size

-- The blocks from `k` on, `n` of them, were free; now they are in use for the address of the first,
-- and the others are as they were.
pub record Allocated (h : Heap) (k n : ℕ) (h' : Heap) : Type 0 where
  pub fits : k + n ≤ length h
  pub was_free : AllFree h k n
  pub len : length h' ≡ length h
  pub inside : (m : ℕ) → k ≤ m → m < k + n → at h' m ≡ block_of (address k)
  pub below : (m : ℕ) → m < k → at h' m ≡ at h m
  pub above : (m : ℕ) → k + n ≤ m → at h' m ≡ at h m

mark-Allocated :
    (h : Heap) (k n : ℕ)
    → k + n ≤ length h
    → AllFree h k n
    → Allocated h k n (mark n k (address k) h)
mark-Allocated h k n fits free = record {
  fits = fits;
  was_free = free;
  len = length-mark n k (address k) h;
  inside = λ m a b. mark_inside n k (address k) h m fits a b;
  below = λ m a. (mark_outside n k (address k) h m).0 a;
  above = λ m a. (mark_outside n k (address k) h m).1 a;
}

-- What a call of heap_alloc for `n` blocks gives.
abbrev pub Outcome : Heap → (n : ℕ) → ℕ × Heap → Type 0
Outcome h n (addr, h') =
    ((k : ℕ) × (addr ≡ address k) × Allocated h k n h')
    ⊎ ((addr ≡ null) × (h' ≡ h) × ((k : ℕ) → k + n ≤ length h → SomeUsed h k n))

pub blocks_for_pos : (size : ℕ) → size ≢ 0 → 0 < blocks_for size
unfolding blocks_for
blocks_for_pos size ne = ground arith

-- The blocks of an allocation hold the size that was asked for, and one block fewer would not.
blocks_for_enough :
    (size : ℕ)
    → (size ≤ blocks_for size * heap_block_size)
      × (blocks_for size * heap_block_size < size + heap_block_size)
unfolding blocks_for
blocks_for_enough size = ground arith

-- The outcome for the number of blocks that heap_alloc computes.
pub heap_alloc-blocks_for :
    (size : ℕ) (h : Heap) → size ≢ 0 → Outcome h (blocks_for size) (heap_alloc size h)
unfolding heap_alloc
heap_alloc-blocks_for size h ne = rw (ne→== size 0 ne) (
    outcome (find_run (blocks_for size) h 0 0) (
      find_run-Found h (blocks_for size) h 0 0
        (record { len = omega arith; rest = λ k. ap (at h) (omega arith) }) (blocks_for_pos size ne)
        (omega arith) (λ m a b. absurd (omega arith))))
  where
    outcome :
        (r : Option ℕ)
        → Found h (blocks_for size) 0 0 r
        → Outcome h (blocks_for size) (elim r [
          | none ↦ (null, h)
          | some i ↦
              let addr = heapaddr + (i + 1 - blocks_for size) * heap_block_size in
              (addr, mark (blocks_for size) (i + 1 - blocks_for size) addr h)
        ])
    outcome none f = inr (refl, refl, λ k a. f k (omega arith) a)
    outcome (some i) f = inl (i + 1 - blocks_for size, refl, mark-Allocated h _ _ (omega arith) f.2)

-- heap_alloc of a size other than 0 is for the least number of blocks of 8192 bytes that hold the
-- size: it takes so many blocks in a row that were free and returns the address of the first of
-- them, or it returns NULL, changes nothing, and no blocks in a row are enough and free.
pub heap_alloc-Outcome :
    (size : ℕ) (h : Heap)
    → size ≢ 0
    → (n : ℕ) × (size ≤ n * 8192) × (n * 8192 < size + 8192) × Outcome h n (heap_alloc size h)
heap_alloc-Outcome size h ne = (
  blocks_for size,
  (blocks_for_enough size).0,
  (blocks_for_enough size).1,
  heap_alloc-blocks_for size h ne,
)
