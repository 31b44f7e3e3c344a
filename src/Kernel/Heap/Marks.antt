-- ===== src/Kernel/Heap/Marks.antt =====
-- What the loops of the heap do to each block.
use nano_s.Common.{
  ℕ, zero, suc, ◌+◌, ◌≤◌, ◌<◌, ◌≡◌, refl, ap, ap₂, ◌∙◌, [], ◌∷◌, set, map, get_or, length,
  length-set, get_or-set_self, get_or-set_ne, arith, Bool-cases, inl, inr, ==→eq, ==→ne, ◌==◌,
}
use nano_s.Kernel.Heap.{HeapBlock, Heap, free_block, block_of, mark, release}

abbrev pub at : Heap → ℕ → HeapBlock
at h i = get_or h i free_block

pub length-mark : (count j addr : ℕ) (h : Heap) → length (mark count j addr h) ≡ length h
unfolding mark
length-mark zero j addr h = refl
length-mark (suc count) j addr h =
    length-mark count (j + 1) addr (set h j (block_of addr)) ∙ length-set h j (block_of addr)

pub mark_outside :
    (count j addr : ℕ) (h : Heap) (i : ℕ)
    → (i < j → at (mark count j addr h) i ≡ at h i)
      × (j + count ≤ i → at (mark count j addr h) i ≡ at h i)
unfolding mark
mark_outside zero j addr h i = (λ x. refl, λ x. refl)
mark_outside (suc count) j addr h i =
    let rest = mark_outside count (j + 1) addr (set h j (block_of addr)) i in
    (
      λ x. rest.0 (omega arith) ∙ get_or-set_ne h j i _ free_block (omega arith),
      λ x. rest.1 (omega arith) ∙ get_or-set_ne h j i _ free_block (omega arith),
    )

pub mark_inside :
    (count j addr : ℕ) (h : Heap) (i : ℕ)
    → j + count ≤ length h
    → j ≤ i
    → i < j + count
    → at (mark count j addr h) i ≡ block_of addr
unfolding mark
mark_inside zero j addr h i fits lo hi = absurd (omega arith)
mark_inside (suc count) j addr h i fits lo hi = elim (Bool-cases (j == i)) [
  | inl e ↦
      (mark_outside count (j + 1) addr (set h j (block_of addr)) i).0 (omega (arith, ==→eq j i e))
      ∙ rw (← ==→eq j i e) (get_or-set_self h j (block_of addr) free_block (omega arith))
  | inr ne ↦
      mark_inside count (j + 1) addr (set h j (block_of addr)) i
        (omega (arith, length-set h j (block_of addr))) (omega (arith, ==→ne j i ne)) (omega arith)
]

pub at-map-release :
    (ptr : ℕ) (h : Heap) (i : ℕ) → at (map (release ptr) h) i ≡ release ptr (at h i)
at-map-release ptr [] i = ground arith
at-map-release ptr (b ∷ h) zero = refl
at-map-release ptr (b ∷ h) (suc i) = at-map-release ptr h i

pub length-map : (f : HeapBlock → HeapBlock) (h : Heap) → length (map f h) ≡ length h
length-map f [] = refl
length-map f (b ∷ h) = ap suc (length-map f h)

-- Two heaps of one length with the same blocks are the same.
pub heap_ext :
    (h k : Heap) → length h ≡ length k → ((i : ℕ) → i < length h → at h i ≡ at k i) → h ≡ k
heap_ext [] [] e f = refl
heap_ext [] (c ∷ k) e f = absurd (omega arith)
heap_ext (b ∷ h) [] e f = absurd (omega arith)
heap_ext (b ∷ h) (c ∷ k) e f =
    ap₂ ◌∷◌ (f 0 (omega arith)) (heap_ext h k (omega arith) (λ i u. f (suc i) (omega arith)))
