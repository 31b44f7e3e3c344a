-- ===== src/Kernel/Heap/Tests.antt =====
-- Runs of the heap of source/kernel.c, and the theorems at concrete inputs.
use nano_s.Common.{ℕ, ◌+◌, ◌*◌, ◌≤◌, ◌<◌, ◌≡◌, refl, arith}
use nano_s.Kernel.Heap.{Heap, heap_init, heap_alloc, heap_free}
use nano_s.Kernel.Heap.Alloc.{Outcome, heap_alloc-Outcome}
use nano_s.Kernel.Heap.Valid.{
  IsValid, heap_init-IsValid, heap_alloc-IsValid, heap_free-IsValid, heap_free-heap_alloc,
}

-- After an allocation of one block.
abbrev one_taken : Heap
one_taken = (heap_alloc 100 heap_init).1

one_taken-IsValid : IsValid one_taken
one_taken-IsValid = heap_alloc-IsValid 100 heap_init-IsValid

-- The second allocation begins at the second block; the whole heap no longer fits.
second_lem : (heap_alloc 8193 one_taken).0 ≡ 0x32000
unfolding heap_alloc heap_init
second_lem = refl

whole_lem : (heap_alloc 0x40000 one_taken).0 ≡ 0
unfolding heap_alloc heap_init
whole_lem = refl

heap_alloc-Outcome_example :
    (n : ℕ) × (8193 ≤ n * 8192)
    × (n * 8192 < 8193 + 8192)
    × Outcome one_taken n (heap_alloc 8193 one_taken)
heap_alloc-Outcome_example = heap_alloc-Outcome 8193 one_taken (omega arith)

heap_alloc-IsValid_example : IsValid (heap_alloc 8193 one_taken).1
heap_alloc-IsValid_example = heap_alloc-IsValid 8193 one_taken-IsValid

heap_free-IsValid_example : IsValid (heap_free 0x30000 one_taken)
heap_free-IsValid_example = heap_free-IsValid 0x30000 one_taken-IsValid

heap_free-heap_alloc_example :
    heap_free (heap_alloc 8193 one_taken).0 (heap_alloc 8193 one_taken).1 ≡ one_taken
heap_free-heap_alloc_example = heap_free-heap_alloc 8193 one_taken-IsValid
