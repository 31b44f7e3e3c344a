-- ===== src/Kernel/Heap.antt =====
-- The heap of the kernel (heap_init, heap_alloc and heap_free of source/kernel.c): 32 blocks of 8 KB
-- from address 0x30000 on.
pub mod Marks
pub mod Alloc
pub mod Valid
mod Tests
use nano_s.Common.{
  ℕ, zero, suc, ◌+◌, ◌-◌, ◌*◌, ◌/◌, ◌%◌, Bool, true, false, not, ◌&&◌, List, [], ◌∷◌, set,
  replicate, map, Option, none, some, ◌==◌, leb, if◌then◌else◌,
}

abbrev pub heapaddr : ℕ
heapaddr = 0x30000

abbrev pub heap_num_block : ℕ
heap_num_block = 0x20

abbrev pub heap_mem_size : ℕ
heap_mem_size = 0x40000

-- HEAP_MEM_SIZE / HEAP_NUM_BLOCK
abbrev pub heap_block_size : ℕ
heap_block_size = 8192

abbrev pub null : ℕ
null = 0

pub record HeapBlock : Type 0 where
  pub used : Bool
  pub ptr : ℕ

abbrev pub Heap : Type 0
Heap = List HeapBlock

abbrev pub free_block : HeapBlock
free_block = record { used = false; ptr = null }

abbrev pub block_of : ℕ → HeapBlock
block_of addr = record { used = true; ptr = addr }

unfoldable pub heap_init : Heap
heap_init = replicate heap_num_block free_block

-- The number of blocks to allocate.
unfoldable pub blocks_for : ℕ → ℕ
blocks_for size = size / heap_block_size + (if size % heap_block_size == 0 then 0 else 1)

-- The search for `n_alloc` free blocks in a row: the index of the last one. `n_found` of the blocks
-- before index `i` are free in a row.
unfoldable pub find_run : (n_alloc : ℕ) → Heap → (i n_found : ℕ) → Option ℕ
find_run n_alloc [] i n_found = none
find_run n_alloc (b ∷ bs) i n_found =
    let run = if b.used then 0 else n_found + 1 in
    let rest = find_run n_alloc bs (i + 1) run in
    if not b.used && leb n_alloc run then some i else rest

-- The blocks from `j` on, `count` of them, taken for the address.
unfoldable pub mark : (count j addr : ℕ) → Heap → Heap
mark zero j addr h = h
mark (suc count) j addr h = mark count (j + 1) addr (set h j (block_of addr))

-- The address, or NULL, and the new heap.
unfoldable pub heap_alloc : ℕ → Heap → ℕ × Heap
unfolding blocks_for find_run mark
heap_alloc size h =
    let n = blocks_for size in
    if size == 0 then (null, h) else elim (find_run n h 0 0) [
      | none ↦ (null, h)
      | some i ↦
          let addr = heapaddr + (i + 1 - n) * heap_block_size in (addr, mark n (i + 1 - n) addr h)
    ]

abbrev pub release : ℕ → HeapBlock → HeapBlock
release ptr b = if b.ptr == ptr && b.used then free_block else b

unfoldable pub heap_free : ℕ → Heap → Heap
heap_free ptr h = if ptr == null then h else map (release ptr) h
