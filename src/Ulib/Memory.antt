-- ===== src/Ulib/Memory.antt =====
-- memcpy and memcmp of source/ulib/ulib.c, over one memory: a function from addresses to bytes.
pub mod Overlap
use nano_s.Common.{
  ℕ, zero, suc, ◌+◌, ◌-◌, ◌%◌, ◌^◌, Bool, true, false, ◌==◌, ltb, leb, if◌then◌else◌,
}
use nano_s.Ulib.Text.{sub32}

abbrev pub Memory : Type 0
Memory = ℕ → ℕ

abbrev pub store : Memory → ℕ → ℕ → Memory
store m a v x = if x == a then v else m x

-- The loop of memcpy after `i` rounds, with `left` to go: forwards if the source is above the
-- destination, and from the end otherwise.
unfoldable pub copy_from : (dst src n : ℕ) → (left i : ℕ) → Memory → Memory
copy_from dst src n zero i m = m
copy_from dst src n (suc left) i m =
    let c = if ltb dst src then i else n - (i + 1) in
    copy_from dst src n left (i + 1) (store m (dst + c) (m (src + c)))

-- The number of bytes copied, and the memory.
unfoldable pub memcpy : (dst src n : ℕ) → Memory → ℕ × Memory
unfolding copy_from
memcpy dst src n m = (n, copy_from dst src n n 0 m)

-- The loop of memcmp from offset `i` on.
unfoldable pub compare_from : (mem1 mem2 : ℕ) → (left i : ℕ) → Memory → ℕ
compare_from mem1 mem2 zero i m = 0
compare_from mem1 mem2 (suc left) i m =
    let rest = compare_from mem1 mem2 left (i + 1) m in
    if m (mem1 + i) == m (mem2 + i) then rest else sub32 (m (mem1 + i)) (m (mem2 + i))

unfoldable pub memcmp : (mem1 mem2 n : ℕ) → Memory → ℕ
unfolding compare_from
memcmp mem1 mem2 n m = compare_from mem1 mem2 n 0 m
