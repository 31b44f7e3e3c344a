-- ===== src/Kernel/Heap/Valid.antt =====
-- The invariant of the heap, and that freeing an allocation undoes it.
use nano_s.Common.{
  subst, ℕ, ◌+◌, ◌-◌, ◌≤◌, ◌<◌, ◌≡◌, ◌≢◌, refl, sym, ap, ◌∙◌, true, false, map, get_or-replicate,
  replicate, arith, Bool-cases, inl, inr, ◌⊎◌, ==→eq, ==→ne, ne→==, eq→==, ◌==◌, ltb, ltb→lt,
  ltb→le,
}
use nano_s.Kernel.Heap.{
  HeapBlock, Heap, free_block, block_of, heap_num_block, null, heap_init, heap_alloc, heap_free,
  release,
}
use nano_s.Kernel.Heap.Marks.{at, at-map-release, length-map, heap_ext}
use nano_s.Kernel.Heap.Alloc.{address, Allocated, heap_alloc-blocks_for, blocks_for_pos}

-- The blocks from `k` on, up to `i`, are in use for the address of the first.
abbrev pub Region : Heap → (k i : ℕ) → Type 0
Region h k i = (m : ℕ) → k ≤ m → m ≤ i → at h m ≡ block_of (address k)

-- A block in use stands in a region that begins at its address; any other block is cleared.
pub record IsValid (h : Heap) : Type 0 where
  pub owned : (i : ℕ) → (at h i).used ≡ true → (k : ℕ) × (k ≤ i) × Region h k i
  pub cleared : (i : ℕ) → (at h i).used ≡ false → at h i ≡ free_block

-- An empty heap is valid.
pub heap_init-IsValid : IsValid heap_init
unfolding heap_init
heap_init-IsValid = record {
  owned = λ i used. absurd (not_used i used);
  cleared = λ i u. get_or-replicate heap_num_block i free_block;
}
  where
    not_used : (i : ℕ) → (at (replicate heap_num_block free_block) i).used ≡ true → ⊥
    not_used i u = let e = get_or-replicate heap_num_block i free_block in ground arith

module _ {h h' : Heap} {k n : ℕ} (v : IsValid h) (pos : 0 < n) (a : Allocated h k n h') where
  outside_owned :
      (i : ℕ)
      → (at h i).used ≡ true
      → (i < k) ⊎ (k + n ≤ i)
      → at h' i ≡ at h i
      → (b : ℕ) × (b ≤ i) × Region h' b i
  outside_owned i used where_ same =
      let (b, le, region) = v.owned i used in (b, le, λ m l u. moved b m region l u where_)
    where
      moved :
          (b m : ℕ)
          → Region h b i
          → b ≤ m
          → m ≤ i
          → (i < k) ⊎ (k + n ≤ i)
          → at h' m ≡ block_of (address b)
      moved b m region l u (inl lo) = a.below m (omega arith) ∙ region m l u
      moved b m region l u (inr hi) = elim (Bool-cases (ltb b (k + n))) [
        | inl bad ↦
            let inside = region (k + n - 1) (omega (arith, ltb→lt b (k + n) bad)) (omega arith) in
            let free = a.was_free (k + n - 1) (omega arith) (omega arith) in absurd (ground arith)
        | inr good ↦ a.above m (omega (arith, ltb→le b (k + n) good)) ∙ region m l u
      ]

  Allocated-IsValid : IsValid h'
  Allocated-IsValid = record {
    owned = λ i used. elim (Bool-cases (ltb i k)) [
      | inl lo ↦
          let same = a.below i (ltb→lt i k lo) in
          outside_owned i (ap (λ b. b.used) (sym same) ∙ used) (inl (ltb→lt i k lo)) same
      | inr ge ↦ elim (Bool-cases (ltb i (k + n))) [
        | inl hi ↦ (k, ltb→le i k ge, λ m l u. a.inside m l (omega (arith, ltb→lt i (k + n) hi)))
        | inr past ↦
            let same = a.above i (ltb→le i (k + n) past) in
            outside_owned i (ap (λ b. b.used) (sym same) ∙ used) (inr (ltb→le i (k + n) past)) same
      ]
    ];
    cleared = λ i unused. elim (Bool-cases (ltb i k)) [
      | inl lo ↦
          let same = a.below i (ltb→lt i k lo) in
          same ∙ v.cleared i (ap (λ b. b.used) (sym same) ∙ unused)
      | inr ge ↦ elim (Bool-cases (ltb i (k + n))) [
        | inl hi ↦
            let new = a.inside i (ltb→le i k ge) (ltb→lt i (k + n) hi) in absurd (ground arith)
        | inr past ↦
            let same = a.above i (ltb→le i (k + n) past) in
            same ∙ v.cleared i (ap (λ b. b.used) (sym same) ∙ unused)
      ]
    ];
  }

  -- No block that was in use has the address of the new allocation.
  not_owner : (i : ℕ) → (at h i).used ≡ true → (at h i).ptr ≢ address k
  not_owner i used e =
      let (b, le, region) = v.owned i used in
      let there = region i le (omega arith) in
      let same : b ≡ k = omega (arith, ap (λ x. x.ptr) there, e) in
      let first = region k (omega arith) (omega arith) in
      let free = a.was_free k (omega arith) (omega arith) in ground arith

  restored : (i : ℕ) → release (address k) (at h' i) ≡ at h i
  restored i = elim (Bool-cases (ltb i k)) [
    | inl lo ↦ kept i (a.below i (ltb→lt i k lo))
    | inr ge ↦ elim (Bool-cases (ltb i (k + n))) [
      | inl hi ↦
          let new = a.inside i (ltb→le i k ge) (ltb→lt i (k + n) hi) in
          let was = v.cleared i (a.was_free i (ltb→le i k ge) (ltb→lt i (k + n) hi)) in
          rw (new, was, eq→== (address k) (address k) refl)
      | inr past ↦ kept i (a.above i (ltb→le i (k + n) past))
    ]
  ]
    where
      kept : (i : ℕ) → at h' i ≡ at h i → release (address k) (at h' i) ≡ at h i
      kept i same = rw same (elim (Bool-cases (at h i).used) [
        | inl used ↦ rw (used, ne→== (at h i).ptr (address k) (not_owner i used))
        | inr unused ↦ ground arith
      ])

  free_undoes : heap_free (address k) h' ≡ h
  unfolding heap_free
  free_undoes = rw (ne→== (address k) null (omega arith)) (
      heap_ext _ h (length-map (release (address k)) h' ∙ a.len)
        (λ i u. at-map-release (address k) h' i ∙ restored i))

-- heap_alloc keeps the heap valid.
pub heap_alloc-IsValid : (size : ℕ) {h : Heap} → IsValid h → IsValid (heap_alloc size h).1
unfolding heap_alloc
heap_alloc-IsValid size {h} v = elim (Bool-cases (size == 0)) [
  | inl zero_size ↦ rw zero_size v
  | inr some_size ↦
      let ne = ==→ne size 0 some_size in
      elim (heap_alloc-blocks_for size h ne) [
        | inl (k, e, a) ↦ Allocated-IsValid v (blocks_for_pos size ne) a
        | inr (e, same, none_free) ↦ subst IsValid (sym same) v
      ]
]

release-used :
    (ptr : ℕ) (b : HeapBlock)
    → (release ptr b).used ≡ true
    → (b.used ≡ true) × (release ptr b ≡ b) × (b.ptr ≢ ptr)
release-used ptr b h = ground arith

release-unused :
    (ptr : ℕ) (b : HeapBlock)
    → (release ptr b).used ≡ false
    → (b.used ≡ false → b ≡ free_block)
    → release ptr b ≡ free_block
release-unused ptr b h f = ground arith

released-IsValid : (ptr : ℕ) {h : Heap} → IsValid h → IsValid (map (release ptr) h)
released-IsValid ptr {h} v = record {
  owned = λ i used.
      let here = at-map-release ptr h i in
      let (was, same, other) = release-used ptr (at h i) (ap (λ b. b.used) (sym here) ∙ used) in
      let (k, le, region) = v.owned i was in
      (
        k,
        le,
        λ m l u.
            at-map-release ptr h m ∙ kept i k m (region m l u) (region i le (omega arith)) other,
      );
  cleared = λ i unused.
      let here = at-map-release ptr h i in
      here ∙ release-unused ptr (at h i) (ap (λ b. b.used) (sym here) ∙ unused) (v.cleared i);
}
  where
    kept :
        (i k m : ℕ)
        → at h m ≡ block_of (address k)
        → at h i ≡ block_of (address k)
        → (at h i).ptr ≢ ptr
        → release ptr (at h m) ≡ block_of (address k)
    kept i k m e f other =
        let ne : address k ≢ ptr = λ x. other (ap (λ b. b.ptr) f ∙ x) in
        rw (e, ne→== (address k) ptr ne)

-- heap_free of any address keeps the heap valid.
pub heap_free-IsValid : (ptr : ℕ) {h : Heap} → IsValid h → IsValid (heap_free ptr h)
unfolding heap_free
heap_free-IsValid ptr {h} v = elim (Bool-cases (ptr == null)) [
  | inl n ↦ rw n v
  | inr p ↦ rw p (released-IsValid ptr v)
]

free_null : (h : Heap) → heap_free null h ≡ h
unfolding heap_free
free_null h = refl

heap_alloc_zero : (h : Heap) → heap_alloc 0 h ≡ (null, h)
unfolding heap_alloc
heap_alloc_zero h = refl

-- heap_free of the address that heap_alloc returned gives back the heap before the allocation.
pub heap_free-heap_alloc :
    (size : ℕ) {h : Heap} → IsValid h → heap_free (heap_alloc size h).0 (heap_alloc size h).1 ≡ h
heap_free-heap_alloc size {h} v = elim (Bool-cases (size == 0)) [
  | inl zero_size ↦ rw (==→eq size 0 zero_size, heap_alloc_zero h) (free_null h)
  | inr some_size ↦
      let ne = ==→ne size 0 some_size in
      elim (heap_alloc-blocks_for size h ne) [
        | inl (k, e, a) ↦ rw e (free_undoes v (blocks_for_pos size ne) a)
        | inr (e, same, none_free) ↦ nothing e same
      ]
]
  where
    nothing :
        (heap_alloc size h).0 ≡ null
        → (heap_alloc size h).1 ≡ h
        → heap_free (heap_alloc size h).0 (heap_alloc size h).1 ≡ h
    nothing e same = rw (e, same) (free_null h)
