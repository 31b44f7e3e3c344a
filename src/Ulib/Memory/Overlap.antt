-- ===== src/Ulib/Memory/Overlap.antt =====
-- The two directions of memcpy of source/ulib/ulib.c.
use nano_s.Common.{
  ℕ, zero, suc, ◌+◌, ◌-◌, ◌≤◌, ◌<◌, ◌≡◌, ◌≢◌, refl, ◌==◌, ltb, arith, Bool-cases, inl, inr, ltb→lt,
  ltb→le, ==→eq, ==→ne, ne→==, eq→==, lt→ltb, le→ltb, ◌∙◌, subst, sym,
}
use nano_s.Ulib.Memory.{Memory, store, copy_from, memcpy}

-- The bytes from offset `lo` to `hi` are those of the source before, and all others unchanged.
pub record Copied (dst src lo hi : ℕ) (m m0 : Memory) : Type 0 where
  pub done : (k : ℕ) → lo ≤ k → k < hi → m (dst + k) ≡ m0 (src + k)
  pub above : (x : ℕ) → dst + hi ≤ x → m x ≡ m0 x
  pub below : (x : ℕ) → x < dst + lo → m x ≡ m0 x

store_self : (m : Memory) (a v : ℕ) → store m a v a ≡ v
store_self m a v = rw (eq→== a a refl) refl

store-other : (m : Memory) (a v x : ℕ) → x ≢ a → store m a v x ≡ m x
store-other m a v x ne = rw (ne→== x a ne) refl

Copied-none : (dst src i : ℕ) (m : Memory) → Copied dst src i i m m
Copied-none dst src i m = record {
  done = λ k l h. absurd (omega arith);
  above = λ x h. refl;
  below = λ x h. refl;
}

forward-step :
    (dst src i : ℕ) (m m0 : Memory)
    → dst < src
    → Copied dst src 0 i m m0
    → Copied dst src 0 (i + 1) (store m (dst + i) (m (src + i))) m0
forward-step dst src i m m0 up f = record {
  done = λ k l h. elim (Bool-cases (k == i)) [
    | inl e ↦
        subst (λ j. store m (dst + i) (m (src + i)) (dst + j) ≡ m0 (src + j)) (sym (==→eq k i e))
          (store_self m (dst + i) (m (src + i)) ∙ f.above (src + i) (omega arith))
    | inr ne ↦
        store-other m (dst + i) _ _ (omega (arith, ==→ne k i ne))
        ∙ f.done k l (omega (arith, ==→ne k i ne))
  ];
  above = λ x h. store-other m (dst + i) _ x (omega arith) ∙ f.above x (omega arith);
  below = λ x h. store-other m (dst + i) _ x (omega arith) ∙ f.below x (omega arith);
}

backward-step :
    (dst src c n : ℕ) (m m0 : Memory)
    → src ≤ dst
    → c < n
    → Copied dst src (suc c) n m m0
    → Copied dst src c n (store m (dst + c) (m (src + c))) m0
backward-step dst src c n m m0 up small f = record {
  done = λ k l h. elim (Bool-cases (k == c)) [
    | inl e ↦
        subst (λ j. store m (dst + c) (m (src + c)) (dst + j) ≡ m0 (src + j)) (sym (==→eq k c e))
          (store_self m (dst + c) (m (src + c)) ∙ f.below (src + c) (omega arith))
    | inr ne ↦
        store-other m (dst + c) _ _ (omega (arith, ==→ne k c ne))
        ∙ f.done k (omega (arith, ==→ne k c ne)) h
  ];
  above = λ x h. store-other m (dst + c) _ x (omega arith) ∙ f.above x (omega arith);
  below = λ x h. store-other m (dst + c) _ x (omega arith) ∙ f.below x (omega arith);
}

done_all : (i : ℕ) → i + 0 ≡ i
done_all i = omega arith

place : (n i left : ℕ) → i + suc left ≡ n → n - (i + 1) ≡ left
place n i left e = omega arith

forward :
    (dst src n left i : ℕ) (m m0 : Memory)
    → dst < src
    → i + left ≡ n
    → Copied dst src 0 i m m0
    → Copied dst src 0 n (copy_from dst src n left i m) m0
unfolding copy_from
forward dst src n zero i m m0 up e f = rw (sym e, done_all i) f
forward dst src n (suc left) i m m0 up e f =
    rw (lt→ltb dst src up)
      (forward dst src n left (i + 1) _ m0 up (omega arith) (forward-step dst src i m m0 up f))

backward :
    (dst src n left i : ℕ) (m m0 : Memory)
    → src ≤ dst
    → i + left ≡ n
    → Copied dst src left n m m0
    → Copied dst src 0 n (copy_from dst src n left i m) m0
unfolding copy_from
backward dst src n zero i m m0 up e f = f
backward dst src n (suc left) i m m0 up e f =
    rw (le→ltb dst src up, place n i left e)
      (backward dst src n left (i + 1) _ m0 up (omega arith)
        (backward-step dst src left n m m0 up (omega arith) f))

-- For every two ranges of n bytes, overlapping or not, memcpy returns n, each byte of the
-- destination becomes what the source held there before the call, and every byte outside the
-- destination keeps its value.
pub memcpy-Copied :
    (dst src n : ℕ) (m : Memory)
    → ((memcpy dst src n m).0 ≡ n) × Copied dst src 0 n (memcpy dst src n m).1 m
unfolding memcpy
memcpy-Copied dst src n m = (
  refl,
  elim (Bool-cases (ltb dst src)) [
    | inl up ↦ forward dst src n n 0 m m (ltb→lt dst src up) (omega arith) (Copied-none dst src 0 m)
    | inr le ↦
        backward dst src n n 0 m m (ltb→le dst src le) (omega arith) (Copied-none dst src n m)
  ],
)
