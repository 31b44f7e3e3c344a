-- ===== src/Ulib/Getstr/Put.antt =====
-- How getstr of source/ulib/ulib.c makes room in the buffer and puts a character in.
use nano_s.Common.{
  ℕ, suc, ◌+◌, ◌-◌, ◌≤◌, ◌<◌, ◌≡◌, ◌≢◌, ◌⊎◌, inl, inr, refl, sym, ap, ◌∙◌, subst, ◌==◌, ltb, length,
  get_or, Bool-cases, ltb→lt, ltb→le, ==→eq, ==→ne, eq→==, ne→==, arith,
}
use nano_s.Ulib.Memory.{Memory, store, memcpy}
use nano_s.Ulib.Memory.Overlap.{memcpy-Copied}
use nano_s.Ulib.Getstr.Lists.{
  insert, get_or-insert_before, get_or-insert, get_or-insert_after, length-insert, get_or_end,
}
use nano_s.Ulib.Getstr.Keys.{Line, Keeps}

module _ (str n : ℕ) (m0 m : Memory) (l : Line) (h : Keeps str n m0 m l) where
  unfoldable pub put : (i k : ℕ) → Memory
  put i k = store (memcpy (str + (i + 1)) (str + i) (n - i - 2) m).1 (str + i) k

  store_other : (p : Memory) (a v x : ℕ) → x ≢ a → store p a v x ≡ p x
  store_other p a v x ne = rw (ne→== x a ne) refl

  put_behind :
      (i k j : ℕ)
      → i ≤ length l.text
      → length l.text < n - 1
      → i ≤ j
      → suc j < n
      → put i k (str + suc j) ≡ get_or (insert i k l.text) (suc j) 0
  unfolding put
  put_behind i k j small free hi hj =
      let copied = (memcpy-Copied (str + (i + 1)) (str + i) (n - i - 2) m).1 in
      store_other (memcpy (str + (i + 1)) (str + i) (n - i - 2) m).1 (str + i) k (str + suc j)
        (omega arith)
      ∙ elim (Bool-cases (ltb (suc j) (n - 1))) [
        | inl moved ↦
            let lt = ltb→lt (suc j) (n - 1) moved in
            ap (memcpy (str + (i + 1)) (str + i) (n - i - 2) m).1 (omega arith)
            ∙ copied.done (j - i) (omega arith) (omega arith)
            ∙ ap m (omega arith)
            ∙ h.bytes j (omega arith)
        | inr last ↦
            let ge = ltb→le (suc j) (n - 1) last in
            copied.above (str + suc j) (omega arith)
            ∙ h.bytes (suc j) hj
            ∙ get_or_end l.text (suc j) 0 (omega arith)
            ∙ sym (get_or_end l.text j 0 (omega arith))
      ]
      ∙ sym (get_or-insert_after l.text i k j 0 hi small)

  put_before :
      (i k j : ℕ)
      → i ≤ length l.text
      → j < i
      → j < n
      → put i k (str + j) ≡ get_or (insert i k l.text) j 0
  unfolding put
  put_before i k j small lt hj =
      store_other (memcpy (str + (i + 1)) (str + i) (n - i - 2) m).1 (str + i) k (str + j)
        (omega arith)
      ∙ (memcpy-Copied (str + (i + 1)) (str + i) (n - i - 2) m).1.below (str + j) (omega arith)
      ∙ h.bytes j hj
      ∙ sym (get_or-insert_before l.text i k j 0 lt small)

  put_here : (i k : ℕ) → i ≤ length l.text → put i k (str + i) ≡ get_or (insert i k l.text) i 0
  unfolding put
  put_here i k small = rw (eq→== (str + i) (str + i) refl) (sym (get_or-insert l.text i k 0 small))

  put_from :
      (i k j : ℕ)
      → i ≤ length l.text
      → length l.text < n - 1
      → i ≤ j
      → j < n
      → put i k (str + j) ≡ get_or (insert i k l.text) j 0
  put_from i k j small free hi hj = elim (Bool-cases (j == i)) [
    | inl e ↦
        subst (λ x. put i k (str + x) ≡ get_or (insert i k l.text) x 0) (sym (==→eq j i e))
          (put_here i k small)
    | inr ne ↦
        let back : suc (j - 1) ≡ j = omega (arith, ==→ne j i ne) in
        subst (λ x. put i k (str + x) ≡ get_or (insert i k l.text) x 0) back
          (put_behind i k (j - 1) small free (omega (arith, ==→ne j i ne)) (omega arith))
  ]

  put_byte :
      (i k j : ℕ)
      → i ≤ length l.text
      → length l.text < n - 1
      → j < n
      → put i k (str + j) ≡ get_or (insert i k l.text) j 0
  put_byte i k j small free hj = elim (Bool-cases (ltb j i)) [
    | inl before ↦ put_before i k j small (ltb→lt j i before) hj
    | inr after ↦ put_from i k j small free (ltb→le j i after) hj
  ]

  insert_written :
      (i k j : ℕ)
      → k ≢ 0
      → i ≤ length l.text
      → j < suc (length l.text)
      → get_or (insert i k l.text) j 0 ≢ 0
  insert_written i k j some small hj e = elim (Bool-cases (ltb j i)) [
    | inl before ↦
        let lt = ltb→lt j i before in
        h.written j (omega arith) (sym (get_or-insert_before l.text i k j 0 lt small) ∙ e)
    | inr after ↦
        let le = ltb→le j i after in
        elim (Bool-cases (j == i)) [
          | inl here ↦ some (
              sym (get_or-insert l.text i k 0 small)
              ∙ ap (λ x. get_or (insert i k l.text) x 0) (sym (==→eq j i here))
              ∙ e)
          | inr ne ↦
              let back : j ≡ suc (j - 1) = omega (arith, ==→ne j i ne) in
              h.written (j - 1) (omega (arith, ==→ne j i ne)) (
                sym (get_or-insert_after l.text i k (j - 1) 0 (omega (arith, ==→ne j i ne)) small)
                ∙ ap (λ x. get_or (insert i k l.text) x 0) (sym back)
                ∙ e)
        ]
  ]

  put_others :
      (i k x : ℕ)
      → i ≤ length l.text
      → length l.text < n - 1
      → (x < str) ⊎ (str + n ≤ x)
      → put i k x ≡ m0 x
  unfolding put
  put_others i k x small free (inl out) =
      store_other (memcpy (str + (i + 1)) (str + i) (n - i - 2) m).1 (str + i) k x (omega arith)
      ∙ (memcpy-Copied (str + (i + 1)) (str + i) (n - i - 2) m).1.below x (omega arith)
      ∙ h.others x (inl out)
  put_others i k x small free (inr out) =
      store_other (memcpy (str + (i + 1)) (str + i) (n - i - 2) m).1 (str + i) k x (omega arith)
      ∙ (memcpy-Copied (str + (i + 1)) (str + i) (n - i - 2) m).1.above x (omega arith)
      ∙ h.others x (inr out)

  -- A character is put in at the place, and the place moves behind it.
  pub put-Keeps :
      (k : ℕ)
      → k ≢ 0
      → length l.text < n - 1
      → Keeps str n m0
          (put l.place k)
          (record { text = insert l.place k l.text; place = l.place + 1 })
  put-Keeps k some free = record {
    bytes = λ j hj. put_byte l.place k j h.inside free hj;
    written = λ j hj.
        insert_written l.place k j some h.inside
          (subst (λ x. j < x) (length-insert l.text l.place k h.inside) hj);
    room = omega (arith, length-insert l.text l.place k h.inside);
    inside = omega (arith, length-insert l.text l.place k h.inside, h.inside);
    others = λ x out. put_others l.place k x h.inside free out;
  }
