-- ===== src/Ulib/Getstr/Taken.antt =====
-- How getstr of source/ulib/ulib.c takes a character out of the buffer with memcpy.
use nano_s.Common.{
  ℕ, suc, ◌+◌, ◌-◌, ◌≤◌, ◌<◌, ◌≡◌, ◌≢◌, ◌⊎◌, inl, inr, sym, ap, ◌∙◌, subst, ltb, length, get_or,
  Bool-cases, ltb→lt, ltb→le, arith,
}
use nano_s.Ulib.Memory.{Memory, memcpy}
use nano_s.Ulib.Memory.Overlap.{memcpy-Copied}
use nano_s.Ulib.Getstr.Lists.{
  without, get_or-without_before, get_or-without_after, length-without, without_end, get_or_end,
}
use nano_s.Ulib.Getstr.Keys.{Line, Keeps}

module _ (str n : ℕ) (m0 m : Memory) (l : Line) (h : Keeps str n m0 m l) where
  unfoldable pub taken : ℕ → Memory
  taken i = (memcpy (str + i) (str + (i + 1)) (n - i - 1) m).1

  taken_byte :
      (i j : ℕ)
      → i ≤ length l.text
      → i < n - 1
      → j < n
      → taken i (str + j) ≡ get_or (without i l.text) j 0
  unfolding taken
  taken_byte i j small inner hj =
      let copied = (memcpy-Copied (str + i) (str + (i + 1)) (n - i - 1) m).1 in
      elim (Bool-cases (ltb j i)) [
        | inl before ↦
            let lt = ltb→lt j i before in
            copied.below (str + j) (omega arith)
            ∙ h.bytes j hj
            ∙ sym (get_or-without_before l.text i j 0 lt)
        | inr after ↦
            let le = ltb→le j i after in
            elim (Bool-cases (ltb j (n - 1))) [
              | inl moved ↦
                  let lt = ltb→lt j (n - 1) moved in
                  ap (taken i) (omega arith)
                  ∙ copied.done (j - i) (omega arith) (omega arith)
                  ∙ ap m (omega arith)
                  ∙ h.bytes (suc j) (omega arith)
                  ∙ sym (get_or-without_after l.text i j 0 le small)
              | inr last ↦
                  let ge = ltb→le j (n - 1) last in
                  copied.above (str + j) (omega arith)
                  ∙ h.bytes j hj
                  ∙ get_or_end l.text j 0 (omega (arith, h.room))
                  ∙ sym (get_or_end l.text (suc j) 0 (omega (arith, h.room)))
                  ∙ sym (get_or-without_after l.text i j 0 le small)
            ]
      ]

  without_written :
      (i j : ℕ)
      → i < length l.text
      → j < length (without i l.text)
      → get_or (without i l.text) j 0 ≢ 0
  without_written i j inner hj e = elim (Bool-cases (ltb j i)) [
    | inl before ↦
        let lt = ltb→lt j i before in
        h.written j (omega arith) (sym (get_or-without_before l.text i j 0 lt) ∙ e)
    | inr after ↦
        h.written (suc j) (omega (arith, length-without l.text i inner))
          (sym (get_or-without_after l.text i j 0 (ltb→le j i after) (omega arith)) ∙ e)
  ]

  taken_others : (i x : ℕ) → i < n - 1 → (x < str) ⊎ (str + n ≤ x) → taken i x ≡ m0 x
  unfolding taken
  taken_others i x inner (inl out) =
      (memcpy-Copied (str + i) (str + (i + 1)) (n - i - 1) m).1.below x (omega arith)
      ∙ h.others x (inl out)
  taken_others i x inner (inr out) =
      (memcpy-Copied (str + i) (str + (i + 1)) (n - i - 1) m).1.above x (omega arith)
      ∙ h.others x (inr out)

  -- The character at `i` is taken out.
  pub taken-Keeps :
      (i : ℕ)
      → i < length l.text
      → Keeps str n m0 (taken i) (record { text = without i l.text; place = i })
  taken-Keeps i inner = record {
    bytes = λ j hj. taken_byte i j (omega arith) (omega (arith, h.room)) hj;
    written = λ j hj. without_written i j inner hj;
    room = omega (arith, length-without l.text i inner, h.room);
    inside = omega (arith, length-without l.text i inner);
    others = λ x out. taken_others i x (omega (arith, h.room)) out;
  }

  -- Behind the text there are zeros only.
  pub taken_end :
      l.place ≡ length l.text
      → l.place < n - 1
      → Keeps str n m0 (taken l.place) (record l { text = without l.place l.text })
  taken_end e inner =
      let same = without_end l.text l.place (omega arith) in
      record {
        bytes = λ j hj. taken_byte l.place j (omega arith) inner hj;
        written = λ j hj.
            subst (λ t. get_or t j 0 ≢ 0) (sym same)
              (h.written j (subst (λ t. j < length t) same hj));
        room = subst (λ t. length t < n) (sym same) h.room;
        inside = subst (λ t. l.place ≤ length t) (sym same) h.inside;
        others = λ x out. taken_others l.place x inner out;
      }

  pub not_taken : n - 1 ≤ l.place → Keeps str n m0 m (record l { text = without l.place l.text })
  not_taken full =
      let same = without_end l.text l.place (omega (arith, h.room)) in
      record {
        bytes = λ j hj. h.bytes j hj ∙ ap (λ t. get_or t j 0) (sym same);
        written = λ j hj.
            subst (λ t. get_or t j 0 ≢ 0) (sym same)
              (h.written j (subst (λ t. j < length t) same hj));
        room = subst (λ t. length t < n) (sym same) h.room;
        inside = subst (λ t. l.place ≤ length t) (sym same) h.inside;
        others = h.others;
      }
