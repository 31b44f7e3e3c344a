-- ===== src/Ulib/Getstr/Refine.antt =====
-- getstr of source/ulib/ulib.c leaves the edited text in the buffer.
use nano_s.Common.{
  ℕ, zero, suc, ◌+◌, ◌-◌, ◌≤◌, ◌<◌, ◌≡◌, ◌≢◌, ◌⊎◌, inl, inr, refl, sym, ap, ◌∙◌, subst, true, ◌==◌,
  if◌then◌else◌, List, [], ◌∷◌, ◌++◌, length, Option, none, some, Bool-cases, ==→eq, ==→ne, eq→==,
  ne→==, arith,
}
use nano_s.Ulib.Memory.{Memory, store}
use nano_s.Ulib.Getstr.{
  fill, strlen_at, Output, char, show_cursor, type_key, redraw, key_loop, getstr,
}
use nano_s.Ulib.Getstr.Lists.{get_or_end}
use nano_s.Ulib.Getstr.Keys.{Line, edit, edits, Keeps}
use nano_s.Ulib.Getstr.Chars.{strlen_of, After}
use nano_s.Ulib.Getstr.Step.{type_key-edit}

abbrev pub empty_line : Line
empty_line = record { text = []; place = 0 }

-- Keys before Return.
pub data AreTyped : List ℕ → Type 0 where
  no_more : AreTyped []
  then_key : (k : ℕ) (keys : List ℕ) → k ≢ 0x0D → AreTyped keys → AreTyped (k ∷ keys)

module _ (str n : ℕ) (m0 : Memory) where
  -- What the loop comes to.
  abbrev Ends : Option (Memory × List Output) → Line → Type 0
  Ends r l = (m : Memory) × (out : List Output) × (r ≡ some (m, out)) × Keeps str n m0 m l

  key_loop-edits :
      (col row : ℕ) (keys rest : List ℕ) (m : Memory) (l : Line) (i : ℕ)
      → i ≡ l.place
      → AreTyped keys
      → Keeps str n m0 m l
      → Ends (key_loop str n col row (keys ++ (0x0D ∷ rest)) m i) (edits n keys l)
  unfolding key_loop edits
  key_loop-edits col row _ rest m l i e no_more h = (m, [], refl, h)
  key_loop-edits col row _ rest m l i e (then_key k keys ne typed) h =
      let t = type_key str n k m i in
      let (kept, at) =
        subst (λ p. After str n m0 (type_key str n k m p) (edit n k l)) (sym e)
          (type_key-edit str n m0 m l h k) in
      let (end, out, found, held) =
        key_loop-edits col row keys rest t.memory (edit n k l) t.offset at typed kept in
      (
        end,
        (if t.shown then redraw str n col row t.memory t.offset else []) ++ out,
        rw (ne→== k 0x0D ne, found) refl,
        held,
      )

  fill_other : (a v left x : ℕ) (m : Memory) → (x < a) ⊎ (a + left ≤ x) → fill a v left m x ≡ m x
  unfolding fill
  fill_other a v zero x m out = refl
  fill_other a v (suc left) x m (inl out) =
      fill_other (a + 1) v left x (store m a v) (inl (omega arith))
      ∙ rw (ne→== x a (omega arith)) refl
  fill_other a v (suc left) x m (inr out) =
      fill_other (a + 1) v left x (store m a v) (inr (omega arith))
      ∙ rw (ne→== x a (omega arith)) refl

  fill_in : (a v left x : ℕ) (m : Memory) → a ≤ x → x < a + left → fill a v left m x ≡ v
  unfolding fill
  fill_in a v zero x m low high = absurd (omega arith)
  fill_in a v (suc left) x m low high = elim (Bool-cases (x == a)) [
    | inl e ↦
        let same = ==→eq x a e in
        fill_other (a + 1) v left x (store m a v) (inl (omega arith)) ∙ rw (eq→== x a same) refl
    | inr ne ↦ fill_in (a + 1) v left x (store m a v) (omega (arith, ==→ne x a ne)) (omega arith)
  ]

  filled-Keeps : 0 < n → Keeps str n m0 (fill str 0 n m0) empty_line
  filled-Keeps pos = record {
    bytes = λ j hj. fill_in str 0 n (str + j) m0 (omega arith) (omega arith);
    written = λ j hj. absurd (omega arith);
    room = pos;
    inside = omega arith;
    others = λ x out. fill_other str 0 n x m0 out;
  }

  ended : Memory → Memory
  ended m = store m (str + (n - 1)) 0

  ended-Keeps : (m : Memory) (l : Line) → 0 < n → Keeps str n m0 m l → Keeps str n m0 (ended m) l
  unfolding ended
  ended-Keeps m l pos h = record {
    bytes = λ j hj. elim (Bool-cases (str + j == str + (n - 1))) [
      | inl e ↦
          let last = ==→eq (str + j) (str + (n - 1)) e in
          rw e (sym (get_or_end l.text j 0 (omega (arith, h.room))))
      | inr ne ↦ rw ne (h.bytes j hj)
    ];
    written = h.written;
    room = h.room;
    inside = h.inside;
    others = λ x out.
        let other : x ≢ str + (n - 1) = elim out [
          | inl below ↦ omega arith
          | inr above ↦ omega arith
        ] in
        rw (ne→== x (str + (n - 1)) other) (h.others x out);
  }

  -- For a buffer of at least one byte, and any keys with a Return behind them: getstr returns the
  -- length of the edited text; the buffer holds that text, which has fewer than n characters, with
  -- zeros up to its end, and no other memory is changed.
  pub getstr-edits :
      (col row : ℕ) (keys rest : List ℕ)
      → 0 < n
      → AreTyped keys
      → (m : Memory) × (out : List Output) × (getstr str n col row (keys ++ (0x0D ∷ rest)) m0
          ≡ some (m, out, length (edits n keys empty_line).text))
        × Keeps str n m0 m (edits n keys empty_line)
  unfolding getstr ended
  getstr-edits col row keys rest pos typed =
      let (m, out, found, held) =
        key_loop-edits col row keys rest (fill str 0 n m0) empty_line 0 refl typed
          (filled-Keeps pos) in
      let last = ended-Keeps m (edits n keys empty_line) pos held in
      (
        ended m,
        show_cursor true ∷ (out ++ (char 0x0A ∷ [])),
        ap
              (λ r. elim r [
                | none ↦ none
                | some r ↦ some (
                  ended r.0,
                  show_cursor true ∷ (r.1 ++ (char 0x0A ∷ [])),
                  strlen_at (ended r.0) str n,
                )
              ])
              found
            ∙ (ap (λ x. some (ended m, show_cursor true ∷ (out ++ (char 0x0A ∷ [])), x))
                (strlen_of str n m0 (ended m) (edits n keys empty_line) last)),
        last,
      )
