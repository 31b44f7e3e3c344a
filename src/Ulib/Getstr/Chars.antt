-- ===== src/Ulib/Getstr/Chars.antt =====
-- The characters that getstr of source/ulib/ulib.c puts into its buffer, and the length of the text.
use nano_s.Common.{
  ℕ, zero, suc, ◌+◌, ◌-◌, ◌%◌, ◌^◌, ◌≤◌, ◌<◌, ◌≡◌, ◌≢◌, ◌⊎◌, inl, inr, refl, sym, ap, ◌∙◌, subst,
  Bool, true, false, not, ◌&&◌, ◌||◌, ◌==◌, ltb, leb, if◌then◌else◌, List, [], ◌∷◌, length, get_or,
  Bool-cases, ltb→lt, ltb→le, lt→ltb, le→ltb, le→leb, lt→leb, ==→eq, ==→ne, eq→==, ne→==, arith,
}
use nano_s.Ulib.Memory.{Memory}
use nano_s.Ulib.Getstr.{strlen_at, Typed}
use nano_s.Ulib.Getstr.Lists.{insert}
use nano_s.Ulib.Getstr.Keys.{Line, Keeps}
use nano_s.Ulib.Getstr.Put.{put, put-Keeps}

pub strlen_at-text :
    (text : List ℕ) (m : Memory) (a room : ℕ)
    → length text < room
    → ((j : ℕ) → j < room → m (a + j) ≡ get_or text j 0)
    → ((j : ℕ) → j < length text → get_or text j 0 ≢ 0)
    → strlen_at m a room ≡ length text
unfolding strlen_at
strlen_at-text text m a zero h bytes written = absurd (omega arith)
strlen_at-text [] m a (suc room) h bytes written =
    let e : m a ≡ 0 = ap m (omega arith) ∙ bytes 0 (omega arith) in rw (eq→== (m a) 0 e) refl
strlen_at-text (x ∷ text) m a (suc room) h bytes written =
    let e : m a ≡ x = ap m (omega arith) ∙ bytes 0 (omega arith) in
    let ne : m a ≢ 0 = λ z. written 0 (omega arith) (sym e ∙ z) in
    rw (ne→== (m a) 0 ne) (
      ap suc (
        strlen_at-text text m (a + 1) room (omega arith)
          (λ j hj. ap m (omega arith) ∙ bytes (suc j) (omega arith))
          (λ j hj. written (suc j) (omega arith))))

module _ (str n : ℕ) (m0 : Memory) where
  -- The buffer after a key is that of the line, and so is the offset.
  abbrev pub After : Typed → Line → Type 0
  After t l = Keeps str n m0 t.memory l × (t.offset ≡ l.place)

  pub strlen_of : (m : Memory) (l : Line) → Keeps str n m0 m l → strlen_at m str n ≡ length l.text
  strlen_of m l h = strlen_at-text l.text m str n h.room h.bytes h.written

  module _ (m : Memory) (l : Line) (h : Keeps str n m0 m l) where
    -- The last cases of the two chains.
    unfoldable pub typed : (k : ℕ) → Typed
    typed k =
        if not (k == 0x09) && (ltb k 0x20 || ltb 0x7E k)
        then record { memory = m; offset = l.place; shown = false }
        else if ltb (strlen_at m str n) (n - 1) && not (k % 2 ^ 8 == 0)
        then record {
          memory = put str n m0 m l h l.place (k % 2 ^ 8);
          offset = l.place + 1;
          shown = true;
        }
        else record { memory = m; offset = l.place; shown = true }

    unfoldable pub line_typed : (k : ℕ) → Line
    line_typed k =
        if (k == 0x09 || (leb 0x20 k && leb k 0x7E)) && ltb (length l.text) (n - 1)
        then record { text = insert l.place k l.text; place = l.place + 1 }
        else l

    -- The condition of the source and that of the line.
    skipped_not :
        (k : ℕ)
        → (k ≡ 0x09) ⊎ ((0x20 ≤ k) × (k ≤ 0x7E))
        → not (k == 0x09) && (ltb k 0x20 || ltb 0x7E k) ≡ false
    skipped_not k (inl e) = rw (eq→== k 0x09 e) refl
    skipped_not k (inr (low, high)) =
        rw (le→ltb k 0x20 low, le→ltb 0x7E k high) (cases (not (k == 0x09)))
      where
        cases : (b : Bool) → b && false ≡ false
        cases true = refl
        cases false = refl

    typed_char :
        (k : ℕ)
        → (k ≡ 0x09) ⊎ ((0x20 ≤ k) × (k ≤ 0x7E))
        → k == 0x09 || (leb 0x20 k && leb k 0x7E) ≡ true
    typed_char k (inl e) = rw (eq→== k 0x09 e) refl
    typed_char k (inr (low, high)) = rw (le→leb 0x20 k low, le→leb k 0x7E high) (cases (k == 0x09))
      where
        cases : (b : Bool) → b || true ≡ true
        cases true = refl
        cases false = refl

    typed_by : (k : ℕ) (skip room real : Bool) → Typed
    typed_by k skip room real =
        if skip
        then record { memory = m; offset = l.place; shown = false }
        else if room && real
        then record {
          memory = put str n m0 m l h l.place (k % 2 ^ 8);
          offset = l.place + 1;
          shown = true;
        }
        else record { memory = m; offset = l.place; shown = true }

    line_by : (k : ℕ) (can room : Bool) → Line
    line_by k can room =
        if can && room then record { text = insert l.place k l.text; place = l.place + 1 } else l

    char_by :
        (k : ℕ) (room : Bool)
        → k ≢ 0
        → k < 256
        → ltb (length l.text) (n - 1) ≡ room
        → After (typed_by k false room (not (k % 2 ^ 8 == 0))) (line_by k true room)
    unfolding typed_by line_by
    char_by k true real small e =
        let byte : k % 2 ^ 8 ≡ k = omega arith in
        rw (byte, ne→== k 0 real)
          (put-Keeps str n m0 m l h k real (ltb→lt (length l.text) (n - 1) e), refl)
    char_by k false real small e = (h, refl)

    on_char : (k : ℕ) → (k ≡ 0x09) ⊎ ((0x20 ≤ k) × (k ≤ 0x7E)) → After (typed k) (line_typed k)
    unfolding typed line_typed typed_by line_by
    on_char k can =
        let real : k ≢ 0 = elim can [ inl e ↦ omega arith | inr p ↦ omega (arith, p.0) ] in
        let small : k < 256 = elim can [ inl e ↦ omega arith | inr p ↦ omega (arith, p.1) ] in
        let room = ap (λ x. ltb x (n - 1)) (strlen_of m l h) in
        let plain = char_by k (ltb (length l.text) (n - 1)) real small refl in
        let with_room =
          subst
            (λ b.
              After (typed_by k false b (not (k % 2 ^ 8 == 0)))
                (line_by k true (ltb (length l.text) (n - 1))))
            (sym room) plain in
        let skipping =
          subst
            (λ b.
              After (typed_by k b (ltb (strlen_at m str n) (n - 1)) (not (k % 2 ^ 8 == 0)))
                (line_by k true (ltb (length l.text) (n - 1))))
            (sym (skipped_not k can)) with_room in
        subst
          (λ b.
            After
              (typed_by k (not (k == 0x09) && (ltb k 0x20 || ltb 0x7E k))
                (ltb (strlen_at m str n) (n - 1)) (not (k % 2 ^ 8 == 0)))
              (line_by k b (ltb (length l.text) (n - 1))))
          (sym (typed_char k can)) skipping

    on_no_char : (k : ℕ) → k ≢ 0x09 → (k < 0x20) ⊎ (0x7E < k) → After (typed k) (line_typed k)
    unfolding typed line_typed
    on_no_char k tab (inl low) = rw (ne→== k 9 tab, lt→ltb k 0x20 low, lt→leb 0x20 k low) (h, refl)
    on_no_char k tab (inr high) =
        rw
          (
            ne→== k 9 tab,
            lt→ltb 0x7E k high,
            lt→leb k 0x7E high,
            le→ltb k 0x20 (omega arith),
            le→leb 0x20 k (omega arith),
          )
          (h, refl)

    pub on_other : (k : ℕ) → After (typed k) (line_typed k)
    on_other k = elim (Bool-cases (k == 0x09)) [
      | inl e ↦ on_char k (inl (==→eq k 0x09 e))
      | inr tab ↦ elim (Bool-cases (ltb k 0x20)) [
        | inl low ↦ on_no_char k (==→ne k 0x09 tab) (inl (ltb→lt k 0x20 low))
        | inr ge ↦ elim (Bool-cases (ltb 0x7E k)) [
          | inl high ↦ on_no_char k (==→ne k 0x09 tab) (inr (ltb→lt 0x7E k high))
          | inr le ↦ on_char k (inr (ltb→le k 0x20 ge, ltb→le 0x7E k le))
        ]
      ]
    ]
