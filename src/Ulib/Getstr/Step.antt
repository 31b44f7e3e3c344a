-- ===== src/Ulib/Getstr/Step.antt =====
-- Each key of getstr in source/ulib/ulib.c does to the buffer what it does to the text.
use nano_s.Common.{
  ℕ, ◌+◌, ◌-◌, ◌≤◌, ◌<◌, ◌≡◌, inl, inr, refl, sym, ap₂, subst, false, ◌==◌, ltb, length, Bool-cases,
  ltb→lt, ltb→le, lt→ltb, le→ltb, ==→eq, ==→ne, arith,
}
use nano_s.Ulib.Memory.{Memory, memcpy}
use nano_s.Ulib.Getstr.{type_key}
use nano_s.Ulib.Getstr.Lists.{without}
use nano_s.Ulib.Getstr.Keys.{Line, edit, Keeps}
use nano_s.Ulib.Getstr.Taken.{taken, taken-Keeps, taken_end, not_taken}
use nano_s.Ulib.Getstr.Put.{put}
use nano_s.Ulib.Getstr.Chars.{After, strlen_of, typed, line_typed, on_other}

module _ (str n : ℕ) (m0 : Memory) where
  moved_to :
      (m : Memory) (l : Line) (p : ℕ)
      → Keeps str n m0 m l
      → p ≤ length l.text
      → Keeps str n m0 m (record l { place = p })
  moved_to m l p h hp = record {
    bytes = h.bytes;
    written = h.written;
    room = h.room;
    inside = hp;
    others = h.others;
  }

  module _ (m : Memory) (l : Line) (h : Keeps str n m0 m l) where
    abbrev pub Agrees : ℕ → Type 0
    Agrees k = After str n m0 (type_key str n k m l.place) (edit n k l)

    back_memory :
        0 < l.place
        → taken str n m0 m l h (l.place - 1)
          ≡ (memcpy (str + (l.place - 1)) (str + l.place) (n - l.place) m).1
    unfolding taken
    back_memory pos =
        ap₂ (λ src len. (memcpy (str + (l.place - 1)) src len m).1) (omega arith) (omega arith)

    on_backspace : Agrees 0x08
    unfolding type_key edit taken
    on_backspace = elim (Bool-cases (l.place == 0)) [
      | inl e ↦ rw (e, le→ltb 0 l.place (omega (arith, ==→eq l.place 0 e))) (h, refl)
      | inr ne ↦
          let pos : 0 < l.place = omega (arith, ==→ne l.place 0 ne) in
          rw (ne, lt→ltb 0 l.place pos)
            (
              subst
                  (λ x.
                    Keeps str n m0 x
                      (record { text = without (l.place - 1) l.text; place = l.place - 1 }))
                  (back_memory pos)
                  (taken-Keeps str n m0 m l h (l.place - 1) (omega (arith, h.inside))),
              refl,
            )
    ]

    on_delete : Agrees 0xE0
    unfolding type_key edit taken
    on_delete = elim (Bool-cases (ltb l.place (n - 1))) [
      | inl inner ↦ rw inner (elim (Bool-cases (ltb l.place (length l.text))) [
        | inl within ↦
            (taken-Keeps str n m0 m l h l.place (ltb→lt l.place (length l.text) within), refl)
        | inr end ↦ (
          taken_end str n m0 m l h (omega (arith, h.inside, ltb→le l.place (length l.text) end))
              (ltb→lt l.place (n - 1) inner),
          refl,
        )
      ])
      | inr full ↦ rw full (not_taken str n m0 m l h (ltb→le l.place (n - 1) full), refl)
    ]

    on_left : Agrees 0xE8
    unfolding type_key edit
    on_left = elim (Bool-cases (ltb 0 l.place)) [
      | inl right ↦ rw right (moved_to m l (l.place - 1) h (omega (arith, h.inside)), refl)
      | inr first ↦ rw first (
        moved_to m l (l.place - 1) h (omega (arith, h.inside)),
        omega (arith, ltb→le 0 l.place first),
      )
    ]

    on_right : Agrees 0xE9
    unfolding type_key edit
    on_right = elim (Bool-cases (ltb l.place (length l.text))) [
      | inl within ↦
          rw (strlen_of str n m0 m l h, within)
            (
              moved_to m l (l.place + 1) h (omega (arith, ltb→lt l.place (length l.text) within)),
              refl,
            )
      | inr end ↦ rw (strlen_of str n m0 m l h, end) (h, refl)
    ]

    on_home : Agrees 0xE2
    unfolding type_key edit
    on_home = (moved_to m l 0 h (omega arith), refl)

    on_end : Agrees 0xE1
    unfolding type_key edit
    on_end = (moved_to m l (length l.text) h (omega arith), strlen_of str n m0 m l h)

    on_none : Agrees 0
    unfolding type_key edit
    on_none = (h, refl)

    not_special :
        (k : ℕ)
        → (k == 0) ≡ false
        → (k == 0x08) ≡ false
        → (k == 0xE0) ≡ false
        → (k == 0xE8) ≡ false
        → (k == 0xE9) ≡ false
        → (k == 0xE2) ≡ false
        → (k == 0xE1) ≡ false
        → Agrees k
    unfolding type_key edit typed line_typed put
    not_special k n0 n1 n2 n3 n4 n5 n6 = rw (n0, n1, n2, n3, n4, n5, n6) (on_other str n m0 m l h k)

    pub type_key-edit : (k : ℕ) → Agrees k
    type_key-edit k = elim (Bool-cases (k == 0)) [
      | inl e ↦ subst Agrees (sym (==→eq k 0 e)) on_none
      | inr n0 ↦ elim (Bool-cases (k == 0x08)) [
        | inl e ↦ subst Agrees (sym (==→eq k 0x08 e)) on_backspace
        | inr n1 ↦ elim (Bool-cases (k == 0xE0)) [
          | inl e ↦ subst Agrees (sym (==→eq k 0xE0 e)) on_delete
          | inr n2 ↦ elim (Bool-cases (k == 0xE8)) [
            | inl e ↦ subst Agrees (sym (==→eq k 0xE8 e)) on_left
            | inr n3 ↦ elim (Bool-cases (k == 0xE9)) [
              | inl e ↦ subst Agrees (sym (==→eq k 0xE9 e)) on_right
              | inr n4 ↦ elim (Bool-cases (k == 0xE2)) [
                | inl e ↦ subst Agrees (sym (==→eq k 0xE2 e)) on_home
                | inr n5 ↦ elim (Bool-cases (k == 0xE1)) [
                  | inl e ↦ subst Agrees (sym (==→eq k 0xE1 e)) on_end
                  | inr n6 ↦ not_special k n0 n1 n2 n3 n4 n5 n6
                ]
              ]
            ]
          ]
        ]
      ]
    ]
