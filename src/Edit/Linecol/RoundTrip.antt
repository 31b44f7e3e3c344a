-- ===== src/Edit/Linecol/RoundTrip.antt =====
-- The two conversions of source/programs/edit.c against one another.
use nano_s.Common.{
  ℕ, zero, suc, ◌+◌, ◌-◌, ◌≡◌, ◌≢◌, ◌≤◌, ◌<◌, ◌⊎◌, ◌∙◌, refl, List, [], ◌∷◌, false, ◌==◌,
  Bool-cases, inl, inr, lt→leb, ne→==, arith,
}
use nano_s.Ulib.Text.{strlen}
use nano_s.Edit.{screen_width}
use nano_s.Edit.Linecol.{
  newline, to_linecol, buffer_offset_to_linecol, skip_lines, skip_cols, linecol_to_buffer_offset,
}

-- Each line of the text has less characters than the screen has columns; `col` stand before.
abbrev pub AreShort : (col : ℕ) → List ℕ → Type 0
AreShort col [] = Unit {0}
AreShort col (x ∷ buff) =
    ((x ≡ newline) × AreShort 0 buff)
    ⊎ ((x ≢ newline) × (col + 1 < screen_width) × AreShort (col + 1) buff)

-- Where `offset` characters lead from a place in `col` and `line`: further in the same line, or to a
-- later one, where the loops of linecol_to_buffer_offset come to the same character.
record SameLine (offset : ℕ) (buff : List ℕ) (col line : ℕ) (p : ℕ × ℕ) : Type 0 where
  line_lem : p.1 ≡ line
  col_lem : p.0 ≡ col + offset
  there : (from : ℕ) → skip_cols buff offset from ≡ from + offset

record LaterLine (offset : ℕ) (buff : List ℕ) (c line : ℕ) (p : ℕ × ℕ) : Type 0 where
  line_lem : line < p.1
  there :
      (from : ℕ)
      → let r = skip_lines buff c (p.1 - line) from in skip_cols r.0 p.0 r.1 ≡ from + offset

abbrev Leads : (offset : ℕ) → List ℕ → (col c line : ℕ) → ℕ × ℕ → Type 0
Leads offset buff col c line p = SameLine offset buff col line p ⊎ LaterLine offset buff c line p

skip_cols_zero : (buff : List ℕ) (from : ℕ) → skip_cols buff 0 from ≡ from
unfolding skip_cols
skip_cols_zero [] from = refl
skip_cols_zero (x ∷ buff) from = ground arith

skip_lines_zero : (buff : List ℕ) (c from : ℕ) → skip_lines buff c 0 from ≡ (buff, from)
unfolding skip_lines
skip_lines_zero [] c from = refl
skip_lines_zero (x ∷ buff) c from = elim (Bool-cases (x == 0)) [
  | inl z ↦ rw z refl
  | inr nz ↦ rw nz refl
]

-- A newline is passed.
over_newline :
    (offset : ℕ) (buff : List ℕ) (col c line : ℕ) (p : ℕ × ℕ)
    → Leads offset buff 0 1 (line + 1) p
    → Leads (suc offset) (newline ∷ buff) col c line p
unfolding skip_lines
over_newline offset buff col c line p (inl h) = inr (record {
  line_lem = omega (arith, h.line_lem);
  there = λ from.
      let one : p.1 - line ≡ 1 = omega (arith, h.line_lem) in
      let same : p.0 ≡ offset = omega (arith, h.col_lem) in
      rw (one, same, skip_lines_zero buff 1 (from + 1)) (h.there (from + 1) ∙ omega arith);
})
over_newline offset buff col c line p (inr h) = inr (record {
  line_lem = omega (arith, h.line_lem);
  there = λ from.
      let some : (p.1 - line == 0) ≡ false = ne→== (p.1 - line) 0 (omega (arith, h.line_lem)) in
      let less : p.1 - line - 1 ≡ p.1 - (line + 1) = omega arith in
      rw (some, less) (h.there (from + 1) ∙ omega arith);
})

-- So is another character, if the line does not reach the last column.
over_char :
    (x offset : ℕ) (buff : List ℕ) (col c line : ℕ) (p : ℕ × ℕ)
    → (x == 0) ≡ false
    → (x == newline) ≡ false
    → c < screen_width
    → Leads offset buff (col + 1) (c + 1) line p
    → Leads (suc offset) (x ∷ buff) col c line p
unfolding skip_lines skip_cols
over_char x offset buff col c line p nz nl hc (inl h) = inl (record {
  line_lem = h.line_lem;
  col_lem = omega (arith, h.col_lem);
  there = λ from.
      let less : suc offset - 1 ≡ offset = omega arith in
      let some : (suc offset == 0) ≡ false = ne→== (suc offset) 0 (omega arith) in
      rw (nz, nl, less, some) (h.there (from + 1) ∙ omega arith);
})
over_char x offset buff col c line p nz nl hc (inr h) = inr (record {
  line_lem = h.line_lem;
  there = λ from.
      let some : (p.1 - line == 0) ≡ false = ne→== (p.1 - line) 0 (omega (arith, h.line_lem)) in
      rw (nz, nl, some, lt→leb screen_width c hc) (h.there (from + 1) ∙ omega arith);
})

leads :
    (offset : ℕ) (buff : List ℕ) (col c line : ℕ)
    → AreShort col buff
    → c ≤ col + 1
    → offset ≤ strlen buff
    → Leads offset buff col c line (to_linecol offset buff col line)
unfolding to_linecol strlen
leads zero buff col c line short hc h = inl (record {
  line_lem = refl;
  col_lem = omega arith;
  there = λ from. skip_cols_zero buff from ∙ omega arith;
})
leads (suc offset) [] col c line short hc h = absurd (omega arith)
leads (suc offset) (x ∷ buff) col c line (inl (nl, s)) hc h =
    let h' : suc offset ≤ suc (strlen buff) = rw nl at h in
    rw nl (
      over_newline offset buff col c line (to_linecol offset buff 0 (line + 1))
        (leads offset buff 0 1 (line + 1) s (omega arith) (omega arith)))
leads (suc offset) (x ∷ buff) col c line (inr (other, room, s)) hc h = elim (Bool-cases (x == 0)) [
  | inl z ↦ absurd (omega (arith, rw z at h))
  | inr nz ↦
      let h' : suc offset ≤ suc (strlen buff) = rw nz at h in
      let nl = ne→== x newline other in
      rw (nz, nl, lt→leb screen_width (col + 1) room)
        (over_char x offset buff col c line (to_linecol offset buff (col + 1) line) nz nl
          (omega arith) (leads offset buff (col + 1) (c + 1) line s (omega arith) (omega arith)))
]

-- In a text whose lines all have less than 80 characters, each offset up to the end of the text is
-- found again from its line and column.
pub linecol_to_buffer_offset-buffer_offset_to_linecol :
    (buff : List ℕ) (offset : ℕ)
    → AreShort 0 buff
    → offset ≤ strlen buff
    → let p = buffer_offset_to_linecol buff offset in linecol_to_buffer_offset buff p.0 p.1 ≡ offset
unfolding buffer_offset_to_linecol linecol_to_buffer_offset
linecol_to_buffer_offset-buffer_offset_to_linecol buff offset short h =
    elim (leads offset buff 0 0 0 short (omega arith) h) [
      | inl s ↦
          let same : (to_linecol offset buff 0 0).0 ≡ offset = omega (arith, s.col_lem) in
          rw (s.line_lem, same, skip_lines_zero buff 0 0) (s.there 0 ∙ omega arith)
      | inr l ↦
          let line = (to_linecol offset buff 0 0).1 in
          let e : line ≡ line - 0 = omega arith in rw e (l.there 0 ∙ omega arith)
    ]
