-- ===== src/Hwio/Screen/Terminal/Scroll.antt =====
-- Scrolling of the screen of source/hwio.c, against the rows of the terminal.
use nano_s.Common.{
  ℕ, ◌+◌, ◌-◌, ◌*◌, ◌/◌, ◌≤◌, ◌<◌, ◌≡◌, inl, inr, refl, sym, ap, ◌∙◌, subst, ◌==◌, if◌then◌else◌,
  Bool-cases, arith, ==→eq, ==→ne, lt→ltb, le→ltb,
}
use nano_s.Ulib.Memory.{Memory}
use nano_s.Hwio.Screen.{Vga, set_cursor, fill_cells, scroll}
use nano_s.Hwio.Screen.Cells.{
  cell, Same, cursor-set_cursor, cell-fill_cells_below, cell-fill_cells, fill_cells-Same, moved,
  cell-moved, moved-Same,
}
use nano_s.Hwio.Screen.Terminal.{Terminal, Cells, rows_up, next_row, Shows}

-- The same for the pair that io_vga_putc works on, where the row may be the one below the screen.
pub record Holds (m0 : Memory) (p : Memory × ℕ) (cells : Cells) (row col : ℕ) : Type 0 where
  pub place : p.1 ≡ 80 * row + col
  pub col_in : col < 80
  pub row_in : row ≤ 28
  pub same_cells : (r c : ℕ) → r < 28 → c < 80 → cell p.0 (80 * r + c) ≡ cells r c
  pub others : Same p.0 m0

unfoldable pub put_back : Memory × ℕ → Vga → Vga
put_back p s = set_cursor p.1 (record s { memory = p.0 })

pub put_back-Shows :
    (m0 : Memory) (p : Memory × ℕ) (s : Vga) (cells : Cells) (row col : ℕ)
    → Holds m0 p cells row col
    → row < 28
    → Shows m0 (put_back p s) (record { cells = cells; col = col; row = row })
unfolding put_back set_cursor
put_back-Shows m0 p s cells row col h in_rows = record {
  place = cursor-set_cursor p.1 (record s { memory = p.0 }) (omega arith) ∙ h.place;
  col_in = h.col_in;
  row_in = in_rows;
  same_cells = h.same_cells;
  others = h.others;
}

filled : Memory → ℕ → Memory × ℕ
filled m pos = (fill_cells (2240 - (pos - 80)) (pos - 80) (moved m), pos - 80)

pub scroll_none :
    (m0 : Memory) (p : Memory × ℕ) (cells : Cells) (row col : ℕ)
    → Holds m0 p cells row col
    → row < 28
    → scroll p ≡ p
unfolding scroll filled moved
scroll_none m0 (m, pos) cells row col h in_rows =
    ap (λ b. if b then filled m pos else (m, pos)) (le→ltb 27 (pos / 80) (omega (arith, h.place)))

scroll_filled : (m : Memory) (pos : ℕ) → 2240 ≤ pos → scroll (m, pos) ≡ filled m pos
unfolding scroll filled moved
scroll_filled m pos h =
    ap (λ b. if b then filled m pos else (m, pos)) (lt→ltb 27 (pos / 80) (omega arith))

up_cells :
    (m0 m : Memory) (cells : Cells) (pos r c : ℕ)
    → Holds m0 (m, pos) cells 28 0
    → r < 28
    → c < 80
    → cell (filled m pos).0 (80 * r + c) ≡ rows_up cells r c
unfolding filled
up_cells m0 m cells pos r c h row_in col_in = elim (Bool-cases (r == 27)) [
  | inl e ↦
      cell-fill_cells (2240 - (pos - 80)) (pos - 80) (80 * r + c) (moved m)
        (omega (arith, h.place, ==→eq r 27 e)) (omega (arith, h.place))
      ∙ sym (rw e refl)
  | inr ne ↦
      let above : 80 * r + c < pos - 80 = omega (arith, h.place, ==→ne r 27 ne) in
      let next : 80 * r + c + 80 ≡ 80 * (r + 1) + c = omega arith in
      cell-fill_cells_below (2240 - (pos - 80)) (pos - 80) (80 * r + c) (moved m) above
      ∙ cell-moved (80 * r + c) m (omega (arith, ==→ne r 27 ne))
      ∙ ap (cell m) next
      ∙ h.same_cells (r + 1) c (omega (arith, ==→ne r 27 ne)) col_in
      ∙ sym (rw ne refl)
]

up_filled :
    (m0 m : Memory) (cells : Cells) (pos : ℕ)
    → Holds m0 (m, pos) cells 28 0
    → Holds m0 (filled m pos) (rows_up cells) 27 0
unfolding filled
up_filled m0 m cells pos h = record {
  place = omega (arith, h.place);
  col_in = omega arith;
  row_in = omega arith;
  same_cells = λ r c row_in col_in. up_cells m0 m cells pos r c h row_in col_in;
  others =
      fill_cells-Same (2240 - (pos - 80)) (pos - 80) (moved m) m0 (omega (arith, h.place))
        (moved-Same m m0 h.others);
}

scroll_up :
    (m0 : Memory) (p : Memory × ℕ) (cells : Cells)
    → Holds m0 p cells 28 0
    → Holds m0 (scroll p) (rows_up cells) 27 0
scroll_up m0 (m, pos) cells h =
    rw (scroll_filled m pos (omega (arith, h.place))) (up_filled m0 m cells pos h)

pub next_row-Shows :
    (m0 : Memory) (p : Memory × ℕ) (s : Vga) (t : Terminal)
    → t.row < 28
    → Holds m0 p t.cells (t.row + 1) 0
    → Shows m0 (put_back (scroll p) s) (next_row t)
unfolding next_row
next_row-Shows m0 p s t in_rows h = elim (Bool-cases (t.row == 27)) [
  | inl e ↦
      let at : t.row + 1 ≡ 28 = omega (arith, ==→eq t.row 27 e) in
      let h28 = subst (λ j. Holds m0 p t.cells j 0) at h in
      rw (e) (
        subst
          (λ j.
            Shows m0 (put_back (scroll p) s) (record { cells = rows_up t.cells; col = 0; row = j }))
          (sym (==→eq t.row 27 e))
          (put_back-Shows m0 (scroll p) s (rows_up t.cells) 27 0 (scroll_up m0 p t.cells h28)
            (omega arith)))
  | inr ne ↦
      rw (ne, scroll_none m0 p t.cells (t.row + 1) 0 h (omega (arith, ==→ne t.row 27 ne)))
        (put_back-Shows m0 p s t.cells (t.row + 1) 0 h (omega (arith, ==→ne t.row 27 ne)))
]
