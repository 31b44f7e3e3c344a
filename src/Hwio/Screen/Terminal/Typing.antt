-- ===== src/Hwio/Screen/Terminal/Typing.antt =====
-- io_vga_putc of source/hwio.c does on the screen what a character does on the terminal.
use nano_s.Common.{
  ℕ, ◌+◌, ◌-◌, ◌*◌, ◌%◌, ◌≤◌, ◌<◌, ◌≡◌, ◌≢◌, inl, inr, refl, sym, ap, ◌∙◌, ◌==◌, Bool-cases, arith,
  ==→eq, ==→ne, eq→==, ne→==,
}
use nano_s.Ulib.Memory.{Memory}
use nano_s.Hwio.Screen.{Vga, cursor, put_cell, scroll, set_char, io_vga_putc}
use nano_s.Hwio.Screen.Cells.{cell, cell-put_cell, cell-put_cell_ne, put_cell-Same}
use nano_s.Hwio.Screen.Terminal.{
  Terminal, Cells, with_cell, type_char, type_code, with_default, tab_shown, Shows,
}
use nano_s.Hwio.Screen.Terminal.Scroll.{
  Holds, put_back, put_back-Shows, scroll_none, next_row-Shows,
}

with_cell_ne :
    (cells : Cells) (r c i j : ℕ) (v : ℕ × ℕ)
    → (i ≡ r → j ≢ c)
    → with_cell r c v cells i j ≡ cells i j
with_cell_ne cells r c i j v ne = elim (Bool-cases (i == r)) [
  | inl e ↦ rw (e, ne→== j c (ne (==→eq i r e))) refl
  | inr other ↦ rw other refl
]

with_cell_eq :
    (cells : Cells) (r c i j : ℕ) (v : ℕ × ℕ) → i ≡ r → j ≡ c → with_cell r c v cells i j ≡ v
with_cell_eq cells r c i j v er ec = rw (eq→== i r er, eq→== j c ec) refl

pub put_cell_cells :
    (m : Memory) (cells : Cells) (pos row col c attr i j : ℕ)
    → ((r k : ℕ) → r < 28 → k < 80 → cell m (80 * r + k) ≡ cells r k)
    → pos ≡ 80 * row + col
    → col < 80
    → i < 28
    → j < 80
    → cell (put_cell pos c attr m) (80 * i + j) ≡ with_cell row col (c, attr) cells i j
put_cell_cells m cells pos row col c attr i j same place in_cols row_in col_in =
    elim (Bool-cases (80 * i + j == pos)) [
      | inl e ↦
          let here = ==→eq (80 * i + j) pos e in
          ap (cell (put_cell pos c attr m)) here
          ∙ cell-put_cell pos c attr m
          ∙ sym (with_cell_eq cells row col i j (c, attr) (omega arith) (omega arith))
      | inr ne ↦
          let other = ==→ne (80 * i + j) pos ne in
          cell-put_cell_ne pos c attr (80 * i + j) m other
          ∙ same i j row_in col_in
          ∙ sym (with_cell_ne cells row col i j (c, attr) (λ e f. omega arith))
    ]

pub Shows-Holds :
    (m0 : Memory) (s : Vga) (t : Terminal)
    → Shows m0 s t
    → (pos row col : ℕ) → pos ≡ 80 * row + col
    → col < 80
    → row ≤ 28
    → Holds m0 (s.memory, pos) t.cells row col
Shows-Holds m0 s t h pos row col place col_in row_in = record {
  place = place;
  col_in = col_in;
  row_in = row_in;
  same_cells = h.same_cells;
  others = h.others;
}

-- A character is written, and the place behind it is in the same row or starts the next one.
written :
    (m0 : Memory) (s : Vga) (t : Terminal) (c attr row col : ℕ)
    → Shows m0 s t
    → cursor s + 1 ≡ 80 * row + col
    → col < 80
    → row ≤ 28
    → Holds m0
        (put_cell (cursor s) c attr s.memory, cursor s + 1)
        (with_cell t.row t.col (c, attr) t.cells)
        row
        col
written m0 s t c attr row col h place col_in row_in = record {
  place = place;
  col_in = col_in;
  row_in = row_in;
  same_cells = λ i j ri ci.
      put_cell_cells s.memory t.cells (cursor s) t.row t.col c attr i j h.same_cells h.place
        h.col_in ri ci;
  others =
      put_cell-Same (cursor s) c attr s.memory m0 (omega (arith, h.place, h.col_in, h.row_in))
        h.others;
}

typed : Terminal → ℕ × ℕ → Terminal
typed t v = record t { cells = with_cell t.row t.col v t.cells }

type_char-Shows :
    (m0 : Memory) (s : Vga) (t : Terminal) (c attr : ℕ)
    → Shows m0 s t
    → Shows m0
        (put_back (scroll (put_cell (cursor s) c attr s.memory, cursor s + 1)) s)
        (type_char (c, attr) t)
unfolding type_char typed
type_char-Shows m0 s t c attr h = elim (Bool-cases (t.col == 79)) [
  | inl e ↦
      let behind =
        written m0 s t c attr (t.row + 1) 0 h (omega (arith, h.place, ==→eq t.col 79 e))
          (omega arith) (omega (arith, h.row_in)) in
      rw e (
        next_row-Shows m0 (put_cell (cursor s) c attr s.memory, cursor s + 1) s (typed t (c, attr))
          h.row_in behind)
  | inr ne ↦
      let behind =
        written m0 s t c attr t.row (t.col + 1) h (omega (arith, h.place))
          (omega (arith, h.col_in, ==→ne t.col 79 ne)) (omega (arith, h.row_in)) in
      rw
        (
          ne,
          scroll_none m0 (put_cell (cursor s) c attr s.memory, cursor s + 1)
              (with_cell t.row t.col (c, attr) t.cells) t.row (t.col + 1) behind h.row_in,
        )
        (put_back-Shows m0 (put_cell (cursor s) c attr s.memory, cursor s + 1) s _ t.row (t.col + 1)
          behind h.row_in)
]

set_char-Shows :
    (m0 : Memory) (s : Vga) (t : Terminal) (c attr : ℕ)
    → Shows m0 s t
    → Shows m0 (put_back (scroll (set_char c attr (s.memory, cursor s))) s) (type_code c attr t)
unfolding set_char type_code
set_char-Shows m0 s t c attr h = elim (Bool-cases (c == 0x0A)) [
  | inl e ↦ rw e (
      next_row-Shows m0 (s.memory, cursor s + (80 - cursor s % 80)) s t h.row_in
        (Shows-Holds m0 s t h (cursor s + (80 - cursor s % 80)) (t.row + 1) 0
          (omega (arith, h.place, h.col_in)) (omega arith) (omega (arith, h.row_in))))
  | inr ne ↦ elim (Bool-cases (c == 0x0D)) [
    | inl e ↦
        let start =
          Shows-Holds m0 s t h (cursor s - cursor s % 80) t.row 0 (omega (arith, h.place, h.col_in))
            (omega arith) (omega (arith, h.row_in)) in
        rw
          (
            ne,
            e,
            scroll_none m0 (s.memory, cursor s - cursor s % 80) t.cells t.row 0 start h.row_in,
          )
          (put_back-Shows m0 (s.memory, cursor s - cursor s % 80) s t.cells t.row 0 start h.row_in)
    | inr other ↦ rw (ne, other) (type_char-Shows m0 s t c attr h)
  ]
]

pub io_vga_putc-Shows :
    (m0 : Memory) (s : Vga) (t : Terminal) (c attr : ℕ)
    → Shows m0 s t
    → Shows m0 (io_vga_putc c attr s) (type_code (tab_shown c) (with_default attr) t)
unfolding io_vga_putc put_back
io_vga_putc-Shows m0 s t c attr h = set_char-Shows m0 s t (tab_shown c) (with_default attr) h
