-- ===== src/Hwio/Screen/Terminal.antt =====
-- A terminal of 28 rows of 80 cells, which the screen of source/hwio.c implements, and calls of
-- both.
pub mod Scroll
pub mod Typing
pub mod Refine
use nano_s.Common.{
  ℕ, ◌+◌, ◌-◌, ◌*◌, ◌/◌, ◌%◌, ◌≤◌, ◌<◌, ◌≡◌, ◌≢◌, inl, inr, refl, sym, ap, ap₂, ◌∙◌, subst, Bool,
  true, false, ◌&&◌, ◌||◌, ◌==◌, if◌then◌else◌, List, [], ◌∷◌, Bool-cases, arith, ==→eq, ==→ne,
  eq→==, ne→==, lt→ltb, le→ltb,
}
use nano_s.Ulib.Memory.{Memory}
use nano_s.Hwio.Screen.{
  Vga, cursor, set_cursor, put_cell, fill_cells, scroll, set_char, blank, at_default, io_vga_putc,
  io_vga_putc_attr, io_vga_setcursorpos, io_vga_getcursorpos, io_vga_clear, io_vga_showcursor,
  clear_columns,
}
use nano_s.Hwio.Screen.Cells.{
  cell, Same, cursor-set_cursor, cell-put_cell, cell-put_cell_ne, put_cell-Same,
  cell-fill_cells_below, cell-fill_cells, fill_cells-Same, moved, cell-moved, moved-Same,
  cell-clear_columns, clear_columns-Same,
}

-- Each cell has a character and an attribute.
pub record Terminal : Type 0 where
  pub cells : ℕ → ℕ → ℕ × ℕ
  pub col : ℕ
  pub row : ℕ

abbrev pub Cells : Type 0
Cells = ℕ → ℕ → ℕ × ℕ

abbrev pub empty : ℕ × ℕ
empty = (blank, at_default)

abbrev pub with_cell : (r c : ℕ) → ℕ × ℕ → Cells → Cells
with_cell r c v cells i j = if (i == r) && (j == c) then v else cells i j

abbrev pub rows_up : Cells → Cells
rows_up cells i j = if i == 27 then empty else cells (i + 1) j

-- To the start of the next row; the last row moves up.
unfoldable pub next_row : Terminal → Terminal
next_row t =
    if t.row == 27
    then record t { cells = rows_up t.cells; col = 0 }
    else record t { row = t.row + 1; col = 0 }

unfoldable pub type_char : ℕ × ℕ → Terminal → Terminal
unfolding next_row
type_char v t =
    let typed = record t { cells = with_cell t.row t.col v t.cells } in
    if t.col == 79 then next_row typed else record typed { col = t.col + 1 }

unfoldable pub type_code : (c attr : ℕ) → Terminal → Terminal
unfolding next_row type_char
type_code c attr t =
    if c == 0x0A
    then next_row t
    else if c == 0x0D
    then record t { col = 0 }
    else type_char (c, attr) t

abbrev pub with_default : ℕ → ℕ
with_default attr = if attr == 0 then at_default else attr

abbrev pub tab_shown : ℕ → ℕ
tab_shown c = if c == 0x09 then blank else c

pub data Call : Type 0 where
  putc : (c attr : ℕ) → Call
  putc_attr : (x y c attr : ℕ) → Call
  setcursorpos : (x y : ℕ) → Call
  clear : Call
  showcursor : (show : Bool) (other : ℕ) → Call

unfoldable pub call : Call → Vga → Vga
unfolding io_vga_putc io_vga_putc_attr io_vga_setcursorpos io_vga_clear io_vga_showcursor
call (putc c attr) s = io_vga_putc c attr s
call (putc_attr x y c attr) s = io_vga_putc_attr x y c attr s
call (setcursorpos x y) s = io_vga_setcursorpos x y s
call clear s = io_vga_clear s
call (showcursor show other) s = io_vga_showcursor show other s

unfoldable pub does : Call → Terminal → Terminal
unfolding type_code
does (putc c attr) t = type_code (tab_shown c) (with_default attr) t
does (putc_attr x y c attr) t = record t {
  cells = with_cell y x (if c == 0x09 || c == 0x0A then blank else c, with_default attr) t.cells;
}
does (setcursorpos x y) t = record t { col = x; row = y }
does clear t = record { cells = λ r c. empty; col = 0; row = 0 }
does (showcursor show other) t = t

-- The places that the calls name are on the screen.
pub data AreOn : List Call → Type 0 where
  none_left : AreOn []
  putc_on : (c attr : ℕ) (calls : List Call) → AreOn calls → AreOn (putc c attr ∷ calls)
  putc_attr_on :
      (x y c attr : ℕ) (calls : List Call)
      → x < 80
      → y < 28
      → AreOn calls
      → AreOn (putc_attr x y c attr ∷ calls)
  setcursorpos_on :
      (x y : ℕ) (calls : List Call)
      → x < 80
      → y < 28
      → AreOn calls
      → AreOn (setcursorpos x y ∷ calls)
  clear_on : (calls : List Call) → AreOn calls → AreOn (clear ∷ calls)
  showcursor_on :
      (show : Bool) (other : ℕ) (calls : List Call)
      → AreOn calls
      → AreOn (showcursor show other ∷ calls)

unfoldable pub run : List Call → Vga → Vga
unfolding call
run [] s = s
run (c ∷ calls) s = run calls (call c s)

unfoldable pub does_all : List Call → Terminal → Terminal
unfolding does
does_all [] t = t
does_all (c ∷ calls) t = does_all calls (does c t)

-- The screen and the memory around it, against the terminal and the memory at first.
pub record Shows (m0 : Memory) (s : Vga) (t : Terminal) : Type 0 where
  pub place : cursor s ≡ 80 * t.row + t.col
  pub col_in : t.col < 80
  pub row_in : t.row < 28
  pub same_cells : (r c : ℕ) → r < 28 → c < 80 → cell s.memory (80 * r + c) ≡ t.cells r c
  pub others : Same s.memory m0
