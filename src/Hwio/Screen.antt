-- ===== src/Hwio/Screen.antt =====
-- The text screen of source/hwio.c (io_vga_*): the video memory as bytes of the one memory, two
-- for each of the 28 * 80 cells, and the registers of the controller.
pub mod Cells
pub mod Terminal
use nano_s.Common.{
  ℕ, zero, suc, ◌+◌, ◌-◌, ◌*◌, ◌/◌, ◌%◌, ◌^◌, bit_and, bit_or, Bool, true, false, ◌||◌, ◌==◌, ltb,
  if◌then◌else◌,
}
use nano_s.Ulib.Memory.{Memory, store, memcpy}

abbrev pub vga_width : ℕ
vga_width = 80

abbrev pub vga_height : ℕ
vga_height = 28

abbrev pub vga_memory : ℕ
vga_memory = 0xB8000

abbrev pub at_default : ℕ
at_default = 7

abbrev pub blank : ℕ
blank = 0x20

-- The memory, the registers 14 and 15 with the place of the cursor, and 10 and 11 with its shape.
pub record Vga : Type 0 where
  pub memory : Memory
  pub high : ℕ
  pub low : ℕ
  pub start_line : ℕ
  pub end_line : ℕ

unfoldable pub cursor : Vga → ℕ
cursor s = bit_or s.low (s.high * 2 ^ 8)

unfoldable pub set_cursor : ℕ → Vga → Vga
set_cursor pos s = record s { high = pos / 2 ^ 8 % 2 ^ 8; low = pos % 2 ^ 8 }

-- The assignment VGA_MEMORY[pos] = c | attr << 8.
unfoldable pub put_cell : (pos c attr : ℕ) → Memory → Memory
put_cell pos c attr m = store (store m (vga_memory + 2 * pos) c) (vga_memory + 2 * pos + 1) attr

unfoldable pub fill_cells : (left i : ℕ) → Memory → Memory
unfolding put_cell
fill_cells zero i m = m
fill_cells (suc left) i m = fill_cells left (i + 1) (put_cell i blank at_default m)

unfoldable pub scroll : Memory × ℕ → Memory × ℕ
unfolding memcpy fill_cells
scroll (m, pos) =
    if ltb (vga_height - 1) (pos / vga_width)
    then (
      fill_cells (vga_height * vga_width - (pos - vga_width)) (pos - vga_width)
          (memcpy vga_memory (vga_memory + 2 * vga_width) (2 * (vga_height - 1) * vga_width) m).1,
      pos - vga_width,
    )
    else (m, pos)

unfoldable pub set_char : (c attr : ℕ) → Memory × ℕ → Memory × ℕ
unfolding put_cell
set_char c attr (m, pos) =
    if c == 0x0A
    then (m, pos + (vga_width - pos % vga_width))
    else if c == 0x0D
    then (m, pos - pos % vga_width)
    else (put_cell pos c attr m, pos + 1)

unfoldable pub io_vga_putc : (c attr : ℕ) → Vga → Vga
unfolding cursor set_cursor scroll set_char
io_vga_putc c attr s =
    let a = if attr == 0 then at_default else attr in
    let b = if c == 0x09 then blank else c in
    let (m, pos) = scroll (set_char b a (s.memory, cursor s)) in
    set_cursor pos (record s { memory = m })

unfoldable pub io_vga_putc_attr : (x y c attr : ℕ) → Vga → Vga
unfolding put_cell
io_vga_putc_attr x y c attr s =
    let a = if attr == 0 then at_default else attr in
    let b = if c == 0x09 || c == 0x0A then blank else c in
    record s { memory = put_cell (vga_width * y + x) b a s.memory }

unfoldable pub io_vga_getcursorpos : Vga → ℕ × ℕ
unfolding cursor
io_vga_getcursorpos s = (cursor s % vga_width, cursor s / vga_width)

unfoldable pub io_vga_setcursorpos : (x y : ℕ) → Vga → Vga
unfolding set_cursor
io_vga_setcursorpos x y s = set_cursor (vga_width * y + x) s

-- The inner loop of io_vga_clear, down one column, and the outer one.
unfoldable pub clear_column : (x left y : ℕ) → Memory → Memory
unfolding put_cell
clear_column x zero y m = m
clear_column x (suc left) y m =
    clear_column x left (y + 1) (put_cell (vga_width * y + x) blank at_default m)

unfoldable pub clear_columns : (left x : ℕ) → Memory → Memory
unfolding clear_column
clear_columns zero x m = m
clear_columns (suc left) x m = clear_columns left (x + 1) (clear_column x vga_height 0 m)

unfoldable pub io_vga_clear : Vga → Vga
unfolding clear_columns io_vga_setcursorpos
io_vga_clear s = io_vga_setcursorpos 0 0 (record s { memory = clear_columns vga_width 0 s.memory })

-- `other` is what the port VGA_PORT+8 gives, which is no register of the cursor.
unfoldable pub io_vga_showcursor : (show : Bool) (other : ℕ) → Vga → Vga
io_vga_showcursor false other s = record s { start_line = 0x20 }
io_vga_showcursor true other s = record s {
  start_line = bit_or (bit_and s.start_line 0xC0) 0x0C;
  end_line = bit_or (bit_and other 0xE0) 0x0E;
}
