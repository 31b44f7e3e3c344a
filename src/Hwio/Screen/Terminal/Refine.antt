-- ===== src/Hwio/Screen/Terminal/Refine.antt =====
-- The screen of source/hwio.c implements the terminal.
use nano_s.Common.{
  ℕ, ◌+◌, ◌*◌, ◌<◌, ◌≡◌, refl, ap₂, Bool, true, false, ◌||◌, ◌==◌, if◌then◌else◌, List, arith,
}
use nano_s.Ulib.Memory.{Memory}
use nano_s.Hwio.Screen.{
  Vga, cursor, blank, io_vga_putc_attr, io_vga_setcursorpos, io_vga_getcursorpos, io_vga_clear,
  io_vga_showcursor, clear_columns,
}
use nano_s.Hwio.Screen.Cells.{put_cell-Same, cell-clear_columns, clear_columns-Same}
use nano_s.Hwio.Screen.Terminal.{
  Terminal, empty, with_default, Call, putc_attr, does, AreOn, none_left, putc_on, putc_attr_on,
  setcursorpos_on, clear_on, showcursor_on, run, does_all, Shows,
}
use nano_s.Hwio.Screen.Terminal.Scroll.{put_back, put_back-Shows}
use nano_s.Hwio.Screen.Terminal.Typing.{io_vga_putc-Shows, put_cell_cells, Shows-Holds}

setcursorpos-Shows :
    (m0 : Memory) (s : Vga) (t : Terminal) (x y : ℕ)
    → Shows m0 s t
    → x < 80
    → y < 28
    → Shows m0 (io_vga_setcursorpos x y s) (record t { col = x; row = y })
unfolding io_vga_setcursorpos put_back
setcursorpos-Shows m0 s t x y h col_in row_in =
    put_back-Shows m0 (s.memory, 80 * y + x) s t.cells y x
      (Shows-Holds m0 s t h (80 * y + x) y x refl col_in (omega arith)) row_in

clear-Shows :
    (m0 : Memory) (s : Vga) (t : Terminal)
    → Shows m0 s t
    → Shows m0 (io_vga_clear s) (record { cells = λ r c. empty; col = 0; row = 0 })
unfolding io_vga_clear io_vga_setcursorpos put_back
clear-Shows m0 s t h =
    put_back-Shows m0 (clear_columns 80 0 s.memory, 0) s (λ r c. empty) 0 0
      (record {
        place = refl;
        col_in = omega arith;
        row_in = omega arith;
        same_cells = λ r c ri ci.
            cell-clear_columns 80 0 r c s.memory (omega arith) (omega arith) (omega arith) ri;
        others = clear_columns-Same 80 0 s.memory m0 (omega arith) h.others;
      })
      (omega arith)

putc_attr-Shows :
    (m0 : Memory) (s : Vga) (t : Terminal) (x y c attr : ℕ)
    → Shows m0 s t
    → x < 80
    → y < 28
    → Shows m0 (io_vga_putc_attr x y c attr s) (does (putc_attr x y c attr) t)
unfolding io_vga_putc_attr does cursor
putc_attr-Shows m0 s t x y c attr h col_in row_in =
    let a = with_default attr in
    let b = if c == 0x09 || c == 0x0A then blank else c in
    record {
      place = h.place;
      col_in = h.col_in;
      row_in = h.row_in;
      same_cells = λ i j ri ci.
          put_cell_cells s.memory t.cells (80 * y + x) y x b a i j h.same_cells refl col_in ri ci;
      others = put_cell-Same (80 * y + x) b a s.memory m0 (omega arith) h.others;
    }

showcursor-Shows :
    (m0 : Memory) (s : Vga) (t : Terminal) (show : Bool) (other : ℕ)
    → Shows m0 s t
    → Shows m0 (io_vga_showcursor show other s) t
unfolding io_vga_showcursor cursor
showcursor-Shows m0 s t true other h = record {
  place = h.place;
  col_in = h.col_in;
  row_in = h.row_in;
  same_cells = h.same_cells;
  others = h.others;
}
showcursor-Shows m0 s t false other h = record {
  place = h.place;
  col_in = h.col_in;
  row_in = h.row_in;
  same_cells = h.same_cells;
  others = h.others;
}

run-Shows :
    (m0 : Memory) (calls : List Call) (s : Vga) (t : Terminal)
    → AreOn calls
    → Shows m0 s t
    → Shows m0 (run calls s) (does_all calls t)
unfolding run does_all
run-Shows m0 _ s t none_left h = h
run-Shows m0 _ s t (putc_on c attr calls on) h =
    run-Shows m0 calls _ _ on (io_vga_putc-Shows m0 s t c attr h)
run-Shows m0 _ s t (putc_attr_on x y c attr calls hx hy on) h =
    run-Shows m0 calls _ _ on (putc_attr-Shows m0 s t x y c attr h hx hy)
run-Shows m0 _ s t (setcursorpos_on x y calls hx hy on) h =
    run-Shows m0 calls _ _ on (setcursorpos-Shows m0 s t x y h hx hy)
run-Shows m0 _ s t (clear_on calls on) h = run-Shows m0 calls _ _ on (clear-Shows m0 s t h)
run-Shows m0 _ s t (showcursor_on show other calls on) h =
    run-Shows m0 calls _ _ on (showcursor-Shows m0 s t show other h)

getcursorpos-Shows :
    (m0 : Memory) (s : Vga) (t : Terminal) → Shows m0 s t → io_vga_getcursorpos s ≡ (t.col, t.row)
unfolding io_vga_getcursorpos
getcursorpos-Shows m0 s t h =
    ap₂ (λ a b. (a, b)) (omega (arith, h.place, h.col_in)) (omega (arith, h.place, h.col_in))

-- From a screen that shows the terminal, any calls at places of the screen leave it showing what
-- the terminal shows after them, scrolled rows included; the position read back is the terminal's,
-- and no memory outside the screen is changed.
pub run-Terminal :
    (m0 : Memory) (calls : List Call) (s : Vga) (t : Terminal)
    → AreOn calls
    → Shows m0 s t
    → Shows m0 (run calls s) (does_all calls t)
      × (io_vga_getcursorpos (run calls s) ≡ ((does_all calls t).col, (does_all calls t).row))
run-Terminal m0 calls s t on h =
    let shown = run-Shows m0 calls s t on h in
    (shown, getcursorpos-Shows m0 (run calls s) (does_all calls t) shown)
