-- ===== src/Hwio/Tests.antt =====
-- Runs of the screen, the keyboard and the clock of source/hwio.c, and the theorems at concrete
-- inputs.
use nano_s.Common.{
  ℕ, ◌+◌, ◌≡◌, ◌≤◌, refl, Bool, true, false, ◌==◌, if◌then◌else◌, List, [], ◌∷◌, some, ne→==, ==→ne,
  arith,
}
use nano_s.Fs.Types.{Time}
use nano_s.Hwio.Keyboard.{start_shift, io_getkey}
use nano_s.Hwio.Keyboard.Modifiers.{Modifiers, word_of, on_all}
use nano_s.Hwio.Keyboard.Modifiers.Refine.{kb_gets, none_ahead, next_bytes, kb_gets-on_all}
use nano_s.Hwio.Clock.{status_a, status_b, uip, convert, io_getdatetime}
use nano_s.Hwio.Clock.Digits.{registers, form_bits, hour_read, IsTime, convert-registers}
use nano_s.Hwio.Clock.Rounds.{IsClear, IsSteady, at_moment}
use nano_s.Hwio.Clock.Steady.{IsQuiet, io_getdatetime-moment}
use nano_s.Ulib.Memory.{Memory}
use nano_s.Hwio.Screen.{Vga, cursor, io_vga_putc, io_vga_getcursorpos, io_vga_setcursorpos}
use nano_s.Hwio.Screen.Cells.{cell}
use nano_s.Hwio.Screen.Terminal.{
  Terminal, Call, putc, clear, setcursorpos, AreOn, none_left, putc_on, clear_on, setcursorpos_on,
  Shows, run, does_all,
}
use nano_s.Hwio.Screen.Terminal.Refine.{run-Terminal}

abbrev old_memory : Memory
old_memory x = 5

abbrev screen : Vga
screen = record { memory = old_memory; high = 0; low = 0; start_line = 0; end_line = 0 }

abbrev terminal : Terminal
terminal = record { cells = λ r c. (5, 5); col = 0; row = 0 }

screen_lem :
    io_vga_getcursorpos (io_vga_putc 10 0 (io_vga_putc 65 0 (io_vga_setcursorpos 79 3 screen)))
    ≡ (0, 5)
unfolding io_vga_putc io_vga_setcursorpos io_vga_getcursorpos
screen_lem = refl

screen-Shows : Shows old_memory screen terminal
unfolding cell cursor
screen-Shows = record {
  place = refl;
  col_in = omega arith;
  row_in = omega arith;
  same_cells = λ r c h i. refl;
  others = λ x o. refl;
}

-- At the end of the last row, where the screen scrolls.
abbrev calls : List Call
calls = clear ∷ setcursorpos 79 27 ∷ putc 65 0 ∷ putc 66 2 ∷ []

calls_on : AreOn calls
calls_on = clear_on _ (
    setcursorpos_on 79 27 _ (omega arith) (omega arith) (putc_on 65 0 _ (putc_on 66 2 _ none_left)))

run-Terminal_example :
    Shows old_memory (run calls screen) (does_all calls terminal)
    × (io_vga_getcursorpos (run calls screen)
        ≡ ((does_all calls terminal).col, (does_all calls terminal).row))
run-Terminal_example = run-Terminal old_memory calls screen terminal calls_on screen-Shows

abbrev some_time : Time
some_time = record { year = 2019; month = 10; day = 9; hour = 12; minute = 59; second = 8 }

some_time-IsTime : IsTime some_time
some_time-IsTime = record {
  year_low = omega arith;
  year_high = omega arith;
  month_high = omega arith;
  day_high = omega arith;
  hour_high = omega arith;
  minute_high = omega arith;
  second_high = omega arith;
}

convert-registers_example :
    convert (form_bits false false) (registers false false some_time)
    ≡ record some_time { hour = hour_read false some_time.hour }
convert-registers_example = convert-registers false false some_time some_time-IsTime

-- From 2080 on the digits are taken for a negative number.
year_2080_lem : (convert 2 (registers false true (record some_time { year = 2080 }))).year ≡ 1920
unfolding convert registers
year_2080_lem = refl

-- An update at the first read.
abbrev clock : ℕ → ℕ → ℕ
clock t reg =
    if reg == status_a
    then if t == 0 then 0x80 else 0
    else if reg == status_b
    then 6
    else if t == 0
    then 8
    else 9

flag-clear : (b : Bool) → uip (if b then 0x80 else 0) ≡ false → b ≡ false
unfolding uip
flag-clear true h = absurd (cc)
flag-clear false h = refl

clock_kept : (t u reg : ℕ) → (t == 0) ≡ false → t ≤ u → clock u reg ≡ clock t reg
clock_kept t u reg later h = rw (later, ne→== u 0 (omega (arith, ==→ne t 0 later))) refl

clock-IsSteady : IsSteady clock
clock-IsSteady t first second reg =
    let later = flag-clear (t == 0) first in
    (clock_kept t (t + 1) reg later (omega arith), clock_kept t (t + 2) reg later (omega arith))

clock-IsQuiet : IsQuiet clock 1
unfolding uip
clock-IsQuiet t low high = rw (ne→== t 0 (omega arith)) refl

io_getdatetime-moment_example :
    (u : ℕ) × IsClear clock u
    × (io_getdatetime clock 2 0
        ≡ some (convert (clock (u + 13) status_b) (at_moment clock u), u + 14))
io_getdatetime-moment_example =
    io_getdatetime-moment clock 1 0 clock-IsSteady clock-IsQuiet (omega arith)

abbrev at_start : Modifiers
at_start = record {
  ctl = false;
  shift = false;
  alt = false;
  caps = false;
  num = true;
  scroll = false;
  escaped = false;
}

-- Shift goes down, the key of the a goes down and up, shift goes up, and the a again.
abbrev ports : List (ℕ × ℕ)
ports = (1, 0x2A) ∷ (0x21, 0x1E) ∷ (1, 0x1E) ∷ (1, 0x9E) ∷ (1, 0xAA) ∷ (1, 0x1E) ∷ []

kb_gets_lem : (kb_gets ports start_shift).0 ≡ 0 ∷ 0 ∷ 0x41 ∷ 0 ∷ 0 ∷ 0x61 ∷ []
unfolding kb_gets
kb_gets_lem = refl

-- The key Home sends 0xE0 and 0x47, and has no code in the maps.
home_lem : (kb_gets ((1, 0xE0) ∷ (1, 0x47) ∷ []) start_shift).0 ≡ 0 ∷ 0 ∷ []
unfolding kb_gets
home_lem = refl

io_getkey_lem : io_getkey true ports start_shift ≡ some (0x41, 0x11)
unfolding io_getkey
io_getkey_lem = refl

kb_gets-on_all_example : kb_gets ((1, 0x3A) ∷ (1, 0x1E) ∷ []) (word_of at_start) ≡ (
  (on_all ((1, 0x3A) ∷ (1, 0x1E) ∷ []) at_start).0,
  word_of (on_all ((1, 0x3A) ∷ (1, 0x1E) ∷ []) at_start).1,
)
kb_gets-on_all_example = kb_gets-on_all ((1, 0x3A) ∷ (1, 0x1E) ∷ []) at_start (
    next_bytes 1 0x3A _ (omega arith) (omega arith)
      (next_bytes 1 0x1E _ (omega arith) (omega arith) none_ahead))
