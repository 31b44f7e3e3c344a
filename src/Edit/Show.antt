-- ===== src/Edit/Show.antt =====
-- editor_putchar, next_line and show_buffer_at_line of source/programs/edit.c.
pub mod Put
pub mod Rows
use nano_s.Common.{
  ℕ, zero, suc, ◌+◌, ◌-◌, ◌*◌, Bool, true, false, not, ◌||◌, List, [], ◌∷◌, get_or, set, ◌==◌,
  if◌then◌else◌,
}
use nano_s.Edit.{screen_width, screen_height, Screen}
use nano_s.Edit.Linecol.{newline}

-- io_vga_putc_attr of source/hwio.c shows a tab or a newline as a space.
abbrev pub vga_char : ℕ → ℕ
vga_char c = if c == 9 || c == newline then 32 else c

unfoldable pub editor_putchar : (col row c : ℕ) → Screen → Screen
editor_putchar col row c sc =
    let offset = col + (row - 1) * screen_width in
    if not (c == get_or sc.copy offset 0)
    then record { copy = set sc.copy offset c; shown = set sc.shown offset (vga_char c) }
    else sc

-- The first loop of next_line, with `left` columns to go: the rest of the text and the columns left.
unfoldable pub text_loop : (show : Bool) → (row left : ℕ) → List ℕ → Screen → List ℕ × ℕ × Screen
unfolding editor_putchar
text_loop show row zero line sc = (line, zero, sc)
text_loop show row (suc left) [] sc = ([], suc left, sc)
text_loop show row (suc left) (c ∷ line) sc =
    let put = if show then editor_putchar (screen_width - suc left) row c sc else sc in
    let rest = text_loop show row left line put in
    if c == 0 || c == newline then (c ∷ line, suc left, sc) else rest

-- "Clear the rest of this line with spaces"
unfoldable pub clear_loop : (row left : ℕ) → Screen → Screen
unfolding editor_putchar
clear_loop row zero sc = sc
clear_loop row (suc left) sc =
    clear_loop row left (editor_putchar (screen_width - suc left) row 32 sc)

abbrev pub skip_newline : List ℕ → List ℕ
skip_newline [] = []
skip_newline (c ∷ line) = if c == newline then line else c ∷ line

-- A null pointer is the empty text.
unfoldable pub next_line : (show : Bool) → (row : ℕ) → List ℕ → Screen → List ℕ × Screen
unfolding text_loop clear_loop
next_line show row line sc =
    let (rest, left, sc') = text_loop show row screen_width line sc in
    (skip_newline rest, if show then clear_loop row left sc' else sc')

abbrev pub at_end : List ℕ → Bool
at_end [] = true
at_end (c ∷ _) = c == 0

-- "Skip buffer until required line number"
unfoldable pub skip_to : (n : ℕ) → List ℕ → Screen → List ℕ
unfolding next_line
skip_to zero buff sc = buff
skip_to (suc n) buff sc =
    let rest = skip_to n (next_line false 0 buff sc).0 sc in if at_end buff then buff else rest

-- "Show required buffer lines", from row `row` on.
unfoldable pub show_rows : (left row : ℕ) → List ℕ → Screen → Screen
unfolding next_line
show_rows zero row buff sc = sc
show_rows (suc left) row buff sc =
    let (rest, sc') = next_line true row (if at_end buff then [] else buff) sc in
    show_rows left (row + 1) (if at_end buff then buff else rest) sc'

unfoldable pub show_buffer_at_line : List ℕ → (n : ℕ) → Screen → Screen
unfolding skip_to show_rows
show_buffer_at_line buff n sc = show_rows (screen_height - 1) 1 (skip_to n buff sc) sc
