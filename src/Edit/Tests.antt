-- ===== src/Edit/Tests.antt =====
-- Runs of the editor of source/programs/edit.c, and the theorems at concrete inputs.
use nano_s.Common.{ℕ, ◌≡◌, ◌≤◌, refl, inl, inr, List, [], ◌∷◌, ◌++◌, replicate, arith}
use nano_s.Ulib.Text.{codes, strlen}
use nano_s.Edit.{Editor, saved}
use nano_s.Edit.Linecol.{buffer_offset_to_linecol, linecol_to_buffer_offset}
use nano_s.Edit.Linecol.RoundTrip.{AreShort, linecol_to_buffer_offset-buffer_offset_to_linecol}
use nano_s.Edit.Show.Put.{screen_of}
use nano_s.Edit.Keys.{act, key_of, insert, backspace, line_digits, update_display}
use nano_s.Edit.Keys.Valid.{IsValid, IsShown, keys-IsValid}

-- "ab", a newline, "cd" and the final 0.
abbrev two_lines : List ℕ
two_lines = codes "ab" ++ 10 ∷ (codes "cd" ++ 0 ∷ [])

abbrev editor : ℕ → Editor
editor offset = record {
  buff = two_lines;
  buff_cursor_offset = offset;
  current_line = 0;
  screen = screen_of (replicate 2160 0) (replicate 2160 32);
  mark = saved;
  line_number = replicate 4 32;
  cursor_col = 0;
  cursor_row = 1;
}

down_lem : (act (key_of 0xEA) (editor 1)).buff_cursor_offset ≡ 4
unfolding act key_of
down_lem = refl

typed_lem : (act backspace (act (insert 120) (editor 2))).buff ≡ two_lines
unfolding act
typed_lem = refl

line_digits_lem : line_digits 41 ≡ codes "42  "
unfolding line_digits
line_digits_lem = refl

-- A line of 81 characters goes over the edge of the screen: its last character, at offset 80, has
-- column 0 of line 1, and that place is taken for offset 81.
wrapped_lem :
    let buff : List ℕ = replicate 81 120 ++ 0 ∷ [] in
    (buffer_offset_to_linecol buff 80 ≡ (0, 1)) × (linecol_to_buffer_offset buff 0 1 ≡ 81)
unfolding buffer_offset_to_linecol linecol_to_buffer_offset
wrapped_lem = (refl, refl)

two_lines-AreShort : AreShort 0 two_lines
two_lines-AreShort = inr (
  omega arith,
  omega arith,
  inr (
    omega arith,
    omega arith,
    inl (
      refl,
      inr (
        omega arith,
        omega arith,
        inr (omega arith, omega arith, inr (omega arith, omega arith, tt)),
      ),
    ),
  ),
)

inside_two_lines : 4 ≤ strlen two_lines
unfolding strlen
inside_two_lines = omega arith

linecol_to_buffer_offset-buffer_offset_to_linecol_example :
    let p = buffer_offset_to_linecol two_lines 4 in linecol_to_buffer_offset two_lines p.0 p.1 ≡ 4
linecol_to_buffer_offset-buffer_offset_to_linecol_example =
    linecol_to_buffer_offset-buffer_offset_to_linecol two_lines 4 two_lines-AreShort
      inside_two_lines

editor-IsValid : IsValid (editor 2)
editor-IsValid = record { terminated = refl; inside = omega arith }

keys-IsValid_example :
    IsValid (update_display (act (insert 120) (editor 2)))
    × IsShown (update_display (act (insert 120) (editor 2)))
keys-IsValid_example = keys-IsValid (insert 120) (editor 2) editor-IsValid
