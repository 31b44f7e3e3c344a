-- ===== src/Edit/Keys.antt =====
-- The actions of the keys in the main loop of source/programs/edit.c.
pub mod Valid
use nano_s.Common.{
  ℕ, zero, suc, ◌+◌, ◌-◌, ◌/◌, ◌%◌, min, Bool, ◌&&◌, ◌||◌, List, [], ◌∷◌, ◌++◌, length, take, drop,
  replicate, ◌==◌, ltb, leb, if◌then◌else◌,
}
use nano_s.Edit.{screen_height, Screen, Mark, saved, changed, failed, Editor}
use nano_s.Edit.Linecol.{
  newline, buffer_offset_to_linecol, linecol_to_buffer_offset, buffer_offset_to_fileline,
}
use nano_s.Edit.Show.{show_buffer_at_line}

pub data Key : Type 0 where
  ignored save up down left right home end page_down page_up backspace delete escape : Key
  insert : ℕ → Key

-- The conditions of the chain of `else if`, in its order.
unfoldable pub key_of : ℕ → Key
key_of k =
    if (ltb 0xF1 k && leb k 0xFA) || k == 0xFB || k == 0xFC || k == 0xE6 || k == 0xE3 || k == 0
    then ignored
    else if k == 0xF1
    then save
    else if k == 0xE7
    then up
    else if k == 0xEA
    then down
    else if k == 0xE8
    then left
    else if k == 0xE9
    then right
    else if k == 0xE2
    then home
    else if k == 0xE1
    then end
    else if k == 0xE4
    then page_down
    else if k == 0xE5
    then page_up
    else if k == 0x08
    then backspace
    else if k == 0xE0
    then delete
    else if k == 0x1B
    then escape
    else insert (if k == 0x0D then newline else k)

abbrev pub remove_at : ℕ → List ℕ → List ℕ
remove_at i buff = take i buff ++ drop (suc i) buff

abbrev pub insert_at : ℕ → ℕ → List ℕ → List ℕ
insert_at i k buff = take i buff ++ (k ∷ drop i buff)

-- To the place with this column and line.
unfoldable pub move_to : (ℕ × ℕ → ℕ × ℕ) → Editor → Editor
unfolding buffer_offset_to_linecol linecol_to_buffer_offset
move_to f ed =
    let (col, line) = f (buffer_offset_to_linecol ed.buff ed.buff_cursor_offset) in
    record ed { buff_cursor_offset = linecol_to_buffer_offset ed.buff col line }

-- Saving is the caller's.
unfoldable pub act : Key → Editor → Editor
unfolding move_to
act ignored ed = ed
act save ed = ed
act escape ed = ed
act up ed =
    if ltb 0 (buffer_offset_to_linecol ed.buff ed.buff_cursor_offset).1
    then move_to (λ p. (p.0, p.1 - 1)) ed
    else ed
act down ed = move_to (λ p. (p.0, p.1 + 1)) ed
act left ed =
    if ltb 0 ed.buff_cursor_offset
    then record ed { buff_cursor_offset = ed.buff_cursor_offset - 1 }
    else ed
act right ed =
    if ltb ed.buff_cursor_offset (length ed.buff - 1)
    then record ed { buff_cursor_offset = ed.buff_cursor_offset + 1 }
    else ed
act home ed = move_to (λ p. (0, p.1)) ed
act end ed = move_to (λ p. (0xFFFF, p.1)) ed
act page_down ed = move_to (λ p. (p.0, p.1 + (screen_height - 1))) ed
act page_up ed = move_to (λ p. (p.0, p.1 - min p.1 (screen_height - 1))) ed
act backspace ed =
    if ltb 0 ed.buff_cursor_offset
    then record ed {
      buff = remove_at (ed.buff_cursor_offset - 1) ed.buff;
      mark = changed;
      buff_cursor_offset = ed.buff_cursor_offset - 1;
    }
    else ed
act delete ed =
    if ltb ed.buff_cursor_offset (length ed.buff - 1)
    then record ed { buff = remove_at ed.buff_cursor_offset ed.buff; mark = changed }
    else ed
act (insert k) ed = record ed {
  buff = insert_at ed.buff_cursor_offset k ed.buff;
  buff_cursor_offset = ed.buff_cursor_offset + 1;
  mark = changed;
}

-- "Update cursor position and display": the first line shown.
abbrev pub scrolled : (line current_line : ℕ) → ℕ
scrolled line current_line =
    if ltb line current_line
    then line
    else if ltb (current_line + screen_height - 2) line
    then line - screen_height + 2
    else current_line

-- "Compute bcd value (reversed)": the digits, the last one first, are put before `acc`.
unfoldable pub bcd_digits : (rounds value : ℕ) → (acc : List ℕ) → List ℕ
bcd_digits zero value acc = acc
bcd_digits (suc rounds) value acc =
    let acc' = (value % 10 + b'0') ∷ acc in
    let rest = bcd_digits rounds (value / 10) acc' in if value / 10 == 0 then acc' else rest

unfoldable pub line_digits : (fileline : ℕ) → List ℕ
unfolding bcd_digits
line_digits fileline = take 4 (bcd_digits 4 (min 9999 (fileline + 1)) [] ++ replicate 4 32)

unfoldable pub update_display : Editor → Editor
unfolding buffer_offset_to_linecol buffer_offset_to_fileline line_digits show_buffer_at_line
update_display ed =
    let (col, line) = buffer_offset_to_linecol ed.buff ed.buff_cursor_offset in
    let current = scrolled line ed.current_line in
    record ed {
      current_line = current;
      line_number = line_digits (buffer_offset_to_fileline ed.buff ed.buff_cursor_offset);
      screen = show_buffer_at_line ed.buff current ed.screen;
      cursor_col = col;
      cursor_row = line - current + 1;
    }
