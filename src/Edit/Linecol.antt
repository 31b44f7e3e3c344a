-- ===== src/Edit/Linecol.antt =====
-- Offsets in the buffer, and lines and columns on the screen (buffer_offset_to_linecol,
-- linecol_to_buffer_offset and buffer_offset_to_fileline of source/programs/edit.c).
pub mod Bounds
pub mod RoundTrip
use nano_s.Common.{ℕ, zero, suc, ◌+◌, ◌-◌, ◌||◌, List, [], ◌∷◌, ◌==◌, leb, if◌then◌else◌}
use nano_s.Edit.{screen_width}

abbrev pub newline : ℕ
newline = 10

-- From `col` and `line` on, with `offset` characters to go.
unfoldable pub to_linecol : (offset : ℕ) → List ℕ → (col line : ℕ) → ℕ × ℕ
to_linecol zero buff col line = (col, line)
to_linecol (suc offset) [] col line = (col, line)
to_linecol (suc offset) (x ∷ buff) col line =
    let ends = x == newline || leb screen_width (col + 1) in
    let rest =
      to_linecol offset buff (if ends then 0 else col + 1) (if ends then line + 1 else line) in
    if x == 0 then (col, line) else rest

-- The column and the line.
unfoldable pub buffer_offset_to_linecol : List ℕ → (offset : ℕ) → ℕ × ℕ
unfolding to_linecol
buffer_offset_to_linecol buff offset = to_linecol offset buff 0 0

-- The first loop: what is left of the buffer `line` lines further on, and the offset there.
unfoldable pub skip_lines : List ℕ → (c line offset : ℕ) → List ℕ × ℕ
skip_lines [] c line offset = ([], offset)
skip_lines (x ∷ buff) c line offset =
    let ends = x == newline || leb screen_width c in
    let rest =
      skip_lines buff (if ends then 1 else c + 1) (if ends then line - 1 else line) (offset + 1) in
    if x == 0 || line == 0 then (x ∷ buff, offset) else rest

-- The second loop.
unfoldable pub skip_cols : List ℕ → (col offset : ℕ) → ℕ
skip_cols [] col offset = offset
skip_cols (x ∷ buff) col offset =
    let rest = skip_cols buff (col - 1) (offset + 1) in
    if (x == 0 || col == 0) || x == newline then offset else rest

unfoldable pub linecol_to_buffer_offset : List ℕ → (col line : ℕ) → ℕ
unfolding skip_lines skip_cols
linecol_to_buffer_offset buff col line =
    let (rest, offset) = skip_lines buff 0 line 0 in skip_cols rest col offset

unfoldable pub to_fileline : (offset : ℕ) → List ℕ → (line : ℕ) → ℕ
to_fileline zero buff line = line
to_fileline (suc offset) [] line = line
to_fileline (suc offset) (x ∷ buff) line =
    let rest = to_fileline offset buff (if x == newline then line + 1 else line) in
    if x == 0 then line else rest

unfoldable pub buffer_offset_to_fileline : List ℕ → (offset : ℕ) → ℕ
unfolding to_fileline
buffer_offset_to_fileline buff offset = to_fileline offset buff 0
