-- ===== src/Edit/Show/Rows.antt =====
-- What show_buffer_at_line of source/programs/edit.c shows.
use nano_s.Common.{
  ℕ, zero, suc, ◌+◌, ◌-◌, ◌*◌, ◌||◌, List, [], ◌∷◌, ◌++◌, replicate, ◌==◌, if◌then◌else◌,
}
use nano_s.Edit.{screen_width}
use nano_s.Edit.Linecol.{newline}
use nano_s.Edit.Show.{skip_newline, at_end}

-- The row of the screen for the start of a text, `left` columns wide: the characters up to the end
-- of the line, then spaces.
unfoldable pub row_text : (left : ℕ) → List ℕ → List ℕ
row_text zero line = []
row_text (suc left) [] = 32 ∷ row_text left []
row_text (suc left) (c ∷ line) =
    let rest = c ∷ row_text left line in
    if c == 0 || c == newline then replicate (suc left) 32 else rest

-- The text behind the row.
unfoldable pub row_rest : (left : ℕ) → List ℕ → List ℕ
row_rest zero line = line
row_rest (suc left) [] = []
row_rest (suc left) (c ∷ line) =
    let rest = row_rest left line in if c == 0 || c == newline then c ∷ line else rest

-- `left` rows of the text, one behind the other.
unfoldable pub rows : (left : ℕ) → List ℕ → List ℕ
unfolding row_text row_rest
rows zero buff = []
rows (suc left) buff =
    let text = if at_end buff then [] else buff in
    row_text screen_width text
    ++ rows left (if at_end buff then buff else skip_newline (row_rest screen_width text))

-- The offset of a place that has `left` columns from it on to the end of its row.
abbrev place : (row left : ℕ) → ℕ
place row left = screen_width - left + (row - 1) * screen_width
