-- ===== src/Edit.antt =====
-- The text editor of source/programs/edit.c. The text buffer is the list of the bytes in use, which
-- buff_size counts; malloc is taken to succeed, and the buffer to have room for every insertion.
pub mod Linecol
pub mod Show
pub mod Keys
pub mod Session
mod Tests
use nano_s.Common.{ℕ, ◌+◌, ◌-◌, ◌*◌, ◌/◌, ◌%◌, min, List, [], ◌∷◌, ◌++◌, take, replicate}

abbrev pub screen_width : ℕ
screen_width = 80

abbrev pub screen_height : ℕ
screen_height = 28

-- The local copy of the characters of the editor area, and what the screen shows there.
pub record Screen : Type 0 where
  pub copy : List ℕ
  pub shown : List ℕ

-- The mark behind the file name in the title: none, changed, and changed but not saved by F1.
pub data Mark : Type 0 where
  saved changed failed : Mark

pub record Editor : Type 0 where
  pub buff : List ℕ
  pub buff_cursor_offset : ℕ
  pub current_line : ℕ
  pub screen : Screen
  pub mark : Mark
  pub line_number : List ℕ
  pub cursor_col : ℕ
  pub cursor_row : ℕ
