-- ===== src/Edit/Session.antt =====
-- main of source/programs/edit.c: the file is loaded, then each key that is pressed is handled.
use nano_s.Common.{
  ℕ, ◌+◌, ◌||◌, not, List, [], ◌∷◌, ◌++◌, length, get_or, replicate, Option, none, some, ◌==◌, leb,
  ◌-◌, if◌then◌else◌,
}
use nano_s.Fs.Types.{unknown_value, wf_create, wf_truncate, is_file}
use nano_s.Fs.Monad.{M, attempt, pure, ◌>>=◌, ◌>>◌}
use nano_s.Fs.Path.{fs_get_entry}
use nano_s.Fs.File.{fs_read_file, fs_write_file}
use nano_s.Edit.{saved, failed, Editor}
use nano_s.Edit.Keys.{Key, ignored, save, key_of, act, update_display}
use nano_s.Edit.Show.{show_buffer_at_line}

-- "Buffer must finish with a 0": if the file does not end with one, or is empty, the byte behind it
-- is taken in. Nothing has written to that byte since malloc: it is `behind`.
abbrev pub with_end : (behind : ℕ) → List ℕ → List ℕ
with_end behind bytes =
    if length bytes == 0 || not (get_or bytes (length bytes - 1) 0 == 0)
    then bytes ++ (behind ∷ [])
    else bytes

abbrev of_size : (behind size : ℕ) → Option (List ℕ) → Option (List ℕ)
of_size behind size none = none
of_size behind size (some bytes) =
    if length bytes == size then some (with_end behind bytes) else none

-- "Load file or show error": `none` is an exit with a message.
unfoldable pub load : (behind : ℕ) → (file : List ℕ) → M (Option (List ℕ))
unfolding fs_get_entry fs_read_file
load behind file = do
  found ← attempt (fs_get_entry file unknown_value unknown_value)
  elim found [
    | none ↦ pure (some (0 ∷ []))
    | some (e, n) ↦
        if not (is_file e) || leb 0xFFFE e.size
        then pure none
        else do bytes ← attempt (fs_read_file file 0 e.size); pure (of_size behind e.size bytes)
  ]

-- The editor before the first key.
unfoldable pub opened : List ℕ → Editor
unfolding show_buffer_at_line
opened buff = record {
  buff = buff;
  buff_cursor_offset = 0;
  current_line = 0;
  screen =
      show_buffer_at_line buff 0 (record { copy = replicate 2160 0; shown = replicate 2160 32 });
  mark = saved;
  line_number = replicate 4 32;
  cursor_col = 0;
  cursor_row = 1;
}

abbrev after_save : Option ℕ → Editor → Editor
after_save none ed = record ed { mark = failed }
after_save (some n) ed = record ed { mark = saved }

unfoldable pub handle : (fuel : ℕ) → (file : List ℕ) → Key → Editor → M Editor
unfolding act update_display fs_write_file
handle fuel file ignored ed = pure ed
handle fuel file save ed = do
  result ← attempt (fs_write_file fuel ed.buff file 0 (wf_create + wf_truncate))
  pure (update_display (after_save result ed))
handle fuel file key ed = pure (update_display (act key ed))

-- The loop over the keys pressed, to the key ESC.
unfoldable pub session : (fuel : ℕ) → (file : List ℕ) → (keys : List ℕ) → Editor → M Editor
unfolding key_of handle
session fuel file [] ed = pure ed
session fuel file (k ∷ keys) ed = do
  ed' ← handle fuel file (key_of k) ed
  if k == 0x1B then pure ed' else session fuel file keys ed'

-- The exit code.
unfoldable pub edit_main : (fuel behind : ℕ) → (file keys : List ℕ) → M ℕ
unfolding load opened session
edit_main fuel behind file keys = do
  loaded ← load behind file
  elim loaded [ none ↦ pure 1 | some buff ↦ session fuel file keys (opened buff) >> pure 0 ]
