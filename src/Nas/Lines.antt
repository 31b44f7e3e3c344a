-- ===== src/Nas/Lines.antt =====
-- sisu, read_line and tokenize_line of source/programs/nas.c.
use nano_s.Common.{
  ℕ, zero, suc, ◌+◌, Bool, true, false, not, ◌&&◌, ◌||◌, Option, none, some, List, [], ◌∷◌, length,
  drop, ◌==◌, ltb, if◌then◌else◌,
}
use nano_s.Ulib.Text.{digit_value, starts_hex, head_or_zero, cstr}
use nano_s.Fs.Types.{error_any}
use nano_s.Fs.Monad.{M, pure, fail, ◌>>=◌}
use nano_s.Fs.File.{fs_read_file}

unfoldable pub all_digits : (base : ℕ) → List ℕ → Bool
unfolding digit_value
all_digits base [] = true
all_digits base (c ∷ s) = c == 0 || ltb (digit_value c) base && all_digits base s

-- "Is string uint?"
unfoldable pub sisu : List ℕ → Bool
unfolding all_digits
sisu src =
    if head_or_zero src == 0
    then false
    else if starts_hex src && not (head_or_zero (drop 2 src) == 0)
    then all_digits 16 (drop 2 src)
    else all_digits 10 src

abbrev pub fbuff_size : ℕ
fbuff_size = 2048

-- What read_line finds: a line and the offset behind it, or the end of the file.
pub data Line : Type 0 where
  line : List ℕ → ℕ → Line
  eof : Line

abbrev passed : ℕ → Option (List ℕ × ℕ) → Option (List ℕ × ℕ)
passed c none = none
passed c (some (l, n)) = some (c ∷ l, suc n)

-- The first line of the bytes read and how many bytes it takes. `full` says that the buffer has no
-- room for a 0 behind them: then the line must end with a newline.
unfoldable pub clamp_line : (full : Bool) → List ℕ → Option (List ℕ × ℕ)
clamp_line full [] = if full then none else some ([], 0)
clamp_line full (c ∷ rest) =
    let next = passed (if c == 13 then 32 else c) (clamp_line full rest) in
    if c == 10 then some ([], 1) else next

abbrev of_clamp : (offset : ℕ) → Option (List ℕ × ℕ) → M Line
of_clamp offset none = fail error_any
of_clamp offset (some (l, n)) = pure (line l (offset + n))

-- "Returns a file line and offset to next line start". A line that is too long is an error.
unfoldable pub read_line : (file : List ℕ) → (offset : ℕ) → M Line
unfolding fs_read_file clamp_line
read_line file offset = do
  bytes ← fs_read_file file offset fbuff_size
  if length bytes == 0
      then pure eof
      else of_clamp offset (clamp_line (length bytes == fbuff_size) bytes)

abbrev is_separator : ℕ → Bool
is_separator c = c == 32 || c == 9 || c == b','

unfoldable pub skip_separators : List ℕ → List ℕ
skip_separators [] = []
skip_separators (c ∷ s) = if is_separator c then skip_separators s else c ∷ s

abbrev ends_token : ℕ → Bool
ends_token c = c == 0 || is_separator c || c == b';'

abbrev longer : ℕ → List ℕ × List ℕ → List ℕ × List ℕ
longer c (t, rest) = (c ∷ t, rest)

-- The token at the start, and what is behind it.
unfoldable pub first_token : List ℕ → List ℕ × List ℕ
first_token [] = ([], [])
first_token (c ∷ s) =
    let more = longer c (first_token s) in if ends_token c then ([], c ∷ s) else more

-- The tokens, `left` of them at most. A line has no more if the next token is empty, at its end or
-- at a comment. The end of a token is only marked when the next one is looked for, so the last one
-- that fits reaches to the end of the line.
unfoldable pub tokenize_line : (left : ℕ) → List ℕ → List (List ℕ)
unfolding skip_separators first_token cstr
tokenize_line zero buff = []
tokenize_line (suc left) buff =
    let s = skip_separators buff in
    let (t, rest) = first_token s in
    let others = tokenize_line left rest in
    if length t == 0 then [] else (if left == 0 then cstr s else t) ∷ others
