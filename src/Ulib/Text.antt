-- ===== src/Ulib/Text.antt =====
-- The string functions of source/ulib/ulib.c. A `char *` is the list of the bytes from the pointer
-- on; a 0 ends the string, and so does the end of the list. A write past the end of an array is
-- dropped.
pub mod Compare
pub mod Copy
pub mod Tokens
use nano_s.Common.{
  ℕ, suc, ◌+◌, ◌-◌, ◌*◌, ◌%◌, ◌^◌, Bool, false, ◌&&◌, ◌||◌, not, List, [], ◌∷◌, ◌++◌, take, drop,
  set, ◌==◌, ltb, leb, if◌then◌else◌,
}
use Prim.Native.String.{String}
use Prim.Native.Char.{code}

abbrev pub codes : String → List ℕ
codes String.[] = []
codes (String.◌∷◌ c s) = code c ∷ codes s

-- The characters before the final 0.
unfoldable pub cstr : List ℕ → List ℕ
cstr [] = []
cstr (c ∷ s) = if c == 0 then [] else c ∷ cstr s

-- A `char` is signed: its value as a uint.
abbrev pub char_to_uint : ℕ → ℕ
char_to_uint c = if ltb c 128 then c else c + (2 ^ 32 - 256)

abbrev pub sub32 : ℕ → ℕ → ℕ
sub32 a b = (a + (2 ^ 32 - b)) % 2 ^ 32

abbrev pub head_or_zero : List ℕ → ℕ
head_or_zero [] = 0
head_or_zero (c ∷ s) = c

unfoldable pub strcmp : List ℕ → List ℕ → ℕ
strcmp [] t = sub32 0 (char_to_uint (head_or_zero t))
strcmp (c ∷ s) [] = sub32 (char_to_uint c) 0
strcmp (c ∷ s) (d ∷ t) =
    let rest = strcmp s t in
    if c == d && not (c == 0) then rest else sub32 (char_to_uint c) (char_to_uint d)

unfoldable pub strlen : List ℕ → ℕ
strlen [] = 0
strlen (c ∷ s) = if c == 0 then 0 else suc (strlen s)

-- The copying loop of strncpy and strncat: `room` bytes are left in `dst`. Its second part is the
-- array after the loop and the final 0.
unfoldable pub copy_loop : (src dst : List ℕ) → (room : ℕ) → ℕ × List ℕ
copy_loop [] dst room = (0, set dst 0 0)
copy_loop (c ∷ src) [] room =
    let (i, _) = copy_loop src [] (room - 1) in
    if not (c == 0) && ltb 1 room then (suc i, []) else (0, [])
copy_loop (c ∷ src) (d ∷ dst) room =
    let (i, out) = copy_loop src dst (room - 1) in
    if not (c == 0) && ltb 1 room then (suc i, c ∷ out) else (0, 0 ∷ dst)

unfoldable pub strncpy : (dst src : List ℕ) → (n : ℕ) → ℕ × List ℕ
unfolding copy_loop
strncpy dst src n = copy_loop src dst n

unfoldable pub strncat : (dst src : List ℕ) → (n : ℕ) → ℕ × List ℕ
unfolding strlen copy_loop
strncat dst src n =
    let i = strlen dst in
    let (j, out) = copy_loop src (drop i dst) (n - i) in (i + j, take i dst ++ out)

-- What strtok finds: how far it skipped, the token and what is behind it and its delimiter.
pub record Token : Type 0 where
  pub skipped : ℕ
  pub token : List ℕ
  pub rest : List ℕ

abbrev pub in_token : ℕ → Token → Token
in_token c t = record t { token = c ∷ t.token }

abbrev pub skip_one : Token → Token
skip_one t = record t { skipped = suc t.skipped }

unfoldable pub scan_token : ℕ → List ℕ → Token
scan_token delim [] = record { skipped = 0; token = []; rest = [] }
scan_token delim (c ∷ s) =
    if c == 0
    then record { skipped = 0; token = []; rest = [] }
    else if c == delim
    then record { skipped = 0; token = []; rest = cstr s }
    else in_token c (scan_token delim s)

unfoldable pub strtok : ℕ → List ℕ → Token
unfolding scan_token cstr
strtok delim [] = record { skipped = 0; token = []; rest = [] }
strtok delim (c ∷ s) = if c == delim then skip_one (strtok delim s) else scan_token delim (c ∷ s)

-- One more than the position of the first `c`, and 0 if there is none.
unfoldable pub strchr_from : ℕ → List ℕ → ℕ → ℕ
strchr_from n [] c = 0
strchr_from n (x ∷ s) c =
    let rest = strchr_from (suc n) s c in if x == 0 then 0 else if x == c then suc n else rest

unfoldable pub strchr : List ℕ → ℕ → ℕ
unfolding strchr_from
strchr str c = strchr_from 0 str c

-- The value of a digit, with no check that it is one.
unfoldable pub digit_value : ℕ → ℕ
digit_value c =
    if leb c b'9' || leb 128 c
    then sub32 (char_to_uint c) b'0'
    else if leb b'a' c
    then 10 + c - b'a'
    else 10 + c - b'A'

unfoldable pub stou_loop : ℕ → ℕ → List ℕ → ℕ
unfolding digit_value
stou_loop base value [] = value
stou_loop base value (c ∷ s) =
    let rest = stou_loop base ((value * base + digit_value c) % 2 ^ 32) s in
    if c == 0 then value else rest

abbrev pub starts_hex : List ℕ → Bool
starts_hex (a ∷ b ∷ s) = a == b'0' && b == b'x'
starts_hex _ = false

unfoldable pub stou : List ℕ → ℕ
unfolding stou_loop
stou src = if starts_hex src then stou_loop 16 0 (drop 2 src) else stou_loop 10 0 src
