-- ===== src/Ulib/Format.antt =====
-- formatstr and the conversion of IP addresses of source/ulib/ulib.c.
pub mod Decimal
use nano_s.Common.{
  ℕ, zero, suc, ◌+◌, ◌-◌, ◌*◌, ◌/◌, ◌%◌, ◌^◌, min, Bool, true, false, not, ◌&&◌, ◌||◌, List, [],
  ◌∷◌, ◌++◌, length, replicate, set, ◌==◌, ltb, leb, if◌then◌else◌,
}
use nano_s.Ulib.Text.{codes, cstr, strlen, strtok, strncpy, stou}

abbrev d_str_size : ℕ
d_str_size = 24

abbrev pub word : ℕ
word = 2 ^ 32

-- An argument: a number, or the string to which a pointer points.
pub data Arg : Type 0 where
  number : ℕ → Arg
  text : List ℕ → Arg

abbrev pub number_of : Arg → ℕ
number_of (number v) = v
number_of (text s) = 0

abbrev pub text_of : Arg → List ℕ
text_of (number v) = []
text_of (text s) = s

abbrev pub digit_char : ℕ → ℕ
digit_char d = if leb d 9 then b'0' + d else b'A' + d - 10

-- The loop over the digits from the last one on; `n` are in `acc`. It ends after D_STR_SIZE rounds or
-- after `n_digits`, so with the sum of these as fuel. C writes before the array if `n_digits` is
-- not below D_STR_SIZE.
unfoldable pub digits_loop : (fuel base n_digits : ℕ) → (value n : ℕ) → (acc : List ℕ) → List ℕ
digits_loop zero base n_digits value n acc = acc
digits_loop (suc fuel) base n_digits value n acc =
    let acc' = digit_char (value % base) ∷ acc in
    let rest = digits_loop fuel base n_digits (value / base) (n + 1) acc' in
    if not (value / base == 0) && ltb (n + 1) (d_str_size - 1) || ltb (n + 1) n_digits
    then rest
    else acc'

unfoldable pub digits : (base n_digits value : ℕ) → List ℕ
unfolding digits_loop
digits base n_digits value = digits_loop (d_str_size + n_digits) base n_digits value 0 []

abbrev negative : ℕ → Bool
negative v = leb (2 ^ 31) v

-- What a conversion puts out; `count` characters have been put out before.
unfoldable pub convert : (kind n_digits count : ℕ) → Arg → List ℕ
unfolding digits cstr
convert kind n_digits count arg =
    let v = number_of arg in
    if kind == b'd'
    then (if negative v
        then b'-' ∷ digits 10 n_digits ((word - v) % word)
        else digits 10 n_digits v)
    else if kind == b'u'
    then digits 10 n_digits v
    else if kind == b'x'
    then b'0' ∷ b'x' ∷ digits 16 (if n_digits == 0 then 8 else n_digits) v
    else if kind == b's'
    then cstr (text_of arg)
    else replicate (if n_digits == 0 then 1 else n_digits - count) (v % 256)

abbrev is_kind : ℕ → Bool
is_kind c = c == b'd' || c == b'u' || c == b'x' || c == b's' || c == b'c'

abbrev is_digit : ℕ → Bool
is_digit c = leb b'0' c && leb c b'9'

-- Inside a conversion, the argument and the digits read so far.
pub data Mode : Type 0 where
  plain : Mode
  spec : Arg → ℕ → Mode

abbrev first_arg : List Arg → Arg
first_arg [] = number 0
first_arg (a ∷ args) = a

abbrev other_args : List Arg → List Arg
other_args [] = []
other_args (a ∷ args) = args

-- The loop over the format. A character that is no conversion is treated as one outside of it, with
-- the argument consumed.
unfoldable pub format_from : Mode → (format : List ℕ) → List Arg → (count : ℕ) → List ℕ
unfolding convert
format_from mode [] args count = []
format_from plain (c ∷ format) args count =
    let conversion = format_from (spec (first_arg args) 0) format (other_args args) count in
    let rest = format_from plain format args (count + 1) in
    if c == 0 then [] else if c == b'%' then conversion else c ∷ rest
format_from (spec arg n) (c ∷ format) args count =
    let more = format_from (spec arg ((n * 10 + c - b'0') % word)) format args count in
    let out = convert c n count arg in
    let rest = format_from plain format args (count + length out) in
    let next = format_from (spec (first_arg args) 0) format (other_args args) count in
    let skip = format_from plain format args (count + 1) in
    if is_digit c
    then more
    else if is_kind c
    then out ++ rest
    else if c == 0
    then []
    else if c == b'%'
    then next
    else c ∷ skip

-- stcatchar
unfoldable pub stcatchar : (size : ℕ) → List ℕ → ℕ → List ℕ
unfolding strlen
stcatchar size str c = set str (min (strlen str) (size - 1)) c

unfoldable pub put_all : (size : ℕ) → List ℕ → (out : List ℕ) → List ℕ
unfolding stcatchar
put_all size str [] = str
put_all size str (c ∷ out) = put_all size (stcatchar size str c) out

-- The array after the call.
unfoldable pub formatstr : (size : ℕ) → (format : List ℕ) → List Arg → List ℕ
unfolding put_all format_from strlen
formatstr size format args =
    let str = put_all size (replicate size 0) (format_from plain format args 0) in
    set str (min (strlen str) (size - 1)) 0

-- `left` bytes of the address are still to be filled; each round takes a token off the string.
unfoldable pub ip_loop : (left : ℕ) → List ℕ → List ℕ
unfolding strtok stou
ip_loop zero str = []
ip_loop (suc left) [] = []
ip_loop (suc left) (c ∷ str) =
    let t = strtok b'.' (c ∷ str) in
    let rest = ip_loop left t.rest in if length t.token == 0 then [] else stou t.token % 256 ∷ rest

-- The bytes that are written to `ip`, from the first on.
unfoldable pub str_to_ip : List ℕ → List ℕ
unfolding ip_loop strncpy cstr
str_to_ip str = ip_loop 4 (cstr (strncpy (replicate 24 0) str 24).1)

unfoldable pub ip_to_str : (a b c d : ℕ) → List ℕ
unfolding formatstr
ip_to_str a b c d =
    formatstr 16 (codes "%u.%u.%u.%u") (number a ∷ number b ∷ number c ∷ number d ∷ [])
