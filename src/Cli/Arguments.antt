-- ===== src/Cli/Arguments.antt =====
-- The words of a line are its arguments.
use nano_s.Common.{
  ℕ, zero, suc, ◌≤◌, ◌<◌, ◌≡◌, ◌≢◌, refl, ap, ◌∙◌, if◌then◌else◌, List, [], ◌∷◌, ◌++◌, length,
  ne→==, arith, length-append,
}
use nano_s.Ulib.Text.{cstr, Token, scan_token, strtok, in_token, skip_one}
use nano_s.Cli.{cli_max_arg, tokenize, arguments}

-- A character of a word.
abbrev pub IsIn : List ℕ → Type 0
IsIn [] = Unit {0}
IsIn (c ∷ w) = (c ≢ 0) × (c ≢ 0x20) × IsIn w

pub data AreWords : List (List ℕ) → Type 0 where
  no_words : AreWords []
  next_word :
      (c : ℕ) (w : List ℕ) (words : List (List ℕ))
      → IsIn (c ∷ w)
      → AreWords words
      → AreWords ((c ∷ w) ∷ words)

-- The words with a space in front of each.
unfoldable pub spaced : List (List ℕ) → List ℕ
spaced [] = []
spaced (w ∷ words) = 0x20 ∷ (w ++ spaced words)

-- The same without the first space.
unfoldable pub line_of : List (List ℕ) → List ℕ
unfolding spaced
line_of [] = []
line_of (w ∷ words) = w ++ spaced words

cstr-word : (w s : List ℕ) → IsIn w → cstr (w ++ s) ≡ w ++ cstr s
unfolding cstr
cstr-word [] s h = refl
cstr-word (c ∷ w) s (nz, ns, h) = rw (ne→== c 0 nz) (ap (◌∷◌ c) (cstr-word w s h))

cstr-spaced : (words : List (List ℕ)) → AreWords words → cstr (spaced words) ≡ spaced words
unfolding cstr spaced
cstr-spaced _ no_words = refl
cstr-spaced _ (next_word c w words h rest) =
    ap (◌∷◌ 0x20)
      (cstr-word (c ∷ w) (spaced words) h ∙ ap (λ s. (c ∷ w) ++ s) (cstr-spaced words rest))

cstr-line_of : (words : List (List ℕ)) → AreWords words → cstr (line_of words) ≡ line_of words
unfolding line_of cstr
cstr-line_of _ no_words = refl
cstr-line_of _ (next_word c w words h rest) =
    cstr-word (c ∷ w) (spaced words) h ∙ ap (λ s. (c ∷ w) ++ s) (cstr-spaced words rest)

abbrev found : List ℕ → List (List ℕ) → Token
found w words = record { skipped = 0; token = w; rest = line_of words }

scan_token-word :
    (w : List ℕ) (words : List (List ℕ))
    → IsIn w
    → AreWords words
    → scan_token 0x20 (w ++ spaced words) ≡ found w words
unfolding scan_token spaced line_of
scan_token-word [] _ h no_words = refl
scan_token-word [] _ h (next_word c w words hw rest) =
    ap (λ s. record { skipped = 0; token = []; rest = s })
      (cstr-line_of ((c ∷ w) ∷ words) (next_word c w words hw rest))
scan_token-word (c ∷ w) words (nz, ns, h) rest =
    rw (ne→== c 0 nz, ne→== c 0x20 ns) (ap (in_token c) (scan_token-word w words h rest))

strtok-word :
    (c : ℕ) (w : List ℕ) (words : List (List ℕ))
    → IsIn (c ∷ w)
    → AreWords words
    → strtok 0x20 ((c ∷ w) ++ spaced words) ≡ found (c ∷ w) words
unfolding strtok
strtok-word c w words (nz, ns, h) rest =
    ap
      (λ b.
        if b
        then skip_one (strtok 0x20 (w ++ spaced words))
        else scan_token 0x20 (c ∷ (w ++ spaced words)))
      (ne→== c 0x20 ns)
    ∙ scan_token-word (c ∷ w) words (nz, ns, h) rest

tokenize-line_of :
    (fuel left : ℕ) (words : List (List ℕ))
    → AreWords words
    → length words ≤ left
    → length words < fuel
    → tokenize fuel left (line_of words) ≡ words
unfolding tokenize line_of
tokenize-line_of zero left words on room enough = absurd (omega arith)
tokenize-line_of (suc fuel) zero _ no_words room enough = refl
tokenize-line_of (suc fuel) (suc left) _ no_words room enough = refl
tokenize-line_of (suc fuel) zero _ (next_word c w words h on) room enough = absurd (omega arith)
tokenize-line_of (suc fuel) (suc left) _ (next_word c w words h on) room enough =
    rw (ne→== c 0 h.0, strtok-word c w words h on, ne→== (suc (length w)) 0 (omega arith))
      (ap (◌∷◌ (c ∷ w)) (tokenize-line_of fuel left words on (omega arith) (omega arith)))

length-spaced : (words : List (List ℕ)) → length words ≤ length (spaced words)
unfolding spaced
length-spaced [] = omega arith
length-spaced (w ∷ words) = omega (arith, length-append w (spaced words), length-spaced words)

length-line_of : (words : List (List ℕ)) → AreWords words → length words ≤ length (line_of words)
unfolding line_of
length-line_of _ no_words = omega arith
length-line_of _ (next_word c w words h on) =
    omega (arith, length-append w (spaced words), length-spaced words)

-- For at most five words, with neither spaces nor 0 in them, the arguments of the line that has
-- them with a space between are the words.
pub arguments-line_of :
    (words : List (List ℕ))
    → AreWords words
    → length words ≤ cli_max_arg
    → arguments (line_of words) ≡ words
unfolding arguments
arguments-line_of words on room =
    tokenize-line_of (suc (length (line_of words))) cli_max_arg words on room
      (omega (arith, length-line_of words on))
