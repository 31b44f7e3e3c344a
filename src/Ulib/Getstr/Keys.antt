-- ===== src/Ulib/Getstr/Keys.antt =====
-- The keys of getstr in source/ulib/ulib.c, on a text with a place in it.
use nano_s.Common.{
  ℕ, ◌+◌, ◌-◌, ◌≤◌, ◌<◌, ◌≡◌, ◌≢◌, ◌⊎◌, ◌&&◌, ◌||◌, ◌==◌, ltb, leb, if◌then◌else◌, List, [], ◌∷◌,
  length, get_or,
}
use nano_s.Ulib.Memory.{Memory}
use nano_s.Ulib.Getstr.Lists.{without, insert}

pub record Line : Type 0 where
  pub text : List ℕ
  pub place : ℕ

-- The text has room for `n - 1` characters.
unfoldable pub edit : (n k : ℕ) → Line → Line
edit n k l =
    if k == 0x08
    then if l.place == 0
      then l
      else record { text = without (l.place - 1) l.text; place = l.place - 1 }
    else if k == 0xE0
    then record l { text = without l.place l.text }
    else if k == 0xE8
    then record l { place = l.place - 1 }
    else if k == 0xE9
    then if ltb l.place (length l.text) then record l { place = l.place + 1 } else l
    else if k == 0xE2
    then record l { place = 0 }
    else if k == 0xE1
    then record l { place = length l.text }
    else if (k == 0x09 || (leb 0x20 k && leb k 0x7E)) && ltb (length l.text) (n - 1)
    then record { text = insert l.place k l.text; place = l.place + 1 }
    else l

unfoldable pub edits : (n : ℕ) → List ℕ → Line → Line
unfolding edit
edits n [] l = l
edits n (k ∷ keys) l = edits n keys (edit n k l)

-- The buffer has the text and zeros behind it, and the memory around it is the one at first.
pub record Keeps (str n : ℕ) (m0 m : Memory) (l : Line) : Type 0 where
  pub bytes : (j : ℕ) → j < n → m (str + j) ≡ get_or l.text j 0
  pub written : (j : ℕ) → j < length l.text → get_or l.text j 0 ≢ 0
  pub room : length l.text < n
  pub inside : l.place ≤ length l.text
  pub others : (x : ℕ) → (x < str) ⊎ (str + n ≤ x) → m x ≡ m0 x
