-- ===== src/Fs/Path/Names.antt =====
-- What string_to_name of source/fs.c makes of a string.
use nano_s.Common.{
  ◌&&◌, ◌||◌, Bool, not, if◌then◌else◌, ltb, leb, leb→le, leb→lt, ltb→lt, ap₂, subst, length-take,
  take_all, ℕ, zero, suc, ◌-◌, ◌≤◌, ◌<◌, ◌≡◌, refl, sym, ap, ◌∙◌, true, false, List, [], ◌∷◌, take,
  map, length, ◌==◌, arith, Bool-cases, inl, inr, ==→eq, ==→ne, ne→==,
}
use nano_s.Common.Bytes.{passes_from, passes_from-at}
use nano_s.Ulib.Text.{cstr, codes}
use nano_s.Fs.Types.{sfs_namesize}
use nano_s.Fs.Path.{is_name_char, name_char, string_to_name, string_to_name_from}

-- The characters that a name may hold, written out.
abbrev pub alphabet : List ℕ
alphabet = codes "0123456789ABCDEFGHIJKLMNOPQRSTUVWXYZabcdefghijklmnopqrstuvwxyz.-_()[]"

unfoldable pub occurs : ℕ → List ℕ → Bool
occurs c [] = false
occurs c (d ∷ s) = c == d || occurs c s

-- A character of the alphabet stays, '_' takes the place of another.
abbrev pub kept : ℕ → ℕ
kept c = if occurs c alphabet then c else b'_'

-- Each character is one of the alphabet.
abbrev pub IsName : List ℕ → Type 0
IsName [] = Unit {0}
IsName (c ∷ s) = (occurs c alphabet ≡ true) × IsName s

-- The same by the test of the code.
abbrev IsAccepted : List ℕ → Type 0
IsAccepted [] = Unit {0}
IsAccepted (c ∷ s) = (is_name_char c ≡ true) × IsAccepted s

unfoldable same_answer : ℕ → Bool
unfolding is_name_char occurs
same_answer c = if is_name_char c then occurs c alphabet else not (occurs c alphabet)

all_same : passes_from 0 128 same_answer ≡ true
unfolding passes_from same_answer
all_same = refl

high-rejected : (c : ℕ) → 128 ≤ c → is_name_char c ≡ false
unfolding is_name_char
high-rejected c h = ground arith

unfoldable all_ascii : List ℕ → Bool
all_ascii [] = true
all_ascii (d ∷ s) = ltb d 128 && all_ascii s

high-not_occurs : (c : ℕ) (s : List ℕ) → 128 ≤ c → all_ascii s ≡ true → occurs c s ≡ false
unfolding occurs all_ascii
high-not_occurs c [] h a = refl
high-not_occurs c (d ∷ s) h a = elim (Bool-cases (ltb d 128)) [
  | inl low ↦
      rw (ne→== c d (omega (arith, ltb→lt d 128 low)), high-not_occurs c s h (rw low at a)) refl
  | inr high ↦ absurd (ground (arith, high, a))
]

alphabet_ascii : all_ascii alphabet ≡ true
unfolding all_ascii
alphabet_ascii = refl

same_bool : (a b : Bool) → (if a then b else not b) ≡ true → a ≡ b
same_bool true b h = sym h
same_bool false true h = h
same_bool false false h = refl

is_name_char_lem : (c : ℕ) → is_name_char c ≡ occurs c alphabet
unfolding same_answer
is_name_char_lem c = elim (Bool-cases (leb 128 c)) [
  | inl high ↦
      let h = leb→le 128 c high in
      high-rejected c h ∙ sym (high-not_occurs c alphabet h alphabet_ascii)
  | inr low ↦
      same_bool (is_name_char c) (occurs c alphabet) (
        passes_from-at 0 128 same_answer c all_same (omega arith) (omega (arith, leb→lt 128 c low)))
]

map-kept : (s : List ℕ) → map name_char s ≡ map kept s
map-kept [] = refl
map-kept (c ∷ s) = ap₂ (◌∷◌) (rw (is_name_char_lem c) refl) (map-kept s)

IsAccepted-IsName : (s : List ℕ) → IsAccepted s → IsName s
IsAccepted-IsName [] h = tt
IsAccepted-IsName (c ∷ s) (v, h) = (sym (is_name_char_lem c) ∙ v, IsAccepted-IsName s h)

name_char-valid : (c : ℕ) → is_name_char (name_char c) ≡ true
unfolding is_name_char
name_char-valid c = elim (Bool-cases (is_name_char c)) [ inl e ↦ rw e e | inr e ↦ rw e refl ]

name_char-same : (c : ℕ) → is_name_char c ≡ true → name_char c ≡ c
name_char-same c e = rw e refl

valid-nonzero : (c : ℕ) → is_name_char c ≡ true → (c == 0) ≡ false
unfolding is_name_char
valid-nonzero zero e = absurd (ground arith)
valid-nonzero (suc c) e = ne→== (suc c) 0 (omega arith)

take-none : (n : ℕ) → map name_char (take n []) ≡ []
take-none zero = refl
take-none (suc n) = refl

from-take :
    (i : ℕ) (s : List ℕ) → i ≤ 14 → string_to_name_from i s ≡ map name_char (take (14 - i) (cstr s))
unfolding string_to_name_from cstr
from-take i [] h = sym (take-none (14 - i))
from-take i (c ∷ s) h = elim (Bool-cases (c == 0)) [
  | inl z ↦ rw z (sym (take-none (14 - i)))
  | inr nz ↦ elim (Bool-cases (i == 14)) [
    | inl e ↦ let left : 14 - i ≡ 0 = omega (arith, ==→eq i 14 e) in rw (nz, e, left) refl
    | inr ne ↦
        let left : 14 - i ≡ suc (14 - suc i) = omega (arith, ==→ne i 14 ne) in
        rw (nz, ne, left)
          (ap (◌∷◌ (name_char c)) (from-take (suc i) s (omega (arith, ==→ne i 14 ne))))
  ]
]

IsAccepted-map : (s : List ℕ) → IsAccepted (map name_char s)
IsAccepted-map [] = tt
IsAccepted-map (c ∷ s) = (name_char-valid c, IsAccepted-map s)

length-map : (s : List ℕ) → length (map name_char s) ≡ length s
length-map [] = refl
length-map (c ∷ s) = ap suc (length-map s)

map-IsAccepted : (s : List ℕ) → IsAccepted s → map name_char s ≡ s
map-IsAccepted [] h = refl
map-IsAccepted (c ∷ s) (v, h) = ap₂ (◌∷◌) (name_char-same c v) (map-IsAccepted s h)

cstr-IsAccepted : (s : List ℕ) → IsAccepted s → cstr s ≡ s
unfolding cstr
cstr-IsAccepted [] h = refl
cstr-IsAccepted (c ∷ s) (v, h) = rw (valid-nonzero c v) (ap (◌∷◌ c) (cstr-IsAccepted s h))

-- string_to_name cuts the string off after 14 characters and puts '_' in the place of each character
-- that is no digit, no letter and none of . - _ ( ) [ ]; so every character of the result is one of
-- these, the result and its final 0 fit the name of an entry, and a second call changes nothing.
pub string_to_name-IsName :
    (s : List ℕ)
    → let name = string_to_name s in
      (name ≡ map kept (take (sfs_namesize - 1) (cstr s)))
      × IsName name
      × (length name < sfs_namesize)
      × (string_to_name name ≡ name)
unfolding string_to_name
string_to_name-IsName s =
    let e = from-take 0 s (omega arith) in
    let ok_name = subst IsAccepted (sym e) (IsAccepted-map (take 14 (cstr s))) in
    let short : length (string_to_name_from 0 s) < 15 =
      rw e (omega (arith, length-map (take 14 (cstr s)), length-take 14 (cstr s))) in
    (
      e ∙ map-kept (take 14 (cstr s)),
      IsAccepted-IsName (string_to_name_from 0 s) ok_name,
      short,
      from-take 0 (string_to_name_from 0 s) (omega arith)
          ∙ rw
              (
                cstr-IsAccepted (string_to_name_from 0 s) ok_name,
                take_all 14 (string_to_name_from 0 s) (omega arith),
              )
              (map-IsAccepted (string_to_name_from 0 s) ok_name),
    )
