-- ===== src/Hwio/Keyboard/Modifiers/Checks.antt =====
-- The bits of the word `shift` of source/hwio.c, checked on every state of the modifiers and on
-- every byte.
use nano_s.Common.{
  ℕ, ◌+◌, ◌-◌, ◌*◌, ◌/◌, ◌%◌, ◌<◌, ◌≡◌, refl, bit_and, bit_or, bit_xor, Bool, true, false, ◌&&◌,
  ◌==◌, leb, if◌then◌else◌, arith,
}
use nano_s.Common.Bytes.{passes_from, passes_from-at}
use nano_s.Fs.Types.{word}
use nano_s.Hwio.Keyboard.{shift_code, toggle_code, e0_esc}
use nano_s.Hwio.Keyboard.Modifiers.{Modifiers, bit, word_of, with_escape, pressed, released}

-- A test that is run on both truth values.
unfoldable both : (Bool → Bool) → Bool
both p = p true && p false

pub and_left : (x y : Bool) → x && y ≡ true → x ≡ true
and_left true y h = refl
and_left false y h = h

pub and_right : (x y : Bool) → x && y ≡ true → y ≡ true
and_right true y h = h
and_right false y h = absurd (cc)

both_at : (p : Bool → Bool) (b : Bool) → both p ≡ true → p b ≡ true
unfolding both
both_at p true h = and_left (p true) (p false) h
both_at p false h = and_right (p true) (p false) h

abbrev state : (a b c d e f g : Bool) → Modifiers
state a b c d e f g = record {
  ctl = a;
  shift = b;
  alt = c;
  caps = d;
  num = e;
  scroll = f;
  escaped = g;
}

-- The test on all states of the modifiers, the first three of them first.
unfoldable all_locks : (Bool → Bool → Bool → Bool → Bool) → Bool
unfolding both
all_locks test = both (λ d. both (λ e. both (λ f. both (λ g. test d e f g))))

unfoldable pub all_modifiers : (Modifiers → Bool) → Bool
unfolding all_locks both
all_modifiers test =
    both (λ a. both (λ b. both (λ c. all_locks (λ d e f g. test (state a b c d e f g)))))

all_locks_sound :
    (test : Bool → Bool → Bool → Bool → Bool) (d e f g : Bool)
    → all_locks test ≡ true
    → test d e f g ≡ true
unfolding all_locks
all_locks_sound test d e f g h = both_at (test d e f) g (
    both_at (λ f. both (test d e f)) f
      (both_at (λ e. both (λ f. both (test d e f))) e
        (both_at (λ d. both (λ e. both (λ f. both (test d e f)))) d h)))

pub all_modifiers_sound :
    (test : Modifiers → Bool) (k : Modifiers) → all_modifiers test ≡ true → test k ≡ true
unfolding all_modifiers
all_modifiers_sound test k h =
    all_locks_sound (λ d e f g. test (state k.ctl k.shift k.alt d e f g)) k.caps k.num k.scroll
      k.escaped
      (both_at (λ c. all_locks (λ d e f g. test (state k.ctl k.shift c d e f g))) k.alt
        (both_at (λ b. both (λ c. all_locks (λ d e f g. test (state k.ctl b c d e f g)))) k.shift
          (both_at (λ a. both (λ b. both (λ c. all_locks (λ d e f g. test (state a b c d e f g)))))
            k.ctl h)))

module _ (test : ℕ → Modifiers → Bool)
    (passed : passes_from 0 256 (λ key. all_modifiers (test key)) ≡ true) where
  pub at_key : (key : ℕ) (k : Modifiers) → key < 256 → test key k ≡ true
  at_key key k h =
      all_modifiers_sound (test key) k
        (passes_from-at 0 256 (λ key. all_modifiers (test key)) key passed (omega arith) h)

unfoldable pub press_test : ℕ → Modifiers → Bool
unfolding word_of pressed shift_code toggle_code
press_test key k =
    bit_xor (bit_or (word_of (with_escape false k)) (shift_code key)) (toggle_code key)
    == word_of (pressed key k)

pub presses : passes_from 0 256 (λ key. all_modifiers (press_test key)) ≡ true
unfolding passes_from all_modifiers press_test
presses = refl

unfoldable pub release_test : ℕ → Modifiers → Bool
unfolding word_of released shift_code
release_test key k =
    bit_and (word_of k) (word - 1 - bit_or (shift_code key) e0_esc) == word_of (released key k)

pub releases : passes_from 0 256 (λ key. all_modifiers (release_test key)) ≡ true
unfolding passes_from all_modifiers release_test
releases = refl

-- What kb_get reads of the word and sets in it, apart from the keys.
unfoldable pub word_test : Modifiers → Bool
unfolding word_of
word_test k =
    bit_and (word_of k) 3 == bit k.shift 1 + bit k.ctl 2
    && bit_and (word_of k) 8 == bit k.caps 8
    && bit_and (word_of k) e0_esc == bit k.escaped e0_esc
    && bit_or (word_of k) e0_esc == word_of (with_escape true k)
    && bit_and (word_of k) (word - 1 - e0_esc) == word_of (with_escape false k)

pub words : all_modifiers word_test ≡ true
unfolding all_modifiers word_test
words = refl

unfoldable pub byte_test : ℕ → Bool
byte_test byte =
    if leb 0x80 byte
    then bit_and byte 0x80 == 0x80 && bit_and byte 0x7F == byte - 0x80
    else bit_and byte 0x80 == 0 && bit_or byte 0x80 == byte + 0x80

pub bytes : passes_from 0 256 byte_test ≡ true
unfolding passes_from byte_test
bytes = refl

unfoldable pub status_test : ℕ → Bool
status_test st = bit_and st 1 == st % 2 && bit_and st 0x20 == st / 32 % 2 * 32

pub statuses : passes_from 0 256 status_test ≡ true
unfolding passes_from status_test
statuses = refl
