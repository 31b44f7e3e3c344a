-- ===== src/Hwio/Keyboard/Modifiers/Words.antt =====
-- What kb_get of source/hwio.c does to the word `shift` when a key goes down or up.
use nano_s.Common.{
  ℕ, ◌+◌, ◌-◌, ◌<◌, ◌≡◌, refl, sym, ap, ap₂, ◌∙◌, bit_and, bit_or, bit_xor, Bool, true, false, not,
  ◌&&◌, ◌==◌, leb, if◌then◌else◌, ==→eq, arith,
}
use nano_s.Common.Bytes.{passes_from-at}
use nano_s.Fs.Types.{word}
use nano_s.Hwio.Keyboard.{shift_code, toggle_code, swap_case, charcode, press, e0_esc}
use nano_s.Hwio.Keyboard.Modifiers.{
  Modifiers, bit, word_of, with_escape, pressed, released, key_char,
}
use nano_s.Hwio.Keyboard.Modifiers.Checks.{
  all_modifiers_sound, at_key, press_test, presses, release_test, releases, word_test, words,
  byte_test, bytes, and_left, and_right,
}

press_word :
    (key : ℕ) (k : Modifiers)
    → key < 256
    → bit_xor (bit_or (word_of (with_escape false k)) (shift_code key)) (toggle_code key)
      ≡ word_of (pressed key k)
unfolding press_test
press_word key k h = ==→eq _ _ (at_key press_test presses key k h)

pub release_word :
    (key : ℕ) (k : Modifiers)
    → key < 256
    → bit_and (word_of k) (word - 1 - bit_or (shift_code key) e0_esc) ≡ word_of (released key k)
unfolding release_test
release_word key k h = ==→eq _ _ (at_key release_test releases key k h)

pub record HasBits (k : Modifiers) : Type 0 where
  pub case_bits : bit_and (word_of k) 3 ≡ bit k.shift 1 + bit k.ctl 2
  pub caps_bit : bit_and (word_of k) 8 ≡ bit k.caps 8
  pub escape_bit : bit_and (word_of k) e0_esc ≡ bit k.escaped e0_esc
  pub escape_set : bit_or (word_of k) e0_esc ≡ word_of (with_escape true k)
  pub escape_reset : bit_and (word_of k) (word - 1 - e0_esc) ≡ word_of (with_escape false k)

pub word_of-HasBits : (k : Modifiers) → HasBits k
unfolding word_test
word_of-HasBits k =
    let t0 = all_modifiers_sound word_test k words in
    let t1 = and_left _ _ t0 in
    let t2 = and_left _ _ t1 in
    let t3 = and_left _ _ t2 in
    record {
      case_bits = ==→eq _ _ (and_left _ _ t3);
      caps_bit = ==→eq _ _ (and_right _ _ t3);
      escape_bit = ==→eq _ _ (and_right _ _ t2);
      escape_set = ==→eq _ _ (and_right _ _ t1);
      escape_reset = ==→eq _ _ (and_right _ _ t0);
    }

-- The key by the bits of the word that kb_get reads.
abbrev char_by : (bits caps key : ℕ) → ℕ
char_by bits caps key = let c = charcode bits key in if not (caps == 0) then swap_case c else c

char_by_lem :
    (key : ℕ) (k : Modifiers)
    → char_by (bit k.shift 1 + bit k.ctl 2) (bit k.caps 8) key ≡ key_char key k
unfolding key_char charcode
char_by_lem key k = cases k.shift k.ctl k.caps
  where
    cases :
        (s c l : Bool)
        → char_by (bit s 1 + bit c 2) (bit l 8) key
          ≡ key_char key (record k { shift = s; ctl = c; caps = l })
    cases true true true = refl
    cases true true false = refl
    cases true false true = refl
    cases true false false = refl
    cases false true true = refl
    cases false true false = refl
    cases false false true = refl
    cases false false false = refl

abbrev key_and_word : (key w : ℕ) → ℕ × ℕ
key_and_word key w = (char_by (bit_and w 3) (bit_and w 8) key, w)

key_and_word_lem :
    (key : ℕ) (k : Modifiers) → key_and_word key (word_of k) ≡ (key_char key k, word_of k)
key_and_word_lem key k =
    let w = word_of-HasBits k in
    ap₂ (λ b c. (char_by b c key, word_of k)) w.case_bits w.caps_bit
    ∙ ap (λ c. (c, word_of k)) (char_by_lem key k)

pub press_lem :
    (key : ℕ) (k : Modifiers)
    → key < 256
    → press key (word_of (with_escape false k))
      ≡ (key_char key (pressed key k), word_of (pressed key k))
unfolding press
press_lem key k h =
    ap (key_and_word key) (press_word key k h) ∙ key_and_word_lem key (pressed key k)

pub escape_lem : (k : Modifiers) → not (bit_and (word_of k) e0_esc == 0) ≡ k.escaped
escape_lem k = ap (λ b. not (b == 0)) (word_of-HasBits k).escape_bit ∙ is_set k.escaped
  where
    is_set : (b : Bool) → not (bit b e0_esc == 0) ≡ b
    is_set true = refl
    is_set false = refl

abbrev pub with_word : ℕ × Modifiers → ℕ × ℕ
with_word p = (p.0, word_of p.1)

pub byte_high :
    (byte : ℕ)
    → byte < 256
    → leb 0x80 byte ≡ true
    → (bit_and byte 0x80 ≡ 0x80) × (bit_and byte 0x7F ≡ byte - 0x80)
unfolding byte_test
byte_high byte h up =
    let t : (bit_and byte 0x80 == 0x80) && (bit_and byte 0x7F == byte - 0x80) ≡ true =
      ap
        (λ b.
          if b
          then bit_and byte 0x80 == 0x80 && bit_and byte 0x7F == byte - 0x80
          else bit_and byte 0x80 == 0 && bit_or byte 0x80 == byte + 0x80)
        (sym up)
      ∙ passes_from-at 0 256 byte_test byte bytes (omega arith) h in
    (==→eq _ _ (and_left _ _ t), ==→eq _ _ (and_right _ _ t))

pub byte_low :
    (byte : ℕ)
    → byte < 256
    → leb 0x80 byte ≡ false
    → (bit_and byte 0x80 ≡ 0) × (bit_or byte 0x80 ≡ byte + 0x80)
unfolding byte_test
byte_low byte h down =
    let t : (bit_and byte 0x80 == 0) && (bit_or byte 0x80 == byte + 0x80) ≡ true =
      ap
        (λ b.
          if b
          then bit_and byte 0x80 == 0x80 && bit_and byte 0x7F == byte - 0x80
          else bit_and byte 0x80 == 0 && bit_or byte 0x80 == byte + 0x80)
        (sym down)
      ∙ passes_from-at 0 256 byte_test byte bytes (omega arith) h in
    (==→eq _ _ (and_left _ _ t), ==→eq _ _ (and_right _ _ t))

-- The word without the bits of a key.
abbrev reset : (key : ℕ) → Modifiers → ℕ
reset key k = bit_and (word_of k) (word - 1 - bit_or (shift_code key) e0_esc)

key_small : (e : Bool) (byte : ℕ) → byte < 256 → (if e then byte else byte - 0x80) < 256
key_small true byte h = h
key_small false byte h = omega arith

pub released_lem :
    (byte : ℕ) (k : Modifiers)
    → byte < 256
    → leb 0x80 byte ≡ true
    → bit_and (word_of k) (
        word
        - 1
        - bit_or
            (shift_code (if not (bit_and (word_of k) e0_esc == 0) then byte else bit_and byte 0x7F))
            e0_esc)
      ≡ word_of (released (if k.escaped then byte else byte - 0x80) k)
released_lem byte k h up =
    ap (λ b. reset (if b then byte else bit_and byte 0x7F) k) (escape_lem k)
    ∙ ap (λ low. reset (if k.escaped then byte else low) k) (byte_high byte h up).1
    ∙ release_word (if k.escaped then byte else byte - 0x80) k (key_small k.escaped byte h)

-- A key goes down.
pub down_lem :
    (byte : ℕ) (k : Modifiers) (e : Bool)
    → k.escaped ≡ e
    → byte < 0x80
    → bit_or byte 0x80 ≡ byte + 0x80
    → (if e
        then press (bit_or byte 0x80) (bit_and (word_of k) (word - 1 - e0_esc))
        else press byte (word_of k))
      ≡ (
        key_char (if e then byte + 0x80 else byte) (pressed (if e then byte + 0x80 else byte) k),
        word_of (pressed (if e then byte + 0x80 else byte) k),
      )
down_lem byte k true e h or =
    ap₂ press or (word_of-HasBits k).escape_reset ∙ press_lem (byte + 0x80) k (omega arith)
down_lem byte k false e h or =
    ap (λ b. press byte (word_of (with_escape b k))) e ∙ press_lem byte k (omega arith)
