-- ===== src/Hwio/Keyboard/Modifiers/Refine.antt =====
-- kb_get of source/hwio.c gives the keys of the keyboard of modifiers and locks.
use nano_s.Common.{
  ℕ, zero, suc, ◌-◌, ◌*◌, ◌/◌, ◌%◌, ◌<◌, ◌≡◌, refl, ap, ap₂, ◌∙◌, bit_and, bit_or, Bool, true,
  false, not, ◌&&◌, ◌==◌, leb, if◌then◌else◌, List, [], ◌∷◌, Bool-cases, inl, inr, leb→lt, ==→eq,
  arith,
}
use nano_s.Common.Bytes.{passes_from-at}
use nano_s.Fs.Types.{word}
use nano_s.Hwio.Keyboard.{shift_code, press, kb_get, e0_esc}
use nano_s.Hwio.Keyboard.Modifiers.{Modifiers, word_of, on_byte, on_ports, on_all}
use nano_s.Hwio.Keyboard.Modifiers.Checks.{status_test, statuses, and_left, and_right}
use nano_s.Hwio.Keyboard.Modifiers.Words.{
  word_of-HasBits, with_word, byte_high, byte_low, escape_lem, released_lem, down_lem,
}

-- The part of kb_get behind the tests of the status.
unfoldable of_byte : (byte shift : ℕ) → ℕ × ℕ
unfolding press
of_byte byte shift =
    if byte == 0xE0
    then (0, bit_or shift e0_esc)
    else if not (bit_and byte 0x80 == 0)
    then (
      0,
      bit_and shift (
          word
          - 1
          - bit_or
              (shift_code (if not (bit_and shift e0_esc == 0) then byte else bit_and byte 0x7F))
              e0_esc),
    )
    else if not (bit_and shift e0_esc == 0)
    then press (bit_or byte 0x80) (bit_and shift (word - 1 - e0_esc))
    else press byte shift

of_byte_lem :
    (byte : ℕ) (k : Modifiers) → byte < 256 → of_byte byte (word_of k) ≡ with_word (on_byte byte k)
unfolding of_byte on_byte
of_byte_lem byte k h = elim (Bool-cases (byte == 0xE0)) [
  | inl e ↦ rw e (ap (λ w. (0, w)) (word_of-HasBits k).escape_set)
  | inr other ↦ elim (Bool-cases (leb 0x80 byte)) [
    | inl up ↦ rw (other, up, (byte_high byte h up).0) (ap (λ w. (0, w)) (released_lem byte k h up))
    | inr down ↦
        let (low, or) = byte_low byte h down in
        rw (other, down, low)
          (ap
              (λ b.
                if b
                then press (bit_or byte 0x80) (bit_and (word_of k) (word - 1 - e0_esc))
                else press byte (word_of k))
              (escape_lem k)
            ∙ down_lem byte k k.escaped refl (leb→lt 0x80 byte down) or)
  ]
]

-- The tests of the two bits of the status.
abbrev by_status : (available mouse byte w : ℕ) → ℕ × ℕ
by_status available mouse byte w =
    if not (not (available == 0))
    then (0, w)
    else if not (mouse == 0)
    then (0, w)
    else of_byte byte w

by_status_lem :
    (a m byte w : ℕ)
    → a < 2
    → m < 2
    → by_status a (m * 32) byte w ≡ (if a == 1 && m == 0 then of_byte byte w else (0, w))
by_status_lem zero m byte w ha hm = refl
by_status_lem (suc zero) zero byte w ha hm = refl
by_status_lem (suc zero) (suc zero) byte w ha hm = refl
by_status_lem (suc zero) (suc (suc m)) byte w ha hm = absurd (omega arith)
by_status_lem (suc (suc a)) m byte w ha hm = absurd (omega arith)

status_lem :
    (st byte w : ℕ)
    → st < 256
    → kb_get st byte w ≡ (if st % 2 == 1 && st / 32 % 2 == 0 then of_byte byte w else (0, w))
unfolding kb_get of_byte status_test
status_lem st byte w h =
    let t = passes_from-at 0 256 status_test st statuses (omega arith) h in
    let available : bit_and st 1 ≡ st % 2 =
      ==→eq _ _ (and_left (bit_and st 1 == st % 2) (bit_and st 0x20 == st / 32 % 2 * 32) t) in
    let mouse : bit_and st 0x20 ≡ st / 32 % 2 * 32 =
      ==→eq _ _ (and_right (bit_and st 1 == st % 2) (bit_and st 0x20 == st / 32 % 2 * 32) t) in
    ap₂ (λ a m. by_status a m byte w) available mouse
    ∙ by_status_lem (st % 2) (st / 32 % 2) byte w (omega arith) (omega arith)

kb_get_lem :
    (st byte : ℕ) (k : Modifiers)
    → st < 256
    → byte < 256
    → kb_get st byte (word_of k) ≡ with_word (on_ports st byte k)
unfolding on_ports
kb_get_lem st byte k hs hb =
    status_lem st byte (word_of k) hs ∙ cases (st % 2 == 1 && st / 32 % 2 == 0)
  where
    cases :
        (b : Bool)
        → (if b then of_byte byte (word_of k) else (0, word_of k))
          ≡ with_word (if b then on_byte byte k else (0, k))
    cases true = of_byte_lem byte k hb
    cases false = refl

-- Readings of the ports, one after the other.
unfoldable pub kb_gets : List (ℕ × ℕ) → ℕ → List ℕ × ℕ
unfolding kb_get
kb_gets [] shift = ([], shift)
kb_gets ((st, byte) ∷ ports) shift =
    let (key, next) = kb_get st byte shift in
    let (keys, last) = kb_gets ports next in (key ∷ keys, last)

pub data AreBytes : List (ℕ × ℕ) → Type 0 where
  none_ahead : AreBytes []
  next_bytes :
      (st byte : ℕ) (ports : List (ℕ × ℕ))
      → st < 256
      → byte < 256
      → AreBytes ports
      → AreBytes ((st, byte) ∷ ports)

-- For every sequence of bytes of the keyboard controller, kb_get gives the keys that the keyboard
-- of held modifiers and locks gives, and its word has the bits of the modifiers and locks.
pub kb_gets-on_all :
    (ports : List (ℕ × ℕ)) (k : Modifiers)
    → AreBytes ports
    → kb_gets ports (word_of k) ≡ ((on_all ports k).0, word_of (on_all ports k).1)
unfolding kb_gets on_all
kb_gets-on_all _ k none_ahead = refl
kb_gets-on_all _ k (next_bytes st byte ports hs hb rest) =
    ap (λ p. (p.0 ∷ (kb_gets ports p.1).0, (kb_gets ports p.1).1)) (kb_get_lem st byte k hs hb)
    ∙ ap (λ q. ((on_ports st byte k).0 ∷ q.0, q.1))
        (kb_gets-on_all ports (on_ports st byte k).1 rest)
