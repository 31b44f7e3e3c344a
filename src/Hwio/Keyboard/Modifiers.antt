-- ===== src/Hwio/Keyboard/Modifiers.antt =====
-- A keyboard that knows which modifiers are held down and which locks are on, as an account of
-- kb_get of source/hwio.c that has no bits.
pub mod Checks
pub mod Words
pub mod Refine
use nano_s.Common.{
  ℕ, zero, suc, ◌+◌, ◌-◌, ◌*◌, ◌/◌, ◌%◌, ◌≤◌, ◌<◌, ◌≡◌, refl, sym, ap, ap₂, ◌∙◌, bit_and, bit_or,
  bit_xor, Bool, true, false, not, ◌&&◌, ◌||◌, ◌==◌, leb, if◌then◌else◌, List, [], ◌∷◌, Bool-cases,
  ==→eq, subst, arith,
}
use nano_s.Common.Bytes.{passes_from, passes_from-at}
use nano_s.Fs.Types.{word}
use nano_s.Hwio.Keyboard.{
  shift_code, toggle_code, normal_map, shift_map, ctl_map, swap_case, charcode, press, kb_get,
  e0_esc,
}

pub record Modifiers : Type 0 where
  pub ctl : Bool
  pub shift : Bool
  pub alt : Bool
  pub caps : Bool
  pub num : Bool
  pub scroll : Bool
  pub escaped : Bool

abbrev pub bit : Bool → ℕ → ℕ
bit b v = if b then v else 0

-- The word with a bit for each.
unfoldable pub word_of : Modifiers → ℕ
word_of k =
    bit k.shift 1
    + bit k.ctl 2
    + bit k.alt 4
    + bit k.caps 8
    + bit k.num 16
    + bit k.scroll 32
    + bit k.escaped 64

abbrev pub is_ctl : ℕ → Bool
is_ctl key = key == 0x1D || key == 0x9D

abbrev pub is_shift : ℕ → Bool
is_shift key = key == 0x2A || key == 0x36

abbrev pub is_alt : ℕ → Bool
is_alt key = key == 0x38 || key == 0xB8

abbrev pub differ : Bool → Bool → Bool
differ a b = if a then not b else b

-- A modifier goes down, and a lock changes.
unfoldable pub pressed : ℕ → Modifiers → Modifiers
pressed key k = record k {
  ctl = k.ctl || is_ctl key;
  shift = k.shift || is_shift key;
  alt = k.alt || is_alt key;
  caps = differ k.caps (key == 0x3A);
  num = differ k.num (key == 0x45);
  scroll = differ k.scroll (key == 0x46);
  escaped = false;
}

unfoldable pub released : ℕ → Modifiers → Modifiers
released key k = record k {
  ctl = k.ctl && not (is_ctl key);
  shift = k.shift && not (is_shift key);
  alt = k.alt && not (is_alt key);
  escaped = false;
}

-- The key by the modifiers, after it went down.
unfoldable pub key_char : ℕ → Modifiers → ℕ
unfolding normal_map shift_map ctl_map swap_case
key_char key k =
    let c = if k.ctl then ctl_map key else if k.shift then shift_map key else normal_map key in
    if k.caps then swap_case c else c

abbrev pub with_escape : Bool → Modifiers → Modifiers
with_escape b k = record k { escaped = b }

-- A byte of the keyboard: the escape code, a key that goes up, or one that goes down. After an
-- escape code the keys are those from 0x80 on.
unfoldable pub on_byte : ℕ → Modifiers → ℕ × Modifiers
unfolding pressed released key_char
on_byte byte k =
    if byte == 0xE0
    then (0, with_escape true k)
    else if leb 0x80 byte
    then (0, released (if k.escaped then byte else byte - 0x80) k)
    else let key = if k.escaped then byte + 0x80 else byte in
      (key_char key (pressed key k), pressed key k)

-- Bit 0 of the status says that there is a byte, and bit 5 that it is the mouse's.
unfoldable pub on_ports : (st byte : ℕ) → Modifiers → ℕ × Modifiers
unfolding on_byte
on_ports st byte k = if st % 2 == 1 && st / 32 % 2 == 0 then on_byte byte k else (0, k)

-- The keys for the readings of the ports, one after the other.
unfoldable pub on_all : List (ℕ × ℕ) → Modifiers → List ℕ × Modifiers
unfolding on_ports
on_all [] k = ([], k)
on_all ((st, byte) ∷ ports) k =
    let (key, next) = on_ports st byte k in
    let (keys, last) = on_all ports next in (key ∷ keys, last)
