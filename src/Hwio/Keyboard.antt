-- ===== src/Hwio/Keyboard.antt =====
-- The keyboard of source/hwio.c (kb_get, io_getkey): from the bytes of its controller to keys.
pub mod Modifiers
use nano_s.Common.{
  ℕ, ◌+◌, ◌-◌, ◌%◌, ◌^◌, bit_and, bit_or, bit_xor, Bool, not, ◌&&◌, ◌||◌, ◌==◌, ltb, leb,
  if◌then◌else◌, List, [], ◌∷◌, get_or, Option, none, some,
}
use nano_s.Fs.Types.{word}

abbrev pub ctl_bit : ℕ
ctl_bit = 2

abbrev pub shift_bit : ℕ
shift_bit = 1

abbrev pub alt_bit : ℕ
alt_bit = 4

abbrev pub caps_lock : ℕ
caps_lock = 8

abbrev pub num_lock : ℕ
num_lock = 16

abbrev pub scroll_lock : ℕ
scroll_lock = 32

abbrev pub e0_esc : ℕ
e0_esc = 64

abbrev pub start_shift : ℕ
start_shift = num_lock

unfoldable pub shift_code : ℕ → ℕ
shift_code key =
    if key == 0x1D || key == 0x9D
    then ctl_bit
    else if key == 0x2A || key == 0x36
    then shift_bit
    else if key == 0x38 || key == 0xB8
    then alt_bit
    else 0

unfoldable pub toggle_code : ℕ → ℕ
toggle_code key =
    if key == 0x3A
    then caps_lock
    else if key == 0x45
    then num_lock
    else if key == 0x46
    then scroll_lock
    else 0

-- The keys at the front of the three maps.
abbrev normal_keys : List ℕ
normal_keys =
    0 ∷ 27 ∷ 49 ∷ 50 ∷ 51 ∷ 52 ∷ 53 ∷ 54 ∷ 55 ∷ 56 ∷ 57 ∷ 48 ∷ 45 ∷ 61 ∷ 8 ∷ 9 ∷ 113 ∷ 119 ∷ 101
    ∷ 114 ∷ 116 ∷ 121 ∷ 117 ∷ 105 ∷ 111 ∷ 112 ∷ 91 ∷ 93 ∷ 13 ∷ 0 ∷ 97 ∷ 115 ∷ 100 ∷ 102 ∷ 103 ∷ 104
    ∷ 106 ∷ 107 ∷ 108 ∷ 59 ∷ 39 ∷ 96 ∷ 0 ∷ 92 ∷ 122 ∷ 120 ∷ 99 ∷ 118 ∷ 98 ∷ 110 ∷ 109 ∷ 44 ∷ 46 ∷ 47
    ∷ 0 ∷ 42 ∷ 0 ∷ 32 ∷ 0 ∷ 241 ∷ 242 ∷ 243 ∷ 244 ∷ 245 ∷ 246 ∷ 247 ∷ 248 ∷ 249 ∷ 250 ∷ 0 ∷ 0 ∷ 55
    ∷ 56 ∷ 57 ∷ 45 ∷ 52 ∷ 53 ∷ 54 ∷ 43 ∷ 49 ∷ 50 ∷ 51 ∷ 48 ∷ 46 ∷ 0 ∷ 0 ∷ 0 ∷ 251 ∷ 252 ∷ []

abbrev shift_keys : List ℕ
shift_keys =
    0 ∷ 27 ∷ 33 ∷ 64 ∷ 35 ∷ 36 ∷ 37 ∷ 94 ∷ 38 ∷ 42 ∷ 40 ∷ 41 ∷ 95 ∷ 43 ∷ 8 ∷ 9 ∷ 81 ∷ 87 ∷ 69 ∷ 82
    ∷ 84 ∷ 89 ∷ 85 ∷ 73 ∷ 79 ∷ 80 ∷ 123 ∷ 125 ∷ 13 ∷ 0 ∷ 65 ∷ 83 ∷ 68 ∷ 70 ∷ 71 ∷ 72 ∷ 74 ∷ 75 ∷ 76
    ∷ 58 ∷ 34 ∷ 126 ∷ 0 ∷ 124 ∷ 90 ∷ 88 ∷ 67 ∷ 86 ∷ 66 ∷ 78 ∷ 77 ∷ 60 ∷ 62 ∷ 63 ∷ 0 ∷ 42 ∷ 0 ∷ 32
    ∷ 0 ∷ 0 ∷ 0 ∷ 0 ∷ 0 ∷ 0 ∷ 0 ∷ 0 ∷ 0 ∷ 0 ∷ 0 ∷ 0 ∷ 0 ∷ 55 ∷ 56 ∷ 57 ∷ 45 ∷ 52 ∷ 53 ∷ 54 ∷ 43 ∷ 49
    ∷ 50 ∷ 51 ∷ 48 ∷ 46 ∷ 0 ∷ 0 ∷ 0 ∷ 0 ∷ []

abbrev ctl_keys : List ℕ
ctl_keys =
    0 ∷ 0 ∷ 0 ∷ 0 ∷ 0 ∷ 0 ∷ 0 ∷ 0 ∷ 0 ∷ 0 ∷ 0 ∷ 0 ∷ 0 ∷ 0 ∷ 0 ∷ 0 ∷ 17 ∷ 23 ∷ 5 ∷ 18 ∷ 20 ∷ 25 ∷ 21
    ∷ 9 ∷ 15 ∷ 16 ∷ 0 ∷ 0 ∷ 13 ∷ 0 ∷ 1 ∷ 19 ∷ 4 ∷ 6 ∷ 7 ∷ 8 ∷ 10 ∷ 11 ∷ 12 ∷ 0 ∷ 0 ∷ 0 ∷ 0 ∷ 28 ∷ 26
    ∷ 24 ∷ 3 ∷ 22 ∷ 2 ∷ 14 ∷ 13 ∷ 0 ∷ 0 ∷ 239 ∷ 0 ∷ 0 ∷ []

-- The entries behind them; the key of the divider on the key pad differs.
abbrev far_keys : (divide key : ℕ) → ℕ
far_keys divide key =
    if key == 0x9C
    then 0x0D
    else if key == 0xB5
    then divide
    else if key == 0xC8
    then 0xE7
    else if key == 0xD0
    then 0xEA
    else if key == 0xC9
    then 0xE5
    else if key == 0xD1
    then 0xE4
    else if key == 0xCB
    then 0xE8
    else if key == 0xCD
    then 0xE9
    else if key == 0x97
    then 0xE2
    else if key == 0xCF
    then 0xE1
    else if key == 0xD2
    then 0xE3
    else if key == 0xD3
    then 0xE0
    else 0

unfoldable pub normal_map : ℕ → ℕ
normal_map key = get_or normal_keys key (far_keys 0x2F key)

unfoldable pub shift_map : ℕ → ℕ
shift_map key = get_or shift_keys key (far_keys 0x2F key)

-- The code of control and the slash is negative, and wraps.
unfoldable pub ctl_map : ℕ → ℕ
ctl_map key = get_or ctl_keys key (far_keys 0xEF key)

-- charcode, by the bits for shift and control.
unfoldable pub charcode : (bits key : ℕ) → ℕ
unfolding normal_map shift_map ctl_map
charcode bits key =
    if bits == 0 then normal_map key else if bits == 1 then shift_map key else ctl_map key

unfoldable pub swap_case : ℕ → ℕ
swap_case c =
    if leb 0x61 c && leb c 0x7A then c - 0x20 else if leb 0x41 c && leb c 0x5A then c + 0x20 else c

abbrev has : (w mask : ℕ) → Bool
has w mask = not (bit_and w mask == 0)

-- A key goes down: the key of the byte, with the bit for the escape code.
unfoldable pub press : (key shift : ℕ) → ℕ × ℕ
unfolding charcode swap_case shift_code toggle_code
press key shift0 =
    let shift = bit_xor (bit_or shift0 (shift_code key)) (toggle_code key) in
    let c = charcode (bit_and shift (ctl_bit + shift_bit)) key in
    (if has shift caps_lock then swap_case c else c, shift)

-- The key and the static variable `shift`; `st` and `byte` are what the two ports give.
unfoldable pub kb_get : (st byte shift : ℕ) → ℕ × ℕ
unfolding press
kb_get st byte shift =
    if not (has st 1)
    then (0, shift)
    else if has st 0x20
    then (0, shift)
    else if byte == 0xE0
    then (0, bit_or shift e0_esc)
    else if has byte 0x80
    then (
      0,
      bit_and shift (
          word
          - 1
          - bit_or (shift_code (if has shift e0_esc then byte else bit_and byte 0x7F)) e0_esc),
    )
    else if has shift e0_esc
    then press (bit_or byte 0x80) (bit_and shift (word - 1 - e0_esc))
    else press byte shift

-- The loop of io_getkey over the readings of the ports, until there are none left.
unfoldable pub io_getkey : (wait : Bool) → List (ℕ × ℕ) → ℕ → Option (ℕ × ℕ)
unfolding kb_get
io_getkey wait [] shift = none
io_getkey wait ((st, byte) ∷ ports) shift =
    let (k, new) = kb_get st byte shift in
    let rest = io_getkey wait ports new in if k == 0 && wait then rest else some (k, new)
