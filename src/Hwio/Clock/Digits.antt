-- ===== src/Hwio/Clock/Digits.antt =====
-- What io_getdatetime of source/hwio.c makes of the registers of the clock chip, in the four forms
-- that the chip can hold a time in.
use nano_s.Common.{
  ℕ, ◌+◌, ◌-◌, ◌*◌, ◌/◌, ◌%◌, ◌≤◌, ◌<◌, ◌≡◌, refl, Bool, true, false, ◌==◌, ltb, if◌then◌else◌,
  lt→ltb, ==→eq, arith,
}
use nano_s.Common.Bytes.{passes_from, passes_from-at}
use nano_s.Fs.Types.{Time, word}
use nano_s.Hwio.Clock.{bcd_to_int, from_bcd, convert}

-- Two decimal two_digits, one in each half of the byte.
unfoldable pub two_digits : ℕ → ℕ
two_digits n = n / 10 * 16 + n % 10

pub bcd_to_int-two_digits : (n : ℕ) → n < 80 → bcd_to_int (two_digits n) ≡ n
unfolding bcd_to_int two_digits
bcd_to_int-two_digits n h =
    rw (lt→ltb ((n / 10 * 16 + n % 10) % 256) 0x80 (omega arith)) (omega arith)

abbrev number : (is_binary : Bool) → ℕ → ℕ
number true n = n
number false n = two_digits n

-- With twelve hours the highest bit says that it is after noon, and midnight and noon are 12.
abbrev hour_register : (is_binary is_24 : Bool) → ℕ → ℕ
hour_register bin true h = number bin h
hour_register bin false h =
    if ltb h 12
    then number bin (if h == 0 then 12 else h)
    else number bin (if h == 12 then 12 else h - 12) + 0x80

-- The registers of the chip for a time, and the bits of its status that give the form.
unfoldable pub registers : (is_binary is_24 : Bool) → Time → Time
unfolding two_digits
registers bin full t = record {
  year = number bin (t.year - 2000);
  month = number bin t.month;
  day = number bin t.day;
  hour = hour_register bin full t.hour;
  minute = number bin t.minute;
  second = number bin t.second;
}

unfoldable pub form_bits : (is_binary is_24 : Bool) → ℕ
form_bits true true = 6
form_bits true false = 4
form_bits false true = 2
form_bits false false = 0

-- With twelve hours, 12 in the night comes out as noon and noon as 0.
unfoldable pub hour_read : (is_24 : Bool) → ℕ → ℕ
hour_read true h = h
hour_read false h = if h == 0 then 12 else if h == 12 then 0 else h

pub record IsTime (t : Time) : Type 0 where
  pub year_low : 2000 ≤ t.year
  pub year_high : t.year < 2080
  pub month_high : t.month < 80
  pub day_high : t.day < 80
  pub hour_high : t.hour < 24
  pub minute_high : t.minute < 80
  pub second_high : t.second < 80

abbrev of_hour : ℕ → Time
of_hour h = record { year = 0; month = 0; day = 0; hour = h; minute = 0; second = 0 }

abbrev hour_right : (is_binary is_24 : Bool) → ℕ → Bool
hour_right bin full h =
    (convert (form_bits bin full) (of_hour (hour_register bin full h))).hour == hour_read full h

hours_right : (bin full : Bool) → passes_from 0 24 (λ h. hour_right bin full h) ≡ true
unfolding passes_from convert form_bits hour_read two_digits
hours_right true true = refl
hours_right true false = refl
hours_right false true = refl
hours_right false false = refl

hour_right_at :
    (bin full : Bool) (h : ℕ)
    → h < 24
    → (convert (form_bits bin full) (of_hour (hour_register bin full h))).hour ≡ hour_read full h
hour_right_at bin full h small =
    ==→eq _ _ (
      passes_from-at 0 24 (λ h. hour_right bin full h) h (hours_right bin full) (omega arith) small)

Time-path :
    (t u : Time)
    → t.year ≡ u.year
    → t.month ≡ u.month
    → t.day ≡ u.day
    → t.hour ≡ u.hour
    → t.minute ≡ u.minute
    → t.second ≡ u.second
    → t ≡ u
Time-path t u y mo d h mi s =
    λ i. record { year = y i; month = mo i; day = d i; hour = h i; minute = mi i; second = s i }

year_binary : (t : Time) → IsTime t → (t.year - 2000 + 2000) % word ≡ t.year
year_binary t h = omega (arith, h.year_low, h.year_high)

year_digits :
    (t : Time) → IsTime t → (bcd_to_int (two_digits (t.year - 2000)) + 2000) % word ≡ t.year
year_digits t h = omega (
  arith,
  h.year_low,
  h.year_high,
  bcd_to_int-two_digits (t.year - 2000) (omega (arith, h.year_high)),
)

binary_right :
    (full : Bool) (t : Time)
    → IsTime t
    → convert (form_bits true full) (registers true full t)
      ≡ record t { hour = hour_read full t.hour }
unfolding convert registers form_bits from_bcd hour_read
binary_right true t h = Time-path _ _ (year_binary t h) refl refl refl refl refl
binary_right false t h =
    Time-path _ _ (year_binary t h) refl refl (hour_right_at true false t.hour h.hour_high) refl
      refl

digits_right :
    (full : Bool) (t : Time)
    → IsTime t
    → convert (form_bits false full) (registers false full t)
      ≡ record t { hour = hour_read full t.hour }
unfolding convert registers form_bits from_bcd
digits_right true t h =
    Time-path _ _ (year_digits t h) (bcd_to_int-two_digits t.month h.month_high)
      (bcd_to_int-two_digits t.day h.day_high) (hour_right_at false true t.hour h.hour_high)
      (bcd_to_int-two_digits t.minute h.minute_high) (bcd_to_int-two_digits t.second h.second_high)
digits_right false t h =
    Time-path _ _ (year_digits t h) (bcd_to_int-two_digits t.month h.month_high)
      (bcd_to_int-two_digits t.day h.day_high) (hour_right_at false false t.hour h.hour_high)
      (bcd_to_int-two_digits t.minute h.minute_high) (bcd_to_int-two_digits t.second h.second_high)

-- For every time from 2000 to 2079 and every form of the chip, the conversion of its registers
-- gives the time back, but for noon and midnight of the twelve-hour forms, which are exchanged.
pub convert-registers :
    (bin full : Bool) (t : Time)
    → IsTime t
    → convert (form_bits bin full) (registers bin full t)
      ≡ record t { hour = hour_read full t.hour }
convert-registers true full t h = binary_right full t h
convert-registers false full t h = digits_right full t h
