-- ===== src/Hwio/Clock.antt =====
-- The real time clock of source/hwio.c (BCD_to_int, read_CMOS, io_getdatetime). `cmos` gives for
-- each moment, counted in reads, what each register holds.
pub mod Digits
pub mod Rounds
pub mod Steady
use nano_s.Common.{
  ℕ, zero, suc, ◌+◌, ◌-◌, ◌*◌, ◌/◌, ◌%◌, ◌^◌, Bool, true, false, not, ◌&&◌, ◌==◌, ltb, Option, none,
  some, if◌then◌else◌,
}
use nano_s.Fs.Types.{Time, word}

-- The argument is a signed char: from 0x80 on it is negative, and so is its half byte.
unfoldable pub bcd_to_int : ℕ → ℕ
bcd_to_int bcd =
    let b = bcd % 2 ^ 8 in
    let h = if ltb b 0x80 then b / 16 * 10 else word - (16 - b / 16) * 10 in (h + b % 16) % word

-- Whether `x` has the bit of this value.
abbrev pub has_bit : (x bit : ℕ) → Bool
has_bit x bit = x / bit % 2 == 1

abbrev pub status_a : ℕ
status_a = 0x0A

abbrev pub status_b : ℕ
status_b = 0x0B

-- Whether an update is in progress.
unfoldable pub uip : ℕ → Bool
uip status = has_bit status 0x80

unfoldable pub from_bcd : Time → Time
unfolding bcd_to_int
from_bcd t = record {
  year = bcd_to_int t.year;
  month = bcd_to_int t.month;
  day = bcd_to_int t.day;
  hour = bcd_to_int t.hour;
  minute = bcd_to_int t.minute;
  second = bcd_to_int t.second;
}

-- The conversions by the second status register.
unfoldable pub convert : (status : ℕ) → Time → Time
unfolding from_bcd
convert status t0 =
    let t = if not (has_bit status 0x04) then from_bcd t0 else t0 in
    let hour =
      if not (has_bit status 0x02) && has_bit t.hour 0x80
      then (t.hour % 0x80 + 12) % 24
      else t.hour in
    record t { year = (t.year + 2000) % word; hour = hour }

-- A round ends with a time, or at the moment from which the next one starts.
pub data Round : Type 0 where
  done : Time → ℕ → Round
  again : ℕ → Round

module _ (cmos : ℕ → ℕ → ℕ) where
  -- A field is read and the status after it; `rest` goes on with the value.
  unfoldable pub read_field : (reg t : ℕ) → (ℕ → ℕ → Round) → Round
  unfolding uip
  read_field reg t rest =
      if uip (cmos (t + 1) status_a) then again (t + 2) else rest (cmos t reg) (t + 2)

  -- The reads of io_getdatetime, each followed by the next one.
  unfoldable pub read_second : (year month day hour minute t : ℕ) → Round
  unfolding read_field
  read_second year month day hour minute t = read_field 0x00 t (λ second u.
      done
        (record {
          year = year;
          month = month;
          day = day;
          hour = hour;
          minute = minute;
          second = second;
        })
        u)

  unfoldable pub read_minute : (year month day hour t : ℕ) → Round
  unfolding read_field read_second
  read_minute year month day hour t = read_field 0x02 t (read_second year month day hour)

  unfoldable pub read_hour : (year month day t : ℕ) → Round
  unfolding read_field read_minute
  read_hour year month day t = read_field 0x04 t (read_minute year month day)

  unfoldable pub read_day : (year month t : ℕ) → Round
  unfolding read_field read_hour
  read_day year month t = read_field 0x07 t (read_hour year month)

  unfoldable pub read_month : (year t : ℕ) → Round
  unfolding read_field read_day
  read_month year t = read_field 0x08 t (read_day year)

  unfoldable pub read_fields : ℕ → Round
  unfolding read_field read_month
  read_fields t = read_field 0x09 t read_month

  -- Both loops come back to the wait for the end of an update.
  unfoldable pub read_loop : (fuel t : ℕ) → Option (Time × ℕ)
  unfolding read_fields uip
  read_loop zero t = none
  read_loop (suc fuel) t = elim (uip (cmos t status_a)) [
    | true ↦ read_loop fuel (t + 1)
    | false ↦ elim (read_fields (t + 1)) [
      | done time u ↦ some (time, u)
      | again u ↦ read_loop fuel u
    ]
  ]

  unfoldable pub io_getdatetime : (fuel t : ℕ) → Option (Time × ℕ)
  unfolding read_loop convert
  io_getdatetime fuel t = elim (read_loop fuel t) [
    | none ↦ none
    | some p ↦ some (convert (cmos p.1 status_b) p.0, p.1 + 1)
  ]
