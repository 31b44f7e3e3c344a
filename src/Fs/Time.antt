-- ===== src/Fs/Time.antt =====
-- The time format of the entries (fs_fstime_to_systime and fs_systime_to_fstime of source/fs.c):
-- bits 0 to 21 the second of the month, bits 22 to 31 the months since January 2017.
pub mod RoundTrip
use nano_s.Common.{ℕ, ◌+◌, ◌-◌, ◌*◌, ◌/◌, ◌%◌, ◌^◌, bit_or}
use nano_s.Fs.Types.{Time, word}

abbrev pub month_second : ℕ → ℕ
month_second fst = fst % 2 ^ 22

abbrev pub month_index : ℕ → ℕ
month_index fst = fst / 2 ^ 22 % 2 ^ 10

unfoldable pub fs_fstime_to_systime : ℕ → Time
fs_fstime_to_systime fst = record {
  year = month_index fst / 12 + 2017;
  month = month_index fst % 12 + 1;
  day = month_second fst / 86400 + 1;
  hour = month_second fst / 3600 % 24;
  minute = month_second fst / 60 % 60;
  second = month_second fst % 60;
}

-- The subtractions are of uints, and wrap.
unfoldable pub fs_systime_to_fstime : Time → ℕ
fs_systime_to_fstime t =
    let seconds =
      (t.second + t.minute * 60 + t.hour * 60 * 60 + (t.day + (word - 1)) * 24 * 60 * 60) % word in
    let months = ((t.year + (word - 2017)) * 12 + (t.month + (word - 1))) % word in
    bit_or (seconds % 2 ^ 22) (months * 2 ^ 22 % word)
