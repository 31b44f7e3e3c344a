-- ===== src/Fs/Time/RoundTrip.antt =====
-- The time of an entry is read back as it was set.
use nano_s.Common.{ℕ, ◌+◌, ◌-◌, ◌*◌, ap₂, ◌∙◌, bit_or, ◌^◌, ◌≤◌, ◌<◌, ◌≡◌, arith}
use nano_s.Common.Bits.{bit_or_disjoint}
use nano_s.Fs.Types.{Time}
use nano_s.Fs.Time.{fs_fstime_to_systime, fs_systime_to_fstime}

-- A date and time that the format can hold: 1024 months from January 2017 on.
pub record IsStorable (t : Time) : Type 0 where
  pub year_from : 2017 ≤ t.year
  pub months : t.year * 12 + t.month ≤ 2017 * 12 + 1024
  pub month_from : 1 ≤ t.month
  pub month_to : t.month ≤ 12
  pub day_from : 1 ≤ t.day
  pub day_to : t.day ≤ 31
  pub hour_to : t.hour < 24
  pub minute_to : t.minute < 60
  pub second_to : t.second < 60

abbrev seconds_of : Time → ℕ
seconds_of t = t.second + t.minute * 60 + t.hour * 3600 + (t.day - 1) * 86400

abbrev months_of : Time → ℕ
months_of t = (t.year - 2017) * 12 + (t.month - 1)

fs_systime_to_fstime-eq :
    (t : Time) → IsStorable t → fs_systime_to_fstime t ≡ seconds_of t + months_of t * 2 ^ 22
unfolding fs_systime_to_fstime
fs_systime_to_fstime-eq t v =
    ap₂ bit_or (omega arith) (omega arith)
    ∙ bit_or_disjoint 22 (seconds_of t) (months_of t) (omega arith)

time_eq :
    (t u : Time)
    → t.year ≡ u.year
    → t.month ≡ u.month
    → t.day ≡ u.day
    → t.hour ≡ u.hour
    → t.minute ≡ u.minute
    → t.second ≡ u.second
    → t ≡ u
time_eq t u a b c d e f =
    λ i. record { year = a i; month = b i; day = c i; hour = d i; minute = e i; second = f i }

-- A date and time from January 2017 on, within 1024 months, comes back as it was from the time
-- field of an entry.
pub fstime_round_trip :
    (t : Time) → IsStorable t → fs_fstime_to_systime (fs_systime_to_fstime t) ≡ t
unfolding fs_fstime_to_systime
fstime_round_trip t v =
    let e = fs_systime_to_fstime-eq t v in
    time_eq _ t (omega (arith, e)) (omega (arith, e)) (omega (arith, e)) (omega (arith, e))
      (omega (arith, e)) (omega (arith, e))
