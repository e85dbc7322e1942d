-- ===== src/Base/TimeZone/RoundTrip.antt =====
-- `BreakTime` and `fromUtcTime` undo each other.
use dxian.Prelude.{
  ℕ, ◌+◌, ◌-◌, ◌*◌, ◌/◌, ◌%◌, ◌^◌, ◌≤◌, ◌<◌, ◌≡◌, refl, ap, subst, sym, ◌∙◌, arith, if◌then◌else◌,
}
use dxian.Prelude.Int.{
  ℤ, pos, neg_part, pos_part, sub_ℕ, ltb_ℤ, to_int, to_int_lem, ◌+ℤ◌, ◌-ℤ◌, ◌*ℤ◌, ◌/ℤ◌, ◌%ℤ◌,
  pos_laws,
}
use dxian.Base.Date.{
  date, year_month_day, get_year_month_day, get_julian_day_number, julian_day_of_1970_01_01,
}
use dxian.Base.Date.RoundTrip.{get_julian_day_number-get_year_month_day}
use dxian.Base.Date.Calendar.{IsDate}
use dxian.Base.Date.Inverse.{get_year_month_day-get_julian_day_number}
use dxian.Base.TimeZone.{DateTime, fill_hms, break_time, from_utc_time, seconds_per_day}

epoch : julian_day_of_1970_01_01 ≡ pos 2440588
unfolding get_julian_day_number ◌+ℤ◌ ◌-ℤ◌ ◌*ℤ◌ ◌/ℤ◌
epoch = refl

-- The day number `j` and the second `s` of its day, at a time.
abbrev pub at : ℕ → ℕ → ℤ
at j s = sub_ℕ (j * 86400 + s) (2440588 * 86400)

abbrev fields : ℕ → ℕ → DateTime
fields j s =
    let ymd = get_year_month_day (pos j) in
    record {
      year = ymd.year;
      month = ymd.month;
      day = ymd.day;
      hour = pos (s / 60 / 60);
      minute = pos (s / 60 % 60);
      second = pos (s % 60);
    }

abbrev rest : ℤ → ℤ
rest t =
    let seconds = t %ℤ seconds_per_day in
    if ltb_ℤ seconds (pos 0) then seconds +ℤ pos seconds_per_day else seconds

abbrev whole : ℤ → ℤ
whole t =
    let seconds = t %ℤ seconds_per_day in
    let days = to_int (t /ℤ seconds_per_day) in
    if ltb_ℤ seconds (pos 0) then days -ℤ pos 1 else days

rest-at : (j s : ℕ) → s < 86400 → rest (at j s) ≡ pos s
unfolding ◌%ℤ◌ ◌+ℤ◌
rest-at j s h = ground arith

days-at : (j s : ℕ) → s < 86400 → j < 2 ^ 31 → to_int (at j s /ℤ 86400) ≡ at j s /ℤ 86400
unfolding ◌/ℤ◌
days-at j s h k = to_int_lem _ (ground arith) (ground arith)

whole-at : (j s : ℕ) → s < 86400 → j < 2 ^ 31 → whole (at j s) +ℤ pos 2440588 ≡ pos j
unfolding ◌%ℤ◌ ◌/ℤ◌ ◌+ℤ◌ ◌-ℤ◌
whole-at j s h k = rw (days-at j s h k) (ground arith)

break_time-at : (j s : ℕ) → s < 86400 → j < 2 ^ 31 → break_time (at j s) ≡ fields j s
unfolding break_time fill_hms year_month_day
break_time-at j s h k = rw (epoch, rest-at j s h, whole-at j s h k) refl

seconds-at : (j s : ℕ) → (pos j -ℤ pos 2440588) *ℤ pos 86400 +ℤ pos s ≡ at j s
unfolding ◌+ℤ◌ ◌-ℤ◌ ◌*ℤ◌
seconds-at j s = ground arith

numbered :
    (y m d : ℕ)
    → IsDate y m d
    → y ≤ 1465000
    → (j : ℕ) × (get_julian_day_number (pos y) (pos m) (pos d) ≡ pos j)
      × (4 * (j + 32044) + 3 < 2 ^ 31)
numbered y m d v far = (get_year_month_day-get_julian_day_number y m d v far).1

from_utc_time-at :
    (dt : DateTime) (j h m s : ℕ)
    → get_julian_day_number dt.year dt.month dt.day ≡ pos j
    → dt.hour ≡ pos h
    → dt.minute ≡ pos m
    → dt.second ≡ pos s
    → from_utc_time dt ≡ at j (h * 3600 + m * 60 + s)
unfolding from_utc_time date
from_utc_time-at dt j h m s e1 e2 e3 e4 =
    rw (epoch, e1, e2, e3, e4) (simp pos_laws (seconds-at j (h * 3600 + m * 60 + s)))

at-onto :
    (t : ℤ)
    → neg_part t ≤ 2440588 * 86400
    → at
        ((pos_part t + 2440588 * 86400 - neg_part t) / 86400)
        ((pos_part t + 2440588 * 86400 - neg_part t) % 86400)
      ≡ t
at-onto t h = ground arith

-- For every time from the first Julian day on, up to the last day number that `getYearMonthDay` takes, `fromUtcTime` of the calendar time that `BreakTime` gives is
-- the time again.
pub from_utc_time-break_time :
    (t : ℤ)
    → neg_part t ≤ 2440588 * 86400
    → pos_part t < 534398280 * 86400
    → from_utc_time (break_time t) ≡ t
from_utc_time-break_time t h k =
    let n = pos_part t + 2440588 * 86400 - neg_part t in
    let j = n / 86400 in
    let s = n % 86400 in
    let e = at-onto t h in
    subst (λ u. from_utc_time (break_time u) ≡ u) e
      (ap from_utc_time (break_time-at j s (omega arith) (omega arith))
        ∙ (from_utc_time-at (fields j s) j (s / 60 / 60) (s / 60 % 60) (s % 60)
              (get_julian_day_number-get_year_month_day j (omega arith)) refl refl refl
            ∙ ap (at j) (omega arith)))

-- For every date of the calendar from the year 0 to 1465000 and every hour, minute and second, `BreakTime` of
-- what `fromUtcTime` gives is the same calendar time again.
pub break_time-from_utc_time :
    (y m d hour minute second : ℕ)
    → IsDate y m d
    → y ≤ 1465000
    → hour < 24
    → minute < 60
    → second < 60
    → break_time (
        from_utc_time (record {
          year = pos y;
          month = pos m;
          day = pos d;
          hour = pos hour;
          minute = pos minute;
          second = pos second;
        }))
      ≡ record {
        year = pos y;
        month = pos m;
        day = pos d;
        hour = pos hour;
        minute = pos minute;
        second = pos second;
      }
break_time-from_utc_time y m d hour minute second v far a b c =
    let dt : DateTime = record {
      year = pos y;
      month = pos m;
      day = pos d;
      hour = pos hour;
      minute = pos minute;
      second = pos second;
    } in
    let (j, e, small) = numbered y m d v far in
    let s = hour * 3600 + minute * 60 + second in
    let e1 : s / 60 / 60 ≡ hour = omega arith in
    let e2 : s / 60 % 60 ≡ minute = omega arith in
    let e3 : s % 60 ≡ second = omega arith in
    ap break_time (from_utc_time-at dt j hour minute second e refl refl refl)
    ∙ (break_time-at j s (omega arith) (omega (arith, small))
        ∙ rw
            (ap get_year_month_day (sym e)
              ∙ (get_year_month_day-get_julian_day_number y m d v far).0)
            (rw (e1, e2, e3) refl))
