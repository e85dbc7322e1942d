-- ===== src/Base/Date.antt =====
-- server/src/muduo/base/Date.cpp and include/Date.h: Gregorian dates as Julian day numbers.
-- An `int` is an integer without bounds here, which is exact while no value of the formulas leaves 32 bits: up to the
-- day number 536838867, where `4 * a + 3` is below 2 ^ 31, and so up to the year 1465000. The theorems keep to those.
-- `/` and `%` truncate as in C++.
mod Tests
pub mod Formula
pub mod RoundTrip
pub mod Calendar
pub mod Succession
pub mod Inverse
use dxian.Prelude.{Bool, ◌==◌}
use dxian.Prelude.Int.{ℤ, pos, ◌+ℤ◌, ◌-ℤ◌, ◌*ℤ◌, ◌/ℤ◌, ◌%ℤ◌, ltb_ℤ}

pub record YearMonthDay : Type 0 where
  pub year : ℤ
  pub month : ℤ
  pub day : ℤ

unfoldable pub get_julian_day_number : ℤ → ℤ → ℤ → ℤ
get_julian_day_number year month day =
    let a = (pos 14 -ℤ month) /ℤ 12 in
    let y = year +ℤ pos 4800 -ℤ a in
    let m = month +ℤ pos 12 *ℤ a -ℤ pos 3 in
    day
    +ℤ (pos 153 *ℤ m +ℤ pos 2) /ℤ 5
    +ℤ y *ℤ pos 365
    +ℤ y /ℤ 4
    -ℤ y /ℤ 100
    +ℤ y /ℤ 400
    -ℤ pos 32045

unfoldable pub get_year_month_day : ℤ → YearMonthDay
get_year_month_day julian_day_number =
    let a = julian_day_number +ℤ pos 32044 in
    let b = (pos 4 *ℤ a +ℤ pos 3) /ℤ 146097 in
    let c = a -ℤ (b *ℤ pos 146097) /ℤ 4 in
    let d = (pos 4 *ℤ c +ℤ pos 3) /ℤ 1461 in
    let e = c -ℤ (pos 1461 *ℤ d) /ℤ 4 in
    let m = (pos 5 *ℤ e +ℤ pos 2) /ℤ 153 in
    record {
      day = e -ℤ (pos 153 *ℤ m +ℤ pos 2) /ℤ 5 +ℤ pos 1;
      month = m +ℤ pos 3 -ℤ pos 12 *ℤ (m /ℤ 10);
      year = b *ℤ pos 100 +ℤ d -ℤ pos 4800 +ℤ m /ℤ 10;
    }

-- `Date(int year, int month, int day)`, `Date(int)` and `julianDayNumber()` hold this number.
pub record Date : Type 0 where
  pub julian_day_number : ℤ

unfoldable pub date : ℤ → ℤ → ℤ → Date
date y m d = record { julian_day_number = get_julian_day_number y m d }

unfoldable pub year_month_day : Date → YearMonthDay
year_month_day t = get_year_month_day t.julian_day_number

pub valid : Date → Bool
valid t = ltb_ℤ (pos 0) t.julian_day_number

unfoldable pub week_day : Date → ℤ
week_day t = (t.julian_day_number +ℤ pos 1) %ℤ 7

abbrev pub julian_day_of_1970_01_01 : ℤ
julian_day_of_1970_01_01 = get_julian_day_number (pos 1970) (pos 1) (pos 1)
