-- ===== src/Base/Date/Tests.antt =====
-- The theorems about dates at some days, and runs of the formulas.
use dxian.Prelude.{ℕ, ◌+◌, ◌*◌, ◌^◌, ◌<◌, ◌≡◌, refl, arith}
use dxian.Prelude.Int.{pos, ◌+ℤ◌, ◌-ℤ◌, ◌*ℤ◌, ◌/ℤ◌, ◌%ℤ◌}
use dxian.Base.Date.{
  get_julian_day_number, get_year_month_day, date, week_day, julian_day_of_1970_01_01,
}
use dxian.Base.Date.RoundTrip.{number_of, get_julian_day_number-get_year_month_day}
use dxian.Base.Date.Calendar.{IsDate, civil, days_in_month}
use dxian.Base.Date.Inverse.{get_year_month_day-get_julian_day_number}

epoch : julian_day_of_1970_01_01 ≡ pos 2440588
unfolding get_julian_day_number ◌+ℤ◌ ◌-ℤ◌ ◌*ℤ◌ ◌/ℤ◌
epoch = refl

leap_day-IsDate : IsDate 2024 2 29
unfolding days_in_month
leap_day-IsDate = omega arith

get_julian_day_number-get_year_month_day_example :
    number_of (get_year_month_day (pos 2460370)) ≡ pos 2460370
get_julian_day_number-get_year_month_day_example =
    get_julian_day_number-get_year_month_day 2460370 (omega arith)

get_year_month_day-get_julian_day_number_example :
    (get_year_month_day (get_julian_day_number (pos 2024) (pos 2) (pos 29)) ≡ civil 2024 2 29)
    × ((j : ℕ) × (get_julian_day_number (pos 2024) (pos 2) (pos 29) ≡ pos j)
        × (4 * (j + 32044) + 3 < 2 ^ 31))
get_year_month_day-get_julian_day_number_example =
    get_year_month_day-get_julian_day_number 2024 2 29 leap_day-IsDate (omega arith)

-- It was a Thursday.
leap_day_week : week_day (date (pos 2024) (pos 2) (pos 29)) ≡ pos 4
unfolding week_day date get_julian_day_number ◌+ℤ◌ ◌-ℤ◌ ◌*ℤ◌ ◌/ℤ◌ ◌%ℤ◌
leap_day_week = refl
