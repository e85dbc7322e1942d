-- ===== src/Base/Date/Calendar.antt =====
-- The Gregorian calendar, with its leap rule: what the day number formulas have to agree with.
use dxian.Prelude.{
  ℕ, ◌%◌, ◌+◌, ◌≤◌, ◌⊎◌, ◌≡◌, arith, Bool, true, not, ◌||◌, ◌&&◌, ◌==◌, if◌then◌else◌,
}
use dxian.Prelude.Int.{pos}
use dxian.Base.Date.Formula.{month_days, from_march, early}
use dxian.Base.Date.{YearMonthDay}

unfoldable pub is_leap : ℕ → Bool
is_leap y = (y % 4 == 0) && not (y % 100 == 0) || (y % 400 == 0)

unfoldable pub days_in_month : ℕ → ℕ → ℕ
unfolding is_leap
days_in_month y m =
    if (m == 4) || (m == 6) || (m == 9) || (m == 11)
    then 30
    else if not (m == 2)
    then 31
    else 28 + (if is_leap y then 1 else 0)

pub record IsDate (y m d : ℕ) : Type 0 where
  pub month_from : 1 ≤ m
  pub month_to : m ≤ 12
  pub day_from : 1 ≤ d
  pub day_to : d ≤ days_in_month y m

abbrev pub civil : ℕ → ℕ → ℕ → YearMonthDay
civil y m d = record { year = pos y; month = pos m; day = pos d }

-- A day of a month, in days from the first of March: the months are in order and do not overlap, and
-- the year has a 366th day only before the first of March of a leap year.
pub in_year :
    (y m d : ℕ)
    → IsDate y m d
    → (month_days (from_march m) + d ≤ 366)
      × ((from_march m ≡ 11) ⊎ (month_days (from_march m) + d ≤ month_days (from_march m + 1)))
      × (month_days (from_march m) + d ≡ 366 → is_leap y ≡ true)
      × (early m ≤ 1)
unfolding days_in_month
in_year y m d v = ground arith
