-- ===== src/Base/Date/Succession.antt =====
-- Consecutive days of the calendar have consecutive day numbers and consecutive week days.
use dxian.Prelude.{
  ℕ, ◌+◌, ◌-◌, ◌≤◌, ◌≡◌, ◌≢◌, ◌==◌, ltb, if◌then◌else◌, inl, inr, ap, sym, ◌∙◌, arith, Bool-cases,
}
use native.Mathlib.Decide.{ℕ_discrete}
use dxian.Prelude.Int.{pos, ◌+ℤ◌, ◌-ℤ◌, ◌%ℤ◌, pos_add, pos_sub, pos_laws, int_laws}
use dxian.Base.Date.{get_julian_day_number, date, week_day}
use dxian.Base.Date.Formula.{month_days, year_days, from_march, early, get_julian_day_number_lem}
use dxian.Base.Date.Calendar.{is_leap, days_in_month, IsDate}

-- The day after a date, by the lengths of the months.
abbrev next_year : ℕ → ℕ → ℕ → ℕ
next_year y m d = if ltb d (days_in_month y m) then y else if m == 12 then y + 1 else y

abbrev next_month : ℕ → ℕ → ℕ → ℕ
next_month y m d = if ltb d (days_in_month y m) then m else if m == 12 then 1 else m + 1

abbrev next_day : ℕ → ℕ → ℕ → ℕ
next_day y m d = if ltb d (days_in_month y m) then d + 1 else 1

abbrev number : ℕ → ℕ → ℕ → ℕ
number y m d = d + month_days (from_march m) + year_days (y + 4800 - early m)

date-number :
    (y m d : ℕ)
    → 1 ≤ m
    → m ≤ 12
    → get_julian_day_number (pos y) (pos m) (pos d) ≡ pos (number y m d) -ℤ pos 32045
date-number y m d h1 h2 =
    get_julian_day_number_lem (pos y) (y + 4800) m d (pos_add y 4800) h1 h2 (omega arith)

next-IsDate :
    (y m d : ℕ) → IsDate y m d → IsDate (next_year y m d) (next_month y m d) (next_day y m d)
unfolding days_in_month
next-IsDate y m d v = ground arith

-- A march year is as long as the leap rule of the year in which it ends says.
march_length :
    (y : ℕ) → year_days (y + 4800) ≡ year_days (y + 4799) + (if is_leap y then 366 else 365)
unfolding is_leap
march_length y = ground arith

month_length :
    (y m : ℕ)
    → 1 ≤ m
    → m ≤ 11
    → m ≢ 2
    → (days_in_month y m + month_days (from_march m) ≡ month_days (from_march (m + 1)))
      × (early (m + 1) ≡ early m)
unfolding days_in_month
month_length y m h1 h2 h3 = ground arith

february_length : (y : ℕ) → days_in_month y 2 + 337 ≡ (if is_leap y then 366 else 365)
unfolding days_in_month
february_length y = ground arith

december_length : (y : ℕ) → days_in_month y 12 ≡ 31
unfolding days_in_month
december_length y = ground arith

-- The first of a month follows the last day of the month before.
next-month_number :
    (y m : ℕ) → 1 ≤ m → m ≤ 11 → number y (m + 1) 1 ≡ number y m (days_in_month y m) + 1
next-month_number y m h1 h2 = elim (ℕ_discrete m 2) [
  | yes e ↦ rw e (omega (arith, march_length y, february_length y))
  | no n ↦ omega (arith, month_length y m h1 h2 n)
]

next-year_number : (y : ℕ) → number (y + 1) 1 1 ≡ number y 12 31 + 1
next-year_number y = omega arith

next-number :
    (y m d : ℕ)
    → IsDate y m d
    → number (next_year y m d) (next_month y m d) (next_day y m d) ≡ number y m d + 1
next-number y m d v = elim (Bool-cases (ltb d (days_in_month y m))) [
  | inl e ↦ rw e (omega arith)
  | inr e ↦
      let last : d ≡ days_in_month y m = ground arith in
      elim (Bool-cases (m == 12)) [
        | inl e' ↦
            let twelve : m ≡ 12 = ground arith in
            let full : 31 ≡ d = sym (last ∙ (ap (days_in_month y) twelve ∙ december_length y)) in
            rw (e, e', twelve) (next-year_number y ∙ ap (λ x. number y 12 x + 1) full)
        | inr e' ↦
            rw (e, e')
              (next-month_number y m (omega arith) (ground arith)
                ∙ ap (λ x. number y m x + 1) (sym last))
      ]
]

-- The day after a date of the calendar has the next day number.
get_julian_day_number-next :
    (y m d : ℕ)
    → IsDate y m d
    → get_julian_day_number (pos (next_year y m d)) (pos (next_month y m d)) (pos (next_day y m d))
      ≡ get_julian_day_number (pos y) (pos m) (pos d) +ℤ pos 1
get_julian_day_number-next y m d v =
    let w = next-IsDate y m d v in
    date-number _ _ _ w.month_from w.month_to
    ∙ (ap (λ n. pos n -ℤ pos 32045) (next-number y m d v)
        ∙ rw (date-number y m d v.month_from v.month_to) (omega int_laws))

-- Week days go round from Saturday, 6, to Sunday, 0.
week_day-next :
    (y m d : ℕ)
    → IsDate y m d
    → week_day (date (pos (next_year y m d)) (pos (next_month y m d)) (pos (next_day y m d)))
      ≡ (week_day (date (pos y) (pos m) (pos d)) +ℤ pos 1) %ℤ 7
unfolding week_day date
week_day-next y m d v =
    rw
      (
        get_julian_day_number-next y m d v,
        date-number y m d v.month_from v.month_to,
        pos_sub (number y m d) 32045 (omega arith),
      )
      (simp pos_laws (ap pos (omega arith)))
