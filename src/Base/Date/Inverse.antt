-- ===== src/Base/Date/Inverse.antt =====
-- The day number of a calendar date gives that date back.
use dxian.Prelude.{
  true, ℕ, ◌+◌, ◌-◌, ◌*◌, ◌/◌, ◌%◌, ◌^◌, ◌≤◌, ◌<◌, ◌≡◌, ◌≢◌, ◌⊎◌, inl, inr, ap, refl, sym, ◌∙◌,
  true, arith,
}
use dxian.Prelude.Int.{pos, ◌-ℤ◌, pos_add, pos_sub, int_laws}
use dxian.Base.Date.{date, year_month_day, valid, get_julian_day_number, get_year_month_day}
use dxian.Base.Date.Formula.{
  month_days, year_days, from_march, early, fields, get_julian_day_number_lem,
  get_year_month_day-fields,
}
use dxian.Base.Date.Calendar.{is_leap, IsDate, civil, in_year}

-- The march year `y` ends with a leap day.
abbrev Leaps : ℕ → Type 0
Leaps y = (((y + 1) % 4 ≡ 0) × ((y + 1) % 100 ≢ 0)) ⊎ ((y + 1) % 400 ≡ 0)

-- A day of a march year splits into that year again.
year_split :
    (y e a b c d : ℕ)
    → e ≤ 365
    → (e ≤ 364) ⊎ Leaps y
    → a ≡ e + year_days y
    → b ≡ (4 * a + 3) / 146097
    → c ≡ a - b * 146097 / 4
    → d ≡ (4 * c + 3) / 1461
    → (b * 100 + d ≡ y) × (c - 1461 * d / 4 ≡ e)
year_split y e a b c d he hl ha hb hc hd = omega arith

month_split :
    (k e : ℕ)
    → k ≤ 11
    → month_days k ≤ e
    → e ≤ 365
    → (k ≡ 11) ⊎ (e < month_days (k + 1))
    → (5 * e + 2) / 153 ≡ k
month_split k e h1 h2 h3 h4 = omega arith

is_leap→Leaps : (y z m : ℕ) → z ≡ y + 4800 - early m → 1 ≤ m → m ≤ 2 → is_leap y ≡ true → Leaps z
unfolding is_leap
is_leap→Leaps y z m hz h1 h2 l = ground arith

-- The fields of the day that lies `e` days into the march year `z`.
fields_at :
    (z k e : ℕ)
    → 4800 ≤ z + 1
    → k ≤ 11
    → month_days k ≤ e
    → e ≤ 365
    → (k ≡ 11) ⊎ (e < month_days (k + 1))
    → (e ≤ 364) ⊎ Leaps z
    → get_year_month_day (pos (e + year_days z - 32044)) ≡ fields z k e
fields_at z k e hz hk h1 h2 h3 h4 =
    let a = e + year_days z in
    let b = (4 * a + 3) / 146097 in
    let c = a - b * 146097 / 4 in
    let d = (4 * c + 3) / 1461 in
    let (same_year, same_day) = year_split z e a b c d h2 h4 refl refl refl refl in
    let same_month : (5 * (c - 1461 * d / 4) + 2) / 153 ≡ k =
      rw same_day (month_split k e hk h1 h2 h3) in
    get_year_month_day-fields a b c d e k (omega arith) refl refl refl (sym same_day)
      (sym (month_split k e hk h1 h2 h3))
    ∙ ap (λ y. fields y k e) same_year

short : (e : ℕ) → e ≤ 365 → (e ≤ 364) ⊎ (e ≡ 365)
short e h = omega arith

-- The day number of a date, which is a number.
pub day_number :
    (y m d : ℕ)
    → IsDate y m d
    → get_julian_day_number (pos y) (pos m) (pos d)
      ≡ pos (d - 1 + month_days (from_march m) + year_days (y + 4800 - early m) - 32044)
day_number y m d v =
    get_julian_day_number_lem (pos y) (y + 4800) m d (pos_add y 4800) v.month_from v.month_to
      (omega arith)
    ∙ (pos_sub (d + month_days (from_march m) + year_days (y + 4800 - early m)) 32045 (omega arith)
        ∙ ap pos (omega arith))

date_back :
    (y m d : ℕ)
    → IsDate y m d
    → get_year_month_day (get_julian_day_number (pos y) (pos m) (pos d)) ≡ civil y m d
date_back y m d v =
    let k = from_march m in
    let z = y + 4800 - early m in
    let e = d - 1 + month_days k in
    let (whole, apart, leap, early_le) = in_year y m d v in
    let number = day_number y m d v in
    let leaps : (e ≤ 364) ⊎ Leaps z = elim (short e (omega arith)) [
      | inl h ↦ inl h
      | inr h ↦ inr (is_leap→Leaps y z m refl (omega arith) (omega arith) (leap (omega arith)))
    ] in
    let year_eq : pos (z + k / 10) -ℤ pos 4800 ≡ pos y = omega int_laws in
    let month_eq : k + 3 - 12 * (k / 10) ≡ m = omega arith in
    let day_eq : e - month_days k + 1 ≡ d = omega arith in
    rw number (
      fields_at z k e (omega arith) (omega arith) (omega arith) (omega arith) (omega arith) leaps
      ∙ rw (year_eq, month_eq, day_eq))

-- For every date of the Gregorian calendar from the year 0 to 1465000, `getYearMonthDay` of its `getJulianDayNumber` gives its
-- year, month and day. The day number is one for which no `int` of `getYearMonthDay` overflows.
pub get_year_month_day-get_julian_day_number :
    (y m d : ℕ)
    → IsDate y m d
    → y ≤ 1465000
    → (get_year_month_day (get_julian_day_number (pos y) (pos m) (pos d)) ≡ civil y m d)
      × ((j : ℕ) × (get_julian_day_number (pos y) (pos m) (pos d) ≡ pos j)
          × (4 * (j + 32044) + 3 < 2 ^ 31))
get_year_month_day-get_julian_day_number y m d v h =
    (date_back y m d v, (_, day_number y m d v, omega (arith, h, in_year y m d v)))

-- A `Date` that is made from a year, month and day of the calendar is valid, and `yearMonthDay` gives
-- them back.
year_month_day-date :
    (y m d : ℕ)
    → IsDate y m d
    → y ≤ 1465000
    → (year_month_day (date (pos y) (pos m) (pos d)) ≡ civil y m d)
      × (valid (date (pos y) (pos m) (pos d)) ≡ true)
unfolding year_month_day date valid
year_month_day-date y m d v h =
    ((get_year_month_day-get_julian_day_number y m d v h).0, rw (day_number y m d v) (ground arith))
