-- ===== src/Base/Date/RoundTrip.antt =====
-- The two day number formulas undo one another.
use dxian.Prelude.{ℕ, ◌+◌, ◌-◌, ◌*◌, ◌/◌, ◌^◌, ◌≤◌, ◌<◌, ◌≡◌, ◌∙◌, ap, subst, arith, refl}
use dxian.Prelude.Int.{ℤ, pos, ◌-ℤ◌, pos_sub, int_laws}
use dxian.Base.Date.{get_julian_day_number, get_year_month_day, YearMonthDay}
use dxian.Base.Date.Formula.{
  month_days, year_days, split, fields, get_julian_day_number_lem, get_year_month_day-fields,
}

-- The day number of a record of fields.
abbrev pub number_of : YearMonthDay → ℤ
number_of t = get_julian_day_number t.year t.month t.day

number_of-fields :
    (y m e : ℕ)
    → m < 12
    → month_days m ≤ e
    → number_of (fields y m e) ≡ pos (e + 1 + year_days y) -ℤ pos 32045
number_of-fields y m e h k =
    get_julian_day_number_lem _ (y + m / 10) (m + 3 - 12 * (m / 10)) (e - month_days m + 1)
      (omega int_laws) (omega arith) (omega arith) (omega arith)
    ∙ ap (λ n. pos n -ℤ pos 32045) (omega arith)

round_trip :
    (a b c d e m : ℕ)
    → 32044 ≤ a
    → b ≡ (4 * a + 3) / 146097
    → c ≡ a - b * 146097 / 4
    → d ≡ (4 * c + 3) / 1461
    → e ≡ c - 1461 * d / 4
    → m ≡ (5 * e + 2) / 153
    → number_of (get_year_month_day (pos (a - 32044))) ≡ pos (a - 32044)
round_trip a b c d e m h hb hc hd he hm =
    let (_, m_lt, fits, total) = split a b c d e m hb hc hd he hm in
    ap number_of (get_year_month_day-fields a b c d e m h hb hc hd he hm)
    ∙ number_of-fields (b * 100 + d) m e m_lt fits
    ∙ (pos_sub (e + 1 + year_days (b * 100 + d)) 32045 (omega arith) ∙ ap pos (omega arith))

-- For every day number from 0 on for which the `int` of `4 * a + 3` does not overflow, `getJulianDayNumber` of the fields that `getYearMonthDay` gives is
-- the day number again.
pub get_julian_day_number-get_year_month_day :
    (j : ℕ) → 4 * (j + 32044) + 3 < 2 ^ 31 → number_of (get_year_month_day (pos j)) ≡ pos j
get_julian_day_number-get_year_month_day j h =
    subst (λ k. number_of (get_year_month_day (pos k)) ≡ pos k) back
      (round_trip (j + 32044) _ _ _ _ _ (omega arith) refl refl refl refl refl)
  where
    back : j + 32044 - 32044 ≡ j
    back = omega arith
