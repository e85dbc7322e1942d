-- ===== src/Base/Date/Formula.antt =====
-- The day number formulas on numbers: years from March, counted from the year -4800.
use dxian.Prelude.{ℕ, ◌+◌, ◌-◌, ◌*◌, ◌/◌, ◌≤◌, ◌<◌, ◌≡◌, ap, sym, arith}
use dxian.Prelude.Int.{ℤ, pos, ◌+ℤ◌, ◌-ℤ◌, ◌*ℤ◌, ◌/ℤ◌, pos_add, pos_sub, pos_laws, int_laws}
use dxian.Base.Date.{get_julian_day_number, get_year_month_day, YearMonthDay}

-- Days before the year `y`, and before the month `m` of a year (0 is March).
abbrev pub year_days : ℕ → ℕ
year_days y = y * 365 + y / 4 - y / 100 + y / 400

abbrev pub month_days : ℕ → ℕ
month_days m = (153 * m + 2) / 5

-- A month from 1 (January) as a month from 0 (March).
abbrev pub from_march : ℕ → ℕ
from_march m = m + 12 * ((14 - m) / 12) - 3

-- January and February belong to the year before.
abbrev pub early : ℕ → ℕ
early m = (14 - m) / 12

-- The first formula, at a year that is `y - 4800`.
pub get_julian_day_number_lem :
    (year : ℤ) (y m d : ℕ)
    → year +ℤ pos 4800 ≡ pos y
    → 1 ≤ m
    → m ≤ 12
    → early m ≤ y
    → get_julian_day_number year (pos m) (pos d)
      ≡ pos (d + month_days (from_march m) + year_days (y - early m)) -ℤ pos 32045
unfolding get_julian_day_number
get_julian_day_number_lem year y m d hy h1 h2 h3 =
    rw (pos_sub 14 m (omega arith), hy)
      (simp pos_laws (
        rw (pos_sub (m + 12 * early m) 3 (omega arith), pos_sub y (early m) h3)
          (simp pos_laws (omega int_laws))))

-- The day `a` splits into centuries, years, months and days, and those add up to `a` again.
pub split :
    (a b c d e m : ℕ)
    → b ≡ (4 * a + 3) / 146097
    → c ≡ a - b * 146097 / 4
    → d ≡ (4 * c + 3) / 1461
    → e ≡ c - 1461 * d / 4
    → m ≡ (5 * e + 2) / 153
    → (d < 100) × (m < 12) × (month_days m ≤ e) × (e + year_days (b * 100 + d) ≡ a)
split a b c d e m hb hc hd he hm = omega arith

-- The fields of the day `a - 32044`: `y` and `m` count from March.
abbrev pub fields : ℕ → ℕ → ℕ → YearMonthDay
fields y m e = record {
  day = pos (e - month_days m + 1);
  month = pos (m + 3 - 12 * (m / 10));
  year = pos (y + m / 10) -ℤ pos 4800;
}

pub get_year_month_day-fields :
    (a b c d e m : ℕ)
    → 32044 ≤ a
    → b ≡ (4 * a + 3) / 146097
    → c ≡ a - b * 146097 / 4
    → d ≡ (4 * c + 3) / 1461
    → e ≡ c - 1461 * d / 4
    → m ≡ (5 * e + 2) / 153
    → get_year_month_day (pos (a - 32044)) ≡ fields (b * 100 + d) m e
unfolding get_year_month_day
get_year_month_day-fields a b c d e m h hb hc hd he hm =
    rw (pos_add (a - 32044) 32044, back, eb, ec, ed, ee, em, day_eq, month_eq, year_eq)
  where
    eb : (pos 4 *ℤ pos a +ℤ pos 3) /ℤ 146097 ≡ pos b
    eb = simp pos_laws (ap pos (sym hb))

    ec : pos a -ℤ (pos b *ℤ pos 146097) /ℤ 4 ≡ pos c
    ec = simp pos_laws (rw (pos_sub a (b * 146097 / 4) (omega arith)) (ap pos (sym hc)))

    ed : (pos 4 *ℤ pos c +ℤ pos 3) /ℤ 1461 ≡ pos d
    ed = simp pos_laws (ap pos (sym hd))

    ee : pos c -ℤ (pos 1461 *ℤ pos d) /ℤ 4 ≡ pos e
    ee = simp pos_laws (rw (pos_sub c (1461 * d / 4) (omega arith)) (ap pos (sym he)))

    em : (pos 5 *ℤ pos e +ℤ pos 2) /ℤ 153 ≡ pos m
    em = simp pos_laws (ap pos (sym hm))

    day_eq : pos e -ℤ (pos 153 *ℤ pos m +ℤ pos 2) /ℤ 5 +ℤ pos 1 ≡ pos (e - month_days m + 1)
    day_eq = simp pos_laws (rw (pos_sub e (month_days m) (omega arith)) (pos_add _ _))

    month_eq : pos m +ℤ pos 3 -ℤ pos 12 *ℤ (pos m /ℤ 10) ≡ pos (m + 3 - 12 * (m / 10))
    month_eq = simp pos_laws (pos_sub (m + 3) (12 * (m / 10)) (omega arith))

    year_eq :
        pos b *ℤ pos 100 +ℤ pos d -ℤ pos 4800 +ℤ pos m /ℤ 10
        ≡ pos (b * 100 + d + m / 10) -ℤ pos 4800
    year_eq = simp pos_laws (omega int_laws)

    back : a - 32044 + 32044 ≡ a
    back = omega arith
