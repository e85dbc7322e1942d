-- ===== src/Base/Logging/Tests.antt =====
-- Lines of one second and of the next one, and a change of the time zone.
use dxian.Prelude.{ℕ, ◌+◌, ◌/◌, ◌%◌, ◌≡◌, refl, false, none, some, List, [], ◌∷◌, ◌++◌, arith}
use dxian.Prelude.Int.{pos, pos_part, to_int, ◌+ℤ◌, ◌-ℤ◌, ◌*ℤ◌, ◌/ℤ◌, ◌%ℤ◌}
use dxian.Base.Date.{year_month_day, get_year_month_day, get_julian_day_number}
use dxian.Base.LogStream.{Item, text}
use dxian.Base.Logging.Line.{source_file, after_slash}
use dxian.Base.Logging.Room.{Whole}
use dxian.Base.TimeZone.{DateTime, Data, break_time, fill_hms}
use dxian.Base.Logging.{Local, new_thread, format_time, date_time_at}
use dxian.Base.Logging.Cache.{InWidth, times_of, AllShow, Fresh, new_thread-Fresh}

abbrev digit : ℕ → ℕ
digit n = n % 10 + 48

-- The seconds, and 16 more characters.
abbrev print_seconds : DateTime → List ℕ
print_seconds dt =
    digit (pos_part dt.second)
    ∷ 48
    ∷ 48
    ∷ 48
    ∷ 48
    ∷ 48
    ∷ 48
    ∷ 48
    ∷ 48
    ∷ 48
    ∷ 48
    ∷ 48
    ∷ 48
    ∷ 48
    ∷ 48
    ∷ 48
    ∷ 48
    ∷ []

abbrev print_six : ℕ → List ℕ
print_six n =
    digit (n / 100000)
    ∷ digit (n / 10000)
    ∷ digit (n / 1000)
    ∷ digit (n / 100)
    ∷ digit (n / 10)
    ∷ digit n
    ∷ []

abbrev instants : List ℕ
instants = 7000000 ∷ 7000250 ∷ 8000000 ∷ []

seconds-InWidth : InWidth (break_time (pos 7)) × InWidth (break_time (pos 8))
unfolding break_time fill_hms year_month_day get_year_month_day get_julian_day_number to_int ◌+ℤ◌
    ◌-ℤ◌ ◌*ℤ◌ ◌/ℤ◌ ◌%ℤ◌
seconds-InWidth = (
  (
    (refl, omega arith),
    (refl, omega arith),
    (refl, omega arith),
    (refl, omega arith),
    (refl, omega arith),
    (refl, omega arith),
  ),
  (
    (refl, omega arith),
    (refl, omega arith),
    (refl, omega arith),
    (refl, omega arith),
    (refl, omega arith),
    (refl, omega arith),
  ),
)

instants-AllShow : AllShow print_seconds print_six (λ dt h. refl) (λ n h. refl) none instants
unfolding date_time_at
instants-AllShow = (
  (break_time (pos 7), (omega arith, refl, seconds-InWidth.0)),
  (
    (break_time (pos 7), (omega arith, refl, seconds-InWidth.0)),
    ((break_time (pos 8), (omega arith, refl, seconds-InWidth.1)), tt),
  ),
)

new_thread-Fresh_example :
    (ys : List (List ℕ)) × (times_of print_seconds print_six
        (λ dt h. refl)
        (λ n h. refl)
        none
        instants
        new_thread
      ≡ some ys)
    × Fresh print_seconds print_six (λ dt h. refl) (λ n h. refl) none instants ys
new_thread-Fresh_example =
    new_thread-Fresh print_seconds print_six (λ dt h. refl) (λ n h. refl) none instants
      instants-AllShow

-- After `setTimeZone`, the rest of the second shows the time in the old zone.
abbrev seconds_of_zone : DateTime → List ℕ
seconds_of_zone dt =
    digit (pos_part dt.hour)
    ∷ 48
    ∷ 48
    ∷ 48
    ∷ 48
    ∷ 48
    ∷ 48
    ∷ 48
    ∷ 48
    ∷ 48
    ∷ 48
    ∷ 48
    ∷ 48
    ∷ 48
    ∷ 48
    ∷ 48
    ∷ 48
    ∷ []

abbrev china : Data
china = record {
  transitions = [];
  localtimes = record { utc_offset = pos 28800; is_dst = false; desig_idx = 0 } ∷ [];
}

abbrev after_utc : Local
after_utc = record { t_time = seconds_of_zone (break_time (pos 7)); t_last_second = 7 }

stale :
    format_time seconds_of_zone print_six (some china) 7000000 after_utc
    ≡ some (after_utc.t_time ++ 46 ∷ 48 ∷ 48 ∷ 48 ∷ 48 ∷ 48 ∷ 48 ∷ 32 ∷ [], after_utc)
unfolding format_time break_time
stale = refl

-- A fatal line of "a/b.c", with error 2.
abbrev strerror : ℕ → List ℕ
strerror n = 69 ∷ []

abbrev no_double : ℕ → List ℕ
no_double v = []

abbrev message : List Item
message = text (104 ∷ 105 ∷ []) ∷ []

abbrev filename : List ℕ
filename = 97 ∷ 47 ∷ 98 ∷ 46 ∷ 99 ∷ []

named : source_file filename ≡ 98 ∷ 46 ∷ 99 ∷ []
unfolding source_file after_slash
named = refl
