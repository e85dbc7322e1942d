-- ===== src/Base/TimeZone/Tests.antt =====
-- The theorems about times at some zones, and runs of the search.
use dxian.Prelude.{◌≡◌, ◌⊎◌, refl, true, false, some, [], ◌∷◌, arith, get_elem?}
use dxian.Prelude.Int.{to_int, pos, negsuc, ltb_ℤ, ◌+ℤ◌, ◌-ℤ◌, ◌*ℤ◌, ◌/ℤ◌, ◌%ℤ◌}
use dxian.Base.Date.{get_julian_day_number, get_year_month_day, year_month_day, date}
use dxian.Base.Date.Calendar.{IsDate, days_in_month}
use dxian.Base.TimeZone.{
  DateTime, Data, Transition, LocalTime, break_time, fill_hms, from_utc_time, find_local_time,
  find_local_time_of, find_from, skip_or_not, repeat_or_unique, prior_second_of, from_local_time,
  fixed_zone,
}
use dxian.Base.TimeZone.RoundTrip.{break_time-from_utc_time}
use dxian.Base.TimeZone.Zone.{In, Latest, find_local_time-finds}

-- China in 1990 and 1991, with summer time from April to September.
abbrev prc : Data
prc = record {
  transitions =
      record { utctime = pos 640116000; localtime = pos 640148400; localtime_idx = 1 }
      ∷ record { utctime = pos 653418000; localtime = pos 653446800; localtime_idx = 0 }
      ∷ record { utctime = pos 671565600; localtime = pos 671598000; localtime_idx = 1 }
      ∷ record { utctime = pos 684867600; localtime = pos 684896400; localtime_idx = 0 }
      ∷ [];
  localtimes =
      record { utc_offset = pos 28800; is_dst = false; desig_idx = 0 }
      ∷ record { utc_offset = pos 32400; is_dst = true; desig_idx = 4 }
      ∷ [];
}

abbrev repeated : DateTime
repeated = record {
  year = pos 1990;
  month = pos 9;
  day = pos 16;
  hour = pos 1;
  minute = pos 30;
  second = pos 0;
}

-- One hour comes twice: the second time, summer time is over.
early : from_local_time repeated false prc ≡ some (pos 653416200)
unfolding from_local_time find_local_time_of find_from skip_or_not repeat_or_unique prior_second_of
    from_utc_time date get_julian_day_number ◌+ℤ◌ ◌-ℤ◌ ◌*ℤ◌ ◌/ℤ◌ ◌%ℤ◌
early = refl

late : from_local_time repeated true prc ≡ some (pos 653419800)
unfolding from_local_time find_local_time_of find_from skip_or_not repeat_or_unique prior_second_of
    from_utc_time date get_julian_day_number ◌+ℤ◌ ◌-ℤ◌ ◌*ℤ◌ ◌/ℤ◌ ◌%ℤ◌
late = refl

-- Summer time begins at two o'clock, so half past two is skipped.
skipped :
    from_local_time
      (record repeated { year = pos 1991; month = pos 4; day = pos 14; hour = pos 2 })
      true
      prc
    ≡ some (pos 671563800)
unfolding from_local_time find_local_time_of find_from skip_or_not repeat_or_unique prior_second_of
    from_utc_time date get_julian_day_number ◌+ℤ◌ ◌-ℤ◌ ◌*ℤ◌ ◌/ℤ◌ ◌%ℤ◌
skipped = refl

-- After the last transition no hour counts as repeated.
last_early :
    from_local_time (record repeated { year = pos 1991; day = pos 15 }) false prc
    ≡ some (pos 684869400)
unfolding from_local_time find_local_time_of find_from skip_or_not repeat_or_unique prior_second_of
    from_utc_time date get_julian_day_number ◌+ℤ◌ ◌-ℤ◌ ◌*ℤ◌ ◌/ℤ◌ ◌%ℤ◌
last_early = refl

-- The last second of 1969.
before_epoch : break_time (negsuc 0) ≡ record {
  year = pos 1969;
  month = pos 12;
  day = pos 31;
  hour = pos 23;
  minute = pos 59;
  second = pos 59;
}
unfolding to_int break_time fill_hms year_month_day get_year_month_day get_julian_day_number ◌+ℤ◌
    ◌-ℤ◌ ◌*ℤ◌ ◌/ℤ◌ ◌%ℤ◌
before_epoch = refl

evening-IsDate : IsDate 1969 12 31
unfolding days_in_month
evening-IsDate = omega arith

break_time-from_utc_time_example :
    break_time (
      from_utc_time (record {
        year = pos 1969;
        month = pos 12;
        day = pos 31;
        hour = pos 23;
        minute = pos 59;
        second = pos 59;
      }))
    ≡ record {
      year = pos 1969;
      month = pos 12;
      day = pos 31;
      hour = pos 23;
      minute = pos 59;
      second = pos 59;
    }
break_time-from_utc_time_example =
    break_time-from_utc_time 1969 12 31 23 59 59 evening-IsDate (omega arith) (omega arith)
      (omega arith) (omega arith)

find_local_time-finds_example :
    (local : LocalTime) × (find_local_time (pos 660000000) prc ≡ some local)
    × ((((y : Transition) → In y prc.transitions → ltb_ℤ (pos 660000000) y.utctime ≡ true)
          × (get_elem? prc.localtimes 0 ≡ some local))
        ⊎ ((x : Transition) × Latest (pos 660000000) prc.transitions x
            × (get_elem? prc.localtimes x.localtime_idx ≡ some local)))
find_local_time-finds_example =
    find_local_time-finds (pos 660000000) prc (refl, (refl, (refl, tt)))
      (omega arith, (omega arith, (omega arith, (omega arith, omega arith))))

-- Any time is in a zone with one offset.
in_fixed_zone :
    find_local_time (pos 5) (fixed_zone (pos 28800))
    ≡ some (record { utc_offset = pos 28800; is_dst = false; desig_idx = 0 })
unfolding find_local_time fixed_zone
in_fixed_zone = refl

-- Two changes, with an hour that is skipped at the second one.
abbrev offset_1 : LocalTime
offset_1 = record { utc_offset = pos 3600; is_dst = false; desig_idx = 0 }

abbrev offset_2 : LocalTime
offset_2 = record { utc_offset = pos 7200; is_dst = true; desig_idx = 0 }

abbrev change_1 : Transition
change_1 = record { utctime = pos 1000; localtime = pos 4600; localtime_idx = 0 }

abbrev change_2 : Transition
change_2 = record { utctime = pos 100000; localtime = pos 107200; localtime_idx = 1 }

abbrev two_changes : Data
two_changes = record {
  transitions = change_1 ∷ change_2 ∷ [];
  localtimes = offset_1 ∷ offset_2 ∷ [];
}
