-- ===== src/Base/TimeZone.antt =====
-- server/src/muduo/base/TimeZone.cpp and include/TimeZone.h: calendar times and seconds since the epoch,
-- and the local time types of a zone.
--
-- `int` and `int64_t` are integers without bounds here, exact while no sum leaves the type; the conversion of the days to `int` in
-- `BreakTime` wraps around. The theorems keep to times whose day number `getYearMonthDay` takes without overflow. `none` stands for a read outside a vector. The
-- vectors `transitions` and `localtimes` are lists; the names of the zone are left out.
pub mod RoundTrip
pub mod Zone
pub mod Local
mod Tests
use dxian.Prelude.{
  ℕ, ◌+◌, ◌-◌, ◌/◌, ◌%◌, ◌^◌, Bool, true, false, Option, none, some, List, [], ◌∷◌, if◌then◌else◌,
  get_elem?,
}
use dxian.Prelude.Int.{ℤ, pos, negsuc, ◌+ℤ◌, ◌-ℤ◌, ◌*ℤ◌, ◌/ℤ◌, ◌%ℤ◌, ltb_ℤ, to_int}
use dxian.Base.Date.{date, year_month_day, julian_day_of_1970_01_01}

pub record DateTime : Type 0 where
  pub year : ℤ
  pub month : ℤ
  pub day : ℤ
  pub hour : ℤ
  pub minute : ℤ
  pub second : ℤ

abbrev pub seconds_per_day : ℕ
seconds_per_day = 86400

-- The conversion from `int`.
abbrev pub unsigned : ℤ → ℕ
unsigned (pos n) = n
unsigned (negsuc n) = 2 ^ 32 - (n + 1)

unfoldable pub fill_hms : ℕ → DateTime → DateTime
fill_hms seconds dt =
    let minutes = seconds / 60 in
    record dt {
      second = pos (seconds % 60);
      minute = pos (minutes % 60);
      hour = pos (minutes / 60);
    }

unfoldable pub break_time : ℤ → DateTime
break_time t =
    let seconds = t %ℤ seconds_per_day in
    let days = to_int (t /ℤ seconds_per_day) in
    let before = ltb_ℤ seconds (pos 0) in
    let seconds' = if before then seconds +ℤ pos seconds_per_day else seconds in
    let days' = if before then days -ℤ pos 1 else days in
    let ymd = year_month_day (record { julian_day_number = days' +ℤ julian_day_of_1970_01_01 }) in
    fill_hms (unsigned seconds') (record {
      year = ymd.year;
      month = ymd.month;
      day = ymd.day;
      hour = pos 0;
      minute = pos 0;
      second = pos 0;
    })

unfoldable pub from_utc_time : DateTime → ℤ
from_utc_time dt =
    let seconds_in_day = dt.hour *ℤ pos 3600 +ℤ dt.minute *ℤ pos 60 +ℤ dt.second in
    let days = (date dt.year dt.month dt.day).julian_day_number -ℤ julian_day_of_1970_01_01 in
    days *ℤ pos seconds_per_day +ℤ seconds_in_day

pub record Transition : Type 0 where
  pub utctime : ℤ
  pub localtime : ℤ
  pub localtime_idx : ℕ

pub record LocalTime : Type 0 where
  pub utc_offset : ℤ
  pub is_dst : Bool
  pub desig_idx : ℕ

pub record Data : Type 0 where
  pub transitions : List Transition
  pub localtimes : List LocalTime

-- The last transition before `upper_bound`: the last one in front of the first that comes after the time.
unfoldable pub last_until : (Transition → ℤ) → ℤ → Transition → List Transition → Transition
last_until time t prior [] = prior
last_until time t prior (x ∷ xs) = if ltb_ℤ t (time x) then prior else last_until time t x xs

-- `findLocalTime(int64_t)`.
unfoldable pub find_local_time : ℤ → Data → Option LocalTime
find_local_time t d = elim d.transitions [
  | [] ↦ get_elem? d.localtimes 0
  | x ∷ xs ↦
      if ltb_ℤ t x.utctime
      then get_elem? d.localtimes 0
      else get_elem? d.localtimes (last_until (λ y. y.utctime) t x xs).localtime_idx
]

unfoldable pub to_local_time : ℤ → Data → Option (DateTime × ℤ)
to_local_time seconds d = elim (find_local_time seconds d) [
  | none ↦ none
  | some local ↦ some (break_time (seconds +ℤ local.utc_offset), local.utc_offset)
]

-- `TimeZone(int eastOfUtc, const char* name)`.
unfoldable pub fixed_zone : ℤ → Data
fixed_zone east_of_utc = record {
  transitions = [];
  localtimes = record { utc_offset = east_of_utc; is_dst = false; desig_idx = 0 } ∷ [];
}

-- The local second before a transition, by the type before it.
unfoldable pub prior_second_of : Transition → LocalTime → ℤ
prior_second_of x prior = x.utctime -ℤ pos 1 +ℤ prior.utc_offset

module _ (d : Data) (post_transition : Bool) (local : ℤ) where
  -- The end of `findLocalTime`, after `--transI`: `x` is the transition, and `before` the one before it,
  -- if there is one.
  unfoldable pub repeat_or_unique : Option Transition → Transition → ℤ → Option LocalTime
  repeat_or_unique none x prior_second = get_elem? d.localtimes x.localtime_idx
  repeat_or_unique (some before) x prior_second =
      elim (get_elem? d.localtimes before.localtime_idx) [
        | none ↦ none
        | some prior ↦
            if ltb_ℤ (prior_second_of x prior) local
            then get_elem? d.localtimes x.localtime_idx
            else (if post_transition
                then get_elem? d.localtimes x.localtime_idx
                else get_elem? d.localtimes before.localtime_idx)
      ]

  -- At `upper_bound`, `next`, with the two transitions before it.
  unfoldable pub skip_or_not : Option Transition → Transition → Transition → Option LocalTime
  skip_or_not before x next = elim (get_elem? d.localtimes x.localtime_idx) [
    | none ↦ none
    | some prior ↦
        if ltb_ℤ (prior_second_of next prior) local
        then (if post_transition
            then get_elem? d.localtimes next.localtime_idx
            else get_elem? d.localtimes x.localtime_idx)
        else repeat_or_unique before x (prior_second_of next prior)
  ]

  -- The search for `upper_bound`.
  unfoldable pub find_from : Option Transition → Transition → List Transition → Option LocalTime
  find_from before x [] = get_elem? d.localtimes x.localtime_idx
  find_from before x (next ∷ rest) =
      let later = find_from (some x) next rest in
      if ltb_ℤ local next.localtime then skip_or_not before x next else later

-- `findLocalTime(const DateTime&, bool)`.
unfoldable pub find_local_time_of : DateTime → Bool → Data → Option LocalTime
find_local_time_of lt post_transition d =
    let local = from_utc_time lt in
    elim d.transitions [
      | [] ↦ get_elem? d.localtimes 0
      | x ∷ rest ↦
          if ltb_ℤ local x.localtime
          then get_elem? d.localtimes 0
          else find_from d post_transition local none x rest
    ]

unfoldable pub from_local_time : DateTime → Bool → Data → Option ℤ
from_local_time lt post_transition d = elim (find_local_time_of lt post_transition d) [
  | none ↦ none
  | some local ↦ some (from_utc_time lt -ℤ local.utc_offset)
]
