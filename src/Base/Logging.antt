-- ===== src/Base/Logging.antt =====
-- server/src/muduo/base/Logging.cpp: the time of a log line, whose seconds a thread formats only when they change.
--
-- The texts that snprintf(3) makes of a calendar time and of microseconds are parameters. `none` is an assertion that fails.
pub mod Cache
pub mod Line
pub mod Basename
pub mod Room
pub mod Whole
mod Tests
use dxian.Prelude.{
  ℕ, ◌/◌, ◌%◌, Bool, true, false, not, ◌&&◌, Option, none, some, List, [], ◌∷◌, ◌++◌, ◌==◌,
  if◌then◌else◌, length,
}
use dxian.Prelude.Int.{ℤ, pos}
use dxian.Base.TimeZone.{DateTime, Data, break_time, to_local_time}

pub data LogLevel : Type 0 where
  trace debug info warn error fatal : LogLevel

-- Whether MUDUO_LOG_TRACE and MUDUO_LOG_DEBUG are set.
unfoldable pub init_log_level : Bool → Bool → LogLevel
init_log_level true b = trace
init_log_level false true = debug
init_log_level false false = info

-- The level of `Logger(file, line, toAbort)`.
abbrev pub level_of : Bool → LogLevel
level_of true = fatal
level_of false = error

-- The variables of a thread. `t_time` has the 17 characters, or none before the first line.
pub record Local : Type 0 where
  pub t_time : List ℕ
  pub t_last_second : ℕ

abbrev pub new_thread : Local
new_thread = record { t_time = []; t_last_second = 0 }

module _ (print_time : DateTime → List ℕ) (print_micros : ℕ → List ℕ) where
  -- The calendar time of a second, in the time zone of the log if one is set.
  abbrev pub first : Option (DateTime × ℤ) → Option DateTime
  first none = none
  first (some x) = some x.0

  unfoldable pub date_time_at : Option Data → ℕ → Option DateTime
  date_time_at none seconds = some (break_time (pos seconds))
  date_time_at (some d) seconds = first (to_local_time (pos seconds) d)

  -- The new text of `t_time`, of 17 characters.
  abbrev pub new_text : Option DateTime → Option (List ℕ)
  new_text none = none
  new_text (some dt) = if length (print_time dt) == 17 then some (print_time dt) else none

  abbrev pub suffix : Option Data → List ℕ
  suffix none = 90 ∷ 32 ∷ []
  suffix (some d) = 32 ∷ []

  abbrev pub us : Option Data → ℕ → List ℕ
  us tz microseconds = (46 ∷ print_micros microseconds) ++ suffix tz

  abbrev pub us_length : Option Data → ℕ
  us_length none = 9
  us_length (some d) = 8

  -- What goes to the stream; the class `T` asserts the lengths of both texts.
  abbrev pub streamed : Option Data → ℕ → Local → Option (List ℕ × Local)
  streamed tz microseconds t =
      if (length (us tz microseconds) == us_length tz) && (length t.t_time == 17)
      then some (t.t_time ++ us tz microseconds, t)
      else none

  abbrev pub store : ℕ → Option (List ℕ) → Option Local
  store seconds none = none
  store seconds (some text) = some (record { t_time = text; t_last_second = seconds })

  abbrev pub with_time : Option Data → ℕ → Option Local → Option (List ℕ × Local)
  with_time tz microseconds none = none
  with_time tz microseconds (some t) = streamed tz microseconds t

  unfoldable pub format_time : Option Data → ℕ → Local → Option (List ℕ × Local)
  format_time tz time t =
      let seconds = time / 1000000 in
      with_time tz (time % 1000000) (
        if not (seconds == t.t_last_second)
        then store seconds (new_text (date_time_at tz seconds))
        else some t)
