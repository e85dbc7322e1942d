-- ===== src/Base/Timestamp/Laws.antt =====
-- Times made from seconds and microseconds, and differences.
use dxian.Prelude.{ℕ, ◌≡◌, ◌<◌, arith, ◌||◌, ◌&&◌, ltb, ◌==◌}
use dxian.Prelude.Int.{ℤ, pos, ltb_ℤ, ◌+ℤ◌, ◌-ℤ◌, ◌*ℤ◌, ◌/ℤ◌}
use dxian.Base.Timestamp.{
  Timestamp, seconds_since_epoch, from_unix_time, is_before, add_time, time_difference,
}

-- A time from the epoch on that is made of seconds and less than a second of microseconds has those
-- seconds, and such times are ordered by the seconds first and by the microseconds then.
from_unix_time-seconds :
    (s t u v : ℕ)
    → u < 1000000
    → v < 1000000
    → (seconds_since_epoch (from_unix_time (pos s) (pos u)) ≡ pos s)
      × (is_before (from_unix_time (pos s) (pos u)) (from_unix_time (pos t) (pos v))
          ≡ ltb s t || (s == t) && ltb u v)
unfolding seconds_since_epoch from_unix_time is_before ◌+ℤ◌ ◌*ℤ◌ ◌/ℤ◌
from_unix_time-seconds s t u v h k = (ground arith, ground arith)

-- A time that is added is the difference again, and the sum is later exactly if that is positive.
time_difference-add_time :
    (t : Timestamp) (delta : ℤ)
    → (time_difference (add_time t delta) t ≡ delta)
      × (is_before t (add_time t delta) ≡ ltb_ℤ (pos 0) delta)
unfolding time_difference add_time is_before ◌+ℤ◌ ◌-ℤ◌
time_difference-add_time t delta = (ground arith, ground arith)
