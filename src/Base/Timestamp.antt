-- ===== src/Base/Timestamp.antt =====
-- server/src/muduo/base/include/Timestamp.h: times in microseconds since the epoch. `int64_t` is an
-- unbounded integer here, and the seconds that are added are given in microseconds, as `addTime`
-- converts them from a double.
pub mod Laws
mod Tests
use dxian.Prelude.{Bool}
use dxian.Prelude.Int.{ℤ, pos, ◌+ℤ◌, ◌-ℤ◌, ◌*ℤ◌, ◌/ℤ◌, ltb_ℤ}

pub record Timestamp : Type 0 where
  pub micro_seconds_since_epoch : ℤ

abbrev pub invalid : Timestamp
invalid = record { micro_seconds_since_epoch = pos 0 }

unfoldable pub is_valid : Timestamp → Bool
is_valid t = ltb_ℤ (pos 0) t.micro_seconds_since_epoch

unfoldable pub seconds_since_epoch : Timestamp → ℤ
seconds_since_epoch t = t.micro_seconds_since_epoch /ℤ 1000000

unfoldable pub from_unix_time : ℤ → ℤ → Timestamp
from_unix_time t microseconds = record {
  micro_seconds_since_epoch = t *ℤ pos 1000000 +ℤ microseconds;
}

-- `operator<`.
unfoldable pub is_before : Timestamp → Timestamp → Bool
is_before lhs rhs = ltb_ℤ lhs.micro_seconds_since_epoch rhs.micro_seconds_since_epoch

unfoldable pub add_time : Timestamp → ℤ → Timestamp
add_time timestamp delta = record {
  micro_seconds_since_epoch = timestamp.micro_seconds_since_epoch +ℤ delta;
}

-- The difference before it is converted to seconds.
unfoldable pub time_difference : Timestamp → Timestamp → ℤ
time_difference high low = high.micro_seconds_since_epoch -ℤ low.micro_seconds_since_epoch
