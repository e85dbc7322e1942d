-- ===== src/Net/TimerQueue.antt =====
-- server/src/muduo/net/TimerQueue.cpp, Timer.h and Timer.cpp: timers on a heap, in two sets.
--
-- A `Timer*` is a number, and the objects are a finite map from addresses. `none` stands for a fault:
-- an assertion that fails, or a deleted timer that is read. A time is in microseconds since the
-- epoch, a number. `new` is a parameter, `allocate`, for the address that it returns. What a callback
-- does to the queue is a parameter too: the calls of `addTimer` and `cancel` that it makes, in
-- order. They run at once, since callbacks run in the loop's thread.
pub mod Invariant
pub mod Cancel
pub mod Alarm
mod Tests
pub mod HandleRead
pub mod Reset
pub mod Expiry
pub mod Callbacks
pub mod Held
use dxian.Prelude.{
  ℕ, ◌+◌, ◌-◌, ◌*◌, ◌/◌, ◌%◌, Bool, true, false, not, ◌&&◌, Option, none, some, List, [], ◌∷◌, ltb,
  leb, ◌==◌, if◌then◌else◌, length,
}
use dxian.Net.PairSet.{contains, insert, erase}
use dxian.Net.Store.{find, put, drop_key}

-- `interval` is `static_cast<int64_t>(interval_ * kMicroSecondsPerSecond)`, as `addTime` computes it,
-- and `repeat` is `interval_ > 0.0`. `callback` names the function.
pub record Timer : Type 0 where
  pub callback : ℕ
  pub expiration : ℕ
  pub interval : ℕ
  pub repeat : Bool
  pub sequence : ℕ

pub record Timespec : Type 0 where
  pub tv_sec : ℕ
  pub tv_nsec : ℕ

pub record TimerQueue : Type 0 where
  pub timers : List (ℕ × ℕ)
  pub active_timers : List (ℕ × ℕ)
  pub calling_expired_timers : Bool
  pub canceling_timers : List (ℕ × ℕ)
  -- The objects, and the counter of the class `Timer`.
  pub heap : List (ℕ × Timer)
  pub num_created : ℕ
  -- The last `it_value` that `timerfd_settime` was given.
  pub timerfd : Option Timespec

abbrev pub ◌>>=◌ {ℓ κ} : {A : Type ℓ} {B : Type κ} → Option A → (A → Option B) → Option B
none >>= f = none
some a >>= f = f a

abbrev pub ◌>>◌ {ℓ} : {B : Type ℓ} → Option (Unit {0}) → Option B → Option B
m >> k = m >>= λ _. k

infixl 5 ◌>>=◌ ◌>>◌
abbrev pub ensure : Bool → Option (Unit {0})
ensure true = some tt
ensure false = none

abbrev pub micro_seconds_per_second : ℕ
micro_seconds_per_second = 1000000

-- A difference below 100, also a negative one, counts as 100.
pub how_much_time_from_now : ℕ → ℕ → Timespec
how_much_time_from_now time now =
    let left = time - now in
    let microseconds = if ltb left 100 then 100 else left in
    record {
      tv_sec = microseconds / micro_seconds_per_second;
      tv_nsec = microseconds % micro_seconds_per_second * 1000;
    }

pub reset_timerfd : ℕ → ℕ → TimerQueue → TimerQueue
reset_timerfd expiration now q = record q { timerfd = some (how_much_time_from_now expiration now) }

-- `Timer::restart`.
pub restart : ℕ → Timer → Timer
restart now t = record t { expiration = if t.repeat then now + t.interval else 0 }

-- `timers_.begin()` is missing, or comes later.
abbrev pub earlier_than_all : ℕ → List (ℕ × ℕ) → Bool
earlier_than_all time [] = true
earlier_than_all time ((t, p) ∷ _) = ltb time t

pub sizes_agree : TimerQueue → Bool
sizes_agree q = length q.timers == length q.active_timers

-- `TimerQueue::insert`.
pub insert_timer : ℕ → TimerQueue → Option (TimerQueue × Bool)
insert_timer p q = do
  ensure (sizes_agree q)
  timer ← find p q.heap
  let time = timer.expiration
  ensure (not (contains (time, p) q.timers))
  ensure (not (contains (p, timer.sequence) q.active_timers))
  let q' = record q {
    timers = insert (time, p) q.timers;
    active_timers = insert (p, timer.sequence) q.active_timers;
  }
  ensure (sizes_agree q')
  some (q', earlier_than_all time q.timers)

pub add_timer_in_loop : ℕ → ℕ → TimerQueue → Option TimerQueue
add_timer_in_loop p now q = do
  (q', earliest_changed) ← insert_timer p q
  timer ← find p q'.heap
  some (if earliest_changed then reset_timerfd timer.expiration now q' else q')

pub cancel_in_loop : ℕ × ℕ → TimerQueue → Option TimerQueue
cancel_in_loop (p, s) q = do
  ensure (sizes_agree q)
  q' ←
      (if contains (p, s) q.active_timers
        then (do
          timer ← find p q.heap
          ensure (contains (timer.expiration, p) q.timers)
          some (record q {
            timers = erase (timer.expiration, p) q.timers;
            heap = drop_key p q.heap;
            active_timers = erase (p, s) q.active_timers;
          }))
        else some (
            if q.calling_expired_timers
            then record q { canceling_timers = insert (p, s) q.canceling_timers }
            else q))
  ensure (sizes_agree q')
  some q'

-- The entries before `lower_bound(sentry)`, and those from there on. The sentry is `now` with the
-- greatest address, which no timer has: it comes after every entry at `now`.
pub due : ℕ → List (ℕ × ℕ) → List (ℕ × ℕ)
due now [] = []
due now ((t, p) ∷ es) = if leb t now then (t, p) ∷ due now es else []

pub pending : ℕ → List (ℕ × ℕ) → List (ℕ × ℕ)
pending now [] = []
pending now ((t, p) ∷ es) = if leb t now then pending now es else (t, p) ∷ es

-- The loop of `getExpired`.
forget_one : ℕ → TimerQueue → Option TimerQueue
forget_one p q = do
  timer ← find p q.heap
  ensure (contains (p, timer.sequence) q.active_timers)
  some (record q { active_timers = erase (p, timer.sequence) q.active_timers })

pub forget : List (ℕ × ℕ) → TimerQueue → Option TimerQueue
forget [] q = some q
forget ((t, p) ∷ es) q = forget_one p q >>= forget es

pub get_expired : ℕ → TimerQueue → Option (TimerQueue × List (ℕ × ℕ))
get_expired now q = do
  ensure (sizes_agree q)
  let expired = due now q.timers
  let rest = pending now q.timers
  ensure (earlier_than_all now rest)
  q' ← forget expired (record q { timers = rest })
  ensure (sizes_agree q')
  some (q', expired)

-- The loop of `reset`.
repeat_one : ℕ → ℕ → Timer → TimerQueue → Option TimerQueue
repeat_one now p timer q = do
  (q', _) ← insert_timer p (record q { heap = put p (restart now timer) q.heap })
  some q'

reset_one : ℕ → ℕ → TimerQueue → Option TimerQueue
reset_one now p q = do
  timer ← find p q.heap
  if timer.repeat && not (contains (p, timer.sequence) q.canceling_timers)
      then repeat_one now p timer q
      else some (record q { heap = drop_key p q.heap })

pub reset_all : ℕ → List (ℕ × ℕ) → TimerQueue → Option TimerQueue
reset_all now [] q = some q
reset_all now ((t, p) ∷ es) q = reset_one now p q >>= reset_all now es

-- `nextExpire`, which is not valid (0) if no timer is left.
next_expire : TimerQueue → List (ℕ × ℕ) → Option ℕ
next_expire q [] = some 0
next_expire q ((t, p) ∷ _) = do timer ← find p q.heap; some timer.expiration

-- `clock` is the time when `resetTimerfd` reads it.
pub reset : List (ℕ × ℕ) → ℕ → ℕ → TimerQueue → Option TimerQueue
reset expired now clock q = do
  q' ← reset_all now expired q
  next ← next_expire q' q'.timers
  some (if ltb 0 next then reset_timerfd next clock q' else q')

-- What a callback calls: `addTimer`, with the callback, time, interval and repetition of the timer
-- and the clock's reading, and `cancel`.
pub data Command : Type 0 where
  adds : ℕ → ℕ → ℕ → Bool → ℕ → Command
  cancels : ℕ × ℕ → Command

module _ (allocate : List (ℕ × Timer) → ℕ) where
  -- `TimerQueue::addTimer` in the loop's thread, with the `TimerId` that it returns.
  pub add_timer : ℕ → ℕ → ℕ → Bool → ℕ → TimerQueue → Option (TimerQueue × (ℕ × ℕ))
  add_timer callback time interval repeat clock q =
      let p = allocate q.heap in
      let timer : Timer = record {
        callback = callback;
        expiration = time;
        interval = interval;
        repeat = repeat;
        sequence = q.num_created + 1;
      } in
      add_timer_in_loop p clock
        (record q { heap = put p timer q.heap; num_created = q.num_created + 1 })
      >>= λ q'. some (q', (p, q.num_created + 1))

  pub obey : Command → TimerQueue → Option TimerQueue
  obey (adds callback time interval repeat clock) q = do
    (q', _) ← add_timer callback time interval repeat clock q
    some q'
  obey (cancels id) q = cancel_in_loop id q

  pub obey_all : List Command → TimerQueue → Option TimerQueue
  obey_all [] q = some q
  obey_all (c ∷ cs) q = obey c q >>= obey_all cs

  -- The loop of `handleRead`.
  pub run_all : (ℕ → List Command) → List (ℕ × ℕ) → TimerQueue → Option TimerQueue
  run_all effects [] q = some q
  run_all effects ((t, p) ∷ es) q =
      (do timer ← find p q.heap; obey_all (effects timer.callback) q) >>= run_all effects es

  pub handle_read : (ℕ → List Command) → ℕ → ℕ → TimerQueue → Option TimerQueue
  handle_read effects now clock q = do
    (q1, expired) ← get_expired now q
    q2 ←
        run_all effects expired (record q1 { calling_expired_timers = true; canceling_timers = [] })
    reset expired now clock (record q2 { calling_expired_timers = false })
