-- ===== src/Net/TimerQueue/Alarm.antt =====
-- The alarm: `howMuchTimeFromNow`, and when `addTimer` sets it.
use dxian.Prelude.{
  ℕ, ◌+◌, ◌*◌, ◌≤◌, ◌<◌, ◌≡◌, ◌⊎◌, ◌||◌, inl, inr, true, false, some, List, [], ◌∷◌, arith,
  Bool-cases,
}
use dxian.Net.PairSet.{contains, eq_pair, contains-insert, IsSorted, After-lt}
use dxian.Net.Store.{find}
use dxian.Net.TimerQueue.{
  Timer, Timespec, TimerQueue, how_much_time_from_now, add_timer_in_loop, earlier_than_all,
}
use dxian.Net.TimerQueue.Invariant.{Inv, Unlisted}
use dxian.Net.TimerQueue.Callbacks.{added, add_timer_in_loop-eq}

-- The time that a `timespec` stands for, in nanoseconds.
abbrev pub nanoseconds : Timespec → ℕ
nanoseconds s = s.tv_sec * 1000000000 + s.tv_nsec

-- The alarm is set for the microseconds left until `time` if they are 100 or more, and for 100 where fewer are left or the
-- time is past. So it is never set to zero, which would switch it off, and the nanoseconds are in range.
pub how_much_time_from_now_lem :
    (time now : ℕ)
    → (now + 100 ≤ time → nanoseconds (how_much_time_from_now time now) + 1000 * now ≡ 1000 * time)
      × (time < now + 100 → nanoseconds (how_much_time_from_now time now) ≡ 100000)
      × (0 < nanoseconds (how_much_time_from_now time now))
      × ((how_much_time_from_now time now).tv_nsec < 1000000000)
unfolding how_much_time_from_now
how_much_time_from_now_lem time now =
    (λ h. ground (arith, h), λ h. ground (arith, h), ground arith, ground arith)

earliest :
    (time : ℕ) (es : List (ℕ × ℕ))
    → IsSorted es
    → earlier_than_all time es ≡ true
    → (t p : ℕ) → contains (t, p) es ≡ true
    → time < t
unfolding contains
earliest time [] s h t p e = ground arith
earliest time ((u, r) ∷ es) s h t p e = ground (arith, After-lt (u, r) (t, p) es s)

not_earliest :
    (time : ℕ) (es : List (ℕ × ℕ))
    → earlier_than_all time es ≡ false
    → (t : ℕ) × (p : ℕ) × (contains (t, p) es ≡ true) × (t ≤ time)
unfolding contains
not_earliest time [] h = absurd (ground arith)
not_earliest time ((u, r) ∷ es) h = (u, r, ground arith, ground arith)

-- `addTimerInLoop` of a timer that is alive and not listed fails no assertion. It puts the timer into the list at its time and
-- into the active ones by its number, and adds and removes no other entry. It sets the alarm for the new timer if that
-- expires before all others, and leaves the alarm alone if another one expires no later.
pub add_timer_in_loop-alarm :
    (q : TimerQueue) (p now : ℕ) (timer : Timer)
    → Inv q
    → find p q.heap ≡ some timer
    → Unlisted q p
    → (q' : TimerQueue) × (add_timer_in_loop p now q ≡ some q')
      × ((e : ℕ × ℕ)
          → contains e q'.timers ≡ eq_pair e (timer.expiration, p) || contains e q.timers)
      × ((e : ℕ × ℕ)
          → contains e q'.active_timers
            ≡ eq_pair e (p, timer.sequence) || contains e q.active_timers)
      × (((q'.timerfd ≡ some (how_much_time_from_now timer.expiration now))
            × ((t r : ℕ) → contains (t, r) q.timers ≡ true → timer.expiration < t))
          ⊎ ((q'.timerfd ≡ q.timerfd)
              × ((t : ℕ) × (r : ℕ) × (contains (t, r) q.timers ≡ true) × (t ≤ timer.expiration))))
add_timer_in_loop-alarm q p now timer v h u = (
  added p timer now q,
  add_timer_in_loop-eq q p now timer v h u,
  λ e. contains-insert (timer.expiration, p) e q.timers,
  λ e. contains-insert (p, timer.sequence) e q.active_timers,
  elim (Bool-cases (earlier_than_all timer.expiration q.timers)) [
    | inl e ↦ inl (ground (arith, e), earliest timer.expiration q.timers v.timers_sorted e)
    | inr e ↦ inr (ground (arith, e), not_earliest timer.expiration q.timers e)
  ],
)
