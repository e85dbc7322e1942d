-- ===== src/Net/TimerQueue/Invariant.antt =====
-- The two sets of the queue hold the same timers, and all of those are alive.
use dxian.Prelude.{
  ℕ, ◌+◌, ◌≡◌, ◌⊎◌, inl, inr, Bool, true, false, Option, some, List, [], arith, length, Bool-cases,
}
use dxian.Net.PairSet.{
  contains, insert, IsSorted, insert-IsSorted, contains-insert, insert-cases, length-insert,
}
use dxian.Net.Store.{find}
use dxian.Net.TimerQueue.{Timer, Timespec, TimerQueue, insert_timer, sizes_agree, earlier_than_all}

-- The timer at an address that is in the queue for the time `t`.
pub record Listed (q : TimerQueue) (t p : ℕ) : Type 0 where
  pub timer : Timer
  pub alive : find p q.heap ≡ some timer
  pub on_time : timer.expiration ≡ t
  pub active : contains (p, timer.sequence) q.active_timers ≡ true

pub record Active (q : TimerQueue) (es : List (ℕ × ℕ)) (p s : ℕ) : Type 0 where
  pub timer : Timer
  pub alive : find p q.heap ≡ some timer
  pub own_number : timer.sequence ≡ s
  pub listed :
      (contains (timer.expiration, p) q.timers ≡ true) ⊎ (contains (timer.expiration, p) es ≡ true)

abbrev pub Unlisted : TimerQueue → ℕ → Type 0
Unlisted q p = (t : ℕ) → contains (t, p) q.timers ≡ false

-- `es` are entries that are off the list of timers but still in the active set.
pub record Between (q : TimerQueue) (es : List (ℕ × ℕ)) : Type 0 where
  pub timers_sorted : IsSorted q.timers
  pub active_sorted : IsSorted q.active_timers
  pub listed : (t p : ℕ) → contains (t, p) q.timers ≡ true → Listed q t p
  pub active : (p s : ℕ) → contains (p, s) q.active_timers ≡ true → Active q es p s
  pub same_size : length q.timers + length es ≡ length q.active_timers

abbrev pub Inv : TimerQueue → Type 0
Inv q = Between q []

-- `insert` of a timer that is alive and not listed.
abbrev pub inserted : ℕ → Timer → TimerQueue → TimerQueue
inserted p timer q = record q {
  timers = insert (timer.expiration, p) q.timers;
  active_timers = insert (p, timer.sequence) q.active_timers;
}

pub not_active :
    (q : TimerQueue) (p s : ℕ) (timer : Timer)
    → Inv q
    → find p q.heap ≡ some timer
    → Unlisted q p
    → contains (p, s) q.active_timers ≡ false
unfolding contains
not_active q p s timer v h u = elim (Bool-cases (contains (p, s) q.active_timers)) [
  | inl e ↦ let a = v.active p s e in ground (arith, a.listed, u a.timer.expiration)
  | inr e ↦ e
]

pub insert_timer-eq :
    (q : TimerQueue) (p : ℕ) (timer : Timer)
    → Inv q
    → find p q.heap ≡ some timer
    → Unlisted q p
    → insert_timer p q ≡ some (inserted p timer q, earlier_than_all timer.expiration q.timers)
unfolding insert_timer sizes_agree
insert_timer-eq q p timer v h u = ground (
  arith,
  u timer.expiration,
  not_active q p timer.sequence timer v h u,
  v.same_size,
  length-insert (timer.expiration, p) q.timers,
  length-insert (p, timer.sequence) q.active_timers,
)

module _ (q : TimerQueue) (p : ℕ) (timer : Timer) (v : Inv q) (h : find p q.heap ≡ some timer)
    (u : Unlisted q p) where
  inserted-Listed :
      (t r : ℕ)
      → contains (t, r) (inserted p timer q).timers ≡ true
      → Listed (inserted p timer q) t r
  inserted-Listed t r e = elim (insert-cases (timer.expiration, p) (t, r) q.timers e) [
    | inl same ↦ record {
      timer = timer;
      alive = ground arith;
      on_time = ground arith;
      active =
          ground (arith, contains-insert (p, timer.sequence) (r, timer.sequence) q.active_timers);
    }
    | inr old ↦
        let l = v.listed t r old in
        record {
          timer = l.timer;
          alive = l.alive;
          on_time = l.on_time;
          active = ground (
            arith,
            l.active,
            contains-insert (p, timer.sequence) (r, l.timer.sequence) q.active_timers,
          );
        }
  ]

  inserted-Active :
      (r s : ℕ)
      → contains (r, s) (inserted p timer q).active_timers ≡ true
      → Active (inserted p timer q) [] r s
  inserted-Active r s e = elim (insert-cases (p, timer.sequence) (r, s) q.active_timers e) [
    | inl same ↦ record {
      timer = timer;
      alive = ground arith;
      own_number = ground arith;
      listed =
          inl
            (ground (arith, contains-insert (timer.expiration, p) (timer.expiration, r) q.timers));
    }
    | inr old ↦
        let l = v.active r s old in
        record {
          timer = l.timer;
          alive = l.alive;
          own_number = l.own_number;
          listed = ground (
            arith,
            l.listed,
            contains-insert (timer.expiration, p) (l.timer.expiration, r) q.timers,
          );
        }
  ]

  pub inserted-Inv : Inv (inserted p timer q)
  inserted-Inv = record {
    timers_sorted = insert-IsSorted _ _ v.timers_sorted;
    active_sorted = insert-IsSorted _ _ v.active_sorted;
    listed = inserted-Listed;
    active = inserted-Active;
    same_size = omega (
      arith,
      v.same_size,
      length-insert (timer.expiration, p) q.timers (u timer.expiration),
      length-insert (p, timer.sequence) q.active_timers (not_active q p timer.sequence timer v h u),
    );
  }

-- The invariant does not depend on the other fields.
abbrev pub aside : Bool → List (ℕ × ℕ) → Option Timespec → TimerQueue → TimerQueue
aside calling canceling timerfd q = record q {
  calling_expired_timers = calling;
  canceling_timers = canceling;
  timerfd = timerfd;
}

pub aside-Inv :
    (c : Bool) (cs : List (ℕ × ℕ)) (f : Option Timespec) (q : TimerQueue)
    → Inv q
    → Inv (aside c cs f q)
aside-Inv c cs f q v = record {
  timers_sorted = v.timers_sorted;
  active_sorted = v.active_sorted;
  listed = λ t p e.
      let l = v.listed t p e in
      record { timer = l.timer; alive = l.alive; on_time = l.on_time; active = l.active };
  active = λ p s e.
      let l = v.active p s e in
      record { timer = l.timer; alive = l.alive; own_number = l.own_number; listed = l.listed };
  same_size = v.same_size;
}
