-- ===== src/Net/TimerQueue/HandleRead.antt =====
-- `handleRead`, from the expiry of timers to the next alarm.
use dxian.Prelude.{
  ℕ, ◌+◌, ◌≡◌, ◌≤◌, ◌<◌, refl, ap, ◌∙◌, Bool, true, false, not, ◌&&◌, ◌||◌, Option, none, some,
  List, [], ◌∷◌, arith, if◌then◌else◌, ltb,
}
use dxian.Net.PairSet.{contains}
use dxian.Net.Store.{find}
use dxian.Net.TimerQueue.{
  Timer, Timespec, TimerQueue, Command, ◌>>=◌, due, next_expire, reset, reset_timerfd,
  how_much_time_from_now, handle_read,
}
use dxian.Net.TimerQueue.Invariant.{Inv, aside, aside-Inv}
use dxian.Net.TimerQueue.Held.{Keeps}
use dxian.Net.TimerQueue.Expiry.{get_expired-Expires}
use dxian.Net.TimerQueue.Callbacks.{asked_by, aside-Holds, run_all-Obeys}
use dxian.Net.TimerQueue.Reset.{again, reset_all-Resets}

-- The alarm is set for the first timer.
abbrev pub Armed : ℕ → Option Timespec → List (ℕ × ℕ) → Type 0
Armed clock fd [] = Unit {0}
Armed clock fd ((t, p) ∷ es) = 0 < t → fd ≡ some (how_much_time_from_now t clock)

-- The end of `reset`.
abbrev rearm : ℕ → TimerQueue → Option TimerQueue
rearm clock q =
    next_expire q q.timers >>= λ next. some (if ltb 0 next then reset_timerfd next clock q else q)

rearm-Armed :
    (clock : ℕ) (q : TimerQueue) (es : List (ℕ × ℕ))
    → es ≡ q.timers
    → Inv q
    → (f : Option Timespec) × (rearm clock q
        ≡ some (aside q.calling_expired_timers q.canceling_timers f q))
      × Armed clock f es
unfolding next_expire reset_timerfd contains
rearm-Armed clock q [] e v = (q.timerfd, rw (← e) refl, tt)
rearm-Armed clock q ((t, p) ∷ es) e v =
    let l = v.listed t p (rw (← e) (ground arith)) in
    (
      (if ltb 0 t then some (how_much_time_from_now t clock) else q.timerfd),
      rw (← e, l.alive, l.on_time) (ground arith),
      λ h. ground arith,
    )

-- What an alarm at `now` makes of the queue, where `cancels` says which timers the callbacks cancel.
pub record Handles (now clock : ℕ) (asked : ℕ × ℕ → Bool) (q q' : TimerQueue) : Type 0 where
  pub inv : Inv q'
  pub idle : q'.calling_expired_timers ≡ false
  pub repeated :
      (t p : ℕ) (timer : Timer)
      → contains (t, p) q.timers ≡ true
      → t ≤ now
      → find p q.heap ≡ some timer
      → timer.repeat ≡ true
      → asked (p, timer.sequence) ≡ false
      → contains (now + timer.interval, p) q'.timers ≡ true
  pub deleted :
      (t p : ℕ) (timer : Timer)
      → contains (t, p) q.timers ≡ true
      → t ≤ now
      → find p q.heap ≡ some timer
      → timer.repeat && not (asked (p, timer.sequence)) ≡ false
      → find p q'.heap ≡ none
  pub armed : Armed clock q'.timerfd q'.timers

abbrev called : Bool → List (ℕ × ℕ) → TimerQueue → TimerQueue
called c cs q = aside c cs q.timerfd q

called-Keeps :
    (c : Bool) (cs es : List (ℕ × ℕ)) (q : TimerQueue) → Keeps es q → Keeps es (called c cs q)
called-Keeps c cs es q k = record {
  inv = aside-Inv c cs q.timerfd q k.inv;
  holds = aside-Holds c cs q.timerfd q es k.holds;
}

-- A timer that is not canceled goes back exactly if it repeats.
again-asked :
    (q : TimerQueue) (p : ℕ) (timer : Timer) (b : Bool)
    → contains (p, timer.sequence) q.canceling_timers ≡ b || false
    → again q p timer ≡ timer.repeat && not b
again-asked q p timer b h = ground arith

module _ (allocate : List (ℕ × Timer) → ℕ)
    (fresh_address : (m : List (ℕ × Timer)) → find (allocate m) m ≡ none) where
  -- `handleRead` at `now` fails no assertion and reads no deleted timer, whatever timers the callbacks
  -- add and cancel, and keeps the invariant. Of the timers that have expired, one that repeats and that
  -- no callback cancels is listed for `now` and its interval, and every other one is deleted. The
  -- alarm is set for the first timer, if its time is valid.
  pub handle_read-Handles :
      (effects : ℕ → List Command) (now clock : ℕ) (q : TimerQueue)
      → Inv q
      → (q' : TimerQueue) × (handle_read allocate effects now clock q ≡ some q')
        × Handles now clock (asked_by effects q.heap (due now q.timers)) q q'
  unfolding handle_read reset contains
  handle_read-Handles effects now clock q v =
      let es = due now q.timers in
      let (q1, e1, x) = get_expired-Expires now q v in
      let k1 = called-Keeps true [] es q1 x.keeps in
      let (q2, e2, o) =
        run_all-Obeys allocate fresh_address effects es es (called true [] q1) q.heap k1
          (λ t p c. c) (λ t p c. ap (find p) x.same_heap) in
      let k2 = called-Keeps false q2.canceling_timers es q2 o.keeps in
      let (q3, e3, r) = reset_all-Resets now es (called false q2.canceling_timers q2) x.sorted k2 in
      let (f, e4, armed) = rearm-Armed clock q3 q3.timers refl r.inv in
      let going : (t p : ℕ) (timer : Timer)
          → contains (t, p) es ≡ true
          → find p q.heap ≡ some timer
          → again (called false q2.canceling_timers q2) p timer
            ≡ timer.repeat && not (asked_by effects q.heap es (p, timer.sequence)) =
        λ t p timer c h.
          again-asked (called false q2.canceling_timers q2) p timer
            (asked_by effects q.heap es (p, timer.sequence)) (o.noted refl t p timer.sequence c) in
      let still : (t p : ℕ) → contains (t, p) es ≡ true → find p q2.heap ≡ find p q.heap =
        λ t p c. o.same t p c ∙ ap (find p) x.same_heap in
      (
        aside q3.calling_expired_timers q3.canceling_timers f q3,
        rw (e1, e2, e3) e4,
        record {
          inv = aside-Inv _ _ f q3 r.inv;
          idle = r.calling;
          repeated = λ t p timer c h alive rep no_ask.
              let d = x.complete t p c h in
              r.back t p timer d (still t p d ∙ alive) (ground (arith, going t p timer d alive));
          deleted = λ t p timer c h alive out.
              let d = x.complete t p c h in
              r.deleted t p timer d (still t p d ∙ alive) (going t p timer d alive ∙ out);
          armed = armed;
        },
      )
