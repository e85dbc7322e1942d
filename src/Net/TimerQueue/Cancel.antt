-- ===== src/Net/TimerQueue/Cancel.antt =====
-- `cancelInLoop`.
use dxian.Prelude.{
  ℕ, ◌≡◌, ◌≢◌, ◌⊎◌, inl, inr, refl, true, false, not, ◌&&◌, ◌||◌, none, some, [], arith, Bool-cases,
  if◌then◌else◌,
}
use dxian.Net.PairSet.{
  contains, insert, erase, eq_pair, erase-IsSorted, contains-insert, contains-erase, erase-cases,
  length-erase,
}
use dxian.Net.Store.{find, drop_key, find-drop_key}
use dxian.Net.TimerQueue.{Timer, TimerQueue, sizes_agree, cancel_in_loop}
use dxian.Net.TimerQueue.Invariant.{Inv, Listed, Active, aside-Inv}

abbrev pub removed : ℕ → ℕ → Timer → TimerQueue → TimerQueue
removed p s timer q = record q {
  timers = erase (timer.expiration, p) q.timers;
  heap = drop_key p q.heap;
  active_timers = erase (p, s) q.active_timers;
}

module _ (q : TimerQueue) (p s : ℕ) (v : Inv q) (timer : Timer) (h : find p q.heap ≡ some timer)
    (own : timer.sequence ≡ s) (on_list : contains (timer.expiration, p) q.timers ≡ true)
    (on_set : contains (p, s) q.active_timers ≡ true) where
  removed-Listed :
      (t r : ℕ)
      → contains (t, r) (removed p s timer q).timers ≡ true
      → Listed (removed p s timer q) t r
  removed-Listed t r e =
      let (apart, old) = erase-cases (timer.expiration, p) (t, r) q.timers v.timers_sorted e in
      let l = v.listed t r old in
      let other : r ≢ p = λ same. ground (arith, same, l.alive, l.on_time) in
      record {
        timer = l.timer;
        alive = ground (arith, l.alive, other, find-drop_key p r q.heap);
        on_time = l.on_time;
        active = ground (
          arith,
          l.active,
          other,
          contains-erase (p, s) (r, l.timer.sequence) q.active_timers v.active_sorted,
        );
      }

  removed-Active :
      (r n : ℕ)
      → contains (r, n) (removed p s timer q).active_timers ≡ true
      → Active (removed p s timer q) [] r n
  unfolding contains
  removed-Active r n e =
      let (apart, old) = erase-cases (p, s) (r, n) q.active_timers v.active_sorted e in
      let l = v.active r n old in
      let other : r ≢ p = λ same. ground (arith, same, l.alive, l.own_number) in
      record {
        timer = l.timer;
        alive = ground (arith, l.alive, other, find-drop_key p r q.heap);
        own_number = l.own_number;
        listed = inl (
            ground (
              arith,
              l.listed,
              other,
              contains-erase (timer.expiration, p) (l.timer.expiration, r) q.timers v.timers_sorted,
            ));
      }

  pub removed-Inv : Inv (removed p s timer q)
  removed-Inv = record {
    timers_sorted = erase-IsSorted _ _ v.timers_sorted;
    active_sorted = erase-IsSorted _ _ v.active_sorted;
    listed = removed-Listed;
    active = removed-Active;
    same_size = omega (
      arith,
      v.same_size,
      length-erase (timer.expiration, p) q.timers on_list,
      length-erase (p, s) q.active_timers on_set,
    );
  }

  pub cancel_in_loop-removed : cancel_in_loop (p, s) q ≡ some (removed p s timer q)
  unfolding cancel_in_loop sizes_agree
  cancel_in_loop-removed = ground (
    arith,
    v.same_size,
    length-erase (timer.expiration, p) q.timers on_list,
    length-erase (p, s) q.active_timers on_set,
  )

-- What `cancelInLoop` of the timer `(p, s)` leaves.
pub record Cancels (p s : ℕ) (q q' : TimerQueue) : Type 0 where
  pub inv : Inv q'
  pub gone : contains (p, s) q'.active_timers ≡ false
  pub others :
      (r n : ℕ)
      → eq_pair (r, n) (p, s) ≡ false
      → contains (r, n) q'.active_timers ≡ contains (r, n) q.active_timers
  pub noted :
      (r n : ℕ)
      → contains (r, n) q'.canceling_timers ≡ (
          not (contains (p, s) q.active_timers) && q.calling_expired_timers && eq_pair (r, n) (p, s)
          || contains (r, n) q.canceling_timers)
  pub deleted : contains (p, s) q.active_timers ≡ true → find p q'.heap ≡ none
  pub alive :
      (r : ℕ) → (contains (p, s) q.active_timers ≡ false) ⊎ (r ≢ p) → find r q'.heap ≡ find r q.heap
  pub shrinks : (t r : ℕ) → contains (t, r) q'.timers ≡ true → contains (t, r) q.timers ≡ true
  pub flag : q'.calling_expired_timers ≡ q.calling_expired_timers

abbrev pub noted_in : ℕ × ℕ → TimerQueue → TimerQueue
noted_in id q = record q { canceling_timers = insert id q.canceling_timers }

cancel_in_loop-inactive :
    (q : TimerQueue) (p s : ℕ)
    → Inv q
    → contains (p, s) q.active_timers ≡ false
    → cancel_in_loop (p, s) q ≡ some (if q.calling_expired_timers then noted_in (p, s) q else q)
unfolding cancel_in_loop sizes_agree
cancel_in_loop-inactive q p s v e = ground (arith, v.same_size)

-- `cancelInLoop` keeps the invariant and fails no assertion. After it the timer is not active, and
-- every other timer is as active as before; the timer's object is deleted if it was active, and no
-- other object. While expired timers are called, the cancellation of a
-- timer that is not active is noted in `cancelingTimers_`.
pub cancel_in_loop-Cancels :
    (q : TimerQueue) (p s : ℕ)
    → Inv q
    → (q' : TimerQueue) × (cancel_in_loop (p, s) q ≡ some q') × Cancels p s q q'
unfolding contains
cancel_in_loop-Cancels q p s v = elim (Bool-cases (contains (p, s) q.active_timers)) [
  | inl e ↦
      let a = v.active p s e in
      let on_list : contains (a.timer.expiration, p) q.timers ≡ true = ground (arith, a.listed) in
      (
        removed p s a.timer q,
        cancel_in_loop-removed q p s v a.timer a.alive a.own_number on_list e,
        record {
          inv = removed-Inv q p s v a.timer a.alive a.own_number on_list e;
          gone = ground (arith, contains-erase (p, s) (p, s) q.active_timers v.active_sorted);
          others =
              λ r n d. ground (arith, contains-erase (p, s) (r, n) q.active_timers v.active_sorted);
          noted = λ r n. ground arith;
          deleted = λ d. ground (arith, find-drop_key p p q.heap);
          alive = λ r d. ground (arith, d, find-drop_key p r q.heap);
          shrinks =
              λ t r d. (erase-cases (a.timer.expiration, p) (t, r) q.timers v.timers_sorted d).1;
          flag = refl;
        },
      )
  | inr e ↦ elim (Bool-cases q.calling_expired_timers) [
    | inl c ↦ (
      noted_in (p, s) q,
      ground (arith, cancel_in_loop-inactive q p s v e),
      record {
        inv = aside-Inv q.calling_expired_timers (insert (p, s) q.canceling_timers) q.timerfd q v;
        gone = e;
        others = λ r n d. refl;
        noted = λ r n. ground (arith, contains-insert (p, s) (r, n) q.canceling_timers);
        deleted = λ d. ground arith;
        alive = λ r d. refl;
        shrinks = λ t r d. d;
        flag = refl;
      },
    )
    | inr c ↦ (
      q,
      ground (arith, cancel_in_loop-inactive q p s v e),
      record {
        inv = v;
        gone = e;
        others = λ r n d. refl;
        noted = λ r n. ground arith;
        deleted = λ d. ground arith;
        alive = λ r d. refl;
        shrinks = λ t r d. d;
        flag = refl;
      },
    )
  ]
]
