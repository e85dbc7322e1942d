-- ===== src/Net/TimerQueue/Reset.antt =====
-- `reset` puts the repeating timers back and deletes the others.
use dxian.Prelude.{
  ℕ, ◌+◌, ◌≡◌, ◌≢◌, inl, inr, refl, ◌∙◌, Bool, true, false, not, ◌&&◌, none, some, List, [], ◌∷◌,
  arith, Bool-cases,
}
use dxian.Net.PairSet.{
  contains, IsSorted, After, After-IsSorted, eq_pair-cases, contains-After, contains-insert,
}
use dxian.Net.Store.{find, put, drop_key, find-put, find-drop_key}
use dxian.Net.TimerQueue.{Timer, TimerQueue, restart, repeat_one, reset_one, reset_all}
use dxian.Net.TimerQueue.Invariant.{
  Inv, Unlisted, not_active, inserted, inserted-Inv, insert_timer-eq,
}
use dxian.Net.TimerQueue.Held.{Holds, Keeps, inserted-Holds}

abbrev with_heap : List (ℕ × Timer) → TimerQueue → TimerQueue
with_heap m q = record q { heap = m }

-- The object of a timer that is in neither set changes.
module _ (q : TimerQueue) (p : ℕ) (timer : Timer) (m : List (ℕ × Timer))
    (held : find p q.heap ≡ some timer) (u : Unlisted q p)
    (others : (r : ℕ) → r ≢ p → find r m ≡ find r q.heap) where
  with_heap-Inv : Inv q → Inv (with_heap m q)
  with_heap-Inv v = record {
    timers_sorted = v.timers_sorted;
    active_sorted = v.active_sorted;
    listed = λ t r e.
        let l = v.listed t r e in
        let other : r ≢ p = λ same. ground (arith, same, u t, e) in
        record {
          timer = l.timer;
          alive = ground (arith, others r other, l.alive);
          on_time = l.on_time;
          active = l.active;
        };
    active = λ r s e.
        let l = v.active r s e in
        let other : r ≢ p = λ same. ground (arith, same, e, not_active q p s timer v held u) in
        record {
          timer = l.timer;
          alive = ground (arith, others r other, l.alive);
          own_number = l.own_number;
          listed = l.listed;
        };
    same_size = v.same_size;
  }

  with_heap-Holds :
      (es : List (ℕ × ℕ))
      → ((t : ℕ) → contains (t, p) es ≡ false)
      → Holds q es
      → Holds (with_heap m q) es
  with_heap-Holds es apart holds t r e =
      let h = holds t r e in
      let other : r ≢ p = λ same. ground (arith, same, apart t, e) in
      record {
        timer = h.timer;
        alive = ground (arith, others r other, h.alive);
        on_time = h.on_time;
        unlisted = h.unlisted;
      }

-- A timer goes back into the queue.
abbrev pub again : TimerQueue → ℕ → Timer → Bool
again q p timer = timer.repeat && not (contains (p, timer.sequence) q.canceling_timers)

-- What one round makes of the timer at `p`.
record Round (now : ℕ) (q : TimerQueue) (p : ℕ) (timer : Timer) (es : List (ℕ × ℕ))
    (q' : TimerQueue) : Type 0 where
  keeps : Keeps es q'
  back : again q p timer ≡ true → contains (now + timer.interval, p) q'.timers ≡ true
  deleted : again q p timer ≡ false → find p q'.heap ≡ none
  others : (r : ℕ) → r ≢ p → find r q'.heap ≡ find r q.heap
  grows : (t r : ℕ) → contains (t, r) q.timers ≡ true → contains (t, r) q'.timers ≡ true
  canceling : q'.canceling_timers ≡ q.canceling_timers
  calling : q'.calling_expired_timers ≡ q.calling_expired_timers

reset_one-Round :
    (now : ℕ) (q : TimerQueue) (p : ℕ) (timer : Timer) (es : List (ℕ × ℕ))
    → Keeps es q
    → find p q.heap ≡ some timer
    → Unlisted q p
    → ((t : ℕ) → contains (t, p) es ≡ false)
    → (q' : TimerQueue) × (reset_one now p q ≡ some q') × Round now q p timer es q'
unfolding reset_one repeat_one restart
reset_one-Round now q p timer es k h u apart = elim (Bool-cases (again q p timer)) [
  | inl e ↦
      let m = put p (restart now timer) q.heap in
      let q1 = with_heap m q in
      let others : (r : ℕ) → r ≢ p → find r m ≡ find r q.heap =
        λ r d. ground (arith, d, find-put p r (restart now timer) q.heap) in
      let inv1 = with_heap-Inv q p timer m h u others k.inv in
      let alive : find p m ≡ some (restart now timer) =
        ground (arith, find-put p p (restart now timer) q.heap) in
      let time : (restart now timer).expiration ≡ now + timer.interval = ground arith in
      (
        inserted p (restart now timer) q1,
        rw (h, e, insert_timer-eq q1 p (restart now timer) inv1 alive u),
        record {
          keeps = record {
            inv = inserted-Inv q1 p (restart now timer) inv1 alive u;
            holds =
                inserted-Holds q1 p (restart now timer) es apart
                  (with_heap-Holds q p timer m h u others es apart k.holds);
          };
          back = λ b. ground (
            arith,
            time,
            contains-insert (now + timer.interval, p) (now + timer.interval, p) q.timers,
          );
          deleted = λ b. ground arith;
          others = others;
          grows = λ t r c.
              ground (arith, contains-insert ((restart now timer).expiration, p) (t, r) q.timers);
          canceling = refl;
          calling = refl;
        },
      )
  | inr e ↦
      let m = drop_key p q.heap in
      let others : (r : ℕ) → r ≢ p → find r m ≡ find r q.heap =
        λ r d. ground (arith, d, find-drop_key p r q.heap) in
      (
        with_heap m q,
        rw (h, e),
        record {
          keeps = record {
            inv = with_heap-Inv q p timer m h u others k.inv;
            holds = with_heap-Holds q p timer m h u others es apart k.holds;
          };
          back = λ b. ground arith;
          deleted = λ b. ground (arith, find-drop_key p p q.heap);
          others = others;
          grows = λ t r c. c;
          canceling = refl;
          calling = refl;
        },
      )
]

-- What `reset` makes of the expired timers `es`.
pub record Resets (now : ℕ) (q : TimerQueue) (es : List (ℕ × ℕ)) (q' : TimerQueue) : Type 0 where
  pub inv : Inv q'
  pub back :
      (t p : ℕ) (timer : Timer)
      → contains (t, p) es ≡ true
      → find p q.heap ≡ some timer
      → again q p timer ≡ true
      → contains (now + timer.interval, p) q'.timers ≡ true
  pub deleted :
      (t p : ℕ) (timer : Timer)
      → contains (t, p) es ≡ true
      → find p q.heap ≡ some timer
      → again q p timer ≡ false
      → find p q'.heap ≡ none
  pub grows : (t r : ℕ) → contains (t, r) q.timers ≡ true → contains (t, r) q'.timers ≡ true
  pub others : (r : ℕ) → ((t : ℕ) → contains (t, r) es ≡ false) → find r q'.heap ≡ find r q.heap
  pub calling : q'.calling_expired_timers ≡ q.calling_expired_timers

-- An address stands once among the entries that are taken out.
apart_from_rest :
    (q : TimerQueue) (t p : ℕ) (es : List (ℕ × ℕ))
    → After (t, p) es
    → Holds q ((t, p) ∷ es)
    → (u : ℕ) → contains (u, p) es ≡ false
unfolding contains
apart_from_rest q t p es s holds u = elim (Bool-cases (contains (u, p) es)) [
  | inl e ↦
      let h = holds t p (ground arith) in
      let k = holds u p (ground (arith, e)) in
      let same : u ≡ t = ground (arith, h.alive, h.on_time, k.alive, k.on_time) in
      ground (arith, same, e, contains-After (t, p) (t, p) es (inr (ground arith)) s)
  | inr e ↦ e
]

pub reset_all-Resets :
    (now : ℕ) (es : List (ℕ × ℕ)) (q : TimerQueue)
    → IsSorted es
    → Keeps es q
    → (q' : TimerQueue) × (reset_all now es q ≡ some q') × Resets now q es q'
unfolding reset_all contains
reset_all-Resets now [] q s k = (
  q,
  refl,
  record {
    inv = k.inv;
    back = λ t p timer c h a. ground arith;
    deleted = λ t p timer c h a. ground arith;
    grows = λ t r c. c;
    others = λ r a. refl;
    calling = refl;
  },
)
reset_all-Resets now ((t, p) ∷ es) q s k =
    let h = k.holds t p (ground arith) in
    let apart = apart_from_rest q t p es s k.holds in
    let rest : Keeps es q = record {
      inv = k.inv;
      holds = λ u r e. k.holds u r (ground (arith, e));
    } in
    let (q1, e1, round) = reset_one-Round now q p h.timer es rest h.alive h.unlisted apart in
    let (q2, e2, later) = reset_all-Resets now es q1 (After-IsSorted (t, p) es s) round.keeps in
    let other : (u r : ℕ) → contains (u, r) es ≡ true → r ≢ p =
      λ u r e same. ground (arith, same, apart u, e) in
    (
      q2,
      rw e1 e2,
      record {
        inv = later.inv;
        back = λ u r timer c alive a. elim (eq_pair-cases (u, r) (t, p)) [
          | inl same ↦
              later.grows (now + timer.interval) r
                (ground (arith, same, h.alive, alive, round.back, a))
          | inr no_match ↦
              later.back u r timer (ground (arith, no_match, c))
                (ground (arith, alive, round.others r (other u r (ground (arith, no_match, c)))))
                (ground (arith, a, round.canceling))
        ];
        deleted = λ u r timer c alive a. elim (eq_pair-cases (u, r) (t, p)) [
          | inl same ↦ ground (arith, same, h.alive, alive, a, round.deleted, later.others p apart)
          | inr no_match ↦
              later.deleted u r timer (ground (arith, no_match, c))
                (ground (arith, alive, round.others r (other u r (ground (arith, no_match, c)))))
                (ground (arith, a, round.canceling))
        ];
        grows = λ u r c. later.grows u r (round.grows u r c);
        others = λ r a. ground (
          arith,
          later.others r (λ u. ground (arith, a u)),
          round.others r (λ same. ground (arith, same, a t)),
        );
        calling = later.calling ∙ round.calling;
      },
    )
