-- ===== src/Net/TimerQueue/Held.antt =====
-- Timers that `handleRead` has taken out of the queue stay alive while callbacks add and cancel.
use dxian.Prelude.{
  ℕ, ◌+◌, ◌≡◌, ◌≢◌, ◌⊎◌, inl, inr, true, false, none, some, List, arith, Bool-cases,
}
use dxian.Net.PairSet.{contains, insert-cases}
use dxian.Net.Store.{find, put, find-put}
use dxian.Net.TimerQueue.{Timer, TimerQueue}
use dxian.Net.TimerQueue.Invariant.{Inv, Unlisted, inserted}
use dxian.Net.TimerQueue.Cancel.{Cancels}

-- The object of an entry that is in neither set.
pub record Held (q : TimerQueue) (t p : ℕ) : Type 0 where
  pub timer : Timer
  pub alive : find p q.heap ≡ some timer
  pub on_time : timer.expiration ≡ t
  pub unlisted : Unlisted q p

abbrev pub Holds : TimerQueue → List (ℕ × ℕ) → Type 0
Holds q es = (t p : ℕ) → contains (t, p) es ≡ true → Held q t p

-- What a call made by a callback keeps.
pub record Keeps (es : List (ℕ × ℕ)) (q : TimerQueue) : Type 0 where
  pub inv : Inv q
  pub holds : Holds q es

pub not_listed :
    (q : TimerQueue) (t p : ℕ)
    → (contains (t, p) q.timers ≡ true → ⊥)
    → contains (t, p) q.timers ≡ false
not_listed q t p h = elim (Bool-cases (contains (t, p) q.timers)) [
  | inl e ↦ absurd (h e)
  | inr e ↦ e
]

-- A timer that is active is not the one that is held.
pub Held-apart :
    (q : TimerQueue) (p s t r : ℕ)
    → Inv q
    → Held q t r
    → (contains (p, s) q.active_timers ≡ false) ⊎ (r ≢ p)
unfolding contains
Held-apart q p s t r v h = elim (Bool-cases (contains (p, s) q.active_timers)) [
  | inl a ↦
      let l = v.active p s a in
      inr (λ same. ground (arith, l.listed, same, h.unlisted l.timer.expiration))
  | inr a ↦ inl a
]

pub Cancels-Holds :
    (q q' : TimerQueue) (p s : ℕ) (es : List (ℕ × ℕ))
    → Inv q
    → Cancels p s q q'
    → Holds q es
    → Holds q' es
unfolding contains
Cancels-Holds q q' p s es v c holds t r e =
    let h = holds t r e in
    let unlisted : Unlisted q' r =
      λ u. not_listed q' u r (λ l. ground (arith, c.shrinks u r l, h.unlisted u)) in
    record {
      timer = h.timer;
      alive = ground (arith, c.alive r (Held-apart q p s t r v h), h.alive);
      on_time = h.on_time;
      unlisted = unlisted;
    }

-- `insert` of another timer.
pub inserted-Holds :
    (q : TimerQueue) (p : ℕ) (timer : Timer) (es : List (ℕ × ℕ))
    → ((t : ℕ) → contains (t, p) es ≡ false)
    → Holds q es
    → Holds (inserted p timer q) es
inserted-Holds q p timer es apart holds t r e =
    let h = holds t r e in
    let other : r ≢ p = λ same. ground (arith, apart t, same) in
    record {
      timer = h.timer;
      alive = h.alive;
      on_time = h.on_time;
      unlisted = λ u. not_listed (inserted p timer q) u r (λ l.
          ground
            (arith, insert-cases (timer.expiration, p) (u, r) q.timers l, other, h.unlisted u));
    }

-- A new object at a free address changes nothing of the queue.
module _ (q : TimerQueue) (p : ℕ) (timer : Timer) (free : find p q.heap ≡ none) where
  abbrev pub fresh : TimerQueue
  fresh = record q { heap = put p timer q.heap; num_created = q.num_created + 1 }

  other_alive : (r : ℕ) (a : Timer) → find r q.heap ≡ some a → find r (put p timer q.heap) ≡ some a
  other_alive r a h = ground (arith, h, free, find-put p r timer q.heap)

  pub fresh-Inv : Inv q → Inv fresh
  fresh-Inv v = record {
    timers_sorted = v.timers_sorted;
    active_sorted = v.active_sorted;
    listed = λ t r e.
        let l = v.listed t r e in
        record {
          timer = l.timer;
          alive = other_alive r l.timer l.alive;
          on_time = l.on_time;
          active = l.active;
        };
    active = λ r s e.
        let l = v.active r s e in
        record {
          timer = l.timer;
          alive = other_alive r l.timer l.alive;
          own_number = l.own_number;
          listed = l.listed;
        };
    same_size = v.same_size;
  }

  pub fresh-Holds : (es : List (ℕ × ℕ)) → Holds q es → Holds fresh es
  fresh-Holds es holds t r e =
      let h = holds t r e in
      record {
        timer = h.timer;
        alive = other_alive r h.timer h.alive;
        on_time = h.on_time;
        unlisted = h.unlisted;
      }

  pub fresh-Unlisted : Inv q → Unlisted fresh p
  fresh-Unlisted v u =
      not_listed q u p (λ l. let a = v.listed u p l in ground (arith, a.alive, free))
