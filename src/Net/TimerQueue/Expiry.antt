-- ===== src/Net/TimerQueue/Expiry.antt =====
-- `getExpired` moves the entries that are due out of both sets.
use dxian.Prelude.{
  ℕ, ◌≡◌, ◌≢◌, ◌≤◌, ◌<◌, ◌||◌, inl, inr, refl, ap, true, some, List, [], ◌∷◌, ◌++◌, arith, length,
  length-append, Bool-cases,
}
use dxian.Net.PairSet.{
  contains, erase, IsSorted, After, After-trans, After-lt, After-IsSorted, contains-After,
  contains-erase, erase-cases, erase-IsSorted, length-erase,
}
use dxian.Net.Store.{find}
use dxian.Net.TimerQueue.{
  Timer, TimerQueue, due, pending, forget, forget_one, get_expired, sizes_agree, earlier_than_all,
}
use dxian.Net.TimerQueue.Invariant.{Inv, Between, Unlisted}
use dxian.Net.TimerQueue.Held.{Held, Keeps, not_listed}

-- The set is cut in two.
pub due-pending : (now : ℕ) (es : List (ℕ × ℕ)) → due now es ++ pending now es ≡ es
unfolding due pending
due-pending now [] = refl
due-pending now ((t, p) ∷ es) = ground (arith, due-pending now es)

due-After : (w : ℕ × ℕ) (now : ℕ) (es : List (ℕ × ℕ)) → After w es → After w (due now es)
unfolding due
due-After w now [] s = tt
due-After w now ((t, p) ∷ es) s = ground (arith, due-After (t, p) now es s.1)

pending-After : (w : ℕ × ℕ) (now : ℕ) (es : List (ℕ × ℕ)) → After w es → After w (pending now es)
unfolding pending
pending-After w now [] s = tt
pending-After w now ((t, p) ∷ es) s =
    ground (arith, pending-After w now es (After-trans w (t, p) es s.0 s.1))

due-IsSorted : (now : ℕ) (es : List (ℕ × ℕ)) → IsSorted es → IsSorted (due now es)
unfolding due
due-IsSorted now [] s = tt
due-IsSorted now ((t, p) ∷ es) s = ground (arith, due-After (t, p) now es s)

pending-IsSorted : (now : ℕ) (es : List (ℕ × ℕ)) → IsSorted es → IsSorted (pending now es)
unfolding pending
pending-IsSorted now [] s = tt
pending-IsSorted now ((t, p) ∷ []) s = ground arith
pending-IsSorted now ((t, p) ∷ (u, r) ∷ es) s =
    ground (arith, pending-IsSorted now ((u, r) ∷ es) s.1)

pub due-le : (now t p : ℕ) (es : List (ℕ × ℕ)) → contains (t, p) (due now es) ≡ true → t ≤ now
unfolding due contains
due-le now t p [] e = ground arith
due-le now t p ((u, r) ∷ es) e = ground (arith, due-le now t p es)

pub pending-lt :
    (now t p : ℕ) (es : List (ℕ × ℕ))
    → IsSorted es
    → contains (t, p) (pending now es) ≡ true
    → now < t
unfolding pending contains
pending-lt now t p [] s e = ground arith
pending-lt now t p ((u, r) ∷ []) s e = ground arith
pending-lt now t p ((u, r) ∷ (a, b) ∷ es) s e =
    ground (arith, pending-lt now t p ((a, b) ∷ es) s.1, After-lt (u, r) (t, p) ((a, b) ∷ es) s)

contains-cut :
    (x : ℕ × ℕ) (now : ℕ) (es : List (ℕ × ℕ))
    → contains x es ≡ contains x (due now es) || contains x (pending now es)
unfolding due pending contains
contains-cut x now [] = refl
contains-cut (a, b) now ((t, p) ∷ es) = ground (arith, contains-cut (a, b) now es)

-- One round of the loop.
forget-step :
    (q : TimerQueue) (t p : ℕ) (es : List (ℕ × ℕ)) (timer : Timer)
    → IsSorted ((t, p) ∷ es)
    → Between q ((t, p) ∷ es)
    → find p q.heap ≡ some timer
    → timer.expiration ≡ t
    → contains (p, timer.sequence) q.active_timers ≡ true
    → Unlisted q p
    → Between (record q { active_timers = erase (p, timer.sequence) q.active_timers }) es
unfolding contains
forget-step q t p es timer sorted v h at on u = record {
  timers_sorted = v.timers_sorted;
  active_sorted = erase-IsSorted _ _ v.active_sorted;
  listed = λ t' r e.
      let l = v.listed t' r e in
      let other : r ≢ p = λ same. ground (arith, same, u t', e) in
      record {
        timer = l.timer;
        alive = l.alive;
        on_time = l.on_time;
        active = ground (
          arith,
          l.active,
          other,
          contains-erase (p, timer.sequence) (r, l.timer.sequence) q.active_timers v.active_sorted,
        );
      };
  active = λ r n e.
      let (apart, old) = erase-cases (p, timer.sequence) (r, n) q.active_timers v.active_sorted e in
      let l = v.active r n old in
      let other : r ≢ p = λ same. ground (arith, same, l.alive, l.own_number, h) in
      record {
        timer = l.timer;
        alive = l.alive;
        own_number = l.own_number;
        listed = ground (arith, l.listed, other);
      };
  same_size = omega (arith, v.same_size, length-erase (p, timer.sequence) q.active_timers on);
}

record Leaving (q : TimerQueue) (t p : ℕ) : Type 0 where
  held : Held q t p
  on : contains (p, held.timer.sequence) q.active_timers ≡ true

abbrev with_active : List (ℕ × ℕ) → TimerQueue → TimerQueue
with_active left q = record q { active_timers = left }

forget-Inv :
    (es : List (ℕ × ℕ)) (q : TimerQueue)
    → IsSorted es
    → Between q es
    → ((t p : ℕ) → contains (t, p) es ≡ true → Leaving q t p)
    → (left : List (ℕ × ℕ)) × (forget es q ≡ some (with_active left q)) × Inv (with_active left q)
unfolding forget forget_one contains
forget-Inv [] q s v leaving = (q.active_timers, refl, v)
forget-Inv ((t, p) ∷ es) q s v leaving =
    let l = leaving t p (ground arith) in
    let h = l.held in
    let q1 = with_active (erase (p, h.timer.sequence) q.active_timers) q in
    let later : (u r : ℕ) → contains (u, r) es ≡ true → Leaving q1 u r = λ u r e.
      let k = leaving u r (ground (arith, e)) in
      let kh = k.held in
      let other : r ≢ p = λ same. ground (
        arith,
        same,
        kh.alive,
        kh.on_time,
        h.alive,
        h.on_time,
        e,
        contains-After (t, p) (t, p) es (inr (ground arith)) s,
      ) in
      record {
        held = record {
          timer = kh.timer;
          alive = kh.alive;
          on_time = kh.on_time;
          unlisted = kh.unlisted;
        };
        on = ground (
          arith,
          k.on,
          other,
          contains-erase (p, h.timer.sequence) (r, kh.timer.sequence) q.active_timers
              v.active_sorted,
        );
      } in
    let (left, e, inv) =
      forget-Inv es q1 (After-IsSorted (t, p) es s)
        (forget-step q t p es h.timer s v h.alive h.on_time l.on h.unlisted) later in
    (left, rw (h.alive, l.on) e, inv)

-- The state in which the loop starts.
moved-Between :
    (q : TimerQueue) (now : ℕ)
    → Inv q
    → Between (record q { timers = pending now q.timers }) (due now q.timers)
unfolding contains
moved-Between q now v = record {
  timers_sorted = pending-IsSorted now q.timers v.timers_sorted;
  active_sorted = v.active_sorted;
  listed = λ t p e.
      let l = v.listed t p (ground (arith, contains-cut (t, p) now q.timers)) in
      record { timer = l.timer; alive = l.alive; on_time = l.on_time; active = l.active };
  active = λ p s e.
      let l = v.active p s e in
      record {
        timer = l.timer;
        alive = l.alive;
        own_number = l.own_number;
        listed = ground (arith, l.listed, contains-cut (l.timer.expiration, p) now q.timers);
      };
  same_size = omega (
    arith,
    v.same_size,
    length-append (due now q.timers) (pending now q.timers),
    ap length (due-pending now q.timers),
  );
}

moved-Leaving :
    (q : TimerQueue) (now : ℕ)
    → Inv q
    → (t p : ℕ) → contains (t, p) (due now q.timers) ≡ true
    → Leaving (record q { timers = pending now q.timers }) t p
moved-Leaving q now v t p e =
    let l = v.listed t p (ground (arith, contains-cut (t, p) now q.timers)) in
    let moved : TimerQueue = record q { timers = pending now q.timers } in
    record {
      held = record {
        timer = l.timer;
        alive = l.alive;
        on_time = l.on_time;
        unlisted = λ u. not_listed moved u p (λ r.
            let k = v.listed u p (ground (arith, r, contains-cut (u, p) now q.timers)) in
            let same : u ≡ t = ground (arith, k.alive, k.on_time, l.alive, l.on_time) in
            omega (
              arith,
              same,
              due-le now t p q.timers e,
              pending-lt now u p q.timers v.timers_sorted r,
            ));
      };
      on = l.active;
    }

pending_later : (now : ℕ) (es : List (ℕ × ℕ)) → earlier_than_all now (pending now es) ≡ true
unfolding pending
pending_later now [] = refl
pending_later now ((t, p) ∷ es) = ground (arith, pending_later now es)

-- What `getExpired` leaves, and what it returns.
pub record Expires (now : ℕ) (q q' : TimerQueue) (expired : List (ℕ × ℕ)) : Type 0 where
  pub keeps : Keeps expired q'
  pub sorted : IsSorted expired
  pub all : expired ++ q'.timers ≡ q.timers
  pub over : (t p : ℕ) → contains (t, p) expired ≡ true → t ≤ now
  pub later : (t p : ℕ) → contains (t, p) q'.timers ≡ true → now < t
  pub complete :
      (t p : ℕ) → contains (t, p) q.timers ≡ true → t ≤ now → contains (t, p) expired ≡ true
  pub same_heap : q'.heap ≡ q.heap

-- `getExpired(now)` fails no assertion and keeps the invariant. It cuts the timers in two, in their
-- order: it returns those that expire at `now` or before, which leave both sets and stay alive, and
-- those that expire later stay.
pub get_expired-Expires :
    (now : ℕ) (q : TimerQueue)
    → Inv q
    → (q' : TimerQueue) × (get_expired now q ≡ some (q', due now q.timers))
      × Expires now q q' (due now q.timers)
unfolding get_expired sizes_agree
get_expired-Expires now q v =
    let es = due now q.timers in
    let moved : TimerQueue = record q { timers = pending now q.timers } in
    let (left, e, inv) =
      forget-Inv es moved (due-IsSorted now q.timers v.timers_sorted) (moved-Between q now v)
        (moved-Leaving q now v) in
    let complete : (t p : ℕ)
        → contains (t, p) q.timers ≡ true
        → t ≤ now
        → contains (t, p) es ≡ true =
      λ t p c h. elim (Bool-cases (contains (t, p) (pending now q.timers))) [
        | inl l ↦ absurd (omega (arith, h, pending-lt now t p q.timers v.timers_sorted l))
        | inr l ↦ ground (arith, c, l, contains-cut (t, p) now q.timers)
      ] in
    (
      with_active left moved,
      ground (arith, e, inv.same_size, v.same_size, pending_later now q.timers),
      record {
        keeps = record {
          inv = inv;
          holds = λ t p c.
              let h = (moved-Leaving q now v t p c).held in
              record {
                timer = h.timer;
                alive = h.alive;
                on_time = h.on_time;
                unlisted = h.unlisted;
              };
        };
        sorted = due-IsSorted now q.timers v.timers_sorted;
        all = due-pending now q.timers;
        over = λ t p c. due-le now t p q.timers c;
        later = λ t p c. pending-lt now t p q.timers v.timers_sorted c;
        complete = λ t p c h. complete t p c h;
        same_heap = refl;
      },
    )
