-- ===== src/Net/TimerQueue/Callbacks.antt =====
-- What callbacks may do to the queue: `addTimer` and `cancel` in the loop's thread.
use dxian.Prelude.{
  ℕ, ◌+◌, ◌≡◌, ◌≢◌, inl, inr, refl, ◌∙◌, Bool, true, false, ◌||◌, Option, none, some, List, [], ◌∷◌,
  arith, Bool-cases, if◌then◌else◌,
}
use dxian.Net.PairSet.{contains, eq_pair, contains-insert}
use dxian.Net.Store.{find, find-put}
use dxian.Net.TimerQueue.{
  Timer, Timespec, TimerQueue, add_timer_in_loop, reset_timerfd, how_much_time_from_now,
  earlier_than_all, Command, adds, cancels, add_timer, obey, obey_all, run_all,
}
use dxian.Net.TimerQueue.Invariant.{
  Inv, Unlisted, not_active, inserted, inserted-Inv, insert_timer-eq, aside, aside-Inv,
}
use dxian.Net.TimerQueue.Held.{
  Holds, Keeps, fresh, fresh-Inv, fresh-Holds, fresh-Unlisted, inserted-Holds, Cancels-Holds,
  Held-apart,
}
use dxian.Net.TimerQueue.Cancel.{cancel_in_loop-Cancels}

pub aside-Holds :
    (c : Bool) (cs : List (ℕ × ℕ)) (f : Option Timespec) (q : TimerQueue) (es : List (ℕ × ℕ))
    → Holds q es
    → Holds (aside c cs f q) es
aside-Holds c cs f q es holds t p e =
    let h = holds t p e in
    record { timer = h.timer; alive = h.alive; on_time = h.on_time; unlisted = h.unlisted }

-- The objects of `es` are as they were.
abbrev pub Frame : List (ℕ × ℕ) → TimerQueue → TimerQueue → Type 0
Frame es q q' = (t p : ℕ) → contains (t, p) es ≡ true → find p q'.heap ≡ find p q.heap

-- One of the calls cancels this timer.
unfoldable pub asks : List Command → ℕ × ℕ → Bool
asks [] id = false
asks (adds callback time interval repeat clock ∷ cs) id = asks cs id
asks (cancels other ∷ cs) id = eq_pair id other || asks cs id

asks-cons :
    (c : Command) (cs : List Command) (id : ℕ × ℕ)
    → asks (c ∷ []) id || asks cs id ≡ asks (c ∷ cs) id
unfolding asks
asks-cons (adds callback time interval repeat clock) cs id = refl
asks-cons (cancels other) cs id = ground arith

asks_of : (ℕ → List Command) → Option Timer → ℕ × ℕ → Bool
asks_of effects none id = false
asks_of effects (some timer) id = asks (effects timer.callback) id

-- A callback of one of the timers `es`, whose objects are in `m`, cancels this timer.
unfoldable pub asked_by : (ℕ → List Command) → List (ℕ × Timer) → List (ℕ × ℕ) → ℕ × ℕ → Bool
unfolding asks_of
asked_by effects m [] id = false
asked_by effects m ((t, p) ∷ es) id = asks_of effects (find p m) id || asked_by effects m es id

-- The `timerfd` after an insertion: programmed anew if the new timer is the earliest.
abbrev pub rearmed : Timer → ℕ → TimerQueue → Option Timespec
rearmed timer now q =
    if earlier_than_all timer.expiration q.timers
    then some (how_much_time_from_now timer.expiration now)
    else q.timerfd

abbrev pub added : ℕ → Timer → ℕ → TimerQueue → TimerQueue
added p timer now q =
    aside q.calling_expired_timers q.canceling_timers (rearmed timer now q) (inserted p timer q)

pub add_timer_in_loop-eq :
    (q : TimerQueue) (p now : ℕ) (timer : Timer)
    → Inv q
    → find p q.heap ≡ some timer
    → Unlisted q p
    → add_timer_in_loop p now q ≡ some (added p timer now q)
unfolding add_timer_in_loop reset_timerfd
add_timer_in_loop-eq q p now timer v h u = rw (insert_timer-eq q p timer v h u, h) (ground arith)

module _ (allocate : List (ℕ × Timer) → ℕ)
    (fresh_address : (m : List (ℕ × Timer)) → find (allocate m) m ≡ none) where
  abbrev new_timer : ℕ → ℕ → ℕ → Bool → TimerQueue → Timer
  new_timer callback time interval repeat q = record {
    callback = callback;
    expiration = time;
    interval = interval;
    repeat = repeat;
    sequence = q.num_created + 1;
  }

  -- The state that `addTimer` leaves.
  pub record Adds (time : ℕ) (es : List (ℕ × ℕ)) (p s : ℕ) (q q' : TimerQueue) : Type 0 where
    pub keeps : Keeps es q'
    pub same : Frame es q q'
    pub listed : contains (time, p) q'.timers ≡ true
    pub active : contains (p, s) q'.active_timers ≡ true
    pub calling : q'.calling_expired_timers ≡ q.calling_expired_timers
    pub canceling : q'.canceling_timers ≡ q.canceling_timers

  -- `addTimer` in the loop's thread keeps the invariant and fails no assertion. The new timer is
  -- listed for its time and active under the `TimerId` that is returned, and the timers that are
  -- taken out stay alive and as they were.
  pub add_timer-Adds :
      (es : List (ℕ × ℕ)) (callback time interval : ℕ) (repeat : Bool) (clock : ℕ) (q : TimerQueue)
      → Keeps es q
      → (q' : TimerQueue) × (p : ℕ) × (add_timer allocate callback time interval repeat clock q
          ≡ some (q', (p, q.num_created + 1)))
        × Adds time es p (q.num_created + 1) q q'
  unfolding add_timer
  add_timer-Adds es callback time interval repeat clock q k =
      let p = allocate q.heap in
      let timer = new_timer callback time interval repeat q in
      let free = fresh_address q.heap in
      let q1 = fresh q p timer free in
      let inv1 = fresh-Inv q p timer free k.inv in
      let alive : find p q1.heap ≡ some timer = ground (arith, find-put p p timer q.heap) in
      let unlisted = fresh-Unlisted q p timer free k.inv in
      let apart : (t : ℕ) → contains (t, p) es ≡ false = λ t.
        elim (Bool-cases (contains (t, p) es)) [
          | inl e ↦ let h = k.holds t p e in absurd (ground (arith, h.alive, free))
          | inr e ↦ e
        ] in
      let holds = inserted-Holds q1 p timer es apart (fresh-Holds q p timer free es k.holds) in
      (
        added p timer clock q1,
        p,
        rw (add_timer_in_loop-eq q1 p clock timer inv1 alive unlisted),
        record {
          keeps = record {
            inv =
                aside-Inv _ _ _ (inserted p timer q1) (inserted-Inv q1 p timer inv1 alive unlisted);
            holds = aside-Holds _ _ _ (inserted p timer q1) es holds;
          };
          same = λ t r e.
              let other : r ≢ p = λ same. ground (arith, same, apart t, e) in
              ground (arith, other, find-put p r timer q.heap);
          listed = ground (arith, contains-insert (time, p) (time, p) q.timers);
          active = ground (
            arith,
            contains-insert (p, q.num_created + 1) (p, q.num_created + 1) q.active_timers,
          );
          calling = refl;
          canceling = refl;
        },
      )

  -- What the calls `cs` of callbacks do to the timers `es` that are taken out: they stay as they were,
  -- and those that a call cancels are noted.
  pub record Obeys (es : List (ℕ × ℕ)) (asked : ℕ × ℕ → Bool) (q q' : TimerQueue) : Type 0 where
    pub keeps : Keeps es q'
    pub same : Frame es q q'
    pub calling : q'.calling_expired_timers ≡ q.calling_expired_timers
    pub noted :
        q.calling_expired_timers ≡ true
        → (t p s : ℕ) → contains (t, p) es ≡ true
        → contains (p, s) q'.canceling_timers ≡ asked (p, s) || contains (p, s) q.canceling_timers

  obey-Obeys :
      (es : List (ℕ × ℕ)) (c : Command) (q : TimerQueue)
      → Keeps es q
      → (q' : TimerQueue) × (obey allocate c q ≡ some q') × Obeys es (asks (c ∷ [])) q q'
  unfolding obey asks
  obey-Obeys es (adds callback time interval repeat clock) q k =
      let (q', p, e, a) = add_timer-Adds es callback time interval repeat clock q k in
      (
        q',
        rw e,
        record {
          keeps = a.keeps;
          same = a.same;
          calling = a.calling;
          noted = λ f t r s e. ground (arith, a.canceling);
        },
      )
  obey-Obeys es (cancels (p, s)) q k =
      let (q', e, c) = cancel_in_loop-Cancels q p s k.inv in
      (
        q',
        e,
        record {
          keeps = record { inv = c.inv; holds = Cancels-Holds q q' p s es k.inv c k.holds };
          same = λ t r e. let h = k.holds t r e in c.alive r (Held-apart q p s t r k.inv h);
          calling = c.flag;
          noted = λ f t r n e.
              let h = k.holds t r e in
              ground (arith, f, c.noted r n, not_active q r n h.timer k.inv h.alive h.unlisted);
        },
      )

  Obeys-trans :
      (es : List (ℕ × ℕ)) (a b : ℕ × ℕ → Bool) (q1 q2 q3 : TimerQueue)
      → Obeys es a q1 q2
      → Obeys es b q2 q3
      → Obeys es (λ id. a id || b id) q1 q3
  Obeys-trans es a b q1 q2 q3 o p = record {
    keeps = p.keeps;
    same = λ t r e. p.same t r e ∙ o.same t r e;
    calling = p.calling ∙ o.calling;
    noted = λ f t r n e. ground (arith, o.noted f t r n e, p.noted (o.calling ∙ f) t r n e);
  }

  Obeys-same :
      (es : List (ℕ × ℕ)) (a b : ℕ × ℕ → Bool) (q q' : TimerQueue)
      → ((p s : ℕ) → a (p, s) ≡ b (p, s))
      → Obeys es a q q'
      → Obeys es b q q'
  Obeys-same es a b q q' h o = record {
    keeps = o.keeps;
    same = o.same;
    calling = o.calling;
    noted = λ f t r n e. ground (arith, o.noted f t r n e, h r n);
  }

  obey_all-Obeys :
      (es : List (ℕ × ℕ)) (cs : List Command) (q : TimerQueue)
      → Keeps es q
      → (q' : TimerQueue) × (obey_all allocate cs q ≡ some q') × Obeys es (asks cs) q q'
  unfolding obey_all asks
  obey_all-Obeys es [] q k = (
    q,
    refl,
    record { keeps = k; same = λ t r e. refl; calling = refl; noted = λ f t r n e. refl },
  )
  obey_all-Obeys es (c ∷ cs) q k =
      let (q1, e1, o1) = obey-Obeys es c q k in
      let (q2, e2, o2) = obey_all-Obeys es cs q1 o1.keeps in
      (
        q2,
        rw e1 e2,
        Obeys-same es _ (asks (c ∷ cs)) q q2 (λ p s. asks-cons c cs (p, s))
            (Obeys-trans es (asks (c ∷ [])) (asks cs) q q1 q2 o1 o2),
      )

  -- The loop of `handleRead` reads no timer that a callback deleted.
  pub run_all-Obeys :
      (effects : ℕ → List Command) (es ds : List (ℕ × ℕ)) (q : TimerQueue) (m : List (ℕ × Timer))
      → Keeps es q
      → ((t p : ℕ) → contains (t, p) ds ≡ true → contains (t, p) es ≡ true)
      → ((t p : ℕ) → contains (t, p) es ≡ true → find p q.heap ≡ find p m)
      → (q' : TimerQueue) × (run_all allocate effects ds q ≡ some q')
        × Obeys es (asked_by effects m ds) q q'
  unfolding run_all contains asked_by
  run_all-Obeys effects es [] q m k sub start = (
    q,
    refl,
    record { keeps = k; same = λ t r e. refl; calling = refl; noted = λ f t r n e. refl },
  )
  run_all-Obeys effects es ((t, p) ∷ ds) q m k sub start =
      let h = k.holds t p (sub t p (ground arith)) in
      let (q1, e1, o1) = obey_all-Obeys es (effects h.timer.callback) q k in
      let (q2, e2, o2) =
        run_all-Obeys effects es ds q1 m o1.keeps (λ u r c. sub u r (ground (arith, c)))
          (λ u r c. o1.same u r c ∙ start u r c) in
      let found : find p m ≡ some h.timer =
        ground (arith, start t p (sub t p (ground arith)), h.alive) in
      (
        q2,
        rw (h.alive, e1) e2,
        Obeys-same es _ (asked_by effects m ((t, p) ∷ ds)) q q2 (λ r s. rw found)
            (Obeys-trans es (asks (effects h.timer.callback)) (asked_by effects m ds) q q1 q2 o1
              o2),
      )
