-- ===== src/Net/Channel/Dispatch.antt =====
-- Which callbacks `handleEvent` makes, and in which order.
use dxian.Prelude.{
  ℕ, ◌+◌, ◌≡◌, ◌≤◌, ◌<◌, ◌⊎◌, refl, ap, sym, subst, if◌then◌else◌, ◌∙◌, ◌==◌, Bool-cases, inl, inr,
  Bool, true, false, not, ◌&&◌, ◌||◌, List, [], ◌∷◌, arith,
}
use dxian.Net.Channel.{
  Channel, Events, Callback, meets, error_mask, read_mask, Call, warns_hup, warns_nval, closes,
  errs, reads, writes, do_call, on_hup, on_error, on_read, on_write, log_warning, handle_event,
  handle_event_with_guard, enable_reading, disable_reading, enable_writing, disable_writing,
  is_reading, is_writing,
}

-- The place of a call in the order of a dispatch.
abbrev pub rank : Call → ℕ
rank warns_hup = 0
rank closes = 1
rank warns_nval = 2
rank errs = 3
rank (reads t) = 4
rank writes = 5

-- The calls, the latest first: each has a place below `n` and above the places of those before, and finds the channel
-- handling its events.
abbrev pub Rise : ℕ → List (Call × Bool) → Type 0
Rise n [] = Unit {0}
Rise n ((c, handling) ∷ cs) = (rank c < n) × (handling ≡ true) × Rise (rank c) cs

-- A call of that rank is made.
abbrev pub makes : ℕ → List (Call × Bool) → Bool
makes k [] = false
makes k ((c, handling) ∷ cs) = (rank c == k) || makes k cs

-- The callbacks leave alone what was received, which callbacks are set, and `eventHandling_`.
abbrev pub Same : Channel → Channel → Type 0
Same c d =
    (d.revents ≡ c.revents)
    × (d.close_callback ≡ c.close_callback)
    × (d.error_callback ≡ c.error_callback)
    × (d.read_callback ≡ c.read_callback)
    × (d.write_callback ≡ c.write_callback)
    × (d.event_handling ≡ c.event_handling)

abbrev pub IsMild : Callback → Type 0
IsMild effect = (k : Call) (c : Channel) → Same c (effect k c)

-- What the received events ask for, by rank.
pub record Dispatches (c : Channel) (calls : List (Call × Bool)) : Type 0 where
  pub close : makes 1 calls ≡ c.revents.pollhup && not c.revents.pollin && c.close_callback
  pub error : makes 3 calls ≡ (c.revents.pollerr || c.revents.pollnval) && c.error_callback
  pub read :
      makes 4 calls
      ≡ (c.revents.pollin || c.revents.pollpri || c.revents.pollrdhup) && c.read_callback
  pub write : makes 5 calls ≡ c.revents.pollout && c.write_callback
  pub in_order : Rise 6 calls

-- On the way, up to the place `n`.
record Going (c : Channel) (n : ℕ) (s : Channel × List (Call × Bool)) : Type 0 where
  same : Same (record c { event_handling = true }) s.0
  rise : Rise n s.1

Rise-up : (n m : ℕ) (cs : List (Call × Bool)) → n ≤ m → Rise n cs → Rise m cs
Rise-up n m [] h r = tt
Rise-up n m (c ∷ cs) h r = (omega (arith, r.0, h), r.1, r.2)

calling :
    (effect : Callback) (mild : IsMild effect) (c : Channel) (test : Bool) (call : Call)
    (s : Channel × List (Call × Bool))
    → Going c (rank call) s
    → Going c (rank call + 1) (do_call effect test call s)
      × ((k : ℕ) → makes k (do_call effect test call s).1 ≡ test && (rank call == k) || makes k s.1)
unfolding do_call
calling effect mild c test call s g = elim (Bool-cases test) [
  | inl e ↦
      let m = mild call s.0 in
      rw e (
        record {
          same = (
            m.0 ∙ g.same.0,
            m.1 ∙ g.same.1,
            m.2 ∙ g.same.2,
            m.3 ∙ g.same.3,
            m.4 ∙ g.same.4,
            m.5 ∙ g.same.5,
          );
          rise = (omega arith, g.same.5, g.rise);
        },
        λ k. refl,
      )
  | inr e ↦ rw e (
    record { same = g.same; rise = Rise-up (rank call) (rank call + 1) s.1 (omega arith) g.rise },
    λ k. refl,
  )
]

error_test :
    (r q : Events) (a b : Bool)
    → r ≡ q
    → a ≡ b
    → meets r error_mask && a ≡ (q.pollerr || q.pollnval) && b
unfolding meets
error_test r q a b h k = rw (h, k) (ground arith)

read_test :
    (r q : Events) (a b : Bool)
    → r ≡ q
    → a ≡ b
    → meets r read_mask && a ≡ (q.pollin || q.pollpri || q.pollrdhup) && b
unfolding meets
read_test r q a b h k = rw (h, k) (ground arith)

module _ (effect : Callback) (mild : IsMild effect) (c : Channel)
    (s : Channel × List (Call × Bool)) where
  hup-Going :
      Going c 0 s
      → Going c 2 (on_hup effect s)
        × ((b : Bool) × ((k : ℕ)
              → makes k (on_hup effect s).1
                ≡ c.revents.pollhup && not c.revents.pollin && c.close_callback && (1 == k)
                  || (b && (0 == k) || makes k s.1)))
  unfolding on_hup log_warning
  hup-Going g =
      let (g1, m1) =
        calling (λ k d. d) (λ k d. (refl, refl, refl, refl, refl, refl)) c _ warns_hup s g in
      let (g2, m2) = calling effect mild c _ closes _ g1 in
      (
        g2,
        (
          s.0.revents.pollhup && not s.0.revents.pollin && s.0.log_hup,
          λ k. m2 k ∙ rw (m1 k, g1.same.1, g.same.0) (ground arith),
        ),
      )

  error-Going :
      Going c 2 s
      → Going c 4 (on_error effect s)
        × ((b : Bool) × ((k : ℕ)
              → makes k (on_error effect s).1
                ≡ (c.revents.pollerr || c.revents.pollnval) && c.error_callback && (3 == k)
                  || (b && (2 == k) || makes k s.1)))
  unfolding on_error log_warning
  error-Going g =
      let (g1, m1) =
        calling (λ k d. d) (λ k d. (refl, refl, refl, refl, refl, refl)) c _ warns_nval s g in
      let (g2, m2) = calling effect mild c _ errs _ g1 in
      (
        g2,
        (
          s.0.revents.pollnval,
          λ k. m2 k ∙ rw (m1 k, error_test _ _ _ _ g1.same.0 g1.same.2) (ground arith),
        ),
      )

  read-Going :
      (t : ℕ)
      → Going c 4 s
      → Going c 5 (on_read effect t s)
        × ((k : ℕ)
            → makes k (on_read effect t s).1
              ≡ (c.revents.pollin || c.revents.pollpri || c.revents.pollrdhup)
                  && c.read_callback
                  && (4 == k)
                || makes k s.1)
  unfolding on_read
  read-Going t g =
      let (g1, m1) = calling effect mild c _ (reads t) s g in
      (g1, λ k. m1 k ∙ rw (read_test _ _ _ _ g.same.0 g.same.3) (ground arith))

  write-Going :
      Going c 5 s
      → Going c 6 (on_write effect s)
        × ((k : ℕ)
            → makes k (on_write effect s).1
              ≡ c.revents.pollout && c.write_callback && (5 == k) || makes k s.1)
  unfolding on_write
  write-Going g =
      let (g1, m1) = calling effect mild c _ writes s g in
      (g1, λ k. m1 k ∙ rw (g.same.0, g.same.4) (ground arith))

-- The calls of the four tests together.
module _ (c : Channel) (b1 b2 : Bool) (l1 l2 l3 l4 : List (Call × Bool)) where
  together :
      ((k : ℕ)
        → makes k l1
          ≡ c.revents.pollhup && not c.revents.pollin && c.close_callback && (1 == k)
            || (b1 && (0 == k) || false))
      → ((k : ℕ)
          → makes k l2
            ≡ (c.revents.pollerr || c.revents.pollnval) && c.error_callback && (3 == k)
              || (b2 && (2 == k) || makes k l1))
      → ((k : ℕ)
          → makes k l3
            ≡ (c.revents.pollin || c.revents.pollpri || c.revents.pollrdhup)
                && c.read_callback
                && (4 == k)
              || makes k l2)
      → ((k : ℕ) → makes k l4 ≡ c.revents.pollout && c.write_callback && (5 == k) || makes k l3)
      → Rise 6 l4
      → Dispatches c l4
  together m1 m2 m3 m4 rise = record {
    close = ground (arith, m1 1, m2 1, m3 1, m4 1);
    error = ground (arith, m1 3, m2 3, m3 3, m4 3);
    read = ground (arith, m1 4, m2 4, m3 4, m4 4);
    write = ground (arith, m1 5, m2 5, m3 5, m4 5);
    in_order = rise;
  }

module _ (effect : Callback) (t : ℕ) (c : Channel) (mild : IsMild effect) where
  abbrev s0 : Channel × List (Call × Bool)
  s0 = (record c { event_handling = true }, [])

  start : Going c 0 s0
  start = record { same = (refl, refl, refl, refl, refl, refl); rise = tt }

  abbrev s1 : Channel × List (Call × Bool)
  s1 = on_hup effect s0

  abbrev s2 : Channel × List (Call × Bool)
  s2 = on_error effect s1

  abbrev s3 : Channel × List (Call × Bool)
  s3 = on_read effect t s2

  going_2 : Going c 4 s2
  going_2 = (error-Going effect mild c s1 (hup-Going effect mild c s0 start).0).0

  going_3 : Going c 5 s3
  going_3 = (read-Going effect mild c s2 t going_2).0

  guarded : Dispatches c (handle_event_with_guard effect t c).1
  unfolding handle_event_with_guard
  guarded =
      let (g1, (b1, m1)) = hup-Going effect mild c s0 start in
      let (b2, m2) = (error-Going effect mild c s1 g1).1 in
      let (g4, m4) = write-Going effect mild c s3 going_3 in
      together c b1 b2 s1.1 s2.1 s3.1 (on_write effect s3).1 m1 m2
        (read-Going effect mild c s2 t going_2).1 m4 g4.rise

acts :
    {A : Type 0} (tied locked : Bool) (x y : A)
    → tied && not locked ≡ false
    → (if tied then (if locked then x else y) else x) ≡ x
acts tied locked x y e = ground (arith, e)

-- With callbacks that leave alone what was received, which callbacks are set and `eventHandling_`: a channel whose owner is
-- alive, or that is tied to none, calls each callback that is set exactly if the received events ask for it, each once, close
-- before error, error before read and read before write, all of them while it counts as handling its events, and does not
-- count so afterwards. A channel whose owner is gone makes no call and is left as it was.
pub handle_event-Dispatches :
    (effect : Callback) (locked : Bool) (t : ℕ) (c : Channel)
    → IsMild effect
    → (c.tied && not locked ≡ true) × (handle_event effect locked t c ≡ (c, []))
      ⊎ ((c.tied && not locked ≡ false)
          × Dispatches c (handle_event effect locked t c).1
          × ((handle_event effect locked t c).0.event_handling ≡ false))
unfolding handle_event
handle_event-Dispatches effect locked t c mild = elim (Bool-cases (c.tied && not locked)) [
  | inl e ↦ inl (e, ground (arith, e))
  | inr e ↦
      let same : handle_event effect locked t c ≡ handle_event_with_guard effect t c =
        acts c.tied locked _ _ e in
      inr (
        e,
        subst (λ r. Dispatches c r.1) (sym same) (guarded effect t c mild),
        ap (λ r. r.0.event_handling) same,
      )
]

-- A channel with the events `e`.
abbrev on : Channel → Events → Channel
on c e = record c { events = e }

-- Enabling and disabling one direction does what its name says and leaves the other direction alone.
interest :
    (c : Channel)
    → (is_reading (on c (enable_reading c.events)) ≡ true)
      × (is_writing (on c (enable_reading c.events)) ≡ is_writing c)
      × (is_reading (on c (disable_reading c.events)) ≡ false)
      × (is_writing (on c (disable_reading c.events)) ≡ is_writing c)
      × (is_writing (on c (enable_writing c.events)) ≡ true)
      × (is_reading (on c (enable_writing c.events)) ≡ is_reading c)
      × (is_writing (on c (disable_writing c.events)) ≡ false)
      × (is_reading (on c (disable_writing c.events)) ≡ is_reading c)
unfolding is_reading is_writing enable_reading disable_reading enable_writing disable_writing
interest c = ground arith
