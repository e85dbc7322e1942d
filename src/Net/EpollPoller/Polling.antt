-- ===== src/Net/EpollPoller/Polling.antt =====
-- `poll` and `fillActiveChannels`.
use dxian.Prelude.{
  ℕ, ◌*◌, ◌≤◌, ◌<◌, ◌≡◌, ◌≢◌, inl, inr, refl, ◌∙◌, Bool, Option, some, List, [], ◌∷◌, ◌++◌,
  append_assoc, append-nil, arith, Bool-cases, Option-cases, ◌==◌, length, All,
}
use dxian.Net.Store.{find, put, find-put}
use dxian.Net.Channel.{Channel, Events}
use dxian.Net.EpollPoller.{EpollPoller, Op, ok, fill_active_channels, poll}
use dxian.Net.EpollPoller.Invariant.{Inv}

module _ {K : Type 0} (epoll_ctl : Op → ℕ → Events → ℕ → K → K × Bool)
    (view : K → ℕ → Option (Events × ℕ)) where
  -- The kernel reports the data of entries of its list. In this way it gives back the address of the channel.
  abbrev pub Reported : EpollPoller K → ℕ × Events → Type 0
  Reported w (p, e) = (fd : ℕ) × (es : Events) × (view w.kernel fd ≡ some (es, p))

  -- The received events of channels change, and nothing else.
  pub record Receives (w w' : EpollPoller K) : Type 0 where
    pub kernel : w'.kernel ≡ w.kernel
    pub channels : w'.channels ≡ w.channels
    pub objects :
        (p : ℕ) (c : Channel)
        → find p w.objects ≡ some c
        → (r : Events) × (find p w'.objects ≡ some (record c { revents = r }))
    pub back :
        (p : ℕ) (c : Channel)
        → find p w'.objects ≡ some c
        → (r : Events) × (find p w.objects ≡ some (record c { revents = r }))
    pub same_size : w'.events_size ≡ w.events_size

  receive : ℕ → Channel → Events → EpollPoller K → EpollPoller K
  receive p c e w = record w { objects = put p (record c { revents = e }) w.objects }

  receive-Receives :
      (w : EpollPoller K) (p : ℕ) (c : Channel) (e : Events)
      → find p w.objects ≡ some c
      → Receives w (receive p c e w)
  unfolding receive
  receive-Receives w p c e alive = record {
    kernel = refl;
    channels = refl;
    same_size = refl;
    objects = λ q d h. elim (Bool-cases (p == q)) [
      | inl s ↦ (e, ground (arith, find-put p q (record c { revents = e }) w.objects, s, alive, h))
      | inr s ↦ (d.revents, ground (arith, find-put p q (record c { revents = e }) w.objects, s, h))
    ];
    back = λ q d h. elim (Bool-cases (p == q)) [
      | inl s ↦ (
        c.revents,
        ground (arith, find-put p q (record c { revents = e }) w.objects, s, alive, h),
      )
      | inr s ↦ (d.revents, ground (arith, find-put p q (record c { revents = e }) w.objects, s, h))
    ];
  }

  Receives-Inv : (w w' : EpollPoller K) → Receives w w' → Inv view w → Inv view w'
  Receives-Inv w w' r inv = record {
    mapped = λ fd p e.
        let m = inv.mapped fd p (ground (arith, r.channels, e)) in
        let (rv, alive) = r.objects p m.chan m.alive in
        record {
          chan = record m.chan { revents = rv };
          alive = alive;
          same_fd = m.same_fd;
          watches = ground (arith, m.watches, r.kernel);
        };
    unmapped = λ fd e. ground (arith, r.kernel, inv.unmapped fd (ground (arith, r.channels, e)));
    known = λ p c e.
        let (rv, alive) = r.back p c e in
        ground (arith, inv.known p (record c { revents = rv }) alive, r.channels);
  }

  Receives-trans : (w1 w2 w3 : EpollPoller K) → Receives w1 w2 → Receives w2 w3 → Receives w1 w3
  Receives-trans w1 w2 w3 r s = record {
    kernel = s.kernel ∙ r.kernel;
    channels = s.channels ∙ r.channels;
    same_size = s.same_size ∙ r.same_size;
    objects = λ p c h.
        let (e1, h1) = r.objects p c h in
        let (e2, h2) = s.objects p (record c { revents = e1 }) h1 in (e2, h2);
    back = λ p c h.
        let (e1, h1) = s.back p c h in
        let (e2, h2) = r.back p (record c { revents = e1 }) h1 in (e2, h2);
  }

  -- A report names a channel that the map has under its descriptor.
  Reported-Mapped :
      (w : EpollPoller K) (p : ℕ) (e : Events)
      → Inv view w
      → Reported w (p, e)
      → (c : Channel) × (find p w.objects ≡ some c) × (find c.fd w.channels ≡ some p)
  Reported-Mapped w p e inv (fd, es, v) = elim (Option-cases (find fd w.channels)) [
    | inl h ↦ absurd (ground (arith, inv.unmapped fd h, v))
    | inr (q, h) ↦
        let m = inv.mapped fd q h in
        let same : q ≡ p = ground (arith, m.watches, v) in
        (m.chan, ground (arith, m.alive, same), ground (arith, m.same_fd, h, same))
  ]

  -- The address is not among the reports.
  abbrev pub Absent : ℕ → List (ℕ × Events) → Type 0
  Absent p [] = Unit {0}
  Absent p ((q, e) ∷ rs) = (q ≢ p) × Absent p rs

  abbrev pub Distinct : List (ℕ × Events) → Type 0
  Distinct [] = Unit {0}
  Distinct ((p, e) ∷ rs) = Absent p rs × Distinct rs

  abbrev pub addresses : List (ℕ × Events) → List ℕ
  addresses [] = []
  addresses ((p, e) ∷ rs) = p ∷ addresses rs

  -- Each reported channel has the reported events.
  abbrev pub Received : List (ℕ × Events) → List (ℕ × Channel) → Type 0
  Received [] m = Unit {0}
  Received ((p, e) ∷ rs) m = ((c : Channel) × (find p m ≡ some c) × (c.revents ≡ e)) × Received rs m

  pub record Fills (rs : List (ℕ × Events)) (w w' : EpollPoller K) : Type 0 where
    pub inv : Inv view w'
    pub receives : Receives w w'
    pub received : Received rs w'.objects
    pub others : (p : ℕ) → Absent p rs → find p w'.objects ≡ find p w.objects

  fill-Fills :
      (rs : List (ℕ × Events)) (w : EpollPoller K) (active : List ℕ)
      → Inv view w
      → All (Reported w) rs
      → Distinct rs
      → (w' : EpollPoller K) × (fill_active_channels epoll_ctl rs w active
          ≡ ok (w', active ++ addresses rs))
        × Fills rs w w'
  unfolding fill_active_channels receive
  fill-Fills [] w active inv reports apart = (
    w,
    rw (append-nil active),
    record {
      inv = inv;
      received = tt;
      others = λ p a. refl;
      receives = record {
        kernel = refl;
        channels = refl;
        same_size = refl;
        objects = λ p c h. (c.revents, h);
        back = λ p c h. (c.revents, h);
      };
    },
  )
  fill-Fills ((p, e) ∷ rs) w active inv reports apart =
      let (c, alive, mapped) = Reported-Mapped w p e inv reports.0 in
      let w1 = receive p c e w in
      let r1 = receive-Receives w p c e alive in
      let (w', done, f) =
        fill-Fills rs w1 (active ++ p ∷ []) (Receives-Inv w w1 r1 inv) reports.1 apart.1 in
      let here : find p w'.objects ≡ some (record c { revents = e }) =
        ground (arith, f.others p apart.0, find-put p p (record c { revents = e }) w.objects) in
      (
        w',
        ground (arith, alive, mapped, done, append_assoc active (p ∷ []) (addresses rs)),
        record {
          inv = f.inv;
          receives = Receives-trans w w1 w' r1 f.receives;
          received = ((record c { revents = e }, here, refl), f.received);
          others = λ q a.
              ground
                (arith, a.0, f.others q a.1, find-put p q (record c { revents = e }) w.objects);
        },
      )

  resized-Inv : (w : EpollPoller K) (n : ℕ) → Inv view w → Inv view (record w { events_size = n })
  resized-Inv w n inv = record {
    mapped = λ fd p e.
        let m = inv.mapped fd p e in
        record { chan = m.chan; alive = m.alive; same_fd = m.same_fd; watches = m.watches };
    unmapped = inv.unmapped;
    known = inv.known;
  }

  -- When the kernel reports entries of its list, each once and no more than fit, `poll` fails no assertion
  -- and keeps the invariant. The active channels are the reported ones, in order, each with the events reported for
  -- it. The event list has room for more than were reported, so that the next call is not cut short by as many.
  pub poll-reports :
      (rs : List (ℕ × Events)) (w : EpollPoller K)
      → Inv view w
      → All (Reported w) rs
      → Distinct rs
      → 0 < w.events_size
      → length rs ≤ w.events_size
      → (w' : EpollPoller K) × (poll epoll_ctl (some rs) w ≡ ok (w', addresses rs))
        × Inv view w'
        × Received rs w'.objects
        × (length rs < w'.events_size)
        × (w.events_size ≤ w'.events_size)
  unfolding poll
  poll-reports [] w inv reports apart some_room fits = (w, refl, inv, tt, some_room, omega arith)
  poll-reports (r ∷ rs) w inv reports apart some_room fits =
      let (w', done, f) = fill-Fills (r ∷ rs) w [] inv reports apart in
      let size : w'.events_size ≡ w.events_size = f.receives.same_size in
      elim (Bool-cases (length (r ∷ rs) == w.events_size)) [
        | inl full ↦ (
          record w' { events_size = w'.events_size * 2 },
          ground (arith, done, full),
          resized-Inv w' _ f.inv,
          f.received,
          omega (arith, size),
          omega (arith, size),
        )
        | inr room ↦ (
          w',
          ground (arith, done, room),
          f.inv,
          f.received,
          ground (arith, room, size),
          omega (arith, size),
        )
      ]
