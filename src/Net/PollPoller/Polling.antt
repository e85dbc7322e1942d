-- ===== src/Net/PollPoller/Polling.antt =====
-- `poll` and `fillActiveChannels` of the poll poller.
use dxian.Prelude.{
  ℕ, zero, suc, ◌≡◌, ◌⊎◌, inl, inr, refl, ◌∙◌, ap, true, false, Option, some, List, [], arith,
  get_elem?,
}
use dxian.Prelude.Int.{ℤ, pos, negsuc}
use dxian.Net.Store.{find}
use dxian.Net.Poller.{ok}
use dxian.Net.Channel.{Channel, Events, none_event, is_none_event}
use dxian.Net.PollPoller.{PollPoller, PollFd, descriptor, received, find_fd, poll, eq_events}
use dxian.Net.PollPoller.Invariant.{Inv, Fits}
use dxian.Net.PollPoller.Marks.{reported, Live, Keeps, Marks, Separate, Filled, fill-Marks}

-- What poll(2) leaves in the array: the descriptors and the events asked for are as before, and nothing is received for a
-- negative descriptor.
pub record Polled (fds fds' : List PollFd) : Type 0 where
  pub kept :
      (i : ℕ) (x : PollFd)
      → get_elem? fds i ≡ some x
      → (y : PollFd) × (get_elem? fds' i ≡ some y) × (y.fd ≡ x.fd) × (y.events ≡ x.events)
  pub from :
      (i : ℕ) (y : PollFd)
      → get_elem? fds' i ≡ some y
      → (x : PollFd) × (get_elem? fds i ≡ some x) × (y.fd ≡ x.fd) × (y.events ≡ x.events)
  pub ignored :
      (i n : ℕ) (y : PollFd) → get_elem? fds' i ≡ some y → y.fd ≡ negsuc n → y.revents ≡ none_event

sign : (z : ℤ) → ((n : ℕ) × (z ≡ pos n)) ⊎ ((n : ℕ) × (z ≡ negsuc n))
sign (pos n) = inl (n, refl)
sign (negsuc n) = inr (n, refl)

quiet : (y : PollFd) → y.revents ≡ none_event → received y ≡ false
unfolding eq_events
quiet y e = rw e refl

Fits-polled :
    (c : Channel) (x y : PollFd) (r : Events)
    → Fits c x
    → y.fd ≡ x.fd
    → y.events ≡ x.events
    → Fits (record c { revents = r }) y
unfolding is_none_event
Fits-polled c x y r f fd events = record { events = events ∙ f.events; slot_fd = fd ∙ f.slot_fd }

module _ (w : PollPoller) (fds : List PollFd) (inv : Inv w) (polled : Polled w.pollfds fds) where
  find_fd-mapped :
      (y : PollFd) (p : ℕ)
      → find_fd y.fd w.channels ≡ some p
      → find (descriptor y.fd) w.channels ≡ some p
  find_fd-mapped y p e = ground (arith, e)

  -- A place's channel knows the place.
  place_of :
      (i p : ℕ) (y : PollFd)
      → get_elem? fds i ≡ some y
      → find_fd y.fd w.channels ≡ some p
      → (c : Channel) × (find p w.objects ≡ some c) × (c.index ≡ pos i)
  place_of i p y at own =
      let (x, at', fd, events) = polled.from i y at in
      let o = inv.owned i x at' in
      let same : o.owner ≡ p = ground (arith, find_fd-mapped y p own, ap descriptor fd, o.mapped) in
      (o.chan, rw (← same) o.alive, o.index)

  polled-Separate : Separate fds w.channels
  polled-Separate i j p x y at at' own own' =
      let (c, alive, index) = place_of i p x at own in
      let (d, alive', index') = place_of j p y at' own' in
      ground (arith, alive, alive', index, index')

  polled-Live :
      (i : ℕ) (y : PollFd)
      → get_elem? fds i ≡ some y
      → received y ≡ true
      → Live w.objects w.channels y
  polled-Live i y at got = elim (sign y.fd) [
    | inl (n, watched) ↦
        let (x, at', fd, events) = polled.from i y at in
        let o = inv.owned i x at' in
        let m = inv.placed (descriptor x.fd) o.owner o.mapped in
        (
          o.owner,
          m.chan,
          ground (arith, watched, ap descriptor fd, o.mapped),
          m.alive,
          ground (arith, watched, m.same_fd, ap descriptor fd),
        )
    | inr (n, negative) ↦ absurd (ground (arith, quiet y (polled.ignored i n y at negative), got))
  ]

  filled-Inv :
      (after : List (ℕ × Channel))
      → Keeps w.objects after
      → Inv (record w { pollfds = fds; objects = after })
  filled-Inv after kept = record {
    placed = λ fd p e.
        let m = inv.placed fd p e in
        let (r, alive) = kept p m.chan m.alive in
        let (y, at, fd', events) = polled.kept m.place m.slot m.at in
        record {
          chan = record m.chan { revents = r };
          alive = alive;
          same_fd = m.same_fd;
          place = m.place;
          index = m.index;
          slot = y;
          at = at;
          fits = Fits-polled m.chan m.slot y r m.fits fd' events;
        };
    owned = λ i y at.
        let (x, at', fd, events) = polled.from i y at in
        let o = inv.owned i x at' in
        let (r, alive) = kept o.owner o.chan o.alive in
        record {
          owner = o.owner;
          chan = record o.chan { revents = r };
          mapped = rw fd o.mapped;
          alive = alive;
          index = o.index;
        };
  }

-- For a positive number of descriptors, the active channels are those with received events, in order; for zero there is none.
abbrev pub Reported : PollPoller → List PollFd → ℕ → PollPoller → List ℕ → Type 0
Reported w fds zero w' active = (active ≡ []) × (w'.objects ≡ w.objects)
Reported w fds (suc n) w' active =
    (active ≡ reported fds w.channels) × Marks fds w.channels w.objects w'.objects

-- After a call of poll(2) that leaves the array as documented and returns a number, `poll` fails no assertion and keeps
-- the invariant and the map. If the number is positive, the active channels are those of the descriptors with received events,
-- in order, each has the events that its descriptor received, and no other channel changes. If it is zero, no channel is
-- active and none changes.
pub poll-Reported :
    (poll_call : List PollFd → Option (List PollFd × ℕ)) (w : PollPoller) (fds : List PollFd)
    (n : ℕ)
    → Inv w
    → poll_call w.pollfds ≡ some (fds, n)
    → Polled w.pollfds fds
    → (w' : PollPoller) × (active : List ℕ) × (poll poll_call w ≡ ok (w', active))
      × Inv w'
      × (w'.channels ≡ w.channels)
      × Reported w fds n w' active
unfolding poll Filled
poll-Reported poll_call w fds zero inv call polled = (
  record w { pollfds = fds },
  [],
  rw (call, poll) refl,
  filled-Inv w fds inv polled w.objects (λ q c e. (c.revents, e)),
  refl,
  (refl, refl),
)
poll-Reported poll_call w fds (suc n) inv call polled =
    let (after, done, k) =
      fill-Marks fds (record w { pollfds = fds }) [] (polled-Separate w fds inv polled)
        (polled-Live w fds inv polled) in
    (
      record w { pollfds = fds; objects = after },
      reported fds w.channels,
      rw (call, poll, done) (ground arith),
      filled-Inv w fds inv polled after k.kept,
      refl,
      (refl, k),
    )
