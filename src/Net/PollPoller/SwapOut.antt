-- ===== src/Net/PollPoller/SwapOut.antt =====
-- The removal of a place of `pollfds_`, into which the last descriptor moves.
use dxian.Prelude.{
  ℕ, suc, ◌≡◌, ◌≢◌, inl, inr, none, some, arith, Bool-cases, ◌==◌, if◌then◌else◌, length, get_elem?,
}
use dxian.Prelude.Int.{pos}
use dxian.Net.Store.{find}
use dxian.Net.Poller.{eq_ℤ}
use dxian.Net.Channel.{Channel, is_none_event}
use dxian.Net.PollPoller.{PollPoller, PollFd, descriptor}
use dxian.Net.PollPoller.Invariant.{
  Inv, Placed, Owned, Fits, some-injective, same_place, same_address,
}

-- The channel whose descriptor was the last one has the freed place now.
abbrev pub moved : ℕ → ℕ → Channel → Channel
moved last n d = record d { index = if eq_ℤ d.index (pos last) then pos n else d.index }

-- The place `n` of the channel `p` goes, and the last place, `last`, moves there.
pub record SwapsOut (w w' : PollPoller) (p fd n last : ℕ) (back : PollFd) : Type 0 where
  pub channels : (j : ℕ) → find j w'.channels ≡ (if fd == j then none else find j w.channels)
  pub pollfds :
      (i : ℕ)
      → get_elem? w'.pollfds i
        ≡ (if i == last then none else if n == i then some back else get_elem? w.pollfds i)
  pub others :
      (q j : ℕ) (d : Channel)
      → q ≢ p
      → find j w.channels ≡ some q
      → find q w.objects ≡ some d
      → find q w'.objects ≡ some (moved last n d)

module _ (w w' : PollPoller) (p fd last : ℕ) (back : PollFd) (inv : Inv w)
    (mapped : find fd w.channels ≡ some p) (m : Placed w fd p) (size : length w.pollfds ≡ suc last)
    (at_back : get_elem? w.pollfds last ≡ some back)
    (r : SwapsOut w w' p fd m.place last back) where
  Fits-moved : (d : Channel) (slot : PollFd) (n : ℕ) → Fits d slot → Fits (moved last n d) slot
  unfolding is_none_event
  Fits-moved d slot n f = record { events = f.events; slot_fd = f.slot_fd }

  away : (j q : ℕ) → Placed w j q → j ≢ fd → q ≢ p
  away j q k d e = d (same_address w j fd p (rw (← e) k) m)

  unplaced : (j q : ℕ) (k : Placed w j q) → j ≢ fd → k.place ≢ m.place
  unplaced j q k d e = d (same_place w j fd q p k m e)

  still-Placed : (j q : ℕ) → j ≢ fd → find j w.channels ≡ some q → Placed w' j q
  still-Placed j q d e =
      let k = inv.placed j q e in
      let alive' = r.others q j k.chan (away j q k d) e k.alive in
      let f = Fits-moved k.chan k.slot m.place k.fits in
      elim (Bool-cases (k.place == last)) [
        | inl h ↦
            let same : k.slot ≡ back = some-injective k.at (ground (arith, at_back, h)) in
            record {
              chan = moved last m.place k.chan;
              alive = alive';
              same_fd = k.same_fd;
              place = m.place;
              index = ground (arith, k.index, h);
              slot = k.slot;
              at = ground (arith, r.pollfds m.place, unplaced j q k d, h, same);
              fits = f;
            }
        | inr h ↦ record {
          chan = moved last m.place k.chan;
          alive = alive';
          same_fd = k.same_fd;
          place = k.place;
          index = ground (arith, k.index, h);
          slot = k.slot;
          at = ground (arith, r.pollfds k.place, unplaced j q k d, h, k.at);
          fits = f;
        }
      ]

  -- The place of the owner of another place is that place.
  other_fd : (i : ℕ) (s : PollFd) (o : Owned w i s) → i ≢ m.place → descriptor s.fd ≢ fd
  other_fd i s o d e =
      let same : o.owner ≡ p = ground (arith, o.mapped, mapped, e) in
      d (ground (arith, o.alive, o.index, m.alive, m.index, same))

  keeps_owner :
      (i i' : ℕ) (s : PollFd)
      → get_elem? w.pollfds i ≡ some s
      → i ≢ m.place
      → pos i' ≡ (if i == last then pos m.place else pos i)
      → Owned w' i' s
  keeps_owner i i' s e d h =
      let o = inv.owned i s e in
      let g = other_fd i s o d in
      let k = inv.placed (descriptor s.fd) o.owner o.mapped in
      record {
        owner = o.owner;
        chan = moved last m.place o.chan;
        mapped = ground (arith, r.channels (descriptor s.fd), g, o.mapped);
        alive =
            r.others o.owner (descriptor s.fd) o.chan (away (descriptor s.fd) o.owner k g) o.mapped
              o.alive;
        index = ground (arith, o.index, h);
      }

  pub removed-Inv : Inv w'
  removed-Inv = record {
    placed = λ j q e.
        still-Placed j q (λ s. ground (arith, r.channels j, e, s))
          (ground (arith, r.channels j, e));
    owned = λ i s e. elim (Bool-cases (m.place == i)) [
      | inl h ↦
          let same : s ≡ back = some-injective e (ground (arith, r.pollfds i, h, e)) in
          keeps_owner last i s (rw same at_back) (λ x. ground (arith, r.pollfds i, e, h, x))
            (ground (arith, h))
      | inr h ↦
          keeps_owner i i s (ground (arith, r.pollfds i, e, h)) (λ x. ground (arith, h, x))
            (ground (arith, r.pollfds i, e))
    ];
  }
