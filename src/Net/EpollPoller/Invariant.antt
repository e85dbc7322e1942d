-- ===== src/Net/EpollPoller/Invariant.antt =====
-- The poller's map, the channels' states and the kernel's interest list agree.
use dxian.Prelude.{
  ℕ, ◌≡◌, ◌≢◌, ◌⊎◌, inl, inr, Bool, true, false, Option, none, some, arith, Bool-cases, ◌==◌,
  if◌then◌else◌,
}
use dxian.Net.Store.{find}
use dxian.Net.Channel.{Channel, Events, none_event}
use dxian.Net.EpollPoller.{
  EpollPoller, Op, add, mod_events, del, new_index, added_index, deleted_index,
}

-- epoll(7): `view k fd` is the entry of `fd` in the interest list, its events and its data. Adding a
-- descriptor that has no entry, and changing or deleting one that has an entry, succeeds.
pub record IsEpoll {K : Type 0} (epoll_ctl : Op → ℕ → Events → ℕ → K → K × Bool)
    (view : K → ℕ → Option (Events × ℕ)) : Type 0 where
  pub adds :
      (fd : ℕ) (e : Events) (p : ℕ) (k : K)
      → view k fd ≡ none
      → ((epoll_ctl add fd e p k).1 ≡ true)
        × ((j : ℕ)
            → view (epoll_ctl add fd e p k).0 j ≡ (if fd == j then some (e, p) else view k j))
  pub mods :
      (fd : ℕ) (e : Events) (p : ℕ) (k : K) (x : Events × ℕ)
      → view k fd ≡ some x
      → ((epoll_ctl mod_events fd e p k).1 ≡ true)
        × ((j : ℕ)
            → view (epoll_ctl mod_events fd e p k).0 j
              ≡ (if fd == j then some (e, p) else view k j))
  pub dels :
      (fd : ℕ) (e : Events) (p : ℕ) (k : K) (x : Events × ℕ)
      → view k fd ≡ some x
      → ((epoll_ctl del fd e p k).1 ≡ true)
        × ((j : ℕ) → view (epoll_ctl del fd e p k).0 j ≡ (if fd == j then none else view k j))

module _ {K : Type 0} (view : K → ℕ → Option (Events × ℕ)) where
  -- An added channel is in the interest list with its events; a deleted one has no events and is not.
  abbrev pub Watches : Channel → ℕ → Option (Events × ℕ) → Type 0
  Watches c p v =
      ((c.index ≡ added_index) × (v ≡ some (c.events, p)))
      ⊎ ((c.index ≡ deleted_index) × (c.events ≡ none_event) × (v ≡ none))

  pub record Mapped (w : EpollPoller K) (fd p : ℕ) : Type 0 where
    pub chan : Channel
    pub alive : find p w.objects ≡ some chan
    pub same_fd : chan.fd ≡ fd
    pub watches : Watches chan p (view w.kernel fd)

  pub record Inv (w : EpollPoller K) : Type 0 where
    pub mapped : (fd p : ℕ) → find fd w.channels ≡ some p → Mapped w fd p
    pub unmapped : (fd : ℕ) → find fd w.channels ≡ none → view w.kernel fd ≡ none
    pub known :
        (p : ℕ) (c : Channel)
        → find p w.objects ≡ some c
        → (c.index ≡ new_index) ⊎ (find c.fd w.channels ≡ some p)

  -- The channel `p` may be registered: its descriptor is free, or it has it already.
  abbrev pub MayUse : EpollPoller K → ℕ → Channel → Type 0
  MayUse w p c =
      ((c.index ≡ new_index) × (find c.fd w.channels ≡ none)) ⊎ (find c.fd w.channels ≡ some p)

  -- Only the channel `p`, now `c'`, its descriptor's place in the map and its entry change.
  pub record Rewires (w w' : EpollPoller K) (p : ℕ) (c' : Channel) (at : Option ℕ)
      (v : Option (Events × ℕ)) : Type 0 where
    pub objects : (j : ℕ) → find j w'.objects ≡ (if p == j then some c' else find j w.objects)
    pub channels : (j : ℕ) → find j w'.channels ≡ (if c'.fd == j then at else find j w.channels)
    pub entries : (j : ℕ) → view w'.kernel j ≡ (if c'.fd == j then v else view w.kernel j)

  module _ (w w' : EpollPoller K) (p : ℕ) (c c' : Channel) (inv : Inv w)
      (alive : find p w.objects ≡ some c) (fd : c'.fd ≡ c.fd) (may : MayUse w p c) where
    -- Another channel's descriptor is another one.
    apart :
        (at : Option ℕ) (v : Option (Events × ℕ))
        → (j r : ℕ) → find j w.channels ≡ some r
        → j ≢ c.fd
        → r ≢ p
    apart at v j r e d same =
        let m = inv.mapped j r e in ground (arith, m.alive, m.same_fd, same, alive)

    pub registered-Inv :
        (v : Option (Events × ℕ)) → Rewires w w' p c' (some p) v → Watches c' p v → Inv w'
    registered-Inv v r s = record {
      mapped = λ j q e. elim (Bool-cases (c'.fd == j)) [
        | inl h ↦
            let same : q ≡ p = ground (arith, r.channels j, e, h) in
            record {
              chan = c';
              alive = ground (arith, r.objects q, same);
              same_fd = ground arith;
              watches = ground (arith, r.entries j, s, h, same);
            }
        | inr h ↦
            let old : find j w.channels ≡ some q = ground (arith, r.channels j, e, h) in
            let m = inv.mapped j q old in
            let other : q ≢ p = apart (some p) v j q old (λ d. ground (arith, d, h, fd)) in
            record {
              chan = m.chan;
              alive = ground (arith, r.objects q, other, m.alive);
              same_fd = m.same_fd;
              watches = ground (arith, r.entries j, h, m.watches);
            }
      ];
      unmapped = λ j e. ground (arith, r.channels j, r.entries j, inv.unmapped j);
      known = λ q d e. elim (Bool-cases (p == q)) [
        | inl h ↦ inr (ground (arith, r.objects q, r.channels d.fd, e, h))
        | inr h ↦
            let old : find q w.objects ≡ some d = ground (arith, r.objects q, e, h) in
            ground (arith, inv.known q d old, r.channels d.fd, may, fd, h)
      ];
    }

    pub removed-Inv : Rewires w w' p c' none none → c'.index ≡ new_index → Inv w'
    removed-Inv r s = record {
      mapped = λ j q e.
          let h : (c'.fd == j) ≡ false = ground (arith, r.channels j, e) in
          let old : find j w.channels ≡ some q = ground (arith, r.channels j, e, h) in
          let m = inv.mapped j q old in
          let other : q ≢ p = apart none none j q old (λ d. ground (arith, d, h, fd)) in
          record {
            chan = m.chan;
            alive = ground (arith, r.objects q, other, m.alive);
            same_fd = m.same_fd;
            watches = ground (arith, r.entries j, h, m.watches);
          };
      unmapped = λ j e. ground (arith, r.channels j, r.entries j, inv.unmapped j);
      known = λ q d e. elim (Bool-cases (p == q)) [
        | inl h ↦ inl (ground (arith, r.objects q, e, h, s))
        | inr h ↦
            let old : find q w.objects ≡ some d = ground (arith, r.objects q, e, h) in
            ground (arith, inv.known q d old, r.channels d.fd, may, fd, h)
      ];
    }
