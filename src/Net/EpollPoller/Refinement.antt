-- ===== src/Net/EpollPoller/Refinement.antt =====
-- The epoll poller does what a poller promises.
use dxian.Prelude.{
  ℕ, ◌≡◌, ◌⊎◌, inl, inr, refl, ap, sym, ◌∙◌, Bool, true, false, Option, none, some, arith,
  Bool-cases, ◌==◌, if◌then◌else◌,
}
use dxian.Prelude.Int.{negsuc}
use dxian.Net.Store.{find}
use dxian.Net.Channel.{Channel, Events, is_none, is_none_event}
use dxian.Net.Poller.Watch.{
  Card, Watch, Command, changes, removes, wanted, after, after-changes, after-removes, Allowed,
  Shows, IsPoller,
}
use dxian.Net.EpollPoller.{
  EpollPoller, Op, Result, ok, new_index, added_index, change_events, remove,
}
use dxian.Net.EpollPoller.Invariant.{IsEpoll, Inv, MayUse, Rewires}
use dxian.Net.EpollPoller.Registration.{changed, entry, change_events-Rewires, remove-Rewires}

-- The entry after a change is what the channel wants, if it was in the list or wants some event.
entry-wanted :
    (c : Channel) (p : ℕ) (e : Events)
    → (c.index ≡ added_index) ⊎ (is_none e ≡ false)
    → entry c p e ≡ wanted e p
unfolding is_none_event
entry-wanted c p e (inl h) = rw h refl
entry-wanted c p e (inr h) = rw h (ground (arith, h))

module _ {K : Type 0} (epoll_ctl : Op → ℕ → Events → ℕ → K → K × Bool)
    (view : K → ℕ → Option (Events × ℕ)) (laws : IsEpoll epoll_ctl view) where
  pub run : Command → EpollPoller K → Result (EpollPoller K)
  run (changes f p) w = change_events epoll_ctl f p w
  run (removes p) w = remove epoll_ctl p w

  pub asked_for : EpollPoller K → ℕ → Option (Events × ℕ)
  asked_for w j = view w.kernel j

  pub record Refines (w : EpollPoller K) (s : Watch) : Type 0 where
    pub inv : Inv view w
    pub shows : Shows (λ q. find q w.objects) (λ j. find j w.channels) (asked_for w) s

  -- One channel's state, its descriptor's place in the map and its entry change.
  rewired-Shows :
      (w w' : EpollPoller K) (s : Watch) (p : ℕ) (c' : Channel) (at : Option ℕ)
      (v u : Option (Events × ℕ)) (k : Card)
      → Rewires view w w' p c' at v
      → c'.fd ≡ k.fd
      → c'.events ≡ k.events
      → k.is_new ≡ false
      → v ≡ u
      → Shows (λ q. find q w.objects) (λ j. find j w.channels) (asked_for w) s
      → Shows
          (λ q. find q w'.objects)
          (λ j. find j w'.channels)
          (asked_for w')
          (record {
            channels = λ j. if k.fd == j then at else s.channels j;
            cards = λ q. if p == q then some k else s.cards q;
            interest = λ j. if k.fd == j then u else s.interest j;
          })
  unfolding asked_for
  rewired-Shows w w' s p c' at v u k r fd events old asked shows = record {
    cards = λ q l e. elim (Bool-cases (p == q)) [
      | inl h ↦
          let same : k ≡ l = ground (arith, e, h) in
          (
            c',
            ground (arith, r.objects q, h),
            ground (arith, fd, same),
            ground (arith, events, same),
            λ x. ground (arith, x, old, same),
          )
      | inr h ↦
          let (d, alive, fd', events', fresh) = shows.cards q l (ground (arith, e, h)) in
          (d, ground (arith, r.objects q, h, alive), fd', events', fresh)
    ];
    channels_agree = λ j. ground (arith, r.channels j, fd, shows.channels_agree j);
    interest_agree = λ j. elim (Bool-cases (k.fd == j)) [
      | inl h ↦ rw (r.entries j, fd) (ground (arith, h, asked))
      | inr h ↦ rw (r.entries j, fd) (ground (arith, h, shows.interest_agree j))
    ];
  }

  may-use :
      (w : EpollPoller K) (s : Watch) (p : ℕ) (k : Card) (c : Channel) (e : Events)
      → Shows (λ q. find q w.objects) (λ j. find j w.channels) (asked_for w) s
      → c.fd ≡ k.fd
      → (k.is_new ≡ true → c.index ≡ negsuc 0)
      → ((s.channels k.fd ≡ none) × (k.is_new ≡ true) × (is_none e ≡ false))
        ⊎ ((s.channels k.fd ≡ some p) × ((is_none k.events ≡ false) ⊎ (is_none e ≡ false)))
      → MayUse view w p c
  may-use w s p k c e shows fd fresh (inl (free, new, wants)) =
      inl (fresh new, rw fd (shows.channels_agree k.fd ∙ free))
  may-use w s p k c e shows fd fresh (inr (mapped, busy)) =
      inr (rw fd (shows.channels_agree k.fd ∙ mapped))

  -- A registered channel that wants some event is in the list.
  is_added :
      (w : EpollPoller K) (p : ℕ) (c : Channel)
      → Inv view w
      → find p w.objects ≡ some c
      → find c.fd w.channels ≡ some p
      → is_none c.events ≡ false
      → c.index ≡ added_index
  is_added w p c inv alive mapped busy =
      let m = inv.mapped c.fd p mapped in
      let same : m.chan ≡ c = ground (arith, m.alive, alive) in
      elim m.watches [
        | inl (at, watched) ↦ ground (arith, at, same)
        | inr (at, quiet, out) ↦
            absurd
              (ground (arith, busy, ap is_none (ap (λ (d : Channel). d.events) (sym same) ∙ quiet)))
      ]

  listed :
      (w : EpollPoller K) (s : Watch) (p : ℕ) (k : Card) (c : Channel) (f : Events → Events)
      → Inv view w
      → Shows (λ q. find q w.objects) (λ j. find j w.channels) (asked_for w) s
      → find p w.objects ≡ some c
      → c.fd ≡ k.fd
      → c.events ≡ k.events
      → ((s.channels k.fd ≡ none) × (k.is_new ≡ true) × (is_none (f k.events) ≡ false))
        ⊎ ((s.channels k.fd ≡ some p)
            × ((is_none k.events ≡ false) ⊎ (is_none (f k.events) ≡ false)))
      → (c.index ≡ added_index) ⊎ (is_none (f c.events) ≡ false)
  listed w s p k c f inv shows alive fd events (inl (free, new, wants)) = inr (rw events wants)
  listed w s p k c f inv shows alive fd events (inr (mapped, inl busy)) =
      inl (is_added w p c inv alive (rw fd (shows.channels_agree k.fd ∙ mapped)) (rw events busy))
  listed w s p k c f inv shows alive fd events (inr (mapped, inr wants)) = inr (rw events wants)

  run-obeys :
      (c : Command) (w : EpollPoller K) (s : Watch)
      → Refines w s
      → Allowed c s
      → (w' : EpollPoller K) × (run c w ≡ ok w') × Refines w' (after c s)
  unfolding run
  run-obeys (changes f p) w s v (k, card, may) =
      let (c, alive, fd, events, fresh) = v.shows.cards p k card in
      let (w', done, inv', r) =
        change_events-Rewires epoll_ctl view laws f w p c v.inv alive
          (may-use w s p k c (f k.events) v.shows fd fresh may) in
      (
        w',
        done,
        rw (after-changes f p s k card) (record {
          inv = inv';
          shows =
              rewired-Shows w w' s p (changed c (f c.events)) (some p) (entry c p (f c.events))
                (wanted (f k.events) p) (record { fd = k.fd; events = f k.events; is_new = false })
                r fd (ap f events) refl
                (entry-wanted c p (f c.events)
                    (listed w s p k c f v.inv v.shows alive fd events may)
                  ∙ ap (λ e. wanted (f e) p) events)
                v.shows;
        }),
      )
  run-obeys (removes p) w s v (k, card, mapped, quiet) =
      let (c, alive, fd, events, fresh) = v.shows.cards p k card in
      let (w', done, inv', r) =
        remove-Rewires epoll_ctl view laws w p c v.inv alive
          (ground (arith, v.shows.channels_agree k.fd, fd, mapped)) (events ∙ quiet) in
      (
        w',
        done,
        rw (after-removes p s k card) (record {
          inv = inv';
          shows =
              rewired-Shows w w' s p (record c { added_to_loop = false; index = new_index }) none
                none none (record k { is_new = false }) r fd events refl refl v.shows;
        }),
      )

  -- With a kernel that keeps epoll(7), the epoll poller obeys every allowed command and asks the kernel for
  -- what the channels want.
  pub epoll-IsPoller : IsPoller (EpollPoller K) run asked_for Refines
  epoll-IsPoller = record { obeys = run-obeys; asks = λ w s r j. r.shows.interest_agree j }

  pub asked_for-empty : (w : EpollPoller K) (j : ℕ) → view w.kernel j ≡ none → asked_for w j ≡ none
  unfolding asked_for
  asked_for-empty w j e = e
