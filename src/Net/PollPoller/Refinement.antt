-- ===== src/Net/PollPoller/Refinement.antt =====
-- The poll poller does what a poller promises.
use dxian.Prelude.{
  ℕ, ◌≡◌, ◌≢◌, ◌⊎◌, inl, inr, refl, ap, sym, ◌∙◌, true, false, Option, none, some, arith,
  Bool-cases, Option-cases, ◌==◌, if◌then◌else◌,
}
use dxian.Prelude.Int.{negsuc}
use dxian.Net.Store.{find}
use dxian.Net.Channel.{Channel, Events, is_none, is_none_event}
use dxian.Net.Poller.{Result, ok}
use dxian.Net.Poller.Watch.{
  Card, Watch, Command, changes, removes, wanted, after, after-changes, after-removes, Allowed,
  Known, Shows, IsPoller,
}
use dxian.Net.PollPoller.{PollPoller, PollFd, change_events, remove}
use dxian.Net.PollPoller.Invariant.{Inv, Registers, some-injective}
use dxian.Net.PollPoller.Registration.{changed, slot_of, MayUse, change_events-Registers}
use dxian.Net.PollPoller.Removal.{remove-Removes}
use dxian.Net.PollPoller.Swap.{Stays}
use dxian.Net.PollPoller.Interest.{asked_for, asked_for-free, asked_for-registered}

pub record Refines (w : PollPoller) (s : Watch) : Type 0 where
  pub inv : Inv w
  pub shows : Shows (λ q. find q w.objects) (λ j. find j w.channels) (asked_for w) s

pub run : Command → PollPoller → Result PollPoller
run (changes f p) w = change_events f p w
run (removes p) w = remove p w

-- One channel and its descriptor's entry in the map change, and the others stay as their owners know them.
module _ (w w' : PollPoller) (s : Watch) (p : ℕ) (c' : Channel) (at : Option ℕ)
    (u : Option (Events × ℕ)) (k : Card) (inv : Inv w) (inv' : Inv w')
    (shows : Shows (λ q. find q w.objects) (λ j. find j w.channels) (asked_for w) s)
    (alive' : find p w'.objects ≡ some c') (fd : c'.fd ≡ k.fd) (events : c'.events ≡ k.events)
    (old : k.is_new ≡ false) (own : (j : ℕ) → find j w.channels ≡ some p → j ≡ k.fd)
    (entry : (j : ℕ) → find j w'.channels ≡ (if k.fd == j then at else find j w.channels))
    (stay : (q : ℕ) (d : Channel) → q ≢ p → find q w.objects ≡ some d → Stays w' q d)
    (here : asked_for w' k.fd ≡ u) where
  elsewhere : (j : ℕ) → j ≢ k.fd → asked_for w' j ≡ asked_for w j
  elsewhere j other = elim (Option-cases (find j w.channels)) [
    | inl e ↦
        asked_for-free w' inv' j (ground (arith, entry j, e, other))
        ∙ sym (asked_for-free w inv j e)
    | inr (q, e) ↦
        let m = inv.placed j q e in
        let (d, alive, same_fd, same, fresh) =
          stay q m.chan (λ x. other (own j (ground (arith, e, x)))) m.alive in
        asked_for-registered w' inv' j q d (ground (arith, entry j, e, other)) alive
        ∙ (ap (λ es. wanted es q) same ∙ sym (asked_for-registered w inv j q m.chan e m.alive))
  ]

  keeps-Known : (q : ℕ) (l : Card) → q ≢ p → s.cards q ≡ some l → Known (λ r. find r w'.objects) q l
  keeps-Known q l other e =
      let (d, alive, fd, events, fresh) = shows.cards q l e in
      let (d', alive', fd', events', fresh') = stay q d other alive in
      (d', alive', fd' ∙ fd, events' ∙ events, λ x. fresh' (fresh x))

  stepped-Shows :
      Shows
        (λ q. find q w'.objects)
        (λ j. find j w'.channels)
        (asked_for w')
        (record {
          channels = λ j. if k.fd == j then at else s.channels j;
          cards = λ q. if p == q then some k else s.cards q;
          interest = λ j. if k.fd == j then u else s.interest j;
        })
  stepped-Shows = record {
    cards = λ q l e. elim (Bool-cases (p == q)) [
      | inl h ↦
          let same : k ≡ l = ground (arith, e, h) in
          (
            c',
            ground (arith, alive', h),
            ground (arith, fd, same),
            ground (arith, events, same),
            λ x. ground (arith, x, old, same),
          )
      | inr h ↦ keeps-Known q l (λ x. ground (arith, h, x)) (ground (arith, e, h))
    ];
    channels_agree = λ j. ground (arith, entry j, shows.channels_agree j);
    interest_agree = λ j. elim (Bool-cases (k.fd == j)) [
      | inl h ↦ let same : k.fd ≡ j = ground (arith, h) in rw (← same) (here ∙ ground arith)
      | inr h ↦
          elsewhere j (λ x. ground (arith, h, x)) ∙ (shows.interest_agree j ∙ ground (arith, h))
    ];
  }

may-use :
    (w : PollPoller) (s : Watch) (p : ℕ) (k : Card) (c : Channel) (f : Events → Events)
    → Shows (λ q. find q w.objects) (λ j. find j w.channels) (asked_for w) s
    → c.fd ≡ k.fd
    → c.events ≡ k.events
    → (k.is_new ≡ true → c.index ≡ negsuc 0)
    → ((s.channels k.fd ≡ none) × (k.is_new ≡ true) × (is_none (f k.events) ≡ false))
      ⊎ ((s.channels k.fd ≡ some p) × ((is_none k.events ≡ false) ⊎ (is_none (f k.events) ≡ false)))
    → MayUse w p c (f c.events)
unfolding is_none_event
may-use w s p k c f shows fd events fresh (inl (free, new, wants)) =
    inl (rw fd (shows.channels_agree k.fd ∙ free), fresh new, rw events wants)
may-use w s p k c f shows fd events fresh (inr (mapped, busy)) =
    inr (rw fd (shows.channels_agree k.fd ∙ mapped))

own_fd :
    (w : PollPoller) (p : ℕ) (c : Channel) (k : Card)
    → Inv w
    → find p w.objects ≡ some c
    → c.fd ≡ k.fd
    → (j : ℕ) → find j w.channels ≡ some p
    → j ≡ k.fd
own_fd w p c k inv alive fd j e =
    let m = inv.placed j p e in
    sym m.same_fd ∙ (ap (λ (d : Channel). d.fd) (some-injective m.alive alive) ∙ fd)

Registers-Stays :
    (w w' : PollPoller) (p n : ℕ) (c' : Channel) (slot : PollFd)
    → Registers w w' p n c' slot
    → (q : ℕ) (d : Channel) → q ≢ p
    → find q w.objects ≡ some d
    → Stays w' q d
Registers-Stays w w' p n c' slot r q d other at =
    (d, ground (arith, r.objects q, other, at), refl, refl, λ x. x)

run-obeys :
    (c : Command) (w : PollPoller) (s : Watch)
    → Refines w s
    → Allowed c s
    → (w' : PollPoller) × (run c w ≡ ok w') × Refines w' (after c s)
unfolding run
run-obeys (changes f p) w s v (k, card, may) =
    let (c, alive, fd, events, fresh) = v.shows.cards p k card in
    let (w', n, done, inv', r) =
      change_events-Registers f w p c v.inv alive
        (may-use w s p k c f v.shows fd events fresh may) in
    let c' = changed c (f c.events) n in
    let alive' : find p w'.objects ≡ some c' = ground (arith, r.objects p) in
    let mapped' : find k.fd w'.channels ≡ some p = ground (arith, r.channels k.fd, fd) in
    (
      w',
      done,
      rw (after-changes f p s k card) (record {
        inv = inv';
        shows =
            stepped-Shows w w' s p c' (some p) (wanted (f k.events) p)
              (record { fd = k.fd; events = f k.events; is_new = false }) v.inv inv' v.shows alive'
              fd (ap f events) refl (own_fd w p c k v.inv alive fd)
              (λ j. ground (arith, r.channels j, fd)) (Registers-Stays w w' p n c' (slot_of c') r)
              (asked_for-registered w' inv' k.fd p c' mapped' alive'
                ∙ ap (λ e. wanted (f e) p) events);
      }),
    )
run-obeys (removes p) w s v (k, card, mapped, quiet) =
    let (c, alive, fd, events, fresh) = v.shows.cards p k card in
    let (w', done, inv', r) =
      remove-Removes w p c v.inv alive (rw fd (v.shows.channels_agree k.fd ∙ mapped))
        (events ∙ quiet) in
    (
      w',
      done,
      rw (after-removes p s k card) (record {
        inv = inv';
        shows =
            stepped-Shows w w' s p (record c { added_to_loop = false }) none none
              (record k { is_new = false }) v.inv inv' v.shows r.removed fd events refl
              (own_fd w p c k v.inv alive fd) (λ j. ground (arith, r.channels j, fd)) r.others
              (asked_for-free w' inv' k.fd (ground (arith, r.channels k.fd, fd)));
      }),
    )

-- The poll poller obeys every allowed command and asks poll(2) for what the channels want.
pub poll-IsPoller : IsPoller PollPoller run asked_for Refines
poll-IsPoller = record { obeys = run-obeys; asks = λ w s r j. r.shows.interest_agree j }
