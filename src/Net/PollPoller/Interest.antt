-- ===== src/Net/PollPoller/Interest.antt =====
-- What poll(2) is asked for, at each descriptor.
use dxian.Prelude.{
  ℕ, zero, suc, ◌≡◌, inl, inr, refl, ap, subst, sym, ◌∙◌, true, false, not, Option, none, some,
  List, [], ◌∷◌, arith, Bool-cases, if◌then◌else◌, get_elem?,
}
use dxian.Prelude.Int.{pos}
use dxian.Net.Store.{find}
use dxian.Net.Channel.{Channel, Events, is_none, is_none_event}
use dxian.Net.Poller.{eq_ℤ}
use dxian.Net.Poller.Watch.{wanted}
use dxian.Net.PollPoller.{PollPoller, PollFd}
use dxian.Net.PollPoller.Invariant.{Inv, Placed, Owned, Fits, some-injective}

-- The events that poll(2) is asked for on a descriptor: those of its first place in `pollfds_`.
abbrev pub asked : ℕ → List PollFd → Option Events
asked j [] = none
asked j (x ∷ xs) = if eq_ℤ x.fd (pos j) then some x.events else asked j xs

-- The channel for which it is asked is that of the map.
abbrev pub for_channel : Option Events → Option ℕ → Option (Events × ℕ)
for_channel none at = none
for_channel (some e) none = none
for_channel (some e) (some p) = some (e, p)

pub asked_for : PollPoller → ℕ → Option (Events × ℕ)
asked_for w j = for_channel (asked j w.pollfds) (find j w.channels)

asked-none :
    (j : ℕ) (xs : List PollFd)
    → ((i : ℕ) (x : PollFd) → get_elem? xs i ≡ some x → eq_ℤ x.fd (pos j) ≡ false)
    → asked j xs ≡ none
asked-none j [] h = refl
asked-none j (x ∷ xs) h = ground (arith, h zero x refl, asked-none j xs (λ i y e. h (suc i) y e))

asked-some :
    (j i : ℕ) (e : Events) (x : PollFd) (xs : List PollFd)
    → get_elem? xs i ≡ some x
    → eq_ℤ x.fd (pos j) ≡ true
    → ((i : ℕ) (y : PollFd) → get_elem? xs i ≡ some y → eq_ℤ y.fd (pos j) ≡ true → y.events ≡ e)
    → asked j xs ≡ some e
asked-some j i e x [] at here same = ground arith
asked-some j zero e x (y ∷ ys) at here same = ground (arith, same zero y refl)
asked-some j (suc i) e x (y ∷ ys) at here same = elim (Bool-cases (eq_ℤ y.fd (pos j))) [
  | inl h ↦ ground (arith, h, same zero y refl h)
  | inr h ↦ ground (arith, h, asked-some j i e x ys at here (λ k z f. same (suc k) z f))
]

Fits-asked :
    (c : Channel) (x : PollFd) (j : ℕ)
    → Fits c x
    → c.fd ≡ j
    → eq_ℤ x.fd (pos j) ≡ not (is_none c.events)
unfolding is_none_event
Fits-asked c x j f e = ground (arith, f.slot_fd, e)

module _ (w : PollPoller) (inv : Inv w) where
  -- The place of a descriptor in `pollfds_` belongs to its channel in the map.
  owner-of :
      (i j : ℕ) (x : PollFd)
      → get_elem? w.pollfds i ≡ some x
      → eq_ℤ x.fd (pos j) ≡ true
      → (o : Owned w i x) × (find j w.channels ≡ some o.owner)
  owner-of i j x at h = let o = inv.owned i x at in (o, ground (arith, h, o.mapped))

  pub asked_for-free : (j : ℕ) → find j w.channels ≡ none → asked_for w j ≡ none
  unfolding asked_for
  asked_for-free j h = rw h (ground arith)

  same_slot :
      (j p i : ℕ) (m : Placed w j p) (x : PollFd)
      → find j w.channels ≡ some p
      → get_elem? w.pollfds i ≡ some x
      → eq_ℤ x.fd (pos j) ≡ true
      → x ≡ m.slot
  same_slot j p i m x mapped at h =
      let (o, mapped') = owner-of i j x at h in
      let same : o.owner ≡ p = some-injective mapped' mapped in
      let place : i ≡ m.place = ground (arith, o.alive, m.alive, same, o.index, m.index) in
      some-injective at (rw place m.at)

  at_slot :
      (j p i : ℕ) (m : Placed w j p) (x : PollFd)
      → find j w.channels ≡ some p
      → is_none m.chan.events ≡ true
      → get_elem? w.pollfds i ≡ some x
      → eq_ℤ x.fd (pos j) ≡ false
  at_slot j p i m x mapped quiet at = elim (Bool-cases (eq_ℤ x.fd (pos j))) [
    | inl e ↦
        subst (λ y. eq_ℤ y.fd (pos j) ≡ false) (sym (same_slot j p i m x mapped at e))
          (Fits-asked m.chan m.slot j m.fits m.same_fd ∙ ap not quiet)
    | inr e ↦ e
  ]

  asked_for-Placed :
      (j p : ℕ) (m : Placed w j p)
      → find j w.channels ≡ some p
      → asked_for w j ≡ wanted m.chan.events p
  unfolding asked_for
  asked_for-Placed j p m mapped = elim (Bool-cases (is_none m.chan.events)) [
    | inl h ↦
        rw (asked-none j w.pollfds (λ i x at. at_slot j p i m x mapped h at)) (ground (arith, h))
    | inr h ↦
        let here : eq_ℤ m.slot.fd (pos j) ≡ true =
          Fits-asked m.chan m.slot j m.fits m.same_fd ∙ ap not h in
        rw
          (
            asked-some j m.place m.slot.events m.slot w.pollfds m.at here
                (λ i x at e. ap (λ (y : PollFd). y.events) (same_slot j p i m x mapped at e)),
            mapped,
          )
          (ap (λ e. some (e, p)) m.fits.events ∙ ground (arith, h))
  ]

  pub asked_for-registered :
      (j p : ℕ) (c : Channel)
      → find j w.channels ≡ some p
      → find p w.objects ≡ some c
      → asked_for w j ≡ wanted c.events p
  asked_for-registered j p c mapped alive =
      let m = inv.placed j p mapped in
      asked_for-Placed j p m mapped
      ∙ ap (λ (d : Channel). wanted d.events p) (some-injective m.alive alive)

pub asked_for-empty :
    (channels : List (ℕ × ℕ)) (objects : List (ℕ × Channel)) (j : ℕ)
    → asked_for (record { pollfds = []; channels = channels; objects = objects }) j ≡ none
unfolding asked_for
asked_for-empty channels objects j = refl
