-- ===== src/Net/PollPoller/Registration.antt =====
-- `enableReading` and its like, and `remove`, with the poll poller.
use dxian.Prelude.{
  get_elem?-lt, ℕ, ◌-◌, ◌≡◌, ◌⊎◌, inl, inr, refl, true, false, none, some, List, [], ◌∷◌, ◌++◌,
  arith, ◌||◌, length, length-append, set,
}
use dxian.Prelude.Int.{pos, negsuc}
use dxian.Net.Store.{find, put, find-put}
use dxian.Net.Poller.{Result, ok, eq_ℤ}
use dxian.Net.Channel.{Channel, Events, none_event, is_none_event}
use dxian.Net.PollPoller.{
  PollPoller, PollFd, set_index, add_new, update_existing, update_channel, change_events,
}
use dxian.Net.PollPoller.Vector.{get_elem?-push_back, get_elem?-set}
use dxian.Net.PollPoller.Invariant.{Inv, Placed, Fits, Registers, MayTake, fd_of, registered-Inv}

-- The channel as it is changed, at the place `n`, and its descriptor there.
abbrev pub changed : Channel → Events → ℕ → Channel
changed c e n = record c { events = e; added_to_loop = true; index = pos n }

abbrev pub slot_of : Channel → PollFd
slot_of c = record { fd = fd_of c; events = c.events; revents = none_event }

-- A channel may be registered if its descriptor is free, it is new and it wants some event, or if it is registered.
abbrev pub MayUse : PollPoller → ℕ → Channel → Events → Type 0
MayUse w p c e =
    ((find c.fd w.channels ≡ none)
      × (c.index ≡ negsuc 0)
      × (is_none_event (record c { events = e }) ≡ false))
    ⊎ (find c.fd w.channels ≡ some p)

Change : PollPoller → ℕ → Channel → Events → Result PollPoller → Type 0
Change w p c e r =
    (w' : PollPoller) × (n : ℕ) × (r ≡ ok w')
    × MayTake w p n c
    × Registers w w' p n (changed c e n) (slot_of (changed c e n))

-- Only the events matter.
changed-none :
    (c : Channel) (e : Events) (n : ℕ)
    → is_none_event (changed c e n) ≡ is_none_event (record c { events = e })
unfolding is_none_event
changed-none c e n = refl

push_back_size {ℓ} : {A : Type ℓ} (xs : List A) (v : A) → length (xs ++ v ∷ []) - 1 ≡ length xs
push_back_size xs v = omega (arith, length-append xs (v ∷ []))

added-Change :
    (w : PollPoller) (p : ℕ) (c : Channel) (e : Events)
    → find p w.objects ≡ some c
    → find c.fd w.channels ≡ none
    → c.index ≡ negsuc 0
    → is_none_event (record c { events = e }) ≡ false
    → Change w p c e (
        add_new p
          (record c { events = e; added_to_loop = true })
          (record w { objects = put p (record c { events = e; added_to_loop = true }) w.objects }))
unfolding Change add_new set_index
added-Change w p c e alive free new wanted =
    let c1 : Channel = record c { events = e; added_to_loop = true } in
    let n = length w.pollfds in
    let c2 = changed c e n in
    let o1 = put p c1 w.objects in
    let slot : PollFd = record { fd = pos c.fd; events = e; revents = none_event } in
    (
      record w {
        pollfds = w.pollfds ++ slot ∷ [];
        objects = put p c2 o1;
        channels = put c.fd p w.channels;
      },
      n,
      ground (arith, find-put p p c1 w.objects, free, push_back_size w.pollfds slot),
      inl (free, refl, new),
      record {
        objects = λ j. ground (arith, find-put p j c1 w.objects, find-put p j c2 o1);
        channels = λ j. find-put c.fd j p w.channels;
        pollfds =
            λ i. ground (arith, get_elem?-push_back w.pollfds slot i, wanted, changed-none c e n);
      },
    )

Fits-either :
    (c : Channel) (slot : PollFd) (fd : ℕ)
    → Fits c slot
    → c.fd ≡ fd
    → eq_ℤ slot.fd (pos fd) || eq_ℤ slot.fd (negsuc fd) ≡ true
Fits-either c slot fd f e = ground (arith, f.slot_fd, e)

updated-Change :
    (w : PollPoller) (p : ℕ) (c : Channel) (e : Events)
    → find p w.objects ≡ some c
    → (m : Placed w c.fd p) → find c.fd w.channels ≡ some p
    → Change w p c e (
        update_existing p
          (record c { events = e; added_to_loop = true })
          (record w { objects = put p (record c { events = e; added_to_loop = true }) w.objects }))
unfolding Change update_existing
updated-Change w p c e alive m mapped =
    let n = m.place in
    let index : c.index ≡ pos n = ground (arith, m.alive, alive, m.index) in
    (
      record w {
        pollfds = set w.pollfds n (slot_of (changed c e n));
        objects = put p (changed c e n) w.objects;
      },
      n,
      rw (mapped, index, m.at, Fits-either m.chan m.slot c.fd m.fits m.same_fd, changed-none c e n)
          (ground arith),
      inr (mapped, index),
      record {
        objects = λ j. find-put p j (changed c e n) w.objects;
        channels = λ j. ground (arith, mapped);
        pollfds = λ i.
            get_elem?-set w.pollfds n i (slot_of (changed c e n))
              (get_elem?-lt w.pollfds n m.slot m.at);
      },
    )

-- A change of the events of a channel succeeds and keeps the invariant, when the channel is registered, or is new,
-- has a free descriptor and wants some event. Its descriptor is at the channel's place, with the new events, and ignored
-- if there are none; no other channel, entry of the map or place changes.
pub change_events-Registers :
    (change : Events → Events) (w : PollPoller) (p : ℕ) (c : Channel)
    → Inv w
    → find p w.objects ≡ some c
    → MayUse w p c (change c.events)
    → (w' : PollPoller) × (n : ℕ) × (change_events change p w ≡ ok w')
      × Inv w'
      × Registers w w' p n (changed c (change c.events) n) (slot_of (changed c (change c.events) n))
unfolding change_events update_channel Change
change_events-Registers change w p c inv alive (inl (free, new, wanted)) =
    let e = change c.events in
    let c1 : Channel = record c { events = e; added_to_loop = true } in
    let (w', n, done, may, r) = added-Change w p c e alive free new wanted in
    (
      w',
      n,
      ground (arith, alive, find-put p p c1 w.objects, new, done),
      registered-Inv w w' p n c (changed c e n) (slot_of (changed c e n)) inv alive refl refl
          (record { events = refl; slot_fd = refl }) may r,
      r,
    )
change_events-Registers change w p c inv alive (inr mapped) =
    let e = change c.events in
    let c1 : Channel = record c { events = e; added_to_loop = true } in
    let k = inv.placed c.fd p mapped in
    let (w', n, done, may, r) = updated-Change w p c e alive k mapped in
    (
      w',
      n,
      ground (arith, alive, find-put p p c1 w.objects, k.alive, k.index, done),
      registered-Inv w w' p n c (changed c e n) (slot_of (changed c e n)) inv alive refl refl
          (record { events = refl; slot_fd = refl }) may r,
      r,
    )
