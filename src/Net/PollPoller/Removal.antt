-- ===== src/Net/PollPoller/Removal.antt =====
-- `remove` with the poll poller.
use dxian.Prelude.{
  get_elem?-lt, ℕ, ◌-◌, ◌≡◌, inl, inr, refl, sym, subst, ◌∙◌, true, false, some, arith, Bool-cases,
  ◌==◌, ◌&&◌, length,
}
use dxian.Prelude.Int.{pos, negsuc}
use dxian.Net.Store.{find, put, drop_key, find-put}
use dxian.Net.Poller.{ok, eq_ℤ}
use dxian.Net.Channel.{Channel, none_event, is_none_event}
use dxian.Net.PollPoller.{PollPoller, PollFd, at_index, eq_events, swap_out, remove_channel, remove}
use dxian.Net.PollPoller.Vector.{get_elem?-last}
use dxian.Net.PollPoller.Invariant.{Inv, Placed, Fits, some-injective}
use dxian.Net.PollPoller.Swap.{Removes, Swapped, swap_last, swap_inside}

none_event-none : (c : Channel) → c.events ≡ none_event → is_none_event c ≡ true
unfolding is_none_event
none_event-none c h = ground (arith, h)

no_events : eq_events none_event none_event ≡ true
unfolding eq_events
no_events = refl

ignored :
    (c : Channel) (slot : PollFd)
    → c.events ≡ none_event
    → Fits c slot
    → eq_ℤ slot.fd (negsuc c.fd) && eq_events slot.events c.events ≡ true
ignored c slot h f =
    let e : slot.events ≡ none_event = f.events ∙ h in
    let fd : slot.fd ≡ negsuc c.fd = ground (arith, f.slot_fd, none_event-none c h) in
    rw (fd, e, h, no_events) (ground arith)

swapped :
    (w : PollPoller) (p : ℕ) (c : Channel) (inv : Inv w) (alive : find p w.objects ≡ some c)
    (mapped : find c.fd w.channels ≡ some p) (m : Placed w c.fd p)
    → Swapped w p c inv alive mapped m
        (length w.pollfds - 1)
        (omega (arith, get_elem?-lt w.pollfds m.place m.slot m.at))
swapped w p c inv alive mapped m =
    let low = get_elem?-lt w.pollfds m.place m.slot m.at in
    let (back, at_back) = get_elem?-last w.pollfds (omega arith) in
    elim (Bool-cases (m.place == length w.pollfds - 1)) [
      | inl h ↦
          swap_last w p c inv alive mapped m (length w.pollfds - 1) (omega (arith, low))
            (ground (arith, h))
      | inr h ↦
          swap_inside w p c inv alive mapped m (length w.pollfds - 1) (omega (arith, low)) back
            at_back (λ x. ground (arith, h, x)) (inv.owned (length w.pollfds - 1) back at_back)
    ]

marked-none :
    (c : Channel)
    → c.events ≡ none_event
    → is_none_event (record c { added_to_loop = false }) ≡ true
marked-none c h = none_event-none (record c { added_to_loop = false }) h

remove-eq :
    (w : PollPoller) (p : ℕ) (c : Channel) (slot : PollFd)
    → find p w.objects ≡ some c
    → find c.fd w.channels ≡ some p
    → c.events ≡ none_event
    → at_index c.index w.pollfds ≡ some slot
    → Fits c slot
    → remove p w
      ≡ swap_out c.index slot (record w {
        channels = drop_key c.fd w.channels;
        objects = put p (record c { added_to_loop = false }) w.objects;
      })
unfolding remove remove_channel
remove-eq w p c slot alive mapped quiet at f =
    let c1 : Channel = record c { added_to_loop = false } in
    let alive' : find p (put p c1 w.objects) ≡ some c1 =
      ground (arith, find-put p p c1 w.objects) in
    rw (alive, none_event-none c quiet)
      (rw (alive') rw (mapped, marked-none c quiet, at, ignored c slot quiet f) (ground arith))

-- `remove` of a registered channel without events fails no assertion and keeps the invariant. The channel's
-- descriptor is not in the map any more, so by the invariant it is not in `pollfds_` either. Every other
-- channel keeps its descriptor, its events and its entry in the map.
pub remove-Removes :
    (w : PollPoller) (p : ℕ) (c : Channel)
    → Inv w
    → find p w.objects ≡ some c
    → find c.fd w.channels ≡ some p
    → c.events ≡ none_event
    → (w' : PollPoller) × (remove p w ≡ ok w') × Inv w' × Removes w w' p c
unfolding remove remove_channel
remove-Removes w p c inv alive mapped quiet =
    let m = inv.placed c.fd p mapped in
    let same : m.chan ≡ c = some-injective m.alive alive in
    let c1 : Channel = record c { added_to_loop = false } in
    let index : c.index ≡ pos m.place = ground (arith, same, m.index) in
    let f : Fits c m.slot = subst (λ d. Fits d m.slot) same m.fits in
    let (w', done, inv', removes) = swapped w p c inv alive mapped m in
    (
      w',
      remove-eq w p c m.slot alive mapped quiet (rw index m.at) f
          ∙ subst
              (λ i.
                swap_out i m.slot
                  (record w { channels = drop_key c.fd w.channels; objects = put p c1 w.objects })
                ≡ ok w')
              (sym index) done,
      inv',
      removes,
    )
