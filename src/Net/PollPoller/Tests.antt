-- ===== src/Net/PollPoller/Tests.antt =====
-- The theorems about the poll poller, with two channels.
use dxian.Prelude.{
  ℕ, zero, suc, ◌≡◌, inl, refl, sym, ap, get_elem?, true, false, some, List, [], ◌∷◌, arith,
}
use dxian.Prelude.Int.{ℤ, pos, negsuc}
use dxian.Net.Store.{find, put, drop_key}
use dxian.Net.Channel.{
  Channel, Events, none_event, read_event, enable_reading, union, is_none_event,
}
use dxian.Net.Poller.{ok, fault, ◌>>=◌}
use dxian.Net.PollPoller.{
  PollPoller, PollFd, descriptor, change_events, remove, poll, eq_events, set_index, add_new,
  update_existing, update_channel, remove_channel, swap_out, same,
}
use dxian.Net.PollPoller.Invariant.{Inv, Registers, fd_of}
use dxian.Net.PollPoller.Registration.{changed, slot_of, change_events-Registers}
use dxian.Net.PollPoller.Removal.{remove-Removes}
use dxian.Net.PollPoller.Swap.{Removes}
use dxian.Net.PollPoller.Polling.{Polled, Reported, poll-Reported}

-- A new channel for the descriptor 5, and one that is registered for the descriptor 6.
abbrev fresh : Channel
fresh = record {
  fd = 5;
  events = none_event;
  revents = none_event;
  index = negsuc 0;
  log_hup = true;
  tied = false;
  event_handling = false;
  added_to_loop = false;
  read_callback = true;
  write_callback = false;
  close_callback = false;
  error_callback = false;
}

abbrev registered : Events → Channel
registered e = record fresh { fd = 6; events = e; index = pos 0; added_to_loop = true }

abbrev with_one : Events → ℤ → PollPoller
with_one e fd = record {
  pollfds = record { fd = fd; events = e; revents = none_event } ∷ [];
  channels = (6, 2) ∷ [];
  objects = (1, fresh) ∷ (2, registered e) ∷ [];
}

single : (i : ℕ) (x y : PollFd) → get_elem? (x ∷ []) i ≡ some y → (i ≡ 0) × (x ≡ y)
single zero x y e = (refl, ground (arith, e))
single (suc i) x y e = absurd (ground (arith, e))

with_one-Inv :
    (e : Events) (fd : ℤ) → fd ≡ fd_of (registered e) → descriptor fd ≡ 6 → Inv (with_one e fd)
unfolding find is_none_event
with_one-Inv e fd same six = record {
  placed = λ j p h. record {
    chan = registered e;
    alive = ground arith;
    same_fd = ground arith;
    place = 0;
    index = refl;
    slot = record { fd = fd; events = e; revents = none_event };
    at = refl;
    fits = record { events = refl; slot_fd = same };
  };
  owned = λ i x h.
      let (first, here) = single i (record { fd = fd; events = e; revents = none_event }) x h in
      record {
        owner = 2;
        chan = registered e;
        mapped = ground (arith, six, ap (λ (y : PollFd). descriptor y.fd) here);
        alive = refl;
        index = ap pos (sym first);
      };
}

change_events-Registers_example :
    (w' : PollPoller) × (n : ℕ) × (change_events enable_reading 1 (with_one read_event (pos 6))
      ≡ ok w')
    × Inv w'
    × Registers
        (with_one read_event (pos 6))
        w'
        1
        n
        (changed fresh (enable_reading none_event) n)
        (slot_of (changed fresh (enable_reading none_event) n))
unfolding find is_none_event enable_reading union
change_events-Registers_example =
    change_events-Registers enable_reading (with_one read_event (pos 6)) 1 fresh
      (with_one-Inv read_event (pos 6) refl refl) refl (inl (refl, refl, refl))

remove-Removes_example :
    (w' : PollPoller) × (remove 2 (with_one none_event (negsuc 6)) ≡ ok w')
    × Inv w'
    × Removes (with_one none_event (negsuc 6)) w' 2 (registered none_event)
unfolding find is_none_event
remove-Removes_example =
    remove-Removes (with_one none_event (negsuc 6)) 2 (registered none_event)
      (with_one-Inv none_event (negsuc 6) refl refl) refl refl refl

-- poll(2) finds something to read at the first descriptor.
abbrev readable : List PollFd → List PollFd
readable [] = []
readable (x ∷ xs) = record x { revents = read_event } ∷ xs

readable-Polled : (x : PollFd) (n : ℕ) → x.fd ≡ pos n → Polled (x ∷ []) (readable (x ∷ []))
readable-Polled x n watched = record {
  kept = λ i y e.
      let (first, here) = single i x y e in
      (
        record x { revents = read_event },
        ground (arith, first),
        ap (λ (z : PollFd). z.fd) here,
        ap (λ (z : PollFd). z.events) here,
      );
  from = λ i y e.
      let (first, here) = single i (record x { revents = read_event }) y e in
      (
        x,
        ground (arith, first),
        sym (ap (λ (z : PollFd). z.fd) here),
        sym (ap (λ (z : PollFd). z.events) here),
      );
  ignored = λ i m y e f.
      let (first, here) = single i (record x { revents = read_event }) y e in
      absurd (ground (arith, ap (λ (z : PollFd). z.fd) here, f, watched));
}

poll-Reported_example :
    (w' : PollPoller) × (active : List ℕ) × (poll
        (λ fds. some (readable fds, 1))
        (with_one read_event (pos 6))
      ≡ ok (w', active))
    × Inv w'
    × (w'.channels ≡ (6, 2) ∷ [])
    × Reported
        (with_one read_event (pos 6))
        (readable (with_one read_event (pos 6)).pollfds)
        1
        w'
        active
unfolding is_none_event
poll-Reported_example =
    poll-Reported (λ fds. some (readable fds, 1)) (with_one read_event (pos 6))
      (readable (with_one read_event (pos 6)).pollfds) 1 (with_one-Inv read_event (pos 6) refl refl)
      refl
      (readable-Polled (record { fd = pos 6; events = read_event; revents = none_event }) 6 refl)

-- A channel that is registered without events is not ignored, so it cannot be removed.
removed_quiet :
    (change_events (λ e. none_event) 1 (with_one read_event (pos 6)) >>= remove 1) ≡ fault
unfolding find put change_events update_channel add_new set_index remove remove_channel
    is_none_event eq_events
removed_quiet = refl

-- A channel that was removed keeps its index, so it cannot be registered again.
removed_again :
    (remove 2 (with_one none_event (negsuc 6)) >>= change_events enable_reading 2) ≡ fault
unfolding find put drop_key change_events update_channel update_existing remove remove_channel
    swap_out is_none_event eq_events same
removed_again = refl
