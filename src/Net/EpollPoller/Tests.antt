-- ===== src/Net/EpollPoller/Tests.antt =====
-- The theorems about the poller, with an interest list for the kernel and one channel.
use dxian.Prelude.{
  ℕ, ◌≤◌, ◌<◌, ◌≡◌, inl, refl, Bool, true, false, Option, none, some, List, [], ◌∷◌, arith,
  if◌then◌else◌,
}
use dxian.Net.Store.{find, put, drop_key, find-put, find-drop_key}
use dxian.Net.Channel.{Channel, Events, none_event, read_event, enable_reading}
use dxian.Net.EpollPoller.{
  EpollPoller, Op, add, mod_events, del, ok, new_index, added_index, change_events, remove, poll,
}
use dxian.Net.EpollPoller.Invariant.{IsEpoll, Inv, Rewires}
use dxian.Net.EpollPoller.Registration.{changed, entry, change_events-Rewires, remove-Rewires}
use dxian.Net.EpollPoller.Polling.{Received, addresses, poll-reports}

abbrev Interest : Type 0
Interest = List (ℕ × (Events × ℕ))

abbrev is_in : Option (Events × ℕ) → Bool
is_in none = false
is_in (some x) = true

-- epoll(7) by its documentation: EEXIST and ENOENT are the failures.
abbrev kernel_ctl : Op → ℕ → Events → ℕ → Interest → Interest × Bool
kernel_ctl add fd e p k = if is_in (find fd k) then (k, false) else (put fd (e, p) k, true)
kernel_ctl mod_events fd e p k = if is_in (find fd k) then (put fd (e, p) k, true) else (k, false)
kernel_ctl del fd e p k = if is_in (find fd k) then (drop_key fd k, true) else (k, false)

abbrev interest_of : Interest → ℕ → Option (Events × ℕ)
interest_of k fd = find fd k

kernel-IsEpoll : IsEpoll kernel_ctl interest_of
kernel-IsEpoll = record {
  adds = λ fd e p k h. (ground (arith, h), λ j. ground (arith, h, find-put fd j (e, p) k));
  mods = λ fd e p k x h. (ground (arith, h), λ j. ground (arith, h, find-put fd j (e, p) k));
  dels = λ fd e p k x h. (ground (arith, h), λ j. ground (arith, h, find-drop_key fd j k));
}

-- A channel at the address 1 for the descriptor 5: new, and then reading.
abbrev fresh : Channel
fresh = record {
  fd = 5;
  events = none_event;
  revents = none_event;
  index = new_index;
  log_hup = true;
  tied = false;
  event_handling = false;
  added_to_loop = false;
  read_callback = true;
  write_callback = false;
  close_callback = false;
  error_callback = false;
}

abbrev reading : Channel
reading = record fresh { events = read_event; index = added_index; added_to_loop = true }

abbrev start : EpollPoller Interest
start = record { kernel = []; channels = []; objects = (1, fresh) ∷ []; events_size = 16 }

abbrev watching : EpollPoller Interest
watching = record {
  kernel = (5, (read_event, 1)) ∷ [];
  channels = (5, 1) ∷ [];
  objects = (1, reading) ∷ [];
  events_size = 1;
}

abbrev quiet : EpollPoller Interest
quiet = record {
  kernel = (5, (none_event, 1)) ∷ [];
  channels = (5, 1) ∷ [];
  objects = (1, record reading { events = none_event }) ∷ [];
  events_size = 1;
}

start-Inv : Inv interest_of start
unfolding find
start-Inv = record {
  mapped = λ fd p e. ground arith;
  unmapped = λ fd e. refl;
  known = λ p c e. ground arith;
}

one_entry-Inv :
    (e : Events)
    → Inv interest_of (record {
      kernel = (5, (e, 1)) ∷ [];
      channels = (5, 1) ∷ [];
      objects = (1, record reading { events = e }) ∷ [];
      events_size = 1;
    })
unfolding find
one_entry-Inv e = record {
  mapped = λ fd p h. record {
    chan = record reading { events = e };
    alive = ground arith;
    same_fd = ground arith;
    watches = ground arith;
  };
  unmapped = λ fd h. ground arith;
  known = λ p c h. ground arith;
}

change_events-Rewires_example :
    (w' : EpollPoller Interest) × (change_events kernel_ctl enable_reading 1 start ≡ ok w')
    × Inv interest_of w'
    × Rewires interest_of start w' 1
        (changed fresh (enable_reading none_event))
        (some 1)
        (entry fresh 1 (enable_reading none_event))
unfolding find
change_events-Rewires_example =
    change_events-Rewires kernel_ctl interest_of kernel-IsEpoll enable_reading start 1 fresh
      start-Inv refl (inl (refl, refl))

remove-Rewires_example :
    (w' : EpollPoller Interest) × (remove kernel_ctl 1 quiet ≡ ok w')
    × Inv interest_of w'
    × Rewires interest_of quiet w' 1
        (record reading { events = none_event; added_to_loop = false; index = new_index })
        none
        none
unfolding find
remove-Rewires_example =
    remove-Rewires kernel_ctl interest_of kernel-IsEpoll quiet 1
      (record reading { events = none_event }) (one_entry-Inv none_event) refl refl refl

poll-reports_example :
    (w' : EpollPoller Interest) × (poll kernel_ctl (some ((1, read_event) ∷ [])) watching
      ≡ ok (w', addresses kernel_ctl interest_of ((1, read_event) ∷ [])))
    × Inv interest_of w'
    × Received kernel_ctl interest_of ((1, read_event) ∷ []) w'.objects
    × (1 < w'.events_size)
    × (1 ≤ w'.events_size)
unfolding find
poll-reports_example =
    poll-reports kernel_ctl interest_of ((1, read_event) ∷ []) watching (one_entry-Inv read_event)
      ((5, read_event, refl), tt) (tt, tt) (omega arith) (omega arith)
