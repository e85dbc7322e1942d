-- ===== src/Net/DefaultPoller/Tests.antt =====
-- Both pollers under the same commands.
use dxian.Prelude.{ℕ, Bool, true, false, Option, List, [], ◌∷◌}
use dxian.Prelude.Int.{negsuc}
use dxian.Net.Store.{find, put, drop_key}
use dxian.Net.Channel.{Channel, Events, none_event, enable_reading, enable_writing, disable_all}
use dxian.Net.Poller.Watch.{Command, changes, removes}
use dxian.Net.EpollPoller.{Op, add, mod_events, del}
use dxian.Net.DefaultPoller.{Poller}

abbrev Interest : Type 0
Interest = List (ℕ × (Events × ℕ))

-- epoll_ctl(2) with an unbounded list, whose ADD does not look for an entry.
abbrev kernel_ctl : Op → ℕ → Events → ℕ → Interest → Interest × Bool
kernel_ctl add fd e p k = (put fd (e, p) k, true)
kernel_ctl mod_events fd e p k = (put fd (e, p) k, true)
kernel_ctl del fd e p k = (drop_key fd k, true)

abbrev interest_of : Interest → ℕ → Option (Events × ℕ)
interest_of k fd = find fd k

abbrev no_channel : Channel
no_channel = record {
  fd = 5;
  events = none_event;
  revents = none_event;
  index = negsuc 0;
  log_hup = true;
  tied = false;
  event_handling = false;
  added_to_loop = false;
  read_callback = true;
  write_callback = false;
  close_callback = false;
  error_callback = false;
}

abbrev objects : List (ℕ × Channel)
objects = (1, no_channel) ∷ (2, record no_channel { fd = 6 }) ∷ []

-- The first of two channels is removed, and the second one takes its place in `pollfds_`.
abbrev commands : List Command
commands =
    changes enable_reading 1 ∷ changes enable_writing 2 ∷ changes disable_all 1 ∷ removes 1 ∷ []
