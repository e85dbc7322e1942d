-- ===== src/Net/Channel.antt =====
-- server/src/muduo/net/Channel.cpp and include/Channel.h.
--
-- A mask of poll(2) events is a record with one field for each bit that the source names. The
-- functions that are set as callbacks are a parameter: what a call makes of the channel. `handle_event` returns the channel
-- and the calls that it makes, the latest first, with the `eventHandling_` that each of them finds; among them are
-- the messages that it logs at the level of warnings.
pub mod Dispatch
mod Tests
use dxian.Prelude.{ℕ, Bool, true, false, not, ◌&&◌, ◌||◌, List, [], ◌∷◌, ◌++◌, if◌then◌else◌}
use dxian.Prelude.Int.{ℤ, negsuc}

pub record Events : Type 0 where
  pub pollin : Bool
  pub pollpri : Bool
  pub pollout : Bool
  pub pollerr : Bool
  pub pollhup : Bool
  pub pollnval : Bool
  pub pollrdhup : Bool

-- `a | b`, `a & ~b` and `(a & b) != 0`.
unfoldable pub union : Events → Events → Events
union a b = record {
  pollin = a.pollin || b.pollin;
  pollpri = a.pollpri || b.pollpri;
  pollout = a.pollout || b.pollout;
  pollerr = a.pollerr || b.pollerr;
  pollhup = a.pollhup || b.pollhup;
  pollnval = a.pollnval || b.pollnval;
  pollrdhup = a.pollrdhup || b.pollrdhup;
}

pub without : Events → Events → Events
without a b = record {
  pollin = a.pollin && not b.pollin;
  pollpri = a.pollpri && not b.pollpri;
  pollout = a.pollout && not b.pollout;
  pollerr = a.pollerr && not b.pollerr;
  pollhup = a.pollhup && not b.pollhup;
  pollnval = a.pollnval && not b.pollnval;
  pollrdhup = a.pollrdhup && not b.pollrdhup;
}

unfoldable pub meets : Events → Events → Bool
meets a b =
    a.pollin && b.pollin
    || a.pollpri && b.pollpri
    || a.pollout && b.pollout
    || a.pollerr && b.pollerr
    || a.pollhup && b.pollhup
    || a.pollnval && b.pollnval
    || a.pollrdhup && b.pollrdhup

abbrev pub none_event : Events
none_event = record {
  pollin = false;
  pollpri = false;
  pollout = false;
  pollerr = false;
  pollhup = false;
  pollnval = false;
  pollrdhup = false;
}

abbrev pub read_event : Events
read_event = record none_event { pollin = true; pollpri = true }

abbrev pub write_event : Events
write_event = record none_event { pollout = true }

-- A callback's field says whether one is set.
pub record Channel : Type 0 where
  pub fd : ℕ
  pub events : Events
  pub revents : Events
  pub index : ℤ
  pub log_hup : Bool
  pub tied : Bool
  pub event_handling : Bool
  pub added_to_loop : Bool
  pub read_callback : Bool
  pub write_callback : Bool
  pub close_callback : Bool
  pub error_callback : Bool

-- The constructor.
unfoldable pub channel : ℕ → Channel
channel fd = record {
  fd = fd;
  events = none_event;
  revents = none_event;
  index = negsuc 0;
  log_hup = true;
  tied = false;
  event_handling = false;
  added_to_loop = false;
  read_callback = false;
  write_callback = false;
  close_callback = false;
  error_callback = false;
}

-- No bit is set.
abbrev pub is_none : Events → Bool
is_none e =
    not (e.pollin || e.pollpri || e.pollout || e.pollerr || e.pollhup || e.pollnval || e.pollrdhup)

unfoldable pub is_none_event : Channel → Bool
is_none_event c = is_none c.events

pub is_writing : Channel → Bool
unfolding meets
is_writing c = meets c.events write_event

pub is_reading : Channel → Bool
unfolding meets
is_reading c = meets c.events read_event

-- How the members of that name change `events_`, before they call `update`.
unfoldable pub enable_reading : Events → Events
unfolding union
enable_reading e = union e read_event

pub disable_reading : Events → Events
unfolding without
disable_reading e = without e read_event

unfoldable pub enable_writing : Events → Events
unfolding union
enable_writing e = union e write_event

pub disable_writing : Events → Events
unfolding without
disable_writing e = without e write_event

unfoldable pub disable_all : Events → Events
disable_all e = none_event

-- `tie`.
pub tie : Channel → Channel
tie c = record c { tied = true }

pub data Call : Type 0 where
  warns_hup warns_nval closes errs : Call
  reads : ℕ → Call
  writes : Call

-- What a callback makes of the channel.
abbrev pub Callback : Type 0
Callback = Call → Channel → Channel

-- A call, if the test holds, and a message, which leaves the channel alone.
unfoldable pub do_call :
    Callback → Bool → Call → Channel × List (Call × Bool) → Channel × List (Call × Bool)
do_call effect test call s = if test then (effect call s.0, (call, s.0.event_handling) ∷ s.1) else s

unfoldable pub log_warning :
    Bool → Call → Channel × List (Call × Bool) → Channel × List (Call × Bool)
unfolding do_call
log_warning test call s = do_call (λ k c. c) test call s

abbrev pub error_mask : Events
error_mask = record none_event { pollerr = true; pollnval = true }

abbrev pub read_mask : Events
read_mask = record none_event { pollin = true; pollpri = true; pollrdhup = true }

-- The four tests of `handleEventWithGuard`, with what it does there.
unfoldable pub on_hup : Callback → Channel × List (Call × Bool) → Channel × List (Call × Bool)
unfolding log_warning do_call
on_hup effect s =
    let hup = s.0.revents.pollhup && not s.0.revents.pollin in
    let s' = log_warning (hup && s.0.log_hup) warns_hup s in
    do_call effect (hup && s'.0.close_callback) closes s'

unfoldable pub on_error : Callback → Channel × List (Call × Bool) → Channel × List (Call × Bool)
unfolding log_warning do_call meets
on_error effect s =
    let s' = log_warning s.0.revents.pollnval warns_nval s in
    do_call effect (meets s'.0.revents error_mask && s'.0.error_callback) errs s'

unfoldable pub on_read : Callback → ℕ → Channel × List (Call × Bool) → Channel × List (Call × Bool)
unfolding do_call meets
on_read effect receive_time s =
    do_call effect (meets s.0.revents read_mask && s.0.read_callback) (reads receive_time) s

unfoldable pub on_write : Callback → Channel × List (Call × Bool) → Channel × List (Call × Bool)
unfolding do_call
on_write effect s = do_call effect (s.0.revents.pollout && s.0.write_callback) writes s

unfoldable pub handle_event_with_guard : Callback → ℕ → Channel → Channel × List (Call × Bool)
unfolding on_hup on_error on_read on_write
handle_event_with_guard effect receive_time c =
    let s = on_write effect (
      on_read effect receive_time
        (on_error effect (on_hup effect (record c { event_handling = true }, [])))) in
    (record s.0 { event_handling = false }, s.1)

-- `locked` is what `tie_.lock()` gives: the owner is still alive.
unfoldable pub handle_event : Callback → Bool → ℕ → Channel → Channel × List (Call × Bool)
unfolding handle_event_with_guard
handle_event effect locked receive_time c =
    if c.tied
    then (if locked then handle_event_with_guard effect receive_time c else (c, []))
    else handle_event_with_guard effect receive_time c
