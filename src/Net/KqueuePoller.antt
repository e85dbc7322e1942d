-- ===== src/Net/KqueuePoller.antt =====
-- server/src/muduo/net/EpollPoller.cpp, in its version for macOS, which watches channels by kqueue(2).
--
-- The kernel's queue is a parameter: its states, and what `kevent` does to them with one change. The source ignores the result
-- of `kevent` for changes. A `Channel*` is a number, as in the version for Linux.
pub mod Filters
pub mod Assertions
mod Tests
use dxian.Prelude.{
  ℕ, ◌*◌, Bool, true, false, not, ◌||◌, Option, none, some, List, [], ◌∷◌, ◌++◌, ◌==◌, ltb, leb,
  if◌then◌else◌, length,
}
use dxian.Prelude.Int.{ℤ, pos, negsuc}
use dxian.Net.Poller.{
  Result, ok, fault, fatal, ◌>>=◌, ◌>>◌, ensure, deref, eq_ℤ, is_entry, is_missing,
}
use dxian.Net.Store.{find, put, drop_key}
use dxian.Net.Channel.{Channel, Events, is_none_event}
use dxian.Net.EpollPoller.{new_index, added_index, deleted_index}

-- EVFILT_READ and EVFILT_WRITE.
pub data Filter : Type 0 where
  read_filter write_filter : Filter

-- EV_ADD, EV_DELETE, EV_ENABLE and EV_DISABLE.
pub data Action : Type 0 where
  ev_add ev_delete ev_enable ev_disable : Action

-- `struct kevent`, as EV_SET fills it.
pub record Kevent : Type 0 where
  pub ident : ℕ
  pub filter : Filter
  pub action : Action
  pub udata : Option ℕ

pub record KqueuePoller (K : Type 0) : Type 0 where
  pub kernel : K
  pub channels : List (ℕ × ℕ)
  pub objects : List (ℕ × Channel)
  pub events_size : ℕ

abbrev all_events : Events
all_events = record {
  pollin = true;
  pollpri = true;
  pollout = true;
  pollerr = true;
  pollhup = true;
  pollnval = true;
  pollrdhup = true;
}

-- A filter's number as a mask: -1 has every bit, and -2 every bit but that of POLLIN.
abbrev pub filter_events : Filter → Events
filter_events read_filter = all_events
filter_events write_filter = record all_events { pollin = false }

abbrev change_of : ℕ → Filter → Action → Option ℕ → Kevent
change_of fd filter action udata = record {
  ident = fd;
  filter = filter;
  action = action;
  udata = udata;
}

module _ {K : Type 0} (kevent : Kevent → K → K) where
  -- EV_SET, and `kevent` with that change.
  abbrev pub ev_set : ℕ → Filter → Action → Option ℕ → K → K
  ev_set fd filter action udata k = kevent (change_of fd filter action udata) k

  abbrev pub add_filters : ℕ → Channel → K → K
  add_filters p c k =
      let k1 = if c.events.pollin then ev_set c.fd read_filter ev_add (some p) k else k in
      if c.events.pollout then ev_set c.fd write_filter ev_add (some p) k1 else k1

  abbrev pub delete_filters : Channel → K → K
  delete_filters c k =
      ev_set c.fd write_filter ev_delete none (ev_set c.fd read_filter ev_delete none k)

  abbrev pub modify_filters : ℕ → Channel → K → K
  modify_filters p c k =
      let k1 =
        if c.events.pollin
        then ev_set c.fd read_filter ev_enable (some p) k
        else ev_set c.fd read_filter ev_disable (some p) k in
      if c.events.pollout
      then ev_set c.fd write_filter ev_enable (some p) k1
      else ev_set c.fd write_filter ev_disable (some p) k1

  abbrev with_index : ℕ → Channel → ℤ → KqueuePoller K → KqueuePoller K
  with_index p c i w = record w { objects = put p (record c { index = i }) w.objects }

  pub update_channel : ℕ → KqueuePoller K → Result (KqueuePoller K)
  update_channel p w = do
    c ← deref (find p w.objects)
    if eq_ℤ c.index new_index || eq_ℤ c.index deleted_index
        then ok (with_index p c added_index (record w { kernel = add_filters p c w.kernel }))
        else if is_none_event c
        then (if eq_ℤ c.index added_index
            then ok (with_index p c deleted_index (record w { kernel = delete_filters c w.kernel }))
            else ok w)
        else ok (record w { kernel = modify_filters p c w.kernel })

  pub remove_channel : ℕ → KqueuePoller K → Result (KqueuePoller K)
  remove_channel p w = do
    c ← deref (find p w.objects)
    ensure (eq_ℤ c.index added_index || eq_ℤ c.index deleted_index)
    -- `channels_.erase(fd)`, which returns 1 if there was such a channel.
    ensure (not (is_missing (find c.fd w.channels)))
    let k = if eq_ℤ c.index added_index then delete_filters c w.kernel else w.kernel
    ok (with_index p c new_index (record w { kernel = k; channels = drop_key c.fd w.channels }))

  -- `Channel::enableReading` and its like: the new events, then `Channel::update`.
  pub change_events : (Events → Events) → ℕ → KqueuePoller K → Result (KqueuePoller K)
  change_events change p w = do
    c ← deref (find p w.objects)
    update_channel p (record w {
      objects = put p (record c { events = change c.events; added_to_loop = true }) w.objects;
    })

  -- `Channel::remove`.
  pub remove : ℕ → KqueuePoller K → Result (KqueuePoller K)
  remove p w = do
    c ← deref (find p w.objects)
    ensure (is_none_event c)
    remove_channel p (record w { objects = put p (record c { added_to_loop = false }) w.objects })

  -- The loop of `fillActiveChannels`, over the events that the kernel wrote: channel and filter.
  pub fill_active_channels :
      List (ℕ × Filter) → KqueuePoller K → List ℕ → Result (KqueuePoller K × List ℕ)
  fill_active_channels [] w active = ok (w, active)
  fill_active_channels ((p, f) ∷ reported) w active =
      (do
        c ← deref (find p w.objects)
        ensure (is_entry p (find c.fd w.channels))
        ok (record w { objects = put p (record c { revents = filter_events f }) w.objects }))
      >>= λ w'. fill_active_channels reported w' (active ++ p ∷ [])

  -- `poll`, at the reports of `kevent`: `none` stands for an error.
  pub poll : Option (List (ℕ × Filter)) → KqueuePoller K → Result (KqueuePoller K × List ℕ)
  poll none w = ok (w, [])
  poll (some reported) w =
      if ltb 0 (length reported)
      then (do
        ensure (leb (length reported) w.events_size)
        (w', active) ← fill_active_channels reported w []
        ok (
          (if length reported == w.events_size
              then record w' { events_size = w.events_size * 2 }
              else w'),
          active,
        ))
      else ok (w, [])

  -- What a program does with the poller, a new channel included.
  pub data Use : Type 0 where
    makes : ℕ → Channel → Use
    changes : (Events → Events) → ℕ → Use
    removes : ℕ → Use
    polls : Option (List (ℕ × Filter)) → Use

  abbrev without_active : KqueuePoller K × List ℕ → Result (KqueuePoller K)
  without_active (w, active) = ok w

  pub run : Use → KqueuePoller K → Result (KqueuePoller K)
  run (makes p c) w = ok (record w { objects = put p c w.objects })
  run (changes change p) w = change_events change p w
  run (removes p) w = remove p w
  run (polls reported) w = poll reported w >>= without_active

  pub run_all : List Use → KqueuePoller K → Result (KqueuePoller K)
  run_all [] w = ok w
  run_all (call ∷ calls) w = run call w >>= run_all calls

-- The constructor, with `kInitEventListSize`.
abbrev pub kqueue_poller : {K : Type 0} → K → KqueuePoller K
kqueue_poller k = record { kernel = k; channels = []; objects = []; events_size = 16 }
