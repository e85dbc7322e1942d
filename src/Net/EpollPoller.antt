-- ===== src/Net/EpollPoller.antt =====
-- server/src/muduo/net/EpollPoller.cpp, in its Linux version, and Poller.cpp.
--
-- A `Channel*` is a number, and the channels are a finite map from addresses. `channels` is the map
-- `channels_` from descriptors. The kernel's epoll instance is a parameter: its states, and what
-- `epoll_ctl` does to them, with `true` for success. An update that fails is fatal, except for
-- EPOLL_CTL_DEL, whose failure is logged.
mod Tests
pub mod Invariant
pub mod Polling
pub mod Registration
pub mod Refinement
use dxian.Prelude.{
  ℕ, ◌*◌, Bool, true, false, ◌&&◌, ◌||◌, Option, none, some, List, [], ◌∷◌, ◌++◌, ◌==◌, ltb, leb,
  if◌then◌else◌, length,
}
use dxian.Prelude.Int.{ℤ, pos, negsuc, pos_part, neg_part}
pub use dxian.Net.Poller.{
  Result, ok, fault, fatal, ◌>>=◌, ◌>>◌, ensure, deref, eq_ℤ, is_missing, is_entry,
}
use dxian.Net.Store.{find, put, drop_key}
use dxian.Net.Channel.{Channel, Events, is_none_event}

pub data Op : Type 0 where
  add mod_events del : Op

-- `kNew`, `kAdded` and `kDeleted`.
abbrev pub new_index : ℤ
new_index = negsuc 0

abbrev pub added_index : ℤ
added_index = pos 1

abbrev pub deleted_index : ℤ
deleted_index = pos 2

pub record EpollPoller (K : Type 0) : Type 0 where
  pub kernel : K
  pub channels : List (ℕ × ℕ)
  pub objects : List (ℕ × Channel)
  -- The size of `events_`.
  pub events_size : ℕ

module _ {K : Type 0} (epoll_ctl : Op → ℕ → Events → ℕ → K → K × Bool) where
  abbrev outcome : Op → Bool → EpollPoller K → Result (EpollPoller K)
  outcome op true w = ok w
  outcome add false w = fatal
  outcome mod_events false w = fatal
  outcome del false w = ok w

  -- `EPollPoller::update`.
  pub update : Op → ℕ → EpollPoller K → Result (EpollPoller K)
  update op p w = do
    c ← deref (find p w.objects)
    let (k, done) = epoll_ctl op c.fd c.events p w.kernel
    outcome op done (record w { kernel = k })

  pub set_index : ℕ → ℤ → EpollPoller K → Result (EpollPoller K)
  set_index p i w = do
    c ← deref (find p w.objects)
    ok (record w { objects = put p (record c { index = i }) w.objects })

  pub update_channel : ℕ → EpollPoller K → Result (EpollPoller K)
  update_channel p w = do
    c ← deref (find p w.objects)
    let at = find c.fd w.channels
    if eq_ℤ c.index new_index || eq_ℤ c.index deleted_index
        then (do
          w1 ←
              (if eq_ℤ c.index new_index
                then ensure (is_missing at) >> ok (record w { channels = put c.fd p w.channels })
                else ensure (is_entry p at) >> ok w)
          w2 ← set_index p added_index w1
          update add p w2)
        else (do
          ensure (is_entry p at)
          ensure (eq_ℤ c.index added_index)
          if is_none_event c
              then update del p w >>= set_index p deleted_index
              else update mod_events p w)

  pub remove_channel : ℕ → EpollPoller K → Result (EpollPoller K)
  remove_channel p w = do
    c ← deref (find p w.objects)
    ensure (is_entry p (find c.fd w.channels))
    ensure (is_none_event c)
    ensure (eq_ℤ c.index added_index || eq_ℤ c.index deleted_index)
    w1 ←
        (if eq_ℤ c.index added_index
          then update del p (record w { channels = drop_key c.fd w.channels })
          else ok (record w { channels = drop_key c.fd w.channels }))
    set_index p new_index w1

  -- `Channel::enableReading` and its like: the new events, then `Channel::update`.
  pub change_events : (Events → Events) → ℕ → EpollPoller K → Result (EpollPoller K)
  change_events change p w = do
    c ← deref (find p w.objects)
    update_channel p (record w {
      objects = put p (record c { events = change c.events; added_to_loop = true }) w.objects;
    })

  -- `Channel::remove`.
  pub remove : ℕ → EpollPoller K → Result (EpollPoller K)
  remove p w = do
    c ← deref (find p w.objects)
    ensure (is_none_event c)
    remove_channel p (record w { objects = put p (record c { added_to_loop = false }) w.objects })

  -- `Poller::hasChannel`.
  pub has_channel : ℕ → EpollPoller K → Result Bool
  has_channel p w = do c ← deref (find p w.objects); ok (is_entry p (find c.fd w.channels))

  -- The loop of `fillActiveChannels`, over the events that the kernel wrote: channel and events.
  pub fill_active_channels :
      List (ℕ × Events) → EpollPoller K → List ℕ → Result (EpollPoller K × List ℕ)
  fill_active_channels [] w active = ok (w, active)
  fill_active_channels ((p, e) ∷ reported) w active =
      (do
        c ← deref (find p w.objects)
        ensure (is_entry p (find c.fd w.channels))
        ok (record w { objects = put p (record c { revents = e }) w.objects }))
      >>= λ w'. fill_active_channels reported w' (active ++ p ∷ [])

  -- `poll`, at the reports of `epoll_wait`: `none` stands for an error. The list of active channels is
  -- empty before, as `EventLoop::loop` clears it.
  pub poll : Option (List (ℕ × Events)) → EpollPoller K → Result (EpollPoller K × List ℕ)
  poll none w = ok (w, [])
  poll (some reported) w =
      if ltb 0 (length reported)
      then (do
        ensure (leb (length reported) w.events_size)
        (w', active) ← fill_active_channels reported w []
        ok (
          (if length reported == w.events_size
              then record w' { events_size = w.events_size * 2 }
              else w'),
          active,
        ))
      else ok (w, [])
