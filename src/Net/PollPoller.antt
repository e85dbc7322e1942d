-- ===== src/Net/PollPoller.antt =====
-- server/src/muduo/net/PollPoller.cpp and include/PollPoller.h.
--
-- Channels are objects on a heap, as for the epoll poller. A descriptor in `pollfds_` may be negative,
-- so it is an integer: the channel of `pos fd` is watched, and that of `negsuc fd`, which is
-- `-fd - 1`, is ignored. An index past the end of a vector is a fault.
pub mod Vector
pub mod Invariant
pub mod Registration
pub mod Interest
pub mod Refinement
pub mod SwapOut
pub mod Swap
pub mod Removal
pub mod Marks
pub mod Polling
mod Tests
use dxian.Prelude.{
  ℕ, ◌-◌, Bool, true, false, not, ◌&&◌, ◌||◌, Option, none, some, List, [], ◌∷◌, ◌++◌, ◌==◌, ltb,
  if◌then◌else◌, length, get_elem?, set,
}
use dxian.Prelude.Int.{ℤ, pos, negsuc, ltb_ℤ}
use dxian.Net.Store.{find, put, drop_key}
use dxian.Net.Channel.{Channel, Events, none_event, is_none_event}
use dxian.Net.Poller.{
  Result, ok, fault, fatal, ◌>>=◌, ◌>>◌, ensure, deref, eq_ℤ, is_missing, is_entry,
}
use dxian.Net.PollPoller.Vector.{pop_back}

pub record PollFd : Type 0 where
  pub fd : ℤ
  pub events : Events
  pub revents : Events

pub record PollPoller : Type 0 where
  pub pollfds : List PollFd
  pub channels : List (ℕ × ℕ)
  pub objects : List (ℕ × Channel)

same : Bool → Bool → Bool
same true b = b
same false b = not b

-- `==` on masks.
unfoldable pub eq_events : Events → Events → Bool
unfolding same
eq_events a b =
    same a.pollin b.pollin
    && same a.pollpri b.pollpri
    && same a.pollout b.pollout
    && same a.pollerr b.pollerr
    && same a.pollhup b.pollhup
    && same a.pollnval b.pollnval
    && same a.pollrdhup b.pollrdhup

-- The descriptor of a channel, also where it is ignored.
abbrev pub descriptor : ℤ → ℕ
descriptor (pos n) = n
descriptor (negsuc n) = n

pub set_index : ℕ → ℤ → PollPoller → Result PollPoller
set_index p i w = do
  c ← deref (find p w.objects)
  ok (record w { objects = put p (record c { index = i }) w.objects })

-- An index that is negative reads nothing.
abbrev pub at_index : ℤ → List PollFd → Option PollFd
at_index (pos i) fds = get_elem? fds i
at_index (negsuc i) fds = none

abbrev pub set_at : ℤ → PollFd → List PollFd → List PollFd
set_at (pos i) x fds = set fds i x
set_at (negsuc i) x fds = fds

pub add_new : ℕ → Channel → PollPoller → Result PollPoller
add_new p c w = do
  ensure (is_missing (find c.fd w.channels))
  let fds = w.pollfds ++ record { fd = pos c.fd; events = c.events; revents = none_event } ∷ []
  w' ← set_index p (pos (length fds - 1)) (record w { pollfds = fds })
  ok (record w' { channels = put c.fd p w'.channels })

pub update_existing : ℕ → Channel → PollPoller → Result PollPoller
update_existing p c w = do
  ensure (is_entry p (find c.fd w.channels))
  pfd ← deref (at_index c.index w.pollfds)
  ensure (eq_ℤ pfd.fd (pos c.fd) || eq_ℤ pfd.fd (negsuc c.fd))
  let fd = if is_none_event c then negsuc c.fd else pos c.fd
  ok (record w {
    pollfds =
        set_at c.index (record { fd = fd; events = c.events; revents = none_event }) w.pollfds;
  })

pub update_channel : ℕ → PollPoller → Result PollPoller
update_channel p w = do
  c ← deref (find p w.objects)
  if ltb_ℤ c.index (pos 0) then add_new p c w else update_existing p c w

-- The end of `removeChannel`, at the index `idx` of the descriptor to remove.
pub swap_out : ℤ → PollFd → PollPoller → Result PollPoller
swap_out idx pfd w =
    if eq_ℤ idx (pos (length w.pollfds - 1))
    then ok (record w { pollfds = pop_back w.pollfds })
    else (do
      back ← deref (get_elem? w.pollfds (length w.pollfds - 1))
      let swapped = set (set_at idx back w.pollfds) (length w.pollfds - 1) pfd
      at_end ← deref (find (descriptor back.fd) w.channels)
      w' ← set_index at_end idx (record w { pollfds = swapped })
      ok (record w' { pollfds = pop_back w'.pollfds }))

pub remove_channel : ℕ → PollPoller → Result PollPoller
remove_channel p w = do
  c ← deref (find p w.objects)
  ensure (is_entry p (find c.fd w.channels))
  ensure (is_none_event c)
  pfd ← deref (at_index c.index w.pollfds)
  ensure (eq_ℤ pfd.fd (negsuc c.fd) && eq_events pfd.events c.events)
  swap_out c.index pfd (record w { channels = drop_key c.fd w.channels })

-- `Channel::enableReading` and its like, and `Channel::remove`, with this poller.
pub change_events : (Events → Events) → ℕ → PollPoller → Result PollPoller
change_events change p w = do
  c ← deref (find p w.objects)
  update_channel p (record w {
    objects = put p (record c { events = change c.events; added_to_loop = true }) w.objects;
  })

pub remove : ℕ → PollPoller → Result PollPoller
remove p w = do
  c ← deref (find p w.objects)
  ensure (is_none_event c)
  remove_channel p (record w { objects = put p (record c { added_to_loop = false }) w.objects })

-- The loop of `fillActiveChannels`, over `pollfds_` as poll(2) left them. A descriptor that is
-- negative is not in the map.
abbrev pub find_fd : ℤ → List (ℕ × ℕ) → Option ℕ
find_fd (pos n) m = find n m
find_fd (negsuc n) m = none

abbrev pub received : PollFd → Bool
received pfd = not (eq_events pfd.revents none_event)

pub fill_active_channels : List PollFd → PollPoller → List ℕ → Result (PollPoller × List ℕ)
fill_active_channels [] w active = ok (w, active)
fill_active_channels (pfd ∷ pfds) w active =
    (if received pfd
      then (do
        p ← deref (find_fd pfd.fd w.channels)
        c ← deref (find p w.objects)
        ensure (eq_ℤ (pos c.fd) pfd.fd)
        ok (
          record w { objects = put p (record c { revents = pfd.revents }) w.objects },
          active ++ p ∷ [],
        ))
      else ok (w, active))
    >>= λ (w', active'). fill_active_channels pfds w' active'

-- poll(2), a parameter: what it writes to `revents` of each descriptor, and the number that it returns, or
-- `none` for an error.
module _ (poll_call : List PollFd → Option (List PollFd × ℕ)) where
  pub poll : PollPoller → Result (PollPoller × List ℕ)
  poll w = elim (poll_call w.pollfds) [
    | none ↦ ok (w, [])
    | some (pfds, n) ↦
        if ltb 0 n
        then fill_active_channels pfds (record w { pollfds = pfds }) []
        else ok (record w { pollfds = pfds }, [])
  ]
