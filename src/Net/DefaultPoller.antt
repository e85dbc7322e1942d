-- ===== src/Net/DefaultPoller.antt =====
-- server/src/muduo/net/DefaultPoller.cpp: the poller of an event loop is one of two kinds, chosen by the
-- environment. They are interchangeable.
mod Tests
use dxian.Prelude.{ℕ, ◌≡◌, Bool, true, false, Option, none, some, List, []}
use dxian.Net.Store.{find}
use dxian.Net.Channel.{Channel, Events}
use dxian.Net.Poller.{Result, ok, ◌>>=◌}
use dxian.Net.Poller.Watch.{Card, Watch, Command}
use dxian.Net.EpollPoller.{EpollPoller, Op}
use dxian.Net.EpollPoller.Invariant.{IsEpoll}
use dxian.Net.EpollPoller.Refinement as Epoll
use dxian.Net.PollPoller.{PollPoller}
use dxian.Net.PollPoller.Refinement as Poll
use dxian.Net.PollPoller.Interest as PollInterest

pub data Poller (K : Type 0) : Type 0 where
  polls : PollPoller → Poller K
  epolls : EpollPoller K → Poller K

-- `__linux__` and `__APPLE__`.
pub data Platform : Type 0 where
  linux apple : Platform

unfoldable new_poller : {K : Type 0} → Bool → K → List (ℕ × Channel) → Poller K
new_poller true kernel objects = polls (record { pollfds = []; channels = []; objects = objects })
new_poller false kernel objects =
    epolls (record { kernel = kernel; channels = []; objects = objects; events_size = 16 })

-- `newDefaultPoller`: whether MUDUO_USE_POLL is set, and the channels that exist. The epoll instance is new. Without
-- MUDUO_USE_POLL the function has no return statement for `__APPLE__`.
unfoldable pub new_default_poller :
    {K : Type 0} → Platform → Bool → K → List (ℕ × Channel) → Option (Poller K)
unfolding new_poller
new_default_poller linux use_poll kernel objects = some (new_poller use_poll kernel objects)
new_default_poller apple true kernel objects = some (new_poller true kernel objects)
new_default_poller apple false kernel objects = none

abbrev pub start_card : Option Channel → Option Card
start_card none = none
start_card (some c) = some (record { fd = c.fd; events = c.events; is_new = true })

-- No channel is registered, and nothing is asked for.
abbrev pub start : List (ℕ × Channel) → Watch
start objects = record {
  channels = λ j. none;
  cards = λ q. start_card (find q objects);
  interest = λ j. none;
}

module _ {K : Type 0} (epoll_ctl : Op → ℕ → Events → ℕ → K → K × Bool)
    (view : K → ℕ → Option (Events × ℕ)) (laws : IsEpoll epoll_ctl view) where
  -- The virtual calls.
  pub run : Command → Poller K → Result (Poller K)
  run c (polls w) = Poll.run c w >>= λ w'. ok (polls w')
  run c (epolls w) = Epoll.run epoll_ctl view laws c w >>= λ w'. ok (epolls w')

  pub asked_for : Poller K → ℕ → Option (Events × ℕ)
  asked_for (polls w) = PollInterest.asked_for w
  asked_for (epolls w) = Epoll.asked_for epoll_ctl view laws w

  pub Refines : Poller K → Watch → Type 0
  Refines (polls w) s = Poll.Refines w s
  Refines (epolls w) s = Epoll.Refines epoll_ctl view laws w s

  asks : (w : Poller K) (s : Watch) → Refines w s → (j : ℕ) → asked_for w j ≡ s.interest j
  unfolding asked_for Refines
  asks (polls w) s r j = Poll.poll-IsPoller.asks w s r j
  asks (epolls w) s r j = (Epoll.epoll-IsPoller epoll_ctl view laws).asks w s r j
