-- ===== src/Net/KqueuePoller/Tests.antt =====
-- A queue as a function, and a channel that enables writing after reading.
use dxian.Prelude.{
  ℕ, ◌≡◌, refl, Bool, true, ◌&&◌, Option, none, some, List, [], ◌∷◌, ◌==◌, if◌then◌else◌,
}
use dxian.Prelude.Int.{pos}
use dxian.Net.Poller.{Result, ok, fault}
use dxian.Net.Store.{find, put}
use dxian.Net.Channel.{Channel, channel, union, enable_reading, enable_writing, is_none_event}
use dxian.Net.KqueuePoller.{
  Filter, read_filter, write_filter, ev_add, Kevent, KqueuePoller, update_channel, change_events,
  remove, poll, makes, changes, run_all, run, kqueue_poller,
}
use dxian.Net.KqueuePoller.Filters.{
  act, asks, updated, same_filter, IsKqueue, change_events-watches,
}
use dxian.Net.KqueuePoller.Assertions.{run_all-fails}

abbrev Queue : Type 0
Queue = ℕ → Filter → Option Bool

abbrev kevent : Kevent → Queue → Queue
kevent e k =
    λ fd f. if e.ident == fd && same_filter e.filter f then act e.action (k fd f) else k fd f

abbrev entry : Queue → ℕ → Filter → Option Bool
entry k fd f = k fd f

kevent-IsKqueue : IsKqueue kevent entry
kevent-IsKqueue e k fd f = refl

abbrev start : KqueuePoller Queue
start = kqueue_poller (λ fd f. none)

abbrev one : KqueuePoller Queue
one = record start { objects = (9, channel 5) ∷ [] }

abbrev five : Channel
unfolding channel
five = channel 5

change_events-watches_example :
    (w' : KqueuePoller Queue) × (change_events kevent enable_reading 9 one ≡ ok w')
    × ((fd : ℕ) (f : Filter)
        → entry w'.kernel fd f ≡ (
            if five.fd == fd
            then updated five.index
                (is_none_event (record five { events = enable_reading five.events }))
                (asks (enable_reading five.events) f)
                (entry one.kernel fd f)
            else entry one.kernel fd f))
unfolding find five channel
change_events-watches_example =
    change_events-watches kevent entry kevent-IsKqueue enable_reading 9 five one refl refl

-- The first registration is for reading alone.
abbrev reads : KqueuePoller Queue
reads = record start {
  kernel =
      kevent (record { ident = 5; filter = read_filter; action = ev_add; udata = some 9 })
        start.kernel;
  objects =
      (9, record five { events = enable_reading five.events; added_to_loop = true; index = pos 1 })
      ∷ [];
}

reads-run : run_all kevent (makes 9 five ∷ changes enable_reading 9 ∷ []) start ≡ ok reads
unfolding run_all run change_events update_channel find put five channel enable_reading union
reads-run = refl

run_all-fails_example :
    ((p : ℕ) → remove kevent p reads ≡ fault)
    × ((p : ℕ) (f : Filter) (reported : List (ℕ × Filter))
        → poll kevent (some ((p, f) ∷ reported)) reads ≡ fault)
run_all-fails_example =
    run_all-fails kevent start.kernel (makes 9 five ∷ changes enable_reading 9 ∷ []) reads reads-run

-- The channel asks for writing then, and the kernel does not watch it.
abbrev kernel_after : Result (KqueuePoller Queue) → Option Bool
kernel_after (ok w) = entry w.kernel 5 write_filter
kernel_after r = none

not_watched : kernel_after (change_events kevent enable_writing 9 reads) ≡ none
unfolding change_events update_channel find put five channel enable_reading enable_writing union
    is_none_event
not_watched = refl
