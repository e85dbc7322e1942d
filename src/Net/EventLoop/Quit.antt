-- ===== src/Net/EventLoop/Quit.antt =====
-- `quit` ends the loop.
use dxian.Prelude.{ℕ, ◌+◌, ◌<◌, ◌≤◌, ◌≡◌, refl, subst, arith, true, [], ◌∷◌, ◌++◌, List}
use dxian.Net.EventLoop.{
  EventLoop, Phase, stopped, tests, polls, handles, starts, calls, event_loop, test_quit, polled,
  handle_channel, set_quit, wakeup, push, queue_in_loop, handle_read, start_calling, swap_functors,
  stop_calling, Work, other_pushes, other_quits, other_wakes, owner_queues, owner_quits, tests_quit,
  poll_returns, handles_next, reads, handler_queues, handler_quits, handled_all, swaps, calls_one,
  functor_queues, functor_quits, done, works, loops, Reach, here, next, Works, idle, more,
}
use dxian.Net.EventLoop.Wakeup.{loops_on}

-- In `poll`, something wakes the loop that is to quit, or is about to.
abbrev Alarmed : EventLoop → Type 0
Alarmed l = l.phase ≡ polls → l.quit ≡ true → 0 < l.wakeups + l.waking

Work-Alarmed : {l m : EventLoop} → Work l m → Alarmed l → Alarmed m
unfolding wakeup push queue_in_loop handle_read start_calling swap_functors stop_calling set_quit
    test_quit polled handle_channel
Work-Alarmed (other_pushes l f) v = λ h k. omega arith
Work-Alarmed (other_quits l) v = λ h k. omega arith
Work-Alarmed (other_wakes l n e) v = λ h k. omega arith
Work-Alarmed (owner_queues l f e) v = λ h k. absurd (ground (arith, h, e))
Work-Alarmed (owner_quits l e) v = λ h k. absurd (ground (arith, h, e))
Work-Alarmed (tests_quit l e) v = λ h k. absurd (ground (arith, h, k))
Work-Alarmed (poll_returns l channels e) v = λ h k. absurd (ground (arith, h))
Work-Alarmed (handles_next l channel channels e i) v = v
Work-Alarmed (handled_all l e i) v = λ h k. absurd (ground (arith, h))
Work-Alarmed (swaps l e) v = λ h k. absurd (ground (arith, h))
Work-Alarmed (calls_one l f fs e q) v = v
Work-Alarmed (functor_queues l f e) v = λ h k. absurd (ground (arith, h, e))
Work-Alarmed (functor_quits l e) v = λ h k. absurd (ground (arith, h, e))
Work-Alarmed (done l e q) v = λ h k. absurd (ground (arith, h))
Work-Alarmed (reads l e c) v = λ h k. absurd (ground (arith, h, e))
Work-Alarmed (handler_queues l f e) v = λ h k. absurd (ground (arith, h, e))
Work-Alarmed (handler_quits l e) v = λ h k. absurd (ground (arith, h, e))

Reach-Alarmed : {l : EventLoop} → Reach event_loop l → Alarmed l
Reach-Alarmed here = λ h k. absurd (ground (arith, h))
Reach-Alarmed (next r (works w)) = Work-Alarmed w (Reach-Alarmed r)
Reach-Alarmed (next r (loops l m e h)) =
    subst Alarmed (loops_on l m h) (λ i k. absurd (ground (arith, i)))

-- One more return of `poll` is to come.
abbrev pub in_poll : Phase → ℕ
in_poll polls = 1
in_poll _ = 0

abbrev Nears : EventLoop → EventLoop → Type 0
Nears l m = (m.quit ≡ true) × (m.iteration + in_poll m.phase ≤ l.iteration + in_poll l.phase)

Work-Nears : {l m : EventLoop} → Work l m → l.quit ≡ true → Nears l m
unfolding wakeup push queue_in_loop handle_read start_calling swap_functors stop_calling set_quit
    test_quit polled handle_channel
Work-Nears (tests_quit l e) h = rw h (ground (arith, e))
Work-Nears (poll_returns l channels e) h = (h, ground (arith, e))
Work-Nears (handled_all l e i) h = (h, ground (arith, e))
Work-Nears (swaps l e) h = (h, ground (arith, e))
Work-Nears (done l e q) h = (h, ground (arith, e))
Work-Nears (other_quits l) h = (refl, omega arith)
Work-Nears (handler_quits l e) h = (refl, omega arith)
Work-Nears (functor_quits l e) h = (refl, omega arith)
Work-Nears (handler_queues l f e) h = ground (arith, h)
Work-Nears (functor_queues l f e) h = ground (arith, h)
Work-Nears (owner_queues l f e) h = ground (arith, h)
Work-Nears (owner_quits l e) h = (refl, omega arith)
Work-Nears (other_pushes l f) h = (h, omega arith)
Work-Nears (other_wakes l n e) h = (h, omega arith)
Work-Nears (handles_next l channel channels e i) h = (h, omega arith)
Work-Nears (reads l e c) h = (h, omega arith)
Work-Nears (calls_one l f fs e q) h = (h, omega arith)

Works-Nears : {l m : EventLoop} → Works l m → l.quit ≡ true → Nears l m
Works-Nears idle h = (h, omega arith)
Works-Nears (more r w) h =
    let k = Works-Nears r h in let i = Work-Nears w k.0 in (i.0, omega (arith, k.1, i.1))

prepend : {l k m : EventLoop} → Work l k → Works k m → Works l m
prepend w idle = more idle w
prepend w (more r v) = more (prepend w r) v

-- The loop's thread comes to the end by itself.
abbrev Ends : EventLoop → Type 0
Ends l = (m : EventLoop) × Works l m × (m.phase ≡ stopped)

then_Ends : {l k : EventLoop} → Work l k → Ends k → Ends l
then_Ends w e = (e.0, prepend w e.1, e.2)

tests-Ends : (l : EventLoop) → l.quit ≡ true → l.phase ≡ tests → Ends l
unfolding test_quit
tests-Ends l q e = (_, more idle (tests_quit l e), rw q refl)

calls-Ends :
    (fs : List ℕ) (l : EventLoop) → l.functors ≡ fs → l.quit ≡ true → l.phase ≡ calls → Ends l
unfolding stop_calling
calls-Ends [] l h q e = then_Ends (done l e h) (tests-Ends (stop_calling l) q refl)
calls-Ends (f ∷ fs) l h q e = then_Ends (calls_one l f fs e h) (calls-Ends fs _ refl q e)

starts-Ends : (l : EventLoop) → l.quit ≡ true → l.phase ≡ starts → Ends l
unfolding swap_functors
starts-Ends l q e =
    then_Ends (swaps l e) (calls-Ends l.pending_functors (swap_functors l) refl q refl)

handles-Ends :
    (cs : List ℕ) (l : EventLoop)
    → l.left_channels ≡ cs
    → l.quit ≡ true
    → l.phase ≡ handles
    → Ends l
unfolding start_calling handle_channel
handles-Ends [] l h q e = then_Ends (handled_all l e h) (starts-Ends (start_calling l) q refl)
handles-Ends (c ∷ cs) l h q e =
    then_Ends (handles_next l c cs e h) (handles-Ends cs (handle_channel c cs l) refl q e)

ends : (p : Phase) (l : EventLoop) → l.phase ≡ p → l.quit ≡ true → Ends l
unfolding polled
ends stopped l e q = (l, idle, e)
ends tests l e q = tests-Ends l q e
ends polls l e q =
    then_Ends (poll_returns l [] e)
      (handles-Ends (l.active_channels ++ []) (polled [] l) refl q refl)
ends handles l e q = handles-Ends l.left_channels l refl q e
ends starts l e q = starts-Ends l q e
ends calls l e q = calls-Ends l.functors l refl q e

-- Once `quit_` is set, and until `loop` is called again: a loop that is in `poll` finds the eventfd readable, or another thread
-- is just about to write to it; `quit_` stays set and `poll` returns at most once more, and not at all if the loop is not
-- in it, whatever handlers, functors and other threads do; and handlers and functors that return let
-- `loop` return.
pub Reach-quits :
    {l : EventLoop}
    → Reach event_loop l
    → l.quit ≡ true
    → (l.phase ≡ polls → 0 < l.wakeups + l.waking)
      × ((m : EventLoop)
          → Works l m
          → (m.quit ≡ true) × (m.iteration + in_poll m.phase ≤ l.iteration + in_poll l.phase))
      × ((m : EventLoop) × Works l m × (m.phase ≡ stopped))
Reach-quits {l = l} r q = (λ e. Reach-Alarmed r e q, λ m w. Works-Nears w q, ends l.phase l refl q)
