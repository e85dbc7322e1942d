-- ===== src/Net/EventLoop/Tests.antt =====
-- The theorems about the loop when another thread queues a functor and then quits.
use dxian.Prelude.{ℕ, true, false, some, none, ◌+◌, ◌<◌, ◌≤◌, ◌≡◌, ◌≢◌, ◌⊎◌, refl, [], ◌∷◌, ◌++◌}
use dxian.Net.EventLoop.{
  EventLoop, event_loop, start_loop, test_quit, polled, handle_channel, set_quit, push, Reach, here,
  next, works, loops, tests_quit, handles_next, other_pushes, other_quits, owner_queues, calls,
  polls, stopped, handles, other_wakes, poll_returns, reads, handled_all, swaps, calls_one,
  functor_queues, wakeup, handle_read, start_calling, swap_functors, queue_in_loop, Works,
  removable,
}
use dxian.Net.EventLoop.Wakeup.{Reach-in_order, Reach-awake}
use dxian.Net.EventLoop.Turn.{last, Reach-in_turn}
use dxian.Net.EventLoop.Quit.{in_poll, Reach-quits}

abbrev polling : EventLoop
polling = record event_loop { phase = polls; looping = true }

polling-Reach : Reach event_loop polling
unfolding start_loop test_quit
polling-Reach = next (next here (loops event_loop _ refl refl)) (works (tests_quit _ refl))

abbrev after_push : EventLoop
after_push = record polling { pending_functors = 7 ∷ []; waking = 1; queued = 7 ∷ [] }

pushed-Reach : Reach event_loop after_push
unfolding push
pushed-Reach = next polling-Reach (works (other_pushes polling 7))

-- The handler of the wakeup channel runs.
abbrev waking_up : EventLoop
waking_up = record after_push {
  phase = handles;
  event_handling = true;
  iteration = 1;
  active_channels = 0 ∷ 4 ∷ [];
  reported = 0 ∷ 4 ∷ [];
  left_channels = 4 ∷ [];
  handled = 0 ∷ [];
  current_active_channel = some 0;
  waking = 0;
}

waking-Reach : Reach event_loop waking_up
unfolding wakeup polled handle_channel handle_read
waking-Reach =
    next
      (next
        (next (next pushed-Reach (works (other_wakes _ 0 refl)))
          (works (poll_returns _ (0 ∷ 4 ∷ []) refl)))
        (works (handles_next _ 0 (4 ∷ []) refl refl)))
      (works (reads _ refl refl))

-- 7 has been called, and 8 has been queued meanwhile.
abbrev after_call : EventLoop
after_call = record waking_up {
  phase = calls;
  event_handling = false;
  left_channels = [];
  handled = 0 ∷ 4 ∷ [];
  current_active_channel = none;
  calling_pending_functors = true;
  wakeups = 1;
  queued = 7 ∷ 8 ∷ [];
  called = 7 ∷ [];
  pending_functors = 8 ∷ [];
}

called-Reach : Reach event_loop after_call
unfolding push wakeup handle_channel start_calling swap_functors queue_in_loop
called-Reach =
    next
      (next
        (next
          (next (next waking-Reach (works (handles_next _ 4 [] refl refl)))
            (works (handled_all _ refl refl)))
          (works (swaps _ refl)))
        (works (calls_one _ 7 [] refl refl)))
      (works (functor_queues _ 8 refl))

abbrev after_quit : EventLoop
after_quit = record polling { quit = true; waking = 1 }

quit-Reach : Reach event_loop after_quit
unfolding set_quit
quit-Reach = next polling-Reach (works (other_quits polling))

-- `quit` before `loop` is lost.
lost : start_loop (record event_loop { quit = true }) ≡ start_loop event_loop
unfolding start_loop
lost = refl

-- A functor that the loop's own thread queues before `loop` waits in silence.
abbrev slept_over : EventLoop
slept_over = record polling { pending_functors = 5 ∷ []; queued = 5 ∷ []; silent = true }

slept_over-Reach : Reach event_loop slept_over
unfolding start_loop test_quit queue_in_loop push
slept_over-Reach =
    next (next (next here (works (owner_queues event_loop 5 refl))) (loops _ _ refl refl))
      (works (tests_quit _ refl))

Reach-in_order_example :
    after_call.called ++ (after_call.functors ++ after_call.pending_functors) ≡ after_call.queued
Reach-in_order_example = Reach-in_order called-Reach

Reach-awake_example :
    (after_push.called ≡ after_push.queued)
    ⊎ ((0 < after_push.wakeups + after_push.waking) ⊎ (after_push.silent ≡ true))
Reach-awake_example = Reach-awake pushed-Reach refl

Reach-in_turn_example :
    (waking_up.phase ≡ stopped → (m : EventLoop) × (start_loop waking_up ≡ some m))
    × (waking_up.phase ≡ handles
        → (waking_up.handled ++ waking_up.left_channels ≡ waking_up.active_channels)
          × (waking_up.active_channels ≡ waking_up.reported)
          × (waking_up.current_active_channel ≡ last waking_up.handled))
    × ((channel : ℕ)
        → (waking_up.current_active_channel ≡ some channel) ⊎ (waking_up.phase ≢ handles)
        → removable channel waking_up ≡ true)
Reach-in_turn_example = Reach-in_turn waking-Reach

Reach-quits_example :
    (after_quit.phase ≡ polls → 0 < after_quit.wakeups + after_quit.waking)
    × ((m : EventLoop)
        → Works after_quit m
        → (m.quit ≡ true)
          × (m.iteration + in_poll m.phase ≤ after_quit.iteration + in_poll after_quit.phase))
    × ((m : EventLoop) × Works after_quit m × (m.phase ≡ stopped))
Reach-quits_example = Reach-quits quit-Reach refl
