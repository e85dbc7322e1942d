-- ===== src/Net/EventLoopThread/Tests.antt =====
-- A loop at address 7, that its owner destroys in time, and one that it destroys too early.
use dxian.Prelude.{ℕ, ◌≡◌, ◌⊎◌, refl, true, false, some}
use dxian.Net.EventLoopThread.{
  EventLoopThread, event_loop_thread, sleeps, returned, joins, loops, leaves, ended, enters, Reach,
  here, next, starts, tests, constructed, called_back, published, entered, destroys, quits_loop,
}
use dxian.Net.EventLoopThread.Serves.{is_serving, is_to_come, Reach-serves}

-- `startLoop` has returned, and the thread is in front of `loop`.
abbrev served : EventLoopThread
served = record event_loop_thread { loop = some 7; owner = returned 7; runner = enters }

served-Reach : Reach 7 event_loop_thread served
served-Reach =
    next
      (next
        (next (next (next (next here (starts _ refl)) (tests _ refl)) (constructed _ refl))
          (called_back _ refl))
        (published _ refl))
      (tests _ refl)

-- The destructor waits for a loop that is told to quit.
abbrev asked : EventLoopThread
asked = record served { exiting = true; quit = true; owner = joins; runner = loops }

asked-Reach : Reach 7 event_loop_thread asked
asked-Reach =
    next (next (next served-Reach (entered _ refl)) (destroys _ 7 refl)) (quits_loop _ refl)

-- `quit` came before `loop`, which has reset it: the destructor waits for a loop that is not told to quit.
abbrev stuck : EventLoopThread
stuck = record asked { quit = false; early = true }

stuck-Reach : Reach 7 event_loop_thread stuck
stuck-Reach =
    next (next (next served-Reach (destroys _ 7 refl)) (quits_loop _ refl)) (entered _ refl)

Reach-serves_example :
    ((b : ℕ) → asked.loop ≡ some b → (b ≡ 7) × (is_serving asked.runner ≡ true))
    × ((b : ℕ) → asked.owner ≡ returned b → b ≡ 7)
    × (asked.owner ≡ sleeps → (is_to_come asked.runner ≡ true) ⊎ (asked.runner ≡ ended))
    × (asked.owner ≡ joins
        → asked.early ≡ false
        → (asked.runner ≡ ended)
          ⊎ ((asked.runner ≡ leaves) ⊎ ((asked.runner ≡ loops) × (asked.quit ≡ true))))
Reach-serves_example = Reach-serves 7 asked asked-Reach
