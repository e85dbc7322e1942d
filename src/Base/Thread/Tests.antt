-- ===== src/Base/Thread/Tests.antt =====
-- The caller of `start` falls asleep before the new thread stores its identifier, 7.
use dxian.Prelude.{ℕ, ◌≡◌, ◌≢◌, ◌≤◌, ◌⊎◌, refl, ◌+◌, true, false, none, some, List, [], ◌∷◌, arith}
use dxian.Prelude.Int.{◌-ℤ◌}
use dxian.Base.CountDownLatch.{advance}
use dxian.Base.Thread.{
  Exit, ended, thread, returned, failed, asserting, naming, State, state, call_start, creates,
  check_tid, store_tid, with_latch, join, detaches, Move, Moves, calls_start, makes, latch_moves,
  wait_ends, count_down_ends, checks_tid, stores_tid, moves, Reach, here, next, aborted,
}
use dxian.Base.Thread.Start.{Reach-told}
use dxian.Base.Thread.Ends.{Reach-ends}

abbrev thread_num : ℕ → List ℕ
thread_num num = 84 ∷ (48 + num) ∷ []

abbrev new : State
new = state (thread thread_num 3 [])

-- A step of a thread in the latch.
abbrev latch_step : ℕ → State → State
latch_step t s = elim (advance (s.thread.latch.phases t) t s.thread.latch) [
  | none ↦ s
  | some l ↦ with_latch l s
]

abbrev waits_asleep : State
unfolding advance
waits_asleep = latch_step 0 (latch_step 0 (latch_step 0 (latch_step 0 (creates (call_start new)))))

abbrev stored : State
stored = store_tid 7 waits_asleep

abbrev notified : State
unfolding advance ◌-ℤ◌
notified = latch_step 1 (latch_step 1 (latch_step 1 (latch_step 1 stored)))

abbrev counted : State
unfolding advance
counted = record (latch_step 1 (latch_step 1 notified)) { child = naming }

abbrev woken_up : State
unfolding advance
woken_up = latch_step 0 (latch_step 0 (latch_step 0 counted))

abbrev told : State
unfolding advance
told = check_tid (record (latch_step 0 (latch_step 0 woken_up)) { caller = asserting })

waits_asleep-Reach : Reach 7 new waits_asleep
unfolding advance
waits_asleep-Reach =
    next
      (next
        (next
          (next (next (next here (moves (calls_start _ refl))) (moves (makes _ refl)))
            (moves (latch_moves _ _ 0 refl)))
          (moves (latch_moves _ _ 0 refl)))
        (moves (latch_moves _ _ 0 refl)))
      (moves (latch_moves _ _ 0 refl))

notified-Reach : Reach 7 new notified
unfolding advance ◌-ℤ◌
notified-Reach =
    next
      (next
        (next
          (next (next waits_asleep-Reach (moves (stores_tid _ refl)))
            (moves (latch_moves _ _ 1 refl)))
          (moves (latch_moves _ _ 1 refl)))
        (moves (latch_moves _ _ 1 refl)))
      (moves (latch_moves _ _ 1 refl))

told-Reach : Reach 7 new told
unfolding advance ◌-ℤ◌
told-Reach =
    next
      (next
        (next
          (next
            (next
              (next
                (next
                  (next
                    (next (next notified-Reach (moves (latch_moves _ _ 1 refl)))
                      (moves (latch_moves _ _ 1 refl)))
                    (moves (count_down_ends _ refl refl)))
                  (moves (latch_moves _ _ 0 refl)))
                (moves (latch_moves _ _ 0 refl)))
              (moves (latch_moves _ _ 0 refl)))
            (moves (latch_moves _ _ 0 refl)))
          (moves (latch_moves _ _ 0 refl)))
        (moves (wait_ends _ refl refl)))
      (moves (checks_tid _ refl))

named_itself : new.thread.name ≡ 84 ∷ 51 ∷ []
named_itself = refl

Reach-told_example :
    (told.caller ≢ aborted)
    × (told.caller ≡ returned → (told.thread.started ≡ true) × (told.thread.tid ≡ 7))
Reach-told_example = Reach-told 7 thread_num 3 [] told (omega arith) told-Reach

Reach-ends_example :
    ((n : ℕ) (s' : State) → Moves 7 waits_asleep n s' → n ≤ 297)
    × ((waits_asleep.caller ≡ returned)
        ⊎ ((waits_asleep.caller ≡ failed)
            ⊎ ((s' : State) × Move 7 waits_asleep s'
                × ((e : Exit) → s'.child ≡ ended e → waits_asleep.child ≡ ended e))))
Reach-ends_example = Reach-ends 7 thread_num 3 [] waits_asleep (omega arith) waits_asleep-Reach

joined_once : join (record new.thread { started = true; joined = true }) ≡ none
joined_once = refl

never_started : detaches new.thread ≡ false
never_started = refl
