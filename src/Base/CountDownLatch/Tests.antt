-- ===== src/Base/CountDownLatch/Tests.antt =====
-- A thread waits for a latch of one, and another one counts down.
use dxian.Prelude.{ℕ, ◌≡◌, ◌≢◌, refl, true, false, none, some, if◌then◌else◌}
use dxian.Prelude.Int.{pos, ◌-ℤ◌, ltb_ℤ}
use dxian.Base.CountDownLatch.{
  CountDownLatch, waits, counts_down, locking, assigning, body, at_wait, sleeping, notifying,
  unassigning, unlocking, idle, count_down_latch, go_to, mutex_unlock, assign_holder,
  unassign_holder, broadcast, advance, Reach, here, next, calls, advances,
}
use dxian.Base.CountDownLatch.Invariant.{has_mutex, is_done, is_held}
use dxian.Base.CountDownLatch.Release.{Reach-exclusive, Reach-released}

abbrev called : CountDownLatch
called = go_to (locking waits) 1 (count_down_latch (pos 1))

abbrev testing : CountDownLatch
testing =
    assign_holder (body waits) 1 (go_to (assigning waits) 1 (record called { owner = some 1 }))

abbrev asleep : CountDownLatch
asleep = mutex_unlock sleeping 1 (unassign_holder at_wait 1 testing)

-- The other thread has the mutex.
abbrev counting : CountDownLatch
counting = assign_holder (body counts_down) 2 (
    go_to (assigning counts_down) 2
      (record (go_to (locking counts_down) 2 asleep) { owner = some 2 }))

abbrev counted : CountDownLatch
counted = go_to notifying 2 (record counting { count = pos 0 })

abbrev released : CountDownLatch
released = mutex_unlock idle 2 (
    unassign_holder (unlocking counts_down) 2
      (go_to (unassigning counts_down) 2 (broadcast counted)))

testing-Reach : Reach (count_down_latch (pos 1)) testing
unfolding advance
testing-Reach =
    next (next (next here (calls _ 1 waits refl)) (advances _ _ 1 refl)) (advances _ _ 1 refl)

asleep-Reach : Reach (count_down_latch (pos 1)) asleep
unfolding advance
asleep-Reach = next (next testing-Reach (advances _ _ 1 refl)) (advances _ _ 1 refl)

counting-Reach : Reach (count_down_latch (pos 1)) counting
unfolding advance
counting-Reach =
    next (next (next asleep-Reach (calls _ 2 counts_down refl)) (advances _ _ 2 refl))
      (advances _ _ 2 refl)

released-Reach : Reach (count_down_latch (pos 1)) released
unfolding advance ◌-ℤ◌
released-Reach =
    next
      (next (next (next counting-Reach (advances _ counted 2 refl)) (advances _ _ 2 refl))
        (advances _ _ 2 refl))
      (advances _ _ 2 refl)

Reach-exclusive_example :
    ((u : ℕ) → has_mutex (testing.phases u) ≡ true → u ≡ 1)
    × (testing.holder ≡ (if is_held (testing.phases 1) then some 1 else none))
Reach-exclusive_example = Reach-exclusive (pos 1) testing 1 testing-Reach refl

Reach-released_example :
    ((t : ℕ) → is_done (released.phases t) ≡ true → ltb_ℤ (pos 0) released.count ≡ false)
    × (ltb_ℤ (pos 0) released.count ≡ false
        → released.owner ≡ none
        → (t : ℕ) → released.phases t ≢ sleeping)
Reach-released_example = Reach-released (pos 1) released released-Reach
