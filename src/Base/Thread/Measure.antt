-- ===== src/Base/Thread/Measure.antt =====
-- How many moves are left while a thread starts.
use dxian.Prelude.{ℕ, zero, suc, ◌+◌, ◌*◌, ◌<◌, ◌≤◌, ◌≡◌, ◌≢◌, ◌⊎◌, inl, inr, refl, some, arith}
use dxian.Base.CountDownLatch.{
  CountDownLatch, Phase, idle, locking, assigning, body, unassigning, unlocking, woken, advance,
}
use dxian.Base.Thread.{
  Caller, before, creating, waiting, asserting, returned, failed, aborted, Child, unborn, storing,
  counting, naming, running, ended, State, Move, calls_start, fails, makes, latch_moves, wait_ends,
  count_down_ends, checks_tid, stores_tid, sets_name, func_ends, Moves, none_made, one_more,
}
use dxian.Base.Thread.Latched.{Latched}
use dxian.Base.Thread.Latch.{wait_rank, count_rank, waits-WaitStep, counts-CountStep}
use dxian.Base.Thread.Start.{Inv, Move-Inv, made_before}

abbrev caller_rank : Caller → Phase → ℕ
caller_rank before p = 17
caller_rank creating p = 16
caller_rank waiting p = wait_rank p
caller_rank asserting p = 4
caller_rank returned p = 3
caller_rank failed p = 3
caller_rank aborted p = 3

abbrev child_rank : Child → Phase → ℕ
child_rank unborn p = 14
child_rank storing p = 13
child_rank counting p = count_rank p
child_rank naming p = 5
child_rank running p = 4
child_rank (ended e) p = 3

-- The moves that are left at most: a move of the new thread may wake the caller, which then has more to do.
unfoldable pub moves_left : State → ℕ
moves_left s =
    caller_rank s.caller (s.thread.latch.phases 0)
    + 20 * child_rank s.child (s.thread.latch.phases 1)

woken_rank : (c : Caller) (p : Phase) → caller_rank c (woken p) ≤ caller_rank c p + 6
woken_rank waiting (locking o) = omega arith
woken_rank waiting (assigning o) = omega arith
woken_rank waiting (body o) = omega arith
woken_rank waiting (unassigning o) = omega arith
woken_rank waiting (unlocking o) = omega arith
woken_rank waiting p = ground arith
woken_rank c p = ground arith

module _ (gettid : ℕ) (s : State) (inv : Inv gettid s) where
  abbrev latched : Latched s.thread.latch s.caller s.child
  latched = inv.latched

  waits_shortens :
      (l : CountDownLatch)
      → advance (s.thread.latch.phases 0) 0 s.thread.latch ≡ some l
      → caller_rank s.caller (l.phases 0) + 20 * child_rank s.child (l.phases 1) < moves_left s
  unfolding moves_left
  waits_shortens l e =
      let w = waits-WaitStep s.thread.latch 0 l (s.thread.latch.phases 0) refl latched.only_0 e in
      let other : l.phases 1 ≡ s.thread.latch.phases 1 = w.same_phases 1 (λ q. omega (arith, q)) in
      let in_it : s.thread.latch.phases 0 ≢ idle = λ h. ground (arith, h, w.less) in
      rw other (shorter s.caller latched.out_0 in_it w.less)
    where
      shorter :
          (c : Caller)
          → (c ≢ waiting → s.thread.latch.phases 0 ≡ idle)
          → s.thread.latch.phases 0 ≢ idle
          → wait_rank (l.phases 0) < wait_rank (s.thread.latch.phases 0)
          → caller_rank c (l.phases 0) + 20 * child_rank s.child (s.thread.latch.phases 1)
            < caller_rank c (s.thread.latch.phases 0)
              + 20 * child_rank s.child (s.thread.latch.phases 1)
      shorter waiting out in_it less = omega (arith, less)
      shorter _ out in_it less = absurd (in_it (out (λ q. ground (arith, q))))

  counts_shortens :
      (l : CountDownLatch)
      → advance (s.thread.latch.phases 1) 1 s.thread.latch ≡ some l
      → caller_rank s.caller (l.phases 0) + 20 * child_rank s.child (l.phases 1) < moves_left s
  unfolding moves_left
  counts_shortens l e =
      let w = counts-CountStep s.thread.latch 1 l (s.thread.latch.phases 1) refl latched.only_1 e in
      let in_it : s.thread.latch.phases 1 ≢ idle = λ h. ground (arith, h, w.less) in
      shorter s.child latched.out_1 in_it w.less (w.same_phases 0 (λ q. omega (arith, q)))
    where
      shorter :
          (d : Child)
          → (d ≢ counting → s.thread.latch.phases 1 ≡ idle)
          → s.thread.latch.phases 1 ≢ idle
          → count_rank (l.phases 1) < count_rank (s.thread.latch.phases 1)
          → (l.phases 0 ≡ s.thread.latch.phases 0) ⊎ (l.phases 0 ≡ woken (s.thread.latch.phases 0))
          → caller_rank s.caller (l.phases 0) + 20 * child_rank d (l.phases 1)
            < caller_rank s.caller (s.thread.latch.phases 0)
              + 20 * child_rank d (s.thread.latch.phases 1)
      shorter counting out in_it less (inl same) = rw same (omega (arith, less))
      shorter counting out in_it less (inr woke) =
          rw woke (omega (arith, less, woken_rank s.caller (s.thread.latch.phases 0)))
      shorter _ out in_it less w = absurd (in_it (out (λ q. ground (arith, q))))

  latch_shortens :
      (l : CountDownLatch) (t : ℕ)
      → advance (s.thread.latch.phases t) t s.thread.latch ≡ some l
      → caller_rank s.caller (l.phases 0) + 20 * child_rank s.child (l.phases 1) < moves_left s
  unfolding advance
  latch_shortens l zero e = waits_shortens l e
  latch_shortens l (suc zero) e = counts_shortens l e
  latch_shortens l (suc (suc t)) e =
      let quiet = latched.quiet (suc (suc t)) (λ q. omega (arith, q)) (λ q. omega (arith, q)) in
      absurd (ground (arith, (rw quiet at e)))

Move-shortens :
    (gettid : ℕ) {s s' : State} → Move gettid s s' → Inv gettid s → moves_left s' < moves_left s
unfolding moves_left
Move-shortens gettid (calls_start s e) inv = ground (arith, e)
Move-shortens gettid (fails s e) inv = ground (arith, e)
Move-shortens gettid (makes s e) inv =
    rw e (rw (made_before s.caller s.child inv.made (ground (arith, e))) (omega arith))
Move-shortens gettid (latch_moves s l t e) inv = latch_shortens gettid s inv l t e
Move-shortens gettid (wait_ends s e i) inv = rw e (rw i (omega arith))
Move-shortens gettid (count_down_ends s e i) inv = rw e (rw i (omega arith))
Move-shortens gettid (checks_tid s e) inv = ground (arith, e)
Move-shortens gettid (stores_tid s e) inv = rw e (omega arith)
Move-shortens gettid (sets_name s e) inv = rw e (omega arith)
Move-shortens gettid (func_ends s f e) inv = rw e (omega arith)

caller_most : (c : Caller) (p : Phase) → caller_rank c p ≤ 17
caller_most waiting p = ground arith
caller_most c p = ground arith

child_most : (d : Child) (p : Phase) → child_rank d p ≤ 14
child_most counting p = ground arith
child_most d p = ground arith

pub moves_left-most : (s : State) → moves_left s ≤ 297
unfolding moves_left
moves_left-most s = omega (
  arith,
  caller_most s.caller (s.thread.latch.phases 0),
  child_most s.child (s.thread.latch.phases 1),
)

pub Moves-shorten :
    (gettid : ℕ) {s : State} {n : ℕ} {s' : State}
    → 0 < gettid
    → Moves gettid s n s'
    → Inv gettid s
    → (n + moves_left s' ≤ moves_left s) × Inv gettid s'
Moves-shorten gettid positive none_made inv = (omega arith, inv)
Moves-shorten gettid positive (one_more m k) inv =
    let before = Moves-shorten gettid positive m inv in
    let less = Move-shortens gettid k before.1 in
    (omega (arith, before.0, less), Move-Inv gettid positive k before.1)
