-- ===== src/Base/Thread/Ends.antt =====
-- `start` comes to its end.
use dxian.Prelude.{
  ℕ, zero, suc, ◌<◌, ◌≤◌, ◌≡◌, ◌≢◌, ◌⊎◌, inl, inr, refl, Bool, true, false, none, some, arith,
  Option-cases, List,
}
use dxian.Prelude.Int.{pos}
use dxian.Base.CountDownLatch.{
  CountDownLatch, Phase, Operation, idle, locking, sleeping, waking, advance,
}
use dxian.Base.CountDownLatch.Invariant.{Inv as LatchInv, has_mutex}
use dxian.Base.CountDownLatch.Release.{Reach-released, Reach-Inv}
use dxian.Base.Thread.{
  thread, Caller, before, creating, waiting, asserting, returned, failed, aborted, Child, unborn,
  storing, counting, naming, running, ended, Exit, State, state, Move, calls_start, makes,
  latch_moves, wait_ends, count_down_ends, checks_tid, stores_tid, Reach, Moves,
}
use dxian.Base.Thread.Latch.{moves_on, locks_free}
use dxian.Base.Thread.Start.{Inv, Reach-Inv_thread}
use dxian.Base.Thread.Measure.{moves_left-most, Moves-shorten}

Phase-idle : (p : Phase) → (p ≡ idle) ⊎ (p ≢ idle)
Phase-idle idle = inl refl
Phase-idle p = inr (λ q. ground (arith, q))

module _ (l : CountDownLatch) (latch_inv : LatchInv l) where
  -- Who waits for the mutex gets it, or else its owner has a step.
  waits_for_mutex :
      (t : ℕ)
      → (l.phases t ≡ waking) ⊎ ((o : Operation) × (l.phases t ≡ locking o))
      → (u : ℕ) × (l' : CountDownLatch) × (advance (l.phases u) u l ≡ some l')
  waits_for_mutex t h = elim (Option-cases l.owner) [
    | inl free ↦ let m = locks_free l t free h in (t, m.0, m.1)
    | inr (u, owned) ↦
        let m = moves_on l u (ground (arith, latch_inv.owned u, owned)) in (u, m.0, m.1)
  ]

  busy :
      (t : ℕ) (p : Phase)
      → l.phases t ≡ p
      → p ≢ idle
      → p ≢ sleeping
      → (u : ℕ) × (l' : CountDownLatch) × (advance (l.phases u) u l ≡ some l')
  busy t idle e h k = absurd (h refl)
  busy t sleeping e h k = absurd (k refl)
  busy t waking e h k = waits_for_mutex t (inl e)
  busy t (locking o) e h k = waits_for_mutex t (inr (o, e))
  busy t p e h k = let m = moves_on l t (ground (arith, e)) in (t, m.0, m.1)

-- The new thread has counted down.
abbrev counted : Child → Bool
counted unborn = false
counted storing = false
counted counting = false
counted _ = true

-- A move of the two threads that is not the end of `func_`.
abbrev GoesOn : ℕ → State → Type 0
GoesOn gettid s =
    (s' : State) × Move gettid s s' × ((e : Exit) → s'.child ≡ ended e → s.child ≡ ended e)

module _ (gettid : ℕ) (s : State) (inv : Inv gettid s) where
  abbrev latch : CountDownLatch
  latch = s.thread.latch

  latch_inv : LatchInv latch
  latch_inv = Reach-Inv (pos 1) latch inv.latched.reached

  latch_busy : (t : ℕ) → latch.phases t ≢ idle → latch.phases t ≢ sleeping → GoesOn gettid s
  latch_busy t h k =
      let (u, l', e) = busy latch latch_inv t (latch.phases t) refl h k in
      (_, latch_moves s l' u e, λ x q. q)

  -- The caller does not sleep when the new thread has counted down.
  not_asleep : (d : Child) → s.child ≡ d → counted d ≡ true → latch.phases 0 ≢ sleeping
  not_asleep d h c asleep =
      let out = inv.latched.out_1 (λ q. ground (arith, q, h, c)) in
      (Reach-released (pos 1) latch inv.latched.reached).1 (ground (arith, inv.latched.count, h, c))
        (free out) 0 asleep
    where
      nobody : latch.phases 1 ≡ idle → (u : ℕ) → has_mutex (latch.phases u) ≡ false
      nobody out zero = rw asleep refl
      nobody out (suc zero) = rw out refl
      nobody out (suc (suc u)) =
          rw (inv.latched.quiet (suc (suc u)) (λ q. omega (arith, q)) (λ q. omega (arith, q))) refl

      free : latch.phases 1 ≡ idle → latch.owner ≡ none
      free out = elim (Option-cases latch.owner) [
        | inl none_has ↦ none_has
        | inr (u, owned) ↦ absurd (ground (arith, latch_inv.owned u, owned, nobody out u))
      ]

  child_proceeds :
      (d : Child) → s.child ≡ d → s.caller ≡ waiting → latch.phases 0 ≡ sleeping → GoesOn gettid s
  child_proceeds unborn e h asleep = absurd (ground (arith, inv.made, e, h))
  child_proceeds storing e h asleep = (_, stores_tid s e, λ x q. absurd (ground (arith, q)))
  child_proceeds counting e h asleep = elim (Phase-idle (latch.phases 1)) [
    | inl out ↦ (_, count_down_ends s e out, λ x q. absurd (ground (arith, q)))
    | inr in_it ↦ latch_busy 1 in_it (λ q. ground (arith, q, inv.latched.only_1))
  ]
  child_proceeds naming e h asleep = absurd (not_asleep naming e refl asleep)
  child_proceeds running e h asleep = absurd (not_asleep running e refl asleep)
  child_proceeds (ended x) e h asleep = absurd (not_asleep (ended x) e refl asleep)

  wait_proceeds : (p : Phase) → latch.phases 0 ≡ p → s.caller ≡ waiting → GoesOn gettid s
  wait_proceeds idle e h = (_, wait_ends s h e, λ x q. q)
  wait_proceeds sleeping e h = child_proceeds s.child refl h e
  wait_proceeds p e h = latch_busy 0 (λ q. ground (arith, q, e)) (λ q. ground (arith, q, e))

  proceeds :
      (c : Caller)
      → s.caller ≡ c
      → (s.caller ≡ returned) ⊎ ((s.caller ≡ failed) ⊎ (GoesOn gettid s))
  proceeds before e = inr (inr (_, calls_start s e, λ x q. ground (arith, q)))
  proceeds creating e = inr (inr (_, makes s e, λ x q. absurd (ground (arith, q))))
  proceeds waiting e = inr (inr (wait_proceeds (latch.phases 0) refl e))
  proceeds asserting e = inr (inr (_, checks_tid s e, λ x q. q))
  proceeds returned e = inl e
  proceeds failed e = inr (inl e)
  proceeds aborted e = absurd (inv.sound e)

-- In whatever order the two threads take their steps, and as far as the condition variable does not wake a thread for no reason:
-- from every state they reach, they make 297 moves at most, and one of them has a move as long as
-- `start` has neither returned nor failed. That move is not the end of `func_`, so `start` comes to its end even if `func_`
-- never does.
pub Reach-ends :
    (gettid : ℕ) (thread_num : ℕ → List ℕ) (num : ℕ) (name : List ℕ) (s : State)
    → 0 < gettid
    → Reach gettid (state (thread thread_num num name)) s
    → ((n : ℕ) (s' : State) → Moves gettid s n s' → n ≤ 297)
      × ((s.caller ≡ returned)
          ⊎ ((s.caller ≡ failed)
              ⊎ ((s' : State) × Move gettid s s'
                  × ((e : Exit) → s'.child ≡ ended e → s.child ≡ ended e))))
Reach-ends gettid thread_num num name s positive r =
    let inv = Reach-Inv_thread gettid positive thread_num num name r in
    (
      λ n s' m. omega (arith, (Moves-shorten gettid positive m inv).0, moves_left-most s),
      proceeds gettid s inv s.caller refl,
    )
