-- ===== src/Net/EventLoopThread/Serves.antt =====
-- What `startLoop` returns, and when the destructor comes to its end.
use dxian.Prelude.{
  ℕ, ◌≡◌, ◌≢◌, ◌⊎◌, inl, inr, refl, sym, arith, Bool, true, false, none, some, Option-cases,
  if◌then◌else◌, subst,
}
use dxian.Net.EventLoopThread.{
  Owner, before, waits, sleeps, returned, quits, joins, destroyed, Runner, unborn, constructs,
  calls_back, publishes, enters, loops, leaves, ended, EventLoopThread, event_loop_thread,
  test_loop, notified, destroy, quit_loop, Step, starts, tests, wakes, constructed, called_back,
  published, entered, functor_quits, loop_returns, clears, destroys, quits_loop, joined, Reach,
  here, next,
}

-- The loop is on the thread's stack, and the callback has been called.
abbrev pub is_serving : Runner → Bool
is_serving unborn = false
is_serving constructs = false
is_serving calls_back = false
is_serving publishes = false
is_serving enters = true
is_serving loops = true
is_serving leaves = true
is_serving ended = false

-- The thread has not published its loop.
abbrev pub is_to_come : Runner → Bool
is_to_come unborn = false
is_to_come constructs = true
is_to_come calls_back = true
is_to_come publishes = true
is_to_come enters = false
is_to_come loops = false
is_to_come leaves = false
is_to_come ended = false

-- What the owner's place says about the thread.
abbrev Placed : ℕ → Owner → Runner → Bool → Bool → Type 0
Placed a before r quit early = r ≡ unborn
Placed a waits r quit early = r ≢ unborn
Placed a sleeps r quit early = (is_to_come r ≡ true) ⊎ (r ≡ ended)
Placed a (returned b) r quit early = (b ≡ a) × ((is_serving r ≡ true) ⊎ (r ≡ ended))
Placed a quits r quit early = (is_serving r ≡ true) ⊎ (r ≡ ended)
Placed a joins r quit early =
    (early ≡ true) ⊎ ((r ≡ ended) ⊎ ((r ≡ leaves) ⊎ ((r ≡ loops) × (quit ≡ true))))
Placed a destroyed r quit early = Unit {0}

record Inv (a : ℕ) (s : EventLoopThread) : Type 0 where
  serving : s.loop ≡ (if is_serving s.runner then some a else none)
  placed : Placed a s.owner s.runner s.quit s.early

-- The thread goes on, and its owner stays where it is.
record GoesOn (r r' : Runner) (quit quit' : Bool) : Type 0 where
  born : r ≢ unborn
  still_born : r' ≢ unborn
  not_ended : r ≢ ended
  to_come : is_to_come r ≡ true → is_to_come r' ≡ true
  serving : is_serving r ≡ true → (is_serving r' ≡ true) ⊎ (r' ≡ ended)
  ending :
      (r ≡ leaves) ⊎ ((r ≡ loops) × (quit ≡ true))
      → (r' ≡ ended) ⊎ ((r' ≡ leaves) ⊎ ((r' ≡ loops) × (quit' ≡ true)))

abbrev follows : Runner → Runner → Bool
follows constructs calls_back = true
follows calls_back publishes = true
follows enters loops = true
follows loops loops = true
follows loops leaves = true
follows leaves ended = true
follows _ _ = false

follows-GoesOn :
    (r r' : Runner) (quit quit' : Bool)
    → follows r r' ≡ true
    → (r ≡ loops → r' ≡ loops → quit' ≡ true)
    → GoesOn r r' quit quit'
follows-GoesOn r r' quit quit' h k = record {
  born = λ e. ground (arith, h, e);
  still_born = λ e. ground (arith, h, e);
  not_ended = λ e. ground (arith, h, e);
  to_come = λ e. ground (arith, h, e);
  serving = λ e. ground (arith, h, e);
  ending = λ e. ground (arith, h, e, k);
}

goes_on :
    (a : ℕ) (o : Owner) {r r' : Runner} {quit quit' : Bool} (early : Bool)
    → GoesOn r r' quit quit'
    → Placed a o r quit early
    → Placed a o r' quit' early
goes_on a before early g p = absurd (g.born p)
goes_on a waits early g p = g.still_born
goes_on a sleeps early g (inl h) = inl (g.to_come h)
goes_on a sleeps early g (inr h) = absurd (g.not_ended h)
goes_on a (returned b) early g (e, inl h) = (e, g.serving h)
goes_on a (returned b) early g (e, inr h) = absurd (g.not_ended h)
goes_on a quits early g (inl h) = g.serving h
goes_on a quits early g (inr h) = absurd (g.not_ended h)
goes_on a joins early g (inl h) = inl h
goes_on a joins early g (inr (inl h)) = absurd (g.not_ended h)
goes_on a joins early g (inr (inr h)) = inr (g.ending h)
goes_on a destroyed early g p = tt

-- `notify` lets the owner go on.
goes_on_notified :
    (a : ℕ) (o : Owner) (quit early : Bool)
    → Placed a o publishes quit early
    → Placed a (notified o) enters quit early
goes_on_notified a before quit early p = absurd (ground (arith, p))
goes_on_notified a waits quit early p = λ h. ground (arith, h)
goes_on_notified a sleeps quit early p = λ h. ground (arith, h)
goes_on_notified a (returned b) quit early p = (p.0, inl refl)
goes_on_notified a quits quit early p = inl refl
goes_on_notified a joins quit early p = inl (ground (arith, p))
goes_on_notified a destroyed quit early p = tt

tests-Inv : (a : ℕ) (s : EventLoopThread) → s.owner ≡ waits → Inv a s → Inv a (test_loop s)
tests-Inv a s e v =
    let there : s.runner ≢ unborn = subst (λ o. Placed a o s.runner s.quit s.early) e v.placed in
    elim (Option-cases s.loop) [
      | inl h ↦ rw h (record {
        serving = ground (arith, v.serving, h);
        placed = ground (arith, v.serving, h, there);
      })
      | inr (b, h) ↦
          rw h (record {
            serving = ground (arith, v.serving, h);
            placed = ground (arith, v.serving, h);
          })
    ]

destroys-Inv : (a b : ℕ) (s : EventLoopThread) → s.owner ≡ returned b → Inv a s → Inv a (destroy s)
destroys-Inv a b s e v = elim (Option-cases s.loop) [
  | inl h ↦ rw h (record { serving = ground (arith, v.serving, h); placed = tt })
  | inr (c, h) ↦
      rw h
        (record { serving = ground (arith, v.serving, h); placed = ground (arith, v.serving, h) })
]

quits-Inv : (a : ℕ) (s : EventLoopThread) → s.owner ≡ quits → Inv a s → Inv a (quit_loop s)
quits-Inv a s e v =
    let there = subst (λ o. Placed a o s.runner s.quit s.early) e v.placed in
    record { serving = v.serving; placed = ground (arith, there) }

-- A step of the thread from `r` to `r'`, in which it neither publishes nor clears the loop.
runs-Inv :
    (a : ℕ) (s : EventLoopThread) (r r' : Runner) (quit' : Bool)
    → s.runner ≡ r
    → is_serving r ≡ is_serving r'
    → GoesOn r r' s.quit quit'
    → Inv a s
    → Inv a (record s { quit = quit'; runner = r' })
runs-Inv a s r r' quit' e same g v = record {
  serving = ground (arith, v.serving, e, same);
  placed = goes_on a s.owner s.early g (subst (λ q. Placed a s.owner q s.quit s.early) e v.placed);
}

Step-Inv : (a : ℕ) {s s' : EventLoopThread} → Step a s s' → Inv a s → Inv a s'
Step-Inv a (starts s e) v =
    let still = subst (λ o. Placed a o s.runner s.quit s.early) e v.placed in
    record { serving = ground (arith, v.serving, still); placed = λ h. ground (arith, h) }
Step-Inv a (tests s e) v = tests-Inv a s e v
Step-Inv a (wakes s e) v =
    let asleep = subst (λ o. Placed a o s.runner s.quit s.early) e v.placed in
    record { serving = v.serving; placed = λ h. ground (arith, h, asleep) }
Step-Inv a (constructed s e) v =
    runs-Inv a s constructs calls_back s.quit e refl
      (follows-GoesOn constructs calls_back s.quit s.quit refl (λ i j. ground (arith, i, j))) v
Step-Inv a (called_back s e) v =
    runs-Inv a s calls_back publishes s.quit e refl
      (follows-GoesOn calls_back publishes s.quit s.quit refl (λ i j. ground (arith, i, j))) v
Step-Inv a (published s e) v = record {
  serving = refl;
  placed =
      goes_on_notified a s.owner s.quit s.early
        (subst (λ q. Placed a s.owner q s.quit s.early) e v.placed);
}
Step-Inv a (entered s e) v =
    runs-Inv a s enters loops false e refl
      (follows-GoesOn enters loops s.quit false refl (λ i j. ground (arith, i, j))) v
Step-Inv a (functor_quits s e) v = record {
  serving = v.serving;
  placed =
      subst (λ r. Placed a s.owner r true s.early) (sym e)
        (goes_on a s.owner s.early (follows-GoesOn loops loops s.quit true refl (λ i j. refl))
          (subst (λ r. Placed a s.owner r s.quit s.early) e v.placed));
}
Step-Inv a (loop_returns s e q) v =
    runs-Inv a s loops leaves s.quit e refl
      (follows-GoesOn loops leaves s.quit s.quit refl (λ i j. ground (arith, i, j))) v
Step-Inv a (clears s e) v = record {
  serving = refl;
  placed =
      goes_on a s.owner s.early
        (follows-GoesOn leaves ended s.quit s.quit refl (λ i j. ground (arith, i, j)))
        (subst (λ q. Placed a s.owner q s.quit s.early) e v.placed);
}
Step-Inv a (destroys s b e) v = destroys-Inv a b s e v
Step-Inv a (quits_loop s e) v = quits-Inv a s e v
Step-Inv a (joined s e i) v = record { serving = v.serving; placed = tt }

Reach-Inv : (a : ℕ) {s : EventLoopThread} → Reach a event_loop_thread s → Inv a s
Reach-Inv a here = record { serving = refl; placed = refl }
Reach-Inv a (next r t) = Step-Inv a t (Reach-Inv a r)

-- In whatever order the owner and the thread take their steps: `startLoop` returns the thread's loop, and when it reads `loop_`, the
-- loop is there and the callback has returned. The owner sleeps in it only as long as the thread is on its way to
-- publish its loop, or when its loop has come to its end before. When the owner is in `join`, and called `quit` when `loop` had
-- begun, the thread is at its end, or its loop is, or is told to quit.
pub Reach-serves :
    (a : ℕ) (s : EventLoopThread)
    → Reach a event_loop_thread s
    → ((b : ℕ) → s.loop ≡ some b → (b ≡ a) × (is_serving s.runner ≡ true))
      × ((b : ℕ) → s.owner ≡ returned b → b ≡ a)
      × (s.owner ≡ sleeps → (is_to_come s.runner ≡ true) ⊎ (s.runner ≡ ended))
      × (s.owner ≡ joins
          → s.early ≡ false
          → (s.runner ≡ ended) ⊎ ((s.runner ≡ leaves) ⊎ ((s.runner ≡ loops) × (s.quit ≡ true))))
Reach-serves a s r =
    let v = Reach-Inv a r in
    (
      λ b h. ground (arith, v.serving, h),
      λ b h. (subst (λ o. Placed a o s.runner s.quit s.early) h v.placed).0,
      λ h. subst (λ o. Placed a o s.runner s.quit s.early) h v.placed,
      λ h k. ground (arith, subst (λ o. Placed a o s.runner s.quit s.early) h v.placed, k),
    )
