-- ===== src/Net/EventLoop/Wakeup.antt =====
-- Every functor is called once and in order, and the loop does not sleep over one.
use dxian.Prelude.{
  ℕ, ◌+◌, ◌<◌, ◌≡◌, ◌⊎◌, Bool-cases, some, inl, inr, refl, ap, subst, sym, ◌∙◌, arith, true, false,
  [], ◌∷◌, ◌++◌, append-nil, append_assoc,
}
use dxian.Net.EventLoop.{
  EventLoop, Phase, stopped, tests, polls, handles, starts, calls, event_loop, start_loop,
  test_quit, polled, handle_channel, set_quit, wakeup, push, queue_in_loop, handle_read,
  start_calling, swap_functors, stop_calling, Work, other_pushes, other_quits, other_wakes,
  owner_queues, owner_quits, tests_quit, poll_returns, handles_next, reads, handler_queues,
  handler_quits, handled_all, swaps, calls_one, functor_queues, functor_quits, done, Step, works,
  loops, Reach, here, next,
}

-- Something wakes the loop, or is about to, unless nothing is pending or its own thread queued outside `loop`.
abbrev pub Alarmed : EventLoop → Type 0
Alarmed l = (l.pending_functors ≡ []) ⊎ ((0 < l.wakeups + l.waking) ⊎ (l.silent ≡ true))

-- What holds at a place of the loop.
abbrev pub Placed : Phase → EventLoop → Type 0
Placed stopped l = (l.functors ≡ []) × (l.calling_pending_functors ≡ false) × Alarmed l
Placed tests l = (l.functors ≡ []) × (l.calling_pending_functors ≡ false) × Alarmed l
Placed polls l = (l.functors ≡ []) × (l.calling_pending_functors ≡ false) × Alarmed l
Placed handles l = (l.functors ≡ []) × (l.calling_pending_functors ≡ false)
Placed starts l = (l.functors ≡ []) × (l.calling_pending_functors ≡ true)
Placed calls l = (l.calling_pending_functors ≡ true) × Alarmed l

pub record Inv (l : EventLoop) : Type 0 where
  pub in_order : l.called ++ (l.functors ++ l.pending_functors) ≡ l.queued
  pub placed : Placed l.phase l

pushed :
    (l : EventLoop) (f : ℕ)
    → l.called ++ (l.functors ++ l.pending_functors) ≡ l.queued
    → l.called ++ (l.functors ++ (l.pending_functors ++ f ∷ [])) ≡ l.queued ++ f ∷ []
pushed l f h =
    ap (λ xs. l.called ++ xs) (sym (append_assoc l.functors l.pending_functors (f ∷ [])))
    ∙ (sym (append_assoc l.called (l.functors ++ l.pending_functors) (f ∷ []))
        ∙ ap (λ xs. xs ++ f ∷ []) h)

more_wakeups :
    (l : EventLoop) (p : Phase) (m : EventLoop)
    → m.functors ≡ l.functors
    → m.calling_pending_functors ≡ l.calling_pending_functors
    → 0 < m.wakeups + m.waking
    → Placed p l
    → Placed p m
more_wakeups l stopped m e1 e2 h k = (e1 ∙ k.0, e2 ∙ k.1, inr (inl h))
more_wakeups l tests m e1 e2 h k = (e1 ∙ k.0, e2 ∙ k.1, inr (inl h))
more_wakeups l polls m e1 e2 h k = (e1 ∙ k.0, e2 ∙ k.1, inr (inl h))
more_wakeups l handles m e1 e2 h k = (e1 ∙ k.0, e2 ∙ k.1)
more_wakeups l starts m e1 e2 h k = (e1 ∙ k.0, e2 ∙ k.1)
more_wakeups l calls m e1 e2 h k = (e2 ∙ k.0, inr (inl h))

Placed-at : (l : EventLoop) (p : Phase) → l.phase ≡ p → Inv l → Placed p l
Placed-at l p e v = subst (λ q. Placed q l) e v.placed

at_place :
    (l : EventLoop) (p : Phase)
    → l.phase ≡ p
    → l.called ++ (l.functors ++ l.pending_functors) ≡ l.queued
    → Placed p l
    → Inv l
at_place l p e h k = record { in_order = h; placed = subst (λ q. Placed q l) (sym e) k }

-- The place is the same, and so is all that `Placed` reads.
same-Placed :
    (l : EventLoop) (p : Phase) (m : EventLoop)
    → m.functors ≡ l.functors
    → m.calling_pending_functors ≡ l.calling_pending_functors
    → m.pending_functors ≡ l.pending_functors
    → m.wakeups + m.waking ≡ l.wakeups + l.waking
    → m.silent ≡ l.silent
    → Placed p l
    → Placed p m
same-Placed l stopped m e1 e2 e3 e4 e5 k = ground arith
same-Placed l tests m e1 e2 e3 e4 e5 k = ground arith
same-Placed l polls m e1 e2 e3 e4 e5 k = ground arith
same-Placed l handles m e1 e2 e3 e4 e5 k = ground arith
same-Placed l starts m e1 e2 e3 e4 e5 k = ground arith
same-Placed l calls m e1 e2 e3 e4 e5 k = ground arith

Work-Inv : {l m : EventLoop} → Work l m → Inv l → Inv m
unfolding wakeup push queue_in_loop handle_read start_calling swap_functors stop_calling set_quit
    test_quit polled handle_channel
Work-Inv (other_pushes l f) v = record {
  in_order = pushed l f v.in_order;
  placed = more_wakeups l l.phase _ refl refl (omega arith) v.placed;
}
Work-Inv (other_quits l) v = record {
  in_order = v.in_order;
  placed = more_wakeups l l.phase _ refl refl (omega arith) v.placed;
}
Work-Inv (other_wakes l n e) v = record {
  in_order = v.in_order;
  placed = more_wakeups l l.phase _ refl refl (omega arith) v.placed;
}
Work-Inv (owner_queues l f e) v =
    let k = Placed-at l stopped e v in
    rw k.1 (
      at_place (record (push f l) { calling_pending_functors = false; silent = true }) stopped e
        (pushed l f v.in_order) (k.0, refl, inr (inr refl)))
Work-Inv (owner_quits l e) v = record {
  in_order = v.in_order;
  placed = same-Placed l l.phase _ refl refl refl refl refl v.placed;
}
Work-Inv (tests_quit l e) v =
    let k = Placed-at l tests e v in
    elim (Bool-cases l.quit) [
      | inl q ↦ rw q (record { in_order = v.in_order; placed = k })
      | inr q ↦ rw q (record { in_order = v.in_order; placed = k })
    ]
Work-Inv (poll_returns l channels e) v =
    let k = Placed-at l polls e v in record { in_order = v.in_order; placed = (k.0, k.1) }
Work-Inv (handles_next l channel channels e h) v = record {
  in_order = v.in_order;
  placed = same-Placed l l.phase _ refl refl refl refl refl v.placed;
}
Work-Inv (reads l e c) v =
    let k = Placed-at l handles e v in
    at_place (record l { wakeups = 0 }) handles e v.in_order (k.0, k.1)
Work-Inv (handler_queues l f e) v =
    let k = Placed-at l handles e v in
    rw k.1 (
      at_place (record (push f l) { calling_pending_functors = false }) handles e
        (pushed l f v.in_order) (k.0, refl))
Work-Inv (handler_quits l e) v = record {
  in_order = v.in_order;
  placed = same-Placed l l.phase _ refl refl refl refl refl v.placed;
}
Work-Inv (handled_all l e h) v =
    let k = Placed-at l handles e v in record { in_order = v.in_order; placed = (k.0, refl) }
Work-Inv (swaps l e) v =
    let k = Placed-at l starts e v in
    record {
      in_order =
          ap (λ xs. l.called ++ xs) (append-nil l.pending_functors)
          ∙ subst (λ xs. l.called ++ (xs ++ l.pending_functors) ≡ l.queued) k.0 v.in_order;
      placed = (k.1, inl refl);
    }
Work-Inv (calls_one l f fs e q) v =
    let k = Placed-at l calls e v in
    at_place (record l { functors = fs; called = l.called ++ f ∷ [] }) calls e
      (append_assoc l.called (f ∷ []) (fs ++ l.pending_functors)
        ∙ subst (λ xs. l.called ++ (xs ++ l.pending_functors) ≡ l.queued) q v.in_order)
      (k.0, k.1)
Work-Inv (functor_queues l f e) v =
    let k = Placed-at l calls e v in
    rw k.0 (
      at_place (record (push f l) { calling_pending_functors = true; wakeups = l.wakeups + 1 })
        calls e (pushed l f v.in_order) (refl, inr (inl (omega arith))))
Work-Inv (functor_quits l e) v = record {
  in_order = v.in_order;
  placed = same-Placed l l.phase _ refl refl refl refl refl v.placed;
}
Work-Inv (done l e q) v =
    let k = Placed-at l calls e v in record { in_order = v.in_order; placed = (q, refl, k.1) }

pub loops_on :
    (l m : EventLoop)
    → start_loop l ≡ some m
    → record l { phase = tests; looping = true; quit = false } ≡ m
unfolding start_loop
loops_on l m h = elim (Bool-cases l.looping) [
  | inl e ↦ absurd (ground (arith, (rw e at h)))
  | inr e ↦ ground (arith, (rw e at h))
]

Step-Inv : {l m : EventLoop} → Step l m → Inv l → Inv m
Step-Inv (works w) v = Work-Inv w v
Step-Inv (loops l m e h) v =
    let k = Placed-at l stopped e v in
    subst Inv (loops_on l m h) (record { in_order = v.in_order; placed = k })

Reach-Inv : {l : EventLoop} → Reach event_loop l → Inv l
Reach-Inv here = record { in_order = refl; placed = (refl, refl, inl refl) }
Reach-Inv (next r s) = Step-Inv s (Reach-Inv r)

-- At any time, the functors that were called, those that `doPendingFunctors` still has to call and
-- those that are pending, in this order, are the functors that were queued, in their order. So
-- none is lost, called twice or called before one that was queued earlier.
pub Reach-in_order :
    {l : EventLoop} → Reach event_loop l → l.called ++ (l.functors ++ l.pending_functors) ≡ l.queued
Reach-in_order r = (Reach-Inv r).in_order

-- When the loop is in `poll`, every functor has been called, or the eventfd is readable, or another thread is just about to write
-- to it, or the loop's own thread has queued a functor outside `loop` and no functors have been taken since.
pub Reach-awake :
    {l : EventLoop}
    → Reach event_loop l
    → l.phase ≡ polls
    → (l.called ≡ l.queued) ⊎ ((0 < l.wakeups + l.waking) ⊎ (l.silent ≡ true))
Reach-awake {l = l} r e =
    let v = Reach-Inv r in
    let k = Placed-at l polls e v in
    elim k.2 [
      | inl none_left ↦ inl (
          sym (append-nil l.called)
          ∙ subst (λ xs. l.called ++ xs ≡ l.queued)
              (ap (λ xs. xs ++ l.pending_functors) k.0 ∙ none_left) v.in_order)
      | inr h ↦ inr h
    ]
