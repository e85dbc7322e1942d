-- ===== src/Net/EventLoop/Turn.antt =====
-- The order of the handlers, and the assertions of `loop` and `removeChannel`.
use dxian.Prelude.{
  ℕ, ◌≡◌, ◌≢◌, ◌⊎◌, inl, inr, refl, ap, subst, sym, ◌∙◌, arith, true, false, [], ◌∷◌, ◌++◌,
  append_assoc, Bool-cases, if◌then◌else◌, Option, none, some, Bool, List, not, ◌||◌, ◌==◌,
}
use dxian.Net.EventLoop.{
  EventLoop, Phase, stopped, tests, polls, handles, starts, calls, event_loop, start_loop,
  test_quit, polled, handle_channel, set_quit, wakeup, push, queue_in_loop, handle_read,
  start_calling, swap_functors, stop_calling, Work, other_pushes, other_quits, other_wakes,
  owner_queues, owner_quits, tests_quit, poll_returns, handles_next, reads, handler_queues,
  handler_quits, handled_all, swaps, calls_one, functor_queues, functor_quits, done, Step, works,
  loops, Reach, here, next, has, removable,
}
use dxian.Net.EventLoop.Wakeup.{loops_on}

abbrev is_looping : Phase → Bool
is_looping stopped = false
is_looping _ = true

abbrev pub last : List ℕ → Option ℕ
last [] = none
last (c ∷ []) = some c
last (c ∷ d ∷ cs) = last (d ∷ cs)

last-append : (cs : List ℕ) (c : ℕ) → last (cs ++ c ∷ []) ≡ some c
last-append [] c = refl
last-append (d ∷ []) c = refl
last-append (d ∷ e ∷ cs) c = last-append (e ∷ cs) c

-- What stands at each place: whether handlers run, which ones have run, and which channels are left.
abbrev Turned : Phase → Bool → List ℕ → List ℕ → List ℕ → Option ℕ → Type 0
Turned handles event_handling handled left active current =
    (event_handling ≡ true) × (handled ++ left ≡ active) × (current ≡ last handled)
Turned _ event_handling handled left active current = (event_handling ≡ false) × (current ≡ none)

record TurnInv (phase : Phase) (looping event_handling : Bool) (handled left active : List ℕ)
    (current : Option ℕ) : Type 0 where
  is_in_it : looping ≡ is_looping phase
  turned : Turned phase event_handling handled left active current

abbrev Inv : EventLoop → Type 0
Inv l =
    TurnInv l.phase l.looping l.event_handling l.handled l.left_channels l.active_channels
      l.current_active_channel

queue-Inv : (l : EventLoop) (f : ℕ) → Inv l → Inv (queue_in_loop f l)
unfolding queue_in_loop push wakeup
queue-Inv l f v = elim (Bool-cases l.calling_pending_functors) [ inl e ↦ rw e v | inr e ↦ rw e v ]

Turned-at :
    (l : EventLoop) (p : Phase)
    → l.phase ≡ p
    → Inv l
    → Turned p l.event_handling l.handled l.left_channels l.active_channels l.current_active_channel
Turned-at l p e v =
    subst
      (λ q.
        Turned q l.event_handling l.handled l.left_channels l.active_channels
          l.current_active_channel)
      e v.turned

handle-Inv :
    (l : EventLoop) (channel : ℕ) (channels : List ℕ)
    → l.phase ≡ handles
    → l.left_channels ≡ channel ∷ channels
    → Inv l
    → Inv (handle_channel channel channels l)
unfolding handle_channel
handle-Inv l channel channels e h v =
    let k = Turned-at l handles e v in
    rw e (record {
      is_in_it = v.is_in_it ∙ ap is_looping e;
      turned = (
        k.0,
        append_assoc l.handled (channel ∷ []) channels ∙ (ap (λ cs. l.handled ++ cs) (sym h) ∙ k.1),
        sym (last-append l.handled channel),
      );
    })

Work-Inv : {l m : EventLoop} → Work l m → Inv l → Inv m
unfolding wakeup push handle_read start_calling swap_functors stop_calling set_quit test_quit polled
Work-Inv (other_pushes l f) v = v
Work-Inv (other_quits l) v = v
Work-Inv (other_wakes l n e) v = v
Work-Inv (owner_queues l f e) v = queue-Inv l f v
Work-Inv (owner_quits l e) v = v
Work-Inv (tests_quit l e) v =
    let k = Turned-at l tests e v in
    elim (Bool-cases l.quit) [
      | inl q ↦ rw q (record { is_in_it = refl; turned = k })
      | inr q ↦ rw q (record { is_in_it = v.is_in_it ∙ ap is_looping e; turned = k })
    ]
Work-Inv (poll_returns l channels e) v =
    let k = Turned-at l polls e v in
    record { is_in_it = v.is_in_it ∙ ap is_looping e; turned = (refl, refl, k.1) }
Work-Inv (handles_next l channel channels e h) v = handle-Inv l channel channels e h v
Work-Inv (reads l e c) v = v
Work-Inv (handler_queues l f e) v = queue-Inv l f v
Work-Inv (handler_quits l e) v = v
Work-Inv (handled_all l e h) v = record {
  is_in_it = v.is_in_it ∙ ap is_looping e;
  turned = (refl, refl);
}
Work-Inv (swaps l e) v = record {
  is_in_it = v.is_in_it ∙ ap is_looping e;
  turned = Turned-at l starts e v;
}
Work-Inv (calls_one l f fs e q) v = v
Work-Inv (functor_queues l f e) v = queue-Inv l f v
Work-Inv (functor_quits l e) v = v
Work-Inv (done l e q) v = record {
  is_in_it = v.is_in_it ∙ ap is_looping e;
  turned = Turned-at l calls e v;
}

Step-Inv : {l m : EventLoop} → Step l m → Inv l → Inv m
Step-Inv (works w) v = Work-Inv w v
Step-Inv (loops l m e h) v =
    subst Inv (loops_on l m h) (record { is_in_it = refl; turned = Turned-at l stopped e v })

Reach-Inv : {l : EventLoop} → Reach event_loop l → Inv l
Reach-Inv here = record { is_in_it = refl; turned = (refl, refl) }
Reach-Inv (next r s) = Step-Inv s (Reach-Inv r)

-- The list is empty when `poll` begins, and holds what it reported while handlers run.
record Cleared (l : EventLoop) : Type 0 where
  empty : l.phase ≡ polls → l.active_channels ≡ []
  filled : l.phase ≡ handles → l.active_channels ≡ l.reported

Work-Cleared : {l m : EventLoop} → Work l m → Cleared l → Cleared m
unfolding wakeup push handle_read start_calling swap_functors stop_calling set_quit test_quit polled
    queue_in_loop handle_channel
Work-Cleared (other_pushes l f) v = record { empty = v.empty; filled = v.filled }
Work-Cleared (other_quits l) v = record { empty = v.empty; filled = v.filled }
Work-Cleared (other_wakes l n e) v = record { empty = v.empty; filled = v.filled }
Work-Cleared (owner_queues l f e) v = record {
  empty = λ h. absurd (ground (arith, h, e));
  filled = λ h. absurd (ground (arith, h, e));
}
Work-Cleared (owner_quits l e) v = record { empty = v.empty; filled = v.filled }
Work-Cleared (tests_quit l e) v = record {
  empty = λ h. ground (arith, h);
  filled = λ h. absurd (ground (arith, h));
}
Work-Cleared (poll_returns l channels e) v = record {
  empty = λ h. absurd (ground (arith, h));
  filled = λ h. ap (λ cs. cs ++ channels) (v.empty e);
}
Work-Cleared (handles_next l channel channels e i) v = record { empty = v.empty; filled = v.filled }
Work-Cleared (reads l e c) v = record { empty = v.empty; filled = v.filled }
Work-Cleared (handler_queues l f e) v = record {
  empty = λ h. absurd (ground (arith, h, e));
  filled = λ h. ground (arith, h, v.filled e);
}
Work-Cleared (handler_quits l e) v = record { empty = v.empty; filled = v.filled }
Work-Cleared (handled_all l e h) v = record {
  empty = λ k. absurd (ground (arith, k));
  filled = λ k. absurd (ground (arith, k));
}
Work-Cleared (swaps l e) v = record {
  empty = λ k. absurd (ground (arith, k));
  filled = λ k. absurd (ground (arith, k));
}
Work-Cleared (calls_one l f fs e q) v = record { empty = v.empty; filled = v.filled }
Work-Cleared (functor_queues l f e) v = record {
  empty = λ h. absurd (ground (arith, h, e));
  filled = λ h. absurd (ground (arith, h, e));
}
Work-Cleared (functor_quits l e) v = record { empty = v.empty; filled = v.filled }
Work-Cleared (done l e q) v = record {
  empty = λ k. absurd (ground (arith, k));
  filled = λ k. absurd (ground (arith, k));
}

Reach-Cleared : {l : EventLoop} → Reach event_loop l → Cleared l
Reach-Cleared here = record { empty = λ h. refl; filled = λ h. refl }
Reach-Cleared (next r (works w)) = Work-Cleared w (Reach-Cleared r)
Reach-Cleared (next r (loops l m e h)) =
    subst Cleared (loops_on l m h)
      (record { empty = λ k. absurd (ground (arith, k)); filled = λ k. absurd (ground (arith, k)) })

starts_again : (l : EventLoop) → l.looping ≡ false → (m : EventLoop) × (start_loop l ≡ some m)
unfolding start_loop
starts_again l e = rw e (_, refl)

not_handling :
    (p : Phase) (event_handling : Bool) (handled left active : List ℕ) (current : Option ℕ)
    → p ≢ handles
    → Turned p event_handling handled left active current
    → event_handling ≡ false
not_handling handles b hs ls cs c d k = absurd (d refl)
not_handling p b hs ls cs c d k = k.0

-- At any time: `loop` may be called when it is not running, as its assertion demands. While handlers run, the channels that
-- were handled, in their order and each once, and those that are left are the active ones, which are those that `poll` reported last, and the current channel is the one
-- handled last. A handler may remove its own channel, and outside of handlers any channel may be removed, without
-- the assertion of `removeChannel` failing.
pub Reach-in_turn :
    {l : EventLoop}
    → Reach event_loop l
    → (l.phase ≡ stopped → (m : EventLoop) × (start_loop l ≡ some m))
      × (l.phase ≡ handles
          → (l.handled ++ l.left_channels ≡ l.active_channels)
            × (l.active_channels ≡ l.reported)
            × (l.current_active_channel ≡ last l.handled))
      × ((channel : ℕ)
          → (l.current_active_channel ≡ some channel) ⊎ (l.phase ≢ handles)
          → removable channel l ≡ true)
Reach-in_turn {l = l} r =
    let v = Reach-Inv r in
    (
      λ e. starts_again l (v.is_in_it ∙ ap is_looping e),
      λ e. let k = Turned-at l handles e v in (k.1, (Reach-Cleared r).filled e, k.2),
      λ channel h. elim h [
        | inl e ↦ rw e (itself l.event_handling channel l.active_channels)
        | inr d ↦ rw (not_handling l.phase l.event_handling _ _ _ _ d v.turned) refl
      ],
    )
  where
    itself :
        (b : Bool) (channel : ℕ) (channels : List ℕ)
        → (if b then channel == channel || not (has channel channels) else true) ≡ true
    itself b channel channels = ground arith
