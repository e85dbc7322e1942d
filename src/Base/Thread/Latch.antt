-- ===== src/Base/Thread/Latch.antt =====
-- A latch of one in which one thread waits and the other counts down.
use dxian.Prelude.{
  ℕ, ◌<◌, ◌≡◌, ◌≢◌, ◌⊎◌, inl, inr, refl, subst, Bool, true, false, none, some, arith, Bool-cases,
  Option-cases, Option,
}
use dxian.Prelude.Int.{pos, ◌-ℤ◌, ltb_ℤ}
use dxian.Base.CountDownLatch.{
  CountDownLatch, Phase, Operation, waits, counts_down, gets_count, idle, locking, assigning, body,
  at_wait, sleeping, waking, reassigning, notifying, unassigning, unlocking, go_to, mutex_lock,
  woken, broadcast, advance, is_zero,
}
use dxian.Base.CountDownLatch.Invariant.{has_mutex, is_done}

abbrev is_idle : Phase → Bool
is_idle idle = true
is_idle _ = false

-- The steps that `wait` still takes, unless a thread is woken again.
abbrev pub wait_rank : Phase → ℕ
wait_rank (locking o) = 12
wait_rank (assigning o) = 11
wait_rank waking = 14
wait_rank reassigning = 13
wait_rank (body o) = 10
wait_rank at_wait = 9
wait_rank sleeping = 8
wait_rank (unassigning o) = 7
wait_rank (unlocking o) = 6
wait_rank notifying = 6
wait_rank idle = 5

abbrev pub count_rank : Phase → ℕ
count_rank (locking o) = 12
count_rank (assigning o) = 11
count_rank (body o) = 10
count_rank notifying = 9
count_rank (unassigning o) = 8
count_rank (unlocking o) = 7
count_rank waking = 7
count_rank reassigning = 7
count_rank at_wait = 7
count_rank sleeping = 7
count_rank idle = 6

abbrev is_waits : Operation → Bool
is_waits waits = true
is_waits counts_down = false
is_waits gets_count = false

abbrev is_counts_down : Operation → Bool
is_counts_down waits = false
is_counts_down counts_down = true
is_counts_down gets_count = false

-- The phases of a thread that only waits, and of one that only counts down.
abbrev pub only_waits : Phase → Bool
only_waits idle = true
only_waits (locking o) = is_waits o
only_waits (assigning o) = is_waits o
only_waits (body o) = is_waits o
only_waits at_wait = true
only_waits sleeping = true
only_waits waking = true
only_waits reassigning = true
only_waits notifying = false
only_waits (unassigning o) = is_waits o
only_waits (unlocking o) = is_waits o

abbrev pub only_counts : Phase → Bool
only_counts idle = true
only_counts (locking o) = is_counts_down o
only_counts (assigning o) = is_counts_down o
only_counts (body o) = is_counts_down o
only_counts at_wait = false
only_counts sleeping = false
only_counts waking = false
only_counts reassigning = false
only_counts notifying = true
only_counts (unassigning o) = is_counts_down o
only_counts (unlocking o) = is_counts_down o

-- `--count_` is still to come.
abbrev pub will_count : Phase → Bool
will_count (locking o) = true
will_count (assigning o) = true
will_count (body o) = true
will_count notifying = false
will_count (unassigning o) = false
will_count (unlocking o) = false
will_count idle = false
will_count at_wait = false
will_count sleeping = false
will_count waking = false
will_count reassigning = false

-- One step of the thread that waits.
pub record WaitStep (l l' : CountDownLatch) (t : ℕ) : Type 0 where
  pub same_count : l'.count ≡ l.count
  pub same_phases : (j : ℕ) → t ≢ j → l'.phases j ≡ l.phases j
  pub still_waits : only_waits (l'.phases t) ≡ true
  pub ends_done : l'.phases t ≡ idle → is_done (l.phases t) ≡ true
  pub less : wait_rank (l'.phases t) < wait_rank (l.phases t)

-- One step of the thread that counts down.
pub record CountStep (l l' : CountDownLatch) (t : ℕ) : Type 0 where
  pub counted :
      (will_count (l.phases t) ≡ will_count (l'.phases t)) × (l'.count ≡ l.count)
      ⊎ (will_count (l.phases t) ≡ true)
        × (will_count (l'.phases t) ≡ false)
        × (l'.count ≡ l.count -ℤ pos 1)
  pub same_phases :
      (j : ℕ) → t ≢ j → (l'.phases j ≡ l.phases j) ⊎ (l'.phases j ≡ woken (l.phases j))
  pub still_counts : only_counts (l'.phases t) ≡ true
  pub less : count_rank (l'.phases t) < count_rank (l.phases t)

given : {a b : CountDownLatch} → some a ≡ some b → a ≡ b
given e = ground arith

module _ (l : CountDownLatch) (t : ℕ) where
  waits_on :
      (p q : Phase) (owner holder : Option ℕ)
      → l.phases t ≡ p
      → only_waits q ≡ true
      → (is_idle q ≡ false) ⊎ (is_done p ≡ true)
      → wait_rank q < wait_rank p
      → WaitStep l (go_to q t (record l { owner = owner; holder = holder })) t
  waits_on p q owner holder e waits_too ends less = record {
    same_count = refl;
    same_phases = λ j d. ground (arith, d);
    still_waits = ground (arith, waits_too);
    ends_done = λ h. ground (arith, e, ends, h);
    less = ground (arith, e, less);
  }

  counts_on :
      (p q : Phase) (owner holder : Option ℕ)
      → l.phases t ≡ p
      → only_counts q ≡ true
      → will_count p ≡ will_count q
      → count_rank q < count_rank p
      → CountStep l (go_to q t (record l { owner = owner; holder = holder })) t
  counts_on p q owner holder e counts_too same less = record {
    counted = inl (ground (arith, e, same), refl);
    same_phases = λ j d. inl (ground (arith, d));
    still_counts = ground (arith, counts_too);
    less = ground (arith, e, less);
  }

  module _ (l' : CountDownLatch) where
    locks :
        (p q : Phase)
        → l.phases t ≡ p
        → mutex_lock q t l ≡ some l'
        → only_waits q ≡ true
        → (is_idle q ≡ false) ⊎ (is_done p ≡ true)
        → wait_rank q < wait_rank p
        → WaitStep l l' t
    locks p q e h waits_too ends less = elim (Option-cases l.owner) [
      | inl free ↦
          subst (λ m. WaitStep l m t) (given (rw free at h))
            (waits_on p q (some t) l.holder e waits_too ends less)
      | inr (u, owned) ↦ absurd (ground (arith, h, owned))
    ]

    pub waits-WaitStep :
        (p : Phase)
        → l.phases t ≡ p
        → only_waits p ≡ true
        → advance p t l ≡ some l'
        → WaitStep l l' t
    unfolding advance
    waits-WaitStep idle e k h = absurd (ground (arith, h))
    waits-WaitStep (locking waits) e k h =
        locks (locking waits) (assigning waits) e h refl (inl refl) (omega arith)
    waits-WaitStep (assigning waits) e k h =
        subst (λ m. WaitStep l m t) (given h)
          (waits_on (assigning waits) (body waits) l.owner (some t) e refl (inl refl) (omega arith))
    waits-WaitStep (body waits) e k h = elim (Bool-cases (ltb_ℤ (pos 0) l.count)) [
      | inl more ↦
          subst (λ m. WaitStep l m t) (given (rw more at h))
            (waits_on (body waits) at_wait l.owner none e refl (inl refl) (omega arith))
      | inr zero_left ↦
          subst (λ m. WaitStep l m t) (given (rw zero_left at h))
            (waits_on (body waits) (unassigning waits) l.owner l.holder e refl (inl refl)
              (omega arith))
    ]
    waits-WaitStep at_wait e k h =
        subst (λ m. WaitStep l m t) (given h)
          (waits_on at_wait sleeping none l.holder e refl (inl refl) (omega arith))
    waits-WaitStep sleeping e k h = absurd (ground (arith, h))
    waits-WaitStep waking e k h = locks waking reassigning e h refl (inl refl) (omega arith)
    waits-WaitStep reassigning e k h =
        subst (λ m. WaitStep l m t) (given h)
          (waits_on reassigning (body waits) l.owner (some t) e refl (inl refl) (omega arith))
    waits-WaitStep notifying e k h = absurd (ground (arith, k))
    waits-WaitStep (unassigning waits) e k h =
        subst (λ m. WaitStep l m t) (given h)
          (waits_on (unassigning waits) (unlocking waits) l.owner none e refl (inl refl)
            (omega arith))
    waits-WaitStep (unlocking waits) e k h =
        subst (λ m. WaitStep l m t) (given h)
          (waits_on (unlocking waits) idle none l.holder e refl (inr refl) (omega arith))
    waits-WaitStep _ e k h = absurd (ground (arith, k))

    locks-CountStep :
        mutex_lock (assigning counts_down) t l ≡ some l'
        → l.phases t ≡ locking counts_down
        → CountStep l l' t
    locks-CountStep h e = elim (Option-cases l.owner) [
      | inl free ↦
          subst (λ m. CountStep l m t) (given (rw free at h))
            (counts_on (locking counts_down) (assigning counts_down) (some t) l.holder e refl refl
              (omega arith))
      | inr (u, owned) ↦ absurd (ground (arith, h, owned))
    ]

  counts_one :
      (q : Phase)
      → l.phases t ≡ body counts_down
      → only_counts q ≡ true
      → will_count q ≡ false
      → count_rank q < 10
      → CountStep l (go_to q t (record l { count = l.count -ℤ pos 1 })) t
  counts_one q e counts_too not_again less = record {
    counted = inr (ground (arith, e), ground (arith, not_again), refl);
    same_phases = λ j d. inl (ground (arith, d));
    still_counts = ground (arith, counts_too);
    less = ground (arith, e, less);
  }

  notifies :
      l.phases t ≡ notifying → CountStep l (go_to (unassigning counts_down) t (broadcast l)) t
  notifies e = record {
    counted = inl (ground (arith, e), refl);
    same_phases = λ j d. inr (ground (arith, d));
    still_counts = ground arith;
    less = ground (arith, e);
  }

  pub counts-CountStep :
      (l' : CountDownLatch) (p : Phase)
      → l.phases t ≡ p
      → only_counts p ≡ true
      → advance p t l ≡ some l'
      → CountStep l l' t
  unfolding advance
  counts-CountStep l' idle e k h = absurd (ground (arith, h))
  counts-CountStep l' (locking counts_down) e k h = locks-CountStep l' h e
  counts-CountStep l' (assigning counts_down) e k h =
      subst (λ m. CountStep l m t) (given h)
        (counts_on (assigning counts_down) (body counts_down) l.owner (some t) e refl refl
          (omega arith))
  counts-CountStep l' (body counts_down) e k h = elim (Bool-cases (is_zero (l.count -ℤ pos 1))) [
    | inl last ↦
        subst (λ m. CountStep l m t) (given (rw last at h))
          (counts_one notifying e refl refl (omega arith))
    | inr more ↦
        subst (λ m. CountStep l m t) (given (rw more at h))
          (counts_one (unassigning counts_down) e refl refl (omega arith))
  ]
  counts-CountStep l' notifying e k h = subst (λ m. CountStep l m t) (given h) (notifies e)
  counts-CountStep l' (unassigning counts_down) e k h =
      subst (λ m. CountStep l m t) (given h)
        (counts_on (unassigning counts_down) (unlocking counts_down) l.owner none e refl refl
          (omega arith))
  counts-CountStep l' (unlocking counts_down) e k h =
      subst (λ m. CountStep l m t) (given h)
        (counts_on (unlocking counts_down) idle none l.holder e refl refl (omega arith))
  counts-CountStep l' _ e k h = absurd (ground (arith, k))

  held_moves : (p : Phase) → has_mutex p ≡ true → (l' : CountDownLatch) × (advance p t l ≡ some l')
  unfolding advance
  held_moves (assigning o) h = (_, refl)
  held_moves (body o) h = (_, refl)
  held_moves at_wait h = (_, refl)
  held_moves reassigning h = (_, refl)
  held_moves notifying h = (_, refl)
  held_moves (unassigning o) h = (_, refl)
  held_moves (unlocking o) h = (_, refl)
  held_moves _ h = absurd (ground (arith, h))

  -- A thread that has the mutex has a step.
  pub moves_on :
      has_mutex (l.phases t) ≡ true → (l' : CountDownLatch) × (advance (l.phases t) t l ≡ some l')
  moves_on h = held_moves (l.phases t) h

  -- So has one that waits for the mutex when nobody has it.
  pub locks_free :
      l.owner ≡ none
      → (l.phases t ≡ waking) ⊎ ((o : Operation) × (l.phases t ≡ locking o))
      → (l' : CountDownLatch) × (advance (l.phases t) t l ≡ some l')
  unfolding advance
  locks_free free (inl h) = rw h (rw free (_, refl))
  locks_free free (inr (o, h)) = rw h (rw free (_, refl))
