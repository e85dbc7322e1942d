-- ===== src/Base/CountDownLatch/Release.antt =====
-- Every step of the latch, and what holds whatever the threads do.
use dxian.Prelude.{
  ℕ, ◌≡◌, ◌≢◌, ◌⊎◌, inl, inr, refl, sym, subst, ◌∙◌, true, false, none, some, arith, Bool-cases,
  Option-cases, if◌then◌else◌,
}
use dxian.Prelude.Int.{ℤ, pos, ◌-ℤ◌, ltb_ℤ, -ℤ_parts}
use dxian.Base.CountDownLatch.{
  CountDownLatch, Phase, Operation, waits, counts_down, gets_count, idle, locking, assigning, body,
  at_wait, sleeping, waking, reassigning, notifying, unassigning, unlocking, go_to, mutex_lock,
  woken, broadcast, run_body, advance, Step, calls, advances, wakes, Reach, here, next,
  count_down_latch, is_zero,
}
use dxian.Base.CountDownLatch.Invariant.{
  Inv, has_mutex, is_held, is_done, one_owner, keeps-Inv, outside-Inv, takes-Inv, releases-Inv,
  split,
}

done_has_mutex : (p : Phase) → is_done p ≡ true → has_mutex p ≡ true
done_has_mutex p h = ground (arith, h)

still_left :
    (n m : ℤ) → ltb_ℤ (pos 0) n ≡ true → m ≡ n -ℤ pos 1 → is_zero m ≡ false → ltb_ℤ (pos 0) m ≡ true
still_left n m h e k = ground (arith, -ℤ_parts n (pos 1), e)

woken-mutex : (p : Phase) → has_mutex (woken p) ≡ has_mutex p
woken-mutex p = ground arith

woken-held : (p : Phase) → is_held (woken p) ≡ is_held p
woken-held p = ground arith

woken-done : (p : Phase) → is_done (woken p) ≡ is_done p
woken-done p = ground arith

woken-at : (p : Phase) → woken p ≡ at_wait → p ≡ at_wait
woken-at p h = ground arith

woken-sleeping : (p : Phase) → woken p ≢ sleeping
woken-sleeping p h = ground arith

module _ (l : CountDownLatch) (t : ℕ) (inv : Inv l) where
  -- `--count_`, and what follows it.
  counts-Inv :
      (phase : Phase) (count : ℤ)
      → l.phases t ≡ body counts_down
      → count ≡ l.count -ℤ pos 1
      → (phase ≡ notifying) ⊎ ((phase ≡ unassigning counts_down) × (is_zero count ≡ false))
      → Inv (go_to phase t (record l { count = count }))
  counts-Inv phase count e less may =
      let before : has_mutex (l.phases t) ≡ true = rw e refl in
      let held : is_held phase ≡ true = ground (arith, may) in
      record {
        owned = λ j. ground (arith, inv.owned j, before, may);
        held = λ j h. elim (split l t phase inv (λ p. has_mutex p ≡ true) j h) [
          | inl (same, k) ↦ ground (arith, same, held, inv.held t before, e)
          | inr (d, k) ↦ absurd (d (one_owner l t j inv before k))
        ];
        free = λ h. absurd (ground (arith, inv.owned t, before, h));
        waits_for = λ j h. elim (split l t phase inv (λ p. p ≡ at_wait) j h) [
          | inl (same, k) ↦ absurd (ground (arith, k, may))
          | inr (d, k) ↦ absurd (d (one_owner l t j inv before (rw k refl)))
        ];
        sleeps = λ j h. elim (split l t phase inv (λ p. p ≡ sleeping) j h) [
          | inl (same, k) ↦ absurd (ground (arith, k, may))
          | inr (d, k) ↦ elim may [
            | inl n ↦ inr (t, ground (arith, n))
            | inr (n, positive) ↦ elim (inv.sleeps j k) [
              | inl some_left ↦ inl (still_left l.count count some_left less positive)
              | inr (u, other) ↦
                  let same = one_owner l t u inv before (rw other refl) in
                  absurd (ground (arith, e, other, same))
            ]
          ]
        ];
        done = λ j h. elim (split l t phase inv (λ p. is_done p ≡ true) j h) [
          | inl (same, k) ↦ absurd (ground (arith, k, may))
          | inr (d, k) ↦ absurd (d (one_owner l t j inv before (done_has_mutex (l.phases j) k)))
        ];
      }

  broadcast-Inv : l.phases t ≡ notifying → Inv (broadcast l)
  broadcast-Inv e = record {
    owned = λ j. woken-mutex (l.phases j) ∙ inv.owned j;
    held = λ j h. rw (woken-held (l.phases j)) (inv.held j (sym (woken-mutex (l.phases j)) ∙ h));
    free = inv.free;
    waits_for = λ j h. inv.waits_for j (woken-at (l.phases j) h);
    sleeps = λ j h. absurd (woken-sleeping (l.phases j) h);
    done = λ j h. inv.done j (sym (woken-done (l.phases j)) ∙ h);
  }

still_done : (o : Operation) → is_done (unlocking o) ≡ true → is_done (unassigning o) ≡ true
still_done o h = ground arith

given : {a b : CountDownLatch} → some a ≡ some b → a ≡ b
given e = ground arith

module _ (l l' : CountDownLatch) (t : ℕ) (inv : Inv l) where
  locks-Inv :
      (phase : Phase)
      → has_mutex (l.phases t) ≡ false
      → has_mutex phase ≡ true
      → is_held phase ≡ false
      → phase ≢ at_wait
      → is_done phase ≡ false
      → mutex_lock phase t l ≡ some l'
      → Inv l'
  locks-Inv phase before after unheld not_at not_done e = elim (Option-cases l.owner) [
    | inl free ↦
        subst Inv (given (rw free at e))
          (takes-Inv l t phase inv free before after unheld not_at not_done)
    | inr (u, owned) ↦ absurd (ground (arith, e, owned))
  ]

  body-Inv : (o : Operation) → l.phases t ≡ body o → Inv (run_body o t l)
  body-Inv waits e = elim (Bool-cases (ltb_ℤ (pos 0) l.count)) [
    | inl h ↦ rw h (
        keeps-Inv l t at_wait inv none (rw e refl) refl refl (λ k. h)
          (λ k. absurd (ground (arith, k))) (λ n j k. ground (arith, n, e)))
    | inr h ↦ rw h (
        keeps-Inv l t (unassigning waits) inv l.holder (rw e refl) refl
          (ground (arith, inv.held t, e)) (λ k. absurd (ground (arith, k))) (λ k. h)
          (λ n j k. ground (arith, n, e)))
  ]
  body-Inv counts_down e = elim (Bool-cases (is_zero (l.count -ℤ pos 1))) [
    | inl h ↦ rw h (counts-Inv l t inv notifying (l.count -ℤ pos 1) e refl (inl refl))
    | inr h ↦
        rw h
          (counts-Inv l t inv (unassigning counts_down) (l.count -ℤ pos 1) e refl (inr (refl, h)))
  ]
  body-Inv gets_count e =
      keeps-Inv l t (unassigning gets_count) inv l.holder (rw e refl) refl
        (ground (arith, inv.held t, e)) (λ h. absurd (ground (arith, h)))
        (λ h. absurd (ground (arith, h))) (λ n j k. ground (arith, n, e))

  advance-Inv : (p : Phase) → l.phases t ≡ p → advance p t l ≡ some l' → Inv l'
  unfolding advance
  advance-Inv idle e h = absurd (ground (arith, h))
  advance-Inv (locking o) e h =
      locks-Inv (assigning o) (rw e refl) refl refl (λ k. ground (arith, k)) refl h
  advance-Inv (assigning o) e h = subst Inv (given h) (
      keeps-Inv l t (body o) inv (some t) (rw e refl) refl refl (λ k. absurd (ground (arith, k)))
        (λ k. absurd (ground (arith, k))) (λ n j k. ground (arith, n, e)))
  advance-Inv (body o) e h = subst Inv (given h) (body-Inv o e)
  advance-Inv at_wait e h =
      subst Inv (given h)
        (releases-Inv l t sleeping inv (rw e refl) (rw e refl) refl refl (λ k. inv.waits_for t e))
  advance-Inv sleeping e h = absurd (ground (arith, h))
  advance-Inv waking e h =
      locks-Inv reassigning (rw e refl) refl refl (λ k. ground (arith, k)) refl h
  advance-Inv reassigning e h = subst Inv (given h) (
      keeps-Inv l t (body waits) inv (some t) (rw e refl) refl refl
        (λ k. absurd (ground (arith, k))) (λ k. absurd (ground (arith, k)))
        (λ n j k. ground (arith, n, e)))
  advance-Inv notifying e h = subst Inv (given h) (
      keeps-Inv (broadcast l) t (unassigning counts_down) (broadcast-Inv l t inv e) l.holder
        (rw e refl) refl (ground (arith, inv.held t, e)) (λ k. absurd (ground (arith, k)))
        (λ k. absurd (ground (arith, k))) (λ n j k. woken-sleeping (l.phases j) k))
  advance-Inv (unassigning o) e h = subst Inv (given h) (
      keeps-Inv l t (unlocking o) inv none (rw e refl) refl refl (λ k. absurd (ground (arith, k)))
        (λ k. inv.done t (rw e (still_done o k))) (λ n j k. ground (arith, n, e)))
  advance-Inv (unlocking o) e h = subst Inv (given h) (
      releases-Inv l t idle inv (rw e refl) (rw e refl) refl refl (λ k. absurd (ground (arith, k))))

Step-Inv : {l l' : CountDownLatch} → Step l l' → Inv l → Inv l'
Step-Inv (calls l t o e) inv =
    outside-Inv l t (locking o) inv (rw e refl) refl (λ k. ground (arith, k))
Step-Inv (advances l l' t e) inv = advance-Inv l l' t inv (l.phases t) refl e
Step-Inv (wakes l t e) inv = outside-Inv l t waking inv (rw e refl) refl (λ k. ground (arith, k))

start-Inv : (count : ℤ) → Inv (count_down_latch count)
start-Inv count = record {
  owned = λ t. refl;
  held = λ t h. absurd (ground (arith, h));
  free = λ h. refl;
  waits_for = λ t h. absurd (ground (arith, h));
  sleeps = λ t h. absurd (ground (arith, h));
  done = λ t h. absurd (ground (arith, h));
}

pub Reach-Inv : (count : ℤ) (l : CountDownLatch) → Reach (count_down_latch count) l → Inv l
Reach-Inv count l here = start-Inv count
Reach-Inv count l (next r s) = Step-Inv s (Reach-Inv count _ r)

-- Whatever the threads do: one thread at most has the mutex, and in the bodies of the operations `holder_` is the thread
-- itself, as `assertLocked` demands.
pub Reach-exclusive :
    (count : ℤ) (l : CountDownLatch) (t : ℕ)
    → Reach (count_down_latch count) l
    → has_mutex (l.phases t) ≡ true
    → ((u : ℕ) → has_mutex (l.phases u) ≡ true → u ≡ t)
      × (l.holder ≡ (if is_held (l.phases t) then some t else none))
Reach-exclusive count l t r h =
    let inv = Reach-Inv count l r in (λ u k. one_owner l u t inv k h, inv.held t h)

-- Whatever the threads do, and in any order: `wait` returns only when the count is not positive, and no wakeup is lost: when the
-- count is not positive and no thread has the mutex, no thread sleeps in `wait`.
pub Reach-released :
    (count : ℤ) (l : CountDownLatch)
    → Reach (count_down_latch count) l
    → ((t : ℕ) → is_done (l.phases t) ≡ true → ltb_ℤ (pos 0) l.count ≡ false)
      × (ltb_ℤ (pos 0) l.count ≡ false → l.owner ≡ none → (t : ℕ) → l.phases t ≢ sleeping)
Reach-released count l r =
    let inv = Reach-Inv count l r in
    (
      inv.done,
      λ zero free t asleep. elim (inv.sleeps t asleep) [
        | inl left ↦ ground (arith, left, zero)
        | inr (u, n) ↦ ground (arith, inv.owned u, n, free)
      ],
    )
