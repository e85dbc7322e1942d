-- ===== src/Base/CountDownLatch/Invariant.antt =====
-- Who has the mutex, and what sleeping threads wait for.
use dxian.Prelude.{
  ℕ, ◌≡◌, ◌≢◌, ◌⊎◌, inl, inr, refl, ap, subst, Bool, true, false, Option, none, some, arith,
  Bool-cases, ◌==◌, if◌then◌else◌,
}
use dxian.Prelude.Int.{ℤ, pos, ltb_ℤ}
use dxian.Base.CountDownLatch.{
  CountDownLatch, Phase, waits, idle, locking, assigning, body, at_wait, sleeping, waking,
  reassigning, notifying, unassigning, unlocking, go_to,
}

-- The phases in which a thread has the mutex, and in which `holder_` says so.
abbrev pub has_mutex : Phase → Bool
has_mutex idle = false
has_mutex (locking o) = false
has_mutex (assigning o) = true
has_mutex (body o) = true
has_mutex at_wait = true
has_mutex sleeping = false
has_mutex waking = false
has_mutex reassigning = true
has_mutex notifying = true
has_mutex (unassigning o) = true
has_mutex (unlocking o) = true

abbrev pub is_held : Phase → Bool
is_held (body o) = true
is_held notifying = true
is_held (unassigning o) = true
is_held idle = false
is_held (locking o) = false
is_held (assigning o) = false
is_held at_wait = false
is_held sleeping = false
is_held waking = false
is_held reassigning = false
is_held (unlocking o) = false

-- `wait` is about to return.
abbrev pub is_done : Phase → Bool
is_done (unassigning waits) = true
is_done (unlocking waits) = true
is_done _ = false

abbrev is_owner : ℕ → Option ℕ → Bool
is_owner t none = false
is_owner t (some u) = u == t

pub record Inv (l : CountDownLatch) : Type 0 where
  pub owned : (t : ℕ) → has_mutex (l.phases t) ≡ is_owner t l.owner
  pub held :
      (t : ℕ)
      → has_mutex (l.phases t) ≡ true
      → l.holder ≡ (if is_held (l.phases t) then some t else none)
  pub free : l.owner ≡ none → l.holder ≡ none
  pub waits_for : (t : ℕ) → l.phases t ≡ at_wait → ltb_ℤ (pos 0) l.count ≡ true
  pub sleeps :
      (t : ℕ)
      → l.phases t ≡ sleeping
      → (ltb_ℤ (pos 0) l.count ≡ true) ⊎ ((u : ℕ) × (l.phases u ≡ notifying))
  pub done : (t : ℕ) → is_done (l.phases t) ≡ true → ltb_ℤ (pos 0) l.count ≡ false

-- Only one thread has the mutex.
pub one_owner :
    (l : CountDownLatch) (t u : ℕ)
    → Inv l
    → has_mutex (l.phases t) ≡ true
    → has_mutex (l.phases u) ≡ true
    → t ≡ u
one_owner l t u inv h k = ground (arith, inv.owned t, inv.owned u, h, k)

-- When the thread notifies, it has woken every other one.
abbrev pub NoneSleeps : CountDownLatch → ℕ → Type 0
NoneSleeps l t = l.phases t ≡ notifying → (j : ℕ) → l.phases j ≢ sleeping

-- One thread goes on to another phase, and the count stays.
module _ (l : CountDownLatch) (t : ℕ) (phase : Phase) (inv : Inv l) where
  others_sleep :
      (count : ℤ) (owner holder : Option ℕ)
      → NoneSleeps l t
      → count ≡ l.count
      → (j : ℕ) → l.phases j ≡ sleeping
      → (ltb_ℤ (pos 0) count ≡ true)
        ⊎ ((u : ℕ) × ((go_to phase t
                  (record l { count = count; owner = owner; holder = holder })).phases
                u
              ≡ notifying))
  others_sleep count owner holder not_it same j h = elim (inv.sleeps j h) [
    | inl e ↦ inl (rw same e)
    | inr (u, n) ↦ let other : t ≢ u = λ e. not_it (rw e n) j h in inr (u, ground (arith, other, n))
  ]

  -- A phase afterwards is the new one, or another thread's old one.
  pub split :
      (P : Phase → Type 0) (j : ℕ)
      → P ((go_to phase t l).phases j)
      → ((t ≡ j) × P phase) ⊎ ((t ≢ j) × P (l.phases j))
  split P j h = elim (Bool-cases (t == j)) [
    | inl e ↦ inl (ground (arith, e), subst P (ap (λ b. if b then phase else l.phases j) e) h)
    | inr e ↦
        inr
          (λ same. ground (arith, same, e), subst P (ap (λ b. if b then phase else l.phases j) e) h)
  ]

  -- With the mutex, before and after.
  pub keeps-Inv :
      (holder : Option ℕ)
      → has_mutex (l.phases t) ≡ true
      → has_mutex phase ≡ true
      → holder ≡ (if is_held phase then some t else none)
      → (phase ≡ at_wait → ltb_ℤ (pos 0) l.count ≡ true)
      → (is_done phase ≡ true → ltb_ℤ (pos 0) l.count ≡ false)
      → NoneSleeps l t
      → Inv (go_to phase t (record l { holder = holder }))
  keeps-Inv holder before after held at done not_it = record {
    owned = λ j. ground (arith, inv.owned j, before, after);
    held = λ j h. elim (split (λ p. has_mutex p ≡ true) j h) [
      | inl (e, k) ↦ ground (arith, e, held)
      | inr (d, k) ↦ absurd (d (one_owner l t j inv before k))
    ];
    free = λ h. absurd (ground (arith, inv.owned t, before, h));
    waits_for = λ j h. elim (split (λ p. p ≡ at_wait) j h) [
      | inl (e, k) ↦ at k
      | inr (d, k) ↦ inv.waits_for j k
    ];
    sleeps = λ j h. elim (split (λ p. p ≡ sleeping) j h) [
      | inl (e, k) ↦ absurd (ground (arith, k, after))
      | inr (d, k) ↦ others_sleep l.count l.owner holder not_it refl j k
    ];
    done = λ j h. elim (split (λ p. is_done p ≡ true) j h) [
      | inl (e, k) ↦ done k
      | inr (d, k) ↦ inv.done j k
    ];
  }

  -- Without the mutex, before and after.
  pub outside-Inv :
      has_mutex (l.phases t) ≡ false
      → has_mutex phase ≡ false
      → phase ≢ sleeping
      → Inv (go_to phase t l)
  outside-Inv before after awake = record {
    owned = λ j. ground (arith, inv.owned j, before, after);
    held = λ j h. elim (split (λ p. has_mutex p ≡ true) j h) [
      | inl (e, k) ↦ absurd (ground (arith, k, after))
      | inr (d, k) ↦ ground (arith, d, inv.held j k)
    ];
    free = inv.free;
    waits_for = λ j h. elim (split (λ p. p ≡ at_wait) j h) [
      | inl (e, k) ↦ absurd (ground (arith, k, after))
      | inr (d, k) ↦ inv.waits_for j k
    ];
    sleeps = λ j h. elim (split (λ p. p ≡ sleeping) j h) [
      | inl (e, k) ↦ absurd (awake k)
      | inr (d, k) ↦
          others_sleep l.count l.owner l.holder (λ n i k. ground (arith, n, before)) refl j k
    ];
    done = λ j h. elim (split (λ p. is_done p ≡ true) j h) [
      | inl (e, k) ↦ absurd (ground (arith, k, after))
      | inr (d, k) ↦ inv.done j k
    ];
  }

  -- A free mutex is taken.
  pub takes-Inv :
      l.owner ≡ none
      → has_mutex (l.phases t) ≡ false
      → has_mutex phase ≡ true
      → is_held phase ≡ false
      → phase ≢ at_wait
      → is_done phase ≡ false
      → Inv (go_to phase t (record l { owner = some t }))
  takes-Inv free before after unheld not_at not_done = record {
    owned = λ j. ground (arith, inv.owned j, free, before, after);
    held = λ j h. elim (split (λ p. has_mutex p ≡ true) j h) [
      | inl (e, k) ↦ ground (arith, e, unheld, inv.free free)
      | inr (d, k) ↦ absurd (ground (arith, inv.owned j, k, free))
    ];
    free = λ h. absurd (ground arith);
    waits_for = λ j h. elim (split (λ p. p ≡ at_wait) j h) [
      | inl (e, k) ↦ absurd (not_at k)
      | inr (d, k) ↦ inv.waits_for j k
    ];
    sleeps = λ j h. elim (split (λ p. p ≡ sleeping) j h) [
      | inl (e, k) ↦ absurd (ground (arith, k, after))
      | inr (d, k) ↦
          others_sleep l.count (some t) l.holder (λ n i k. ground (arith, n, before)) refl j k
    ];
    done = λ j h. elim (split (λ p. is_done p ≡ true) j h) [
      | inl (e, k) ↦ absurd (ground (arith, k, not_done))
      | inr (d, k) ↦ inv.done j k
    ];
  }

  -- The mutex is given back.
  pub releases-Inv :
      has_mutex (l.phases t) ≡ true
      → is_held (l.phases t) ≡ false
      → has_mutex phase ≡ false
      → is_done phase ≡ false
      → (phase ≡ sleeping → ltb_ℤ (pos 0) l.count ≡ true)
      → Inv (go_to phase t (record l { owner = none }))
  releases-Inv before unheld after not_done waiting = record {
    owned = λ j. ground (arith, inv.owned j, inv.owned t, before, after);
    held = λ j h. elim (split (λ p. has_mutex p ≡ true) j h) [
      | inl (e, k) ↦ absurd (ground (arith, k, after))
      | inr (d, k) ↦ absurd (d (one_owner l t j inv before k))
    ];
    free = λ h. ground (arith, inv.held t before, unheld);
    waits_for = λ j h. elim (split (λ p. p ≡ at_wait) j h) [
      | inl (e, k) ↦ absurd (ground (arith, k, after))
      | inr (d, k) ↦ inv.waits_for j k
    ];
    sleeps = λ j h. elim (split (λ p. p ≡ sleeping) j h) [
      | inl (e, k) ↦ inl (waiting k)
      | inr (d, k) ↦
          others_sleep l.count none l.holder (λ n i k. ground (arith, n, unheld)) refl j k
    ];
    done = λ j h. elim (split (λ p. is_done p ≡ true) j h) [
      | inl (e, k) ↦ absurd (ground (arith, k, not_done))
      | inr (d, k) ↦ inv.done j k
    ];
  }
