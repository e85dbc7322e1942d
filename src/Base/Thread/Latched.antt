-- ===== src/Base/Thread/Latched.antt =====
-- What the caller and the new thread do in the latch, along with their places.
use dxian.Prelude.{
  ℕ, zero, suc, ◌≡◌, ◌≢◌, ◌⊎◌, inl, inr, refl, ◌∙◌, Bool, true, false, some, arith, Bool-cases,
  if◌then◌else◌,
}
use dxian.Prelude.Int.{ℤ, pos, ◌-ℤ◌}
use dxian.Base.CountDownLatch.{
  CountDownLatch, Phase, waits, counts_down, idle, locking, sleeping, waking, go_to, woken, advance,
  count_down_latch,
}
use dxian.Base.CountDownLatch as Latch
use dxian.Base.CountDownLatch.Invariant.{is_done}
use dxian.Base.CountDownLatch.Release.{Reach-released}
use dxian.Base.Thread.{
  Caller, before, creating, waiting, asserting, returned, failed, aborted, Child, unborn, storing,
  counting, naming, running, ended,
}
use dxian.Base.Thread.Latch.{only_waits, only_counts, will_count, waits-WaitStep, counts-CountStep}

-- The new thread is there.
abbrev pub is_made : Caller → Bool
is_made before = false
is_made creating = false
is_made waiting = true
is_made asserting = true
is_made returned = true
is_made failed = false
is_made aborted = false

abbrev pub is_born : Child → Bool
is_born unborn = false
is_born _ = true

-- `*tid_` is still to be stored.
abbrev pub will_store : Child → Bool
will_store unborn = true
will_store storing = true
will_store _ = false

abbrev pub to_count : Child → Phase → Bool
to_count unborn p = true
to_count storing p = true
to_count counting p = will_count p
to_count naming p = false
to_count running p = false
to_count (ended e) p = false

abbrev count_left : Bool → ℤ
count_left b = if b then pos 1 else pos 0

-- The threads in the latch: only the caller waits, only the new thread counts down.
pub record Latched (l : CountDownLatch) (c : Caller) (d : Child) : Type 0 where
  pub reached : Latch.Reach (count_down_latch (pos 1)) l
  pub quiet : (j : ℕ) → 0 ≢ j → 1 ≢ j → l.phases j ≡ idle
  pub only_0 : only_waits (l.phases 0) ≡ true
  pub only_1 : only_counts (l.phases 1) ≡ true
  pub out_0 : c ≢ waiting → l.phases 0 ≡ idle
  pub out_1 : d ≢ counting → l.phases 1 ≡ idle
  pub count : l.count ≡ count_left (to_count d (l.phases 1))
  pub wait_over : l.phases 0 ≡ idle → is_made c ≡ true → to_count d (l.phases 1) ≡ false

module _ (l l' : CountDownLatch) (c : Caller) (d : Child) (inv : Latched l c d) where
  not_counted : to_count d (l.phases 1) ≡ true → is_done (l.phases 0) ≡ false
  not_counted h = elim (Bool-cases (is_done (l.phases 0))) [
    | inl done ↦
        absurd (ground (arith, (Reach-released (pos 1) l inv.reached).0 0 done, inv.count, h))
    | inr e ↦ e
  ]

  waits-Latched : advance (l.phases 0) 0 l ≡ some l' → Latched l' c d
  waits-Latched e =
      let w = waits-WaitStep l 0 l' (l.phases 0) refl inv.only_0 e in
      let other : l'.phases 1 ≡ l.phases 1 = w.same_phases 1 (λ q. omega (arith, q)) in
      record {
        reached = Latch.next inv.reached (Latch.advances l l' 0 e);
        quiet = λ j h k. w.same_phases j h ∙ inv.quiet j h k;
        only_0 = w.still_waits;
        only_1 = ground (arith, other, inv.only_1);
        out_0 = λ h. absurd (ground (arith, inv.out_0 h, w.less));
        out_1 = λ h. ground (arith, other, inv.out_1 h);
        count = ground (arith, other, w.same_count, inv.count);
        wait_over = λ h k. elim (Bool-cases (to_count d (l.phases 1))) [
          | inl left ↦ absurd (ground (arith, not_counted left, w.ends_done h))
          | inr over ↦ ground (arith, other, over)
        ];
      }

  counts-Latched : advance (l.phases 1) 1 l ≡ some l' → Latched l' c d
  unfolding ◌-ℤ◌
  counts-Latched e =
      let w = counts-CountStep l 1 l' (l.phases 1) refl inv.only_1 e in
      let in_it : l.phases 1 ≢ idle = λ h. ground (arith, h, w.less) in
      let other = w.same_phases 0 (λ q. omega (arith, q)) in
      let kept : to_count d (l.phases 1) ≡ false → to_count d (l'.phases 1) ≡ false =
        λ h. ground (arith, h, w.counted) in
      record {
        reached = Latch.next inv.reached (Latch.advances l l' 1 e);
        quiet = λ j h k. ground (arith, w.same_phases j k, inv.quiet j h k);
        only_0 = ground (arith, other, inv.only_0);
        only_1 = w.still_counts;
        out_0 = λ h. ground (arith, other, inv.out_0 h);
        out_1 = λ h. absurd (in_it (inv.out_1 h));
        count = counts d w.counted inv.count inv.out_1 in_it;
        wait_over = λ h k. kept (inv.wait_over (ground (arith, other, h)) k);
      }
    where
      counts :
          (d : Child)
          → (will_count (l.phases 1) ≡ will_count (l'.phases 1)) × (l'.count ≡ l.count)
            ⊎ (will_count (l.phases 1) ≡ true)
              × (will_count (l'.phases 1) ≡ false)
              × (l'.count ≡ l.count -ℤ pos 1)
          → l.count ≡ count_left (to_count d (l.phases 1))
          → (d ≢ counting → l.phases 1 ≡ idle)
          → l.phases 1 ≢ idle
          → l'.count ≡ count_left (to_count d (l'.phases 1))
      counts counting (inl (same, e)) h out in_it = ground (arith, same, e, h)
      counts counting (inr (was, is, e)) h out in_it = rw e (rw h (rw was (rw is refl)))
      counts _ w h out in_it = absurd (in_it (out (λ q. ground (arith, q))))

  pub latch-Latched : (t : ℕ) → advance (l.phases t) t l ≡ some l' → Latched l' c d
  unfolding advance
  latch-Latched zero e = waits-Latched e
  latch-Latched (suc zero) e = counts-Latched e
  latch-Latched (suc (suc t)) e = absurd (
      ground (
        arith,
        (rw (inv.quiet (suc (suc t)) (λ q. omega (arith, q)) (λ q. omega (arith, q))) at e),
      ))

  pub wakes-Latched : (t : ℕ) → l.phases t ≡ sleeping → Latched (go_to waking t l) c d
  wakes-Latched zero e = record {
    reached = Latch.next inv.reached (Latch.wakes l 0 e);
    quiet = λ j h k. ground (arith, inv.quiet j h k, h);
    only_0 = refl;
    only_1 = inv.only_1;
    out_0 = λ h. absurd (ground (arith, inv.out_0 h, e));
    out_1 = inv.out_1;
    count = inv.count;
    wait_over = λ h k. absurd (ground (arith, h));
  }
  wakes-Latched (suc zero) e = absurd (ground (arith, e, inv.only_1))
  wakes-Latched (suc (suc t)) e =
      absurd
        (ground (arith, e, inv.quiet (suc (suc t)) (λ q. omega (arith, q)) (λ q. omega (arith, q))))

  -- Another place in the code, outside the latch.
  pub goes-Latched :
      (c' : Caller) (d' : Child)
      → (c' ≢ waiting → l.phases 0 ≡ idle)
      → (d' ≢ counting → l.phases 1 ≡ idle)
      → to_count d' (l.phases 1) ≡ to_count d (l.phases 1)
      → (is_made c' ≡ true → l.phases 0 ≡ idle → to_count d (l.phases 1) ≡ false)
      → Latched l c' d'
  goes-Latched c' d' out_0 out_1 same over = record {
    reached = inv.reached;
    quiet = inv.quiet;
    only_0 = inv.only_0;
    only_1 = inv.only_1;
    out_0 = out_0;
    out_1 = out_1;
    count = ground (arith, inv.count, same);
    wait_over = λ h k. same ∙ over k h;
  }

module _ (l : CountDownLatch) where
  pub calls_wait-Latched :
      Latched l creating unborn → Latched (go_to (locking waits) 0 l) waiting storing
  calls_wait-Latched inv = record {
    reached = Latch.next inv.reached (Latch.calls l 0 waits (inv.out_0 (λ q. ground (arith, q))));
    quiet = λ j h k. ground (arith, inv.quiet j h k, h);
    only_0 = refl;
    only_1 = inv.only_1;
    out_0 = λ h. absurd (h refl);
    out_1 = λ h. inv.out_1 (λ q. ground (arith, q));
    count = inv.count;
    wait_over = λ h k. absurd (ground (arith, h));
  }

  pub calls_count-Latched :
      (c : Caller) → Latched l c storing → Latched (go_to (locking counts_down) 1 l) c counting
  calls_count-Latched c inv = record {
    reached =
        Latch.next inv.reached (Latch.calls l 1 counts_down (inv.out_1 (λ q. ground (arith, q))));
    quiet = λ j h k. ground (arith, inv.quiet j h k, k);
    only_0 = inv.only_0;
    only_1 = refl;
    out_0 = inv.out_0;
    out_1 = λ h. absurd (h refl);
    count = inv.count;
    wait_over = λ h k. absurd (ground (arith, inv.wait_over h k));
  }
