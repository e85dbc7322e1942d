-- ===== src/Base/Thread/Start.antt =====
-- `start` and the new thread together.
use dxian.Prelude.{ℕ, ◌<◌, ◌≡◌, ◌≢◌, refl, sym, ◌∙◌, Bool, true, false, arith, List, ltb}
use dxian.Base.CountDownLatch.{
  CountDownLatch, Phase, waits, counts_down, idle, locking, sleeping, waking, go_to, woken, advance,
  count_down_latch,
}
use dxian.Base.CountDownLatch as Latch
use dxian.Base.Thread.{
  thread, Caller, before, creating, waiting, asserting, returned, failed, aborted, Child, unborn,
  storing, naming, running, ended, State, state, call_start, create_fails, creates, check_tid,
  store_tid, with_latch, Move, calls_start, fails, makes, latch_moves, wait_ends, count_down_ends,
  checks_tid, stores_tid, sets_name, func_ends, Step, moves, wakes, Reach, here, next,
}
use dxian.Base.Thread.Latched.{
  is_made, is_born, will_store, to_count, Latched, latch-Latched, wakes-Latched, goes-Latched,
  calls_wait-Latched, calls_count-Latched,
}

-- `started_` is true.
abbrev is_called : Caller → Bool
is_called before = false
is_called creating = true
is_called waiting = true
is_called asserting = true
is_called returned = true
is_called failed = false
is_called aborted = false

pub record Inv (gettid : ℕ) (s : State) : Type 0 where
  pub latched : Latched s.thread.latch s.caller s.child
  pub fresh : s.caller ≡ before → s.thread.started ≡ false
  pub made : is_made s.caller ≡ is_born s.child
  pub started : is_called s.caller ≡ true → s.thread.started ≡ true
  pub sound : s.caller ≢ aborted
  pub cached : will_store s.child ≡ true → s.cached_tid ≡ 0
  pub stored : will_store s.child ≡ false → s.thread.tid ≡ gettid

pub made_before : (c : Caller) (d : Child) → is_made c ≡ is_born d → is_made c ≡ false → d ≡ unborn
made_before c d h k = ground (arith, h, k)

-- A place of the caller of which nothing more is known.
abbrev quiet_caller : Caller → Bool
quiet_caller before = false
quiet_caller aborted = false
quiet_caller _ = true

module _ (gettid : ℕ) (positive : 0 < gettid) (s : State) (inv : Inv gettid s) where
  abbrev latch : CountDownLatch
  latch = s.thread.latch

  -- Only the caller goes on.
  caller_goes :
      (c : Caller)
      → quiet_caller c ≡ true
      → is_made c ≡ is_made s.caller
      → (is_called c ≡ true → is_called s.caller ≡ true)
      → Latched latch c s.child
      → Inv gettid (record s { caller = c })
  caller_goes c q e called latched = record {
    latched = latched;
    fresh = λ h. absurd (ground (arith, h, q));
    made = e ∙ inv.made;
    started = λ h. inv.started (called h);
    sound = λ h. ground (arith, h, q);
    cached = inv.cached;
    stored = inv.stored;
  }

  -- Only the new thread goes on, after it has stored its identifier.
  child_goes :
      (d : Child) (name : List ℕ)
      → will_store s.child ≡ false
      → is_born d ≡ true
      → will_store d ≡ false
      → Latched latch s.caller d
      → Inv gettid (record s { child = d; thread_name = name })
  child_goes d name e born stores latched = record {
    latched = latched;
    fresh = inv.fresh;
    made = ground (arith, inv.made, e, born);
    started = inv.started;
    sound = inv.sound;
    cached = λ h. absurd (ground (arith, h, stores));
    stored = λ h. inv.stored e;
  }

  unborn_yet : is_made s.caller ≡ false → s.child ≡ unborn
  unborn_yet h = made_before s.caller s.child inv.made h

  caller_Latched :
      (c : Caller)
      → latch.phases 0 ≡ idle
      → (is_made c ≡ true → is_made s.caller ≡ true)
      → Latched latch c s.child
  caller_Latched c h k =
      goes-Latched latch latch s.caller s.child inv.latched c s.child (λ q. h) inv.latched.out_1
        refl (λ m i. inv.latched.wait_over i (k m))

  child_Latched :
      (d : Child)
      → latch.phases 1 ≡ idle
      → to_count d (latch.phases 1) ≡ to_count s.child (latch.phases 1)
      → Latched latch s.caller d
  child_Latched d h k =
      goes-Latched latch latch s.caller s.child inv.latched s.caller d inv.latched.out_0 (λ q. h) k
        (λ m i. inv.latched.wait_over i m)

  calls-Inv : s.caller ≡ before → Inv gettid (call_start s)
  calls-Inv e = rw (inv.fresh e) (record {
    latched =
        caller_Latched creating (inv.latched.out_0 (λ q. ground (arith, q, e)))
          (λ q. absurd (ground (arith, q)));
    fresh = λ h. absurd (ground (arith, h));
    made = ground (arith, inv.made, e);
    started = λ h. refl;
    sound = λ h. ground (arith, h);
    cached = inv.cached;
    stored = inv.stored;
  })

  fails-Inv : s.caller ≡ creating → Inv gettid (create_fails s)
  fails-Inv e = record {
    latched =
        caller_Latched failed (inv.latched.out_0 (λ q. ground (arith, q, e)))
          (λ q. absurd (ground (arith, q)));
    fresh = λ h. absurd (ground (arith, h));
    made = ground (arith, inv.made, e);
    started = λ h. absurd (ground (arith, h));
    sound = λ h. ground (arith, h);
    cached = inv.cached;
    stored = inv.stored;
  }

  creates-Inv : s.caller ≡ creating → Inv gettid (creates s)
  creates-Inv e =
      let alone = unborn_yet (ground (arith, e)) in
      record {
        latched = calls_wait-Latched latch (rw (sym e) (rw (sym alone) inv.latched));
        fresh = λ h. absurd (ground (arith, h));
        made = refl;
        started = λ h. inv.started (ground (arith, e));
        sound = λ h. ground (arith, h);
        cached = λ h. inv.cached (ground (arith, alone));
        stored = λ h. absurd (ground (arith, h));
      }

  stores-Inv : s.child ≡ storing → Inv gettid (store_tid gettid s)
  stores-Inv e = record {
    latched = calls_count-Latched latch s.caller (rw (sym e) inv.latched);
    fresh = inv.fresh;
    made = ground (arith, inv.made, e);
    started = inv.started;
    sound = inv.sound;
    cached = λ h. absurd (ground (arith, h));
    stored = λ h. ground (arith, inv.cached (rw e refl));
  }

  -- The latch was counted down, so the identifier is there.
  checks-Inv : s.caller ≡ asserting → Inv gettid (check_tid s)
  checks-Inv e =
      let out = inv.latched.out_0 (λ q. ground (arith, q, e)) in
      let over = inv.latched.wait_over out (ground (arith, e)) in
      let tid : s.thread.tid ≡ gettid = inv.stored (ground (arith, over)) in
      let positive_tid : ltb 0 s.thread.tid ≡ true = ground (arith, tid, positive) in
      rw positive_tid (
        caller_goes returned refl (ground (arith, e)) (λ h. ground (arith, e))
          (caller_Latched returned out (λ h. ground (arith, e))))

  latch-Inv : (l : CountDownLatch) → Latched l s.caller s.child → Inv gettid (with_latch l s)
  latch-Inv l latched = record {
    latched = latched;
    fresh = inv.fresh;
    made = inv.made;
    started = inv.started;
    sound = inv.sound;
    cached = inv.cached;
    stored = inv.stored;
  }

module _ (gettid : ℕ) (positive : 0 < gettid) where
  pub Move-Inv : {s s' : State} → Move gettid s s' → Inv gettid s → Inv gettid s'
  Move-Inv (calls_start s e) inv = calls-Inv gettid positive s inv e
  Move-Inv (fails s e) inv = fails-Inv gettid positive s inv e
  Move-Inv (makes s e) inv = creates-Inv gettid positive s inv e
  Move-Inv (latch_moves s l t e) inv =
      latch-Inv gettid positive s inv l (latch-Latched _ l _ _ inv.latched t e)
  Move-Inv (wait_ends s e i) inv =
      caller_goes gettid positive s inv asserting refl (ground (arith, e)) (λ h. ground (arith, e))
        (caller_Latched gettid positive s inv asserting i (λ h. ground (arith, e)))
  Move-Inv (count_down_ends s e i) inv =
      child_goes gettid positive s inv naming s.thread_name (ground (arith, e)) refl refl
        (child_Latched gettid positive s inv naming i (ground (arith, e, i)))
  Move-Inv (checks_tid s e) inv = checks-Inv gettid positive s inv e
  Move-Inv (stores_tid s e) inv = stores-Inv gettid positive s inv e
  Move-Inv (sets_name s e) inv =
      child_goes gettid positive s inv running _ (ground (arith, e)) refl refl (
        child_Latched gettid positive s inv running (inv.latched.out_1 (λ q. ground (arith, q, e)))
          (ground (arith, e)))
  Move-Inv (func_ends s f e) inv =
      child_goes gettid positive s inv (ended _) _ (ground (arith, e)) refl refl (
        child_Latched gettid positive s inv (ended _)
          (inv.latched.out_1 (λ q. ground (arith, q, e))) (ground (arith, e)))

  Step-Inv : {s s' : State} → Step gettid s s' → Inv gettid s → Inv gettid s'
  Step-Inv (moves m) inv = Move-Inv m inv
  Step-Inv (wakes s t e) inv =
      latch-Inv gettid positive s inv _ (wakes-Latched _ s.thread.latch _ _ inv.latched t e)

  start-Inv :
      (thread_num : ℕ → List ℕ) (num : ℕ) (name : List ℕ)
      → Inv gettid (state (thread thread_num num name))
  start-Inv thread_num num name = record {
    latched = record {
      reached = Latch.here;
      quiet = λ j h k. refl;
      only_0 = refl;
      only_1 = refl;
      out_0 = λ h. refl;
      out_1 = λ h. refl;
      count = refl;
      wait_over = λ h k. absurd (ground (arith, k));
    };
    fresh = λ h. refl;
    made = refl;
    started = λ h. absurd (ground (arith, h));
    sound = λ h. ground (arith, h);
    cached = λ h. refl;
    stored = λ h. absurd (ground (arith, h));
  }

  pub Reach-Inv_thread :
      (thread_num : ℕ → List ℕ) (num : ℕ) (name : List ℕ) {s : State}
      → Reach gettid (state (thread thread_num num name)) s
      → Inv gettid s
  Reach-Inv_thread thread_num num name here = start-Inv thread_num num name
  Reach-Inv_thread thread_num num name (next r t) =
      Step-Inv t (Reach-Inv_thread thread_num num name r)

-- In whatever order the caller of `start` and the new thread take their steps: no assertion of `start` fails, and when it
-- returns, `started_` is set and `tid_` is the identifier of the new thread, if the kernel's identifiers are positive.
pub Reach-told :
    (gettid : ℕ) (thread_num : ℕ → List ℕ) (num : ℕ) (name : List ℕ) (s : State)
    → 0 < gettid
    → Reach gettid (state (thread thread_num num name)) s
    → (s.caller ≢ aborted)
      × (s.caller ≡ returned → (s.thread.started ≡ true) × (s.thread.tid ≡ gettid))
Reach-told gettid thread_num num name s positive r =
    let inv = Reach-Inv_thread gettid positive thread_num num name r in
    (
      inv.sound,
      λ h.
          let latched = inv.latched in
          let out = latched.out_0 (λ q. ground (arith, q, h)) in
          let over = latched.wait_over out (ground (arith, h)) in
          (inv.started (ground (arith, h)), inv.stored (ground (arith, over))),
    )
