-- ===== src/Base/CountDownLatch.antt =====
-- server/src/muduo/base/CountDownLatch.cpp, with MutexLock and MutexLockGuard of include/Mutex.h and the condition variable of
-- include/Condition.h that it uses.
--
-- Any number of threads call `wait`, `countDown` and `getCount`, and take their steps in any order. A phase is the place of a
-- thread in the code; every access to what threads share is a step of its own. `holder_` is 0 in the source where it is
-- `none` here.
pub mod Invariant
pub mod Release
mod Tests
use dxian.Prelude.{ℕ, ◌+◌, Bool, true, false, Option, none, some, ◌==◌, if◌then◌else◌, ◌≡◌}
use dxian.Prelude.Int.{ℤ, pos, ◌-ℤ◌, ltb_ℤ, pos_part, neg_part}

-- What a thread called.
pub data Operation : Type 0 where
  waits counts_down gets_count : Operation

pub data Phase : Type 0 where
  idle : Phase
  -- `MutexLock::lock`: pthread_mutex_lock, and then `assignHolder`.
  locking assigning : Operation → Phase
  -- The body of the operation.
  body : Operation → Phase
  -- `Condition::wait`: after the UnassignGuard's constructor, asleep, woken up, and before its destructor.
  at_wait sleeping waking reassigning : Phase
  notifying : Phase
  -- `MutexLock::unlock`: `unassignHolder`, and then pthread_mutex_unlock.
  unassigning unlocking : Operation → Phase

-- `owner` is the thread that has the pthread mutex.
pub record CountDownLatch : Type 0 where
  pub count : ℤ
  pub owner : Option ℕ
  pub holder : Option ℕ
  pub phases : ℕ → Phase

-- The constructor.
abbrev pub count_down_latch : ℤ → CountDownLatch
count_down_latch count = record { count = count; owner = none; holder = none; phases = λ t. idle }

abbrev pub go_to : Phase → ℕ → CountDownLatch → CountDownLatch
go_to phase t l = record l { phases = λ j. if t == j then phase else l.phases j }

-- pthread_mutex_lock waits while the mutex has an owner.
abbrev pub mutex_lock : Phase → ℕ → CountDownLatch → Option CountDownLatch
mutex_lock phase t l = elim l.owner [
  | none ↦ some (go_to phase t (record l { owner = some t }))
  | some u ↦ none
]

abbrev pub mutex_unlock : Phase → ℕ → CountDownLatch → CountDownLatch
mutex_unlock phase t l = go_to phase t (record l { owner = none })

abbrev pub assign_holder : Phase → ℕ → CountDownLatch → CountDownLatch
assign_holder phase t l = go_to phase t (record l { holder = some t })

abbrev pub unassign_holder : Phase → ℕ → CountDownLatch → CountDownLatch
unassign_holder phase t l = go_to phase t (record l { holder = none })

-- pthread_cond_broadcast.
abbrev pub woken : Phase → Phase
woken sleeping = waking
woken idle = idle
woken (locking o) = locking o
woken (assigning o) = assigning o
woken (body o) = body o
woken at_wait = at_wait
woken waking = waking
woken reassigning = reassigning
woken notifying = notifying
woken (unassigning o) = unassigning o
woken (unlocking o) = unlocking o

abbrev pub broadcast : CountDownLatch → CountDownLatch
broadcast l = record l { phases = λ j. woken (l.phases j) }

abbrev pub is_zero : ℤ → Bool
is_zero z = pos_part z + neg_part z == 0

abbrev pub run_body : Operation → ℕ → CountDownLatch → CountDownLatch
run_body waits t l =
    if ltb_ℤ (pos 0) l.count then unassign_holder at_wait t l else go_to (unassigning waits) t l
run_body counts_down t l =
    let l' = record l { count = l.count -ℤ pos 1 } in
    if is_zero l'.count then go_to notifying t l' else go_to (unassigning counts_down) t l'
run_body gets_count t l = go_to (unassigning gets_count) t l

-- The next step of a thread by itself, if it has one.
unfoldable pub advance : Phase → ℕ → CountDownLatch → Option CountDownLatch
advance idle t l = none
advance (locking o) t l = mutex_lock (assigning o) t l
advance (assigning o) t l = some (assign_holder (body o) t l)
advance (body o) t l = some (run_body o t l)
advance at_wait t l = some (mutex_unlock sleeping t l)
advance sleeping t l = none
advance waking t l = mutex_lock reassigning t l
advance reassigning t l = some (assign_holder (body waits) t l)
advance notifying t l = some (go_to (unassigning counts_down) t (broadcast l))
advance (unassigning o) t l = some (unassign_holder (unlocking o) t l)
advance (unlocking o) t l = some (mutex_unlock idle t l)

pub data Step : CountDownLatch → CountDownLatch → Type 0 where
  calls :
      (l : CountDownLatch) (t : ℕ) (o : Operation)
      → l.phases t ≡ idle
      → Step l (go_to (locking o) t l)
  advances : (l l' : CountDownLatch) (t : ℕ) → advance (l.phases t) t l ≡ some l' → Step l l'
  -- A condition variable may wake a thread for no reason.
  wakes : (l : CountDownLatch) (t : ℕ) → l.phases t ≡ sleeping → Step l (go_to waking t l)

pub data Reach (s : CountDownLatch) : CountDownLatch → Type 0 where
  here : Reach s s
  next : {l l' : CountDownLatch} → Reach s l → Step l l' → Reach s l'
