-- ===== src/Base/Thread.antt =====
-- server/src/muduo/base/Thread.cpp and include/Thread.h: a thread, and how `start` waits for it.
--
-- The thread that calls `start` and the new thread take their steps in any order; they share `tid_` and the latch, in whose
-- steps the caller is thread 0 and the new thread is thread 1. `gettid`, the calls of pthread and the text of a number
-- are parameters. `none` is a failed assertion.
pub mod Latch
pub mod Latched
pub mod Start
pub mod Measure
pub mod Ends
mod Tests
use dxian.Prelude.{
  ℕ, ◌≡◌, ◌+◌, ◌<◌, Bool, true, false, not, ◌&&◌, Option, none, some, List, [], ◌∷◌, ◌++◌, ltb,
  ◌==◌, if◌then◌else◌,
}
use dxian.Prelude.Int.{pos}
use dxian.Base.CountDownLatch.{
  CountDownLatch, count_down_latch, waits, counts_down, locking, idle, sleeping, waking, go_to,
  advance,
}

pub record Thread : Type 0 where
  pub started : Bool
  pub joined : Bool
  pub tid : ℕ
  pub name : List ℕ
  pub latch : CountDownLatch

-- `snprintf` of "Thread%d" is `thread_num`. `num` is `numCreated_` after the increment.
abbrev pub set_default_name : (thread_num : ℕ → List ℕ) → ℕ → List ℕ → List ℕ
set_default_name thread_num num [] = thread_num num
set_default_name thread_num num (c ∷ cs) = c ∷ cs

-- The constructor.
abbrev pub thread : (thread_num : ℕ → List ℕ) → ℕ → List ℕ → Thread
thread thread_num num name = record {
  started = false;
  joined = false;
  tid = 0;
  name = set_default_name thread_num num name;
  latch = count_down_latch (pos 1);
}

-- `CurrentThread::tid`, with `cacheTid`: the identifier, and `t_cachedTid` from then on.
abbrev pub cache_tid : (gettid : ℕ) → ℕ → ℕ
cache_tid gettid cached = if cached == 0 then gettid else cached

-- `join` before `pthread_join`, and whether the destructor calls `pthread_detach`.
abbrev pub join : Thread → Option Thread
join t =
    if t.started then (if not t.joined then some (record t { joined = true }) else none) else none

abbrev pub detaches : Thread → Bool
detaches t = t.started && not t.joined

-- How `func_` ends.
pub data Ending : Type 0 where
  returns throws_exception throws_std_exception throws_other : Ending

pub data Exit : Type 0 where
  exits aborts rethrows : Exit

-- "muduoThread", "finished" and "crashed".
abbrev pub muduo_thread : List ℕ
muduo_thread = 109 ∷ 117 ∷ 100 ∷ 117 ∷ 111 ∷ 84 ∷ 104 ∷ 114 ∷ 101 ∷ 97 ∷ 100 ∷ []

abbrev pub finished : List ℕ
finished = 102 ∷ 105 ∷ 110 ∷ 105 ∷ 115 ∷ 104 ∷ 101 ∷ 100 ∷ []

abbrev pub crashed : List ℕ
crashed = 99 ∷ 114 ∷ 97 ∷ 115 ∷ 104 ∷ 101 ∷ 100 ∷ []

abbrev pub thread_name : List ℕ → List ℕ
thread_name [] = muduo_thread
thread_name (c ∷ cs) = c ∷ cs

-- `t_threadName` after `func_`.
abbrev pub last_name : Ending → List ℕ
last_name returns = finished
last_name throws_exception = crashed
last_name throws_std_exception = crashed
last_name throws_other = crashed

abbrev pub exit_of : Ending → Exit
exit_of returns = exits
exit_of throws_exception = aborts
exit_of throws_std_exception = aborts
exit_of throws_other = rethrows

-- The places of the caller in `start`, and before and after it.
pub data Caller : Type 0 where
  before creating waiting asserting returned failed aborted : Caller

-- The places of the new thread in `runInThread`.
pub data Child : Type 0 where
  unborn storing counting naming running : Child
  ended : Exit → Child

pub record State : Type 0 where
  pub thread : Thread
  pub caller : Caller
  pub child : Child
  -- `t_cachedTid` and `t_threadName` of the new thread.
  pub cached_tid : ℕ
  pub thread_name : List ℕ

abbrev pub state : Thread → State
state t = record { thread = t; caller = before; child = unborn; cached_tid = 0; thread_name = [] }

-- `assert(!started_); started_ = true`.
abbrev pub call_start : State → State
call_start s =
    if not s.thread.started
    then record s { thread = record s.thread { started = true }; caller = creating }
    else record s { caller = aborted }

-- `pthread_create` fails, or makes the thread, and the caller goes on to `latch_.wait()`.
abbrev pub create_fails : State → State
create_fails s = record s { thread = record s.thread { started = false }; caller = failed }

abbrev pub creates : State → State
creates s = record s {
  thread = record s.thread { latch = go_to (locking waits) 0 s.thread.latch };
  caller = waiting;
  child = storing;
}

-- `assert(tid_ > 0)`.
abbrev pub check_tid : State → State
check_tid s = record s { caller = if ltb 0 s.thread.tid then returned else aborted }

-- `*tid_ = CurrentThread::tid()`, and the call of `countDown`.
abbrev pub store_tid : (gettid : ℕ) → State → State
store_tid gettid s =
    let tid = cache_tid gettid s.cached_tid in
    record s {
      thread = record s.thread { tid = tid; latch = go_to (locking counts_down) 1 s.thread.latch };
      child = counting;
      cached_tid = tid;
    }

abbrev pub set_name : State → State
set_name s = record s { child = running; thread_name = thread_name s.thread.name }

abbrev pub end_func : Ending → State → State
end_func e s = record s { child = ended (exit_of e); thread_name = last_name e }

abbrev pub with_latch : CountDownLatch → State → State
with_latch l s = record s { thread = record s.thread { latch = l } }

pub data Move (gettid : ℕ) : State → State → Type 0 where
  calls_start : (s : State) → s.caller ≡ before → Move gettid s (call_start s)
  fails : (s : State) → s.caller ≡ creating → Move gettid s (create_fails s)
  makes : (s : State) → s.caller ≡ creating → Move gettid s (creates s)
  -- A step of either thread in the latch, and the end of `wait` and of `countDown`.
  latch_moves :
      (s : State) (l : CountDownLatch) (t : ℕ)
      → advance (s.thread.latch.phases t) t s.thread.latch ≡ some l
      → Move gettid s (with_latch l s)
  wait_ends :
      (s : State)
      → s.caller ≡ waiting
      → s.thread.latch.phases 0 ≡ idle
      → Move gettid s (record s { caller = asserting })
  count_down_ends :
      (s : State)
      → s.child ≡ counting
      → s.thread.latch.phases 1 ≡ idle
      → Move gettid s (record s { child = naming })
  checks_tid : (s : State) → s.caller ≡ asserting → Move gettid s (check_tid s)
  stores_tid : (s : State) → s.child ≡ storing → Move gettid s (store_tid gettid s)
  sets_name : (s : State) → s.child ≡ naming → Move gettid s (set_name s)
  func_ends : (s : State) (e : Ending) → s.child ≡ running → Move gettid s (end_func e s)

-- A move, or a wakeup of the condition variable for no reason.
pub data Step (gettid : ℕ) : State → State → Type 0 where
  moves : {s s' : State} → Move gettid s s' → Step gettid s s'
  wakes :
      (s : State) (t : ℕ)
      → s.thread.latch.phases t ≡ sleeping
      → Step gettid s (with_latch (go_to waking t s.thread.latch) s)

pub data Reach (gettid : ℕ) (s : State) : State → Type 0 where
  here : Reach gettid s s
  next : {t u : State} → Reach gettid s t → Step gettid t u → Reach gettid s u

-- That many moves, and no other step.
pub data Moves (gettid : ℕ) (s : State) : ℕ → State → Type 0 where
  none_made : Moves gettid s 0 s
  one_more : {n : ℕ} {t u : State} → Moves gettid s n t → Move gettid t u → Moves gettid s (n + 1) u
