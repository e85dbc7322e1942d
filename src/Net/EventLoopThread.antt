-- ===== src/Net/EventLoopThread.antt =====
-- server/src/muduo/net/EventLoopThread.cpp and include/EventLoopThread.h: a thread that runs an event loop, its owner, who
-- starts and destroys it, and the steps of both in any order.
--
-- What is done under the mutex is one step, and so is the start of the thread, which Base/Thread.antt models. The address of the
-- thread's loop is a parameter. Of the loop, only `quit_` is kept.
pub mod Serves
mod Tests
use dxian.Prelude.{ℕ, ◌≡◌, Bool, true, false, Option, none, some, if◌then◌else◌, ◌||◌}

-- The owner: before `startLoop`, at its `while`, asleep in it, and after it; in the destructor before
-- `quit` and before `join`, and after it.
pub data Owner : Type 0 where
  before waits sleeps : Owner
  returned : ℕ → Owner
  quits joins destroyed : Owner

-- The thread in `threadFunc`: before its start, at each of its statements, and at its end.
pub data Runner : Type 0 where
  unborn constructs calls_back publishes enters loops leaves ended : Runner

pub record EventLoopThread : Type 0 where
  pub loop : Option ℕ
  pub exiting : Bool
  pub quit : Bool
  pub owner : Owner
  pub runner : Runner
  -- `quit` was called before `loop`, or on a loop that is gone.
  pub early : Bool
  pub late : Bool

abbrev pub event_loop_thread : EventLoopThread
event_loop_thread = record {
  loop = none;
  exiting = false;
  quit = false;
  owner = before;
  runner = unborn;
  early = false;
  late = false;
}

-- `while (loop_ == nullptr) cond_.wait()`, one round.
abbrev pub test_loop : EventLoopThread → EventLoopThread
test_loop s = elim s.loop [
  | none ↦ record s { owner = sleeps }
  | some a ↦ record s { owner = returned a }
]

abbrev pub notified : Owner → Owner
notified before = before
notified waits = waits
notified sleeps = waits
notified (returned a) = returned a
notified quits = quits
notified joins = joins
notified destroyed = destroyed

-- `loop_ = &loop; cond_.notify()`.
abbrev pub publish : ℕ → EventLoopThread → EventLoopThread
publish a s = record s { loop = some a; owner = notified s.owner; runner = enters }

-- The destructor up to its test.
abbrev pub destroy : EventLoopThread → EventLoopThread
destroy s = elim s.loop [
  | none ↦ record s { exiting = true; owner = destroyed }
  | some a ↦ record s { exiting = true; owner = quits }
]

abbrev pub is_early : Runner → Bool
is_early enters = true
is_early _ = false

abbrev pub is_late : Runner → Bool
is_late ended = true
is_late _ = false

-- `loop_->quit()`.
abbrev pub quit_loop : EventLoopThread → EventLoopThread
quit_loop s = record s {
  quit = true;
  owner = joins;
  early = is_early s.runner;
  late = is_late s.runner;
}

pub data Step (loop_address : ℕ) : EventLoopThread → EventLoopThread → Type 0 where
  starts :
      (s : EventLoopThread)
      → s.owner ≡ before
      → Step loop_address s (record s { owner = waits; runner = constructs })
  tests : (s : EventLoopThread) → s.owner ≡ waits → Step loop_address s (test_loop s)
  -- A condition variable may wake a thread for no reason.
  wakes :
      (s : EventLoopThread) → s.owner ≡ sleeps → Step loop_address s (record s { owner = waits })
  constructed :
      (s : EventLoopThread)
      → s.runner ≡ constructs
      → Step loop_address s (record s { runner = calls_back })
  called_back :
      (s : EventLoopThread)
      → s.runner ≡ calls_back
      → Step loop_address s (record s { runner = publishes })
  published :
      (s : EventLoopThread) → s.runner ≡ publishes → Step loop_address s (publish loop_address s)
  -- `loop` resets `quit_`, is told to quit by a functor of its own, and returns when it is.
  entered :
      (s : EventLoopThread)
      → s.runner ≡ enters
      → Step loop_address s (record s { quit = false; runner = loops })
  functor_quits :
      (s : EventLoopThread) → s.runner ≡ loops → Step loop_address s (record s { quit = true })
  loop_returns :
      (s : EventLoopThread)
      → s.runner ≡ loops
      → s.quit ≡ true
      → Step loop_address s (record s { runner = leaves })
  clears :
      (s : EventLoopThread)
      → s.runner ≡ leaves
      → Step loop_address s (record s { loop = none; runner = ended })
  destroys : (s : EventLoopThread) (a : ℕ) → s.owner ≡ returned a → Step loop_address s (destroy s)
  quits_loop : (s : EventLoopThread) → s.owner ≡ quits → Step loop_address s (quit_loop s)
  joined :
      (s : EventLoopThread)
      → s.owner ≡ joins
      → s.runner ≡ ended
      → Step loop_address s (record s { owner = destroyed })

pub data Reach (loop_address : ℕ) (s : EventLoopThread) : EventLoopThread → Type 0 where
  here : Reach loop_address s s
  next :
      {t u : EventLoopThread}
      → Reach loop_address s t
      → Step loop_address t u
      → Reach loop_address s u
