-- ===== src/Net/EventLoop.antt =====
-- server/src/muduo/net/EventLoop.cpp and include/EventLoop.h: `loop`, the functors that are queued for it
-- by its own thread and by others, the wakeups, and `quit`.
--
-- A functor is a number, and so is a channel; 0 is the wakeup channel. The mutex makes the push and the swap one step each.
-- Another thread pushes or sets `quit_` and then wakes the loop in two steps, between which anything may happen; `waking`
-- counts the threads that are between the two. `wakeups` is the counter of the eventfd, which `poll` reports
-- while it is not zero. `queued` and `called` are the functors ever pushed and ever called, in order, and `handled` the channels
-- handled since `poll` returned. The loop's thread queues functors in handlers, in functors and outside `loop`, where nothing wakes the
-- loop: `silent` says that it has done so since functors were last taken. `reported` is what `poll` reported last. `iteration` has
-- no bound here.
pub mod Wakeup
pub mod Turn
pub mod Quit
mod Tests
use dxian.Prelude.{
  ℕ, suc, ◌+◌, ◌≡◌, Bool, true, false, not, ◌||◌, ◌&&◌, Option, none, some, List, [], ◌∷◌, ◌++◌,
  if◌then◌else◌, ◌==◌,
}

-- The places of `loop`: outside; at the test of `quit_`; in `poll`; in the handlers of the active channels; in
-- `doPendingFunctors` before the swap, and after it.
pub data Phase : Type 0 where
  stopped tests polls handles starts calls : Phase

pub record EventLoop : Type 0 where
  pub phase : Phase
  pub looping : Bool
  pub quit : Bool
  pub event_handling : Bool
  pub calling_pending_functors : Bool
  pub iteration : ℕ
  pub active_channels : List ℕ
  -- The active channels that the loop over them still has to handle.
  pub left_channels : List ℕ
  pub current_active_channel : Option ℕ
  pub handled : List ℕ
  pub pending_functors : List ℕ
  -- The local `functors` of `doPendingFunctors`, without those that were called.
  pub functors : List ℕ
  pub wakeups : ℕ
  pub waking : ℕ
  pub queued : List ℕ
  pub called : List ℕ
  pub silent : Bool
  pub reported : List ℕ

abbrev pub event_loop : EventLoop
event_loop = record {
  phase = stopped;
  looping = false;
  quit = false;
  event_handling = false;
  calling_pending_functors = false;
  iteration = 0;
  active_channels = [];
  left_channels = [];
  current_active_channel = none;
  handled = [];
  pending_functors = [];
  functors = [];
  wakeups = 0;
  waking = 0;
  queued = [];
  called = [];
  silent = false;
  reported = [];
}

-- `loop` up to its `while`. `none` is the failed assertion.
unfoldable pub start_loop : EventLoop → Option EventLoop
start_loop l =
    if not l.looping then some (record l { phase = tests; looping = true; quit = false }) else none

-- `while (!quit_)`.
unfoldable pub test_quit : EventLoop → EventLoop
test_quit l =
    if l.quit
    then record l { phase = stopped; looping = false }
    else record l { phase = polls; active_channels = [] }

-- `poll` returns, and has put the channels after those in the list.
unfoldable pub polled : List ℕ → EventLoop → EventLoop
polled channels l = record l {
  phase = handles;
  active_channels = l.active_channels ++ channels;
  left_channels = l.active_channels ++ channels;
  reported = channels;
  handled = [];
  iteration = l.iteration + 1;
  event_handling = true;
}

unfoldable pub handle_channel : ℕ → List ℕ → EventLoop → EventLoop
handle_channel channel channels l = record l {
  current_active_channel = some channel;
  left_channels = channels;
  handled = l.handled ++ channel ∷ [];
}

-- `quit` in the loop's thread, and in another one before `wakeup`.
unfoldable pub set_quit : EventLoop → EventLoop
set_quit l = record l { quit = true }

unfoldable pub wakeup : EventLoop → EventLoop
wakeup l = record l { wakeups = l.wakeups + 1 }

unfoldable pub push : ℕ → EventLoop → EventLoop
push f l = record l { pending_functors = l.pending_functors ++ f ∷ []; queued = l.queued ++ f ∷ [] }

-- `queueInLoop` in the loop's thread.
unfoldable pub queue_in_loop : ℕ → EventLoop → EventLoop
queue_in_loop f l = let l' = push f l in if l'.calling_pending_functors then wakeup l' else l'

-- `read` of the eventfd takes the whole counter.
unfoldable pub handle_read : EventLoop → EventLoop
handle_read l = record l { wakeups = 0 }

-- After the last handler, and the start of `doPendingFunctors`.
unfoldable pub start_calling : EventLoop → EventLoop
start_calling l = record l {
  phase = starts;
  current_active_channel = none;
  event_handling = false;
  calling_pending_functors = true;
}

unfoldable pub swap_functors : EventLoop → EventLoop
swap_functors l = record l {
  phase = calls;
  functors = l.pending_functors;
  pending_functors = [];
  silent = false;
}

unfoldable pub stop_calling : EventLoop → EventLoop
stop_calling l = record l { phase = tests; calling_pending_functors = false }

-- The assertion of `removeChannel`.
abbrev pub has : ℕ → List ℕ → Bool
has channel [] = false
has channel (k ∷ ks) = k == channel || has channel ks

abbrev is_current : ℕ → Option ℕ → Bool
is_current channel none = false
is_current channel (some k) = k == channel

abbrev pub removable : ℕ → EventLoop → Bool
removable channel l =
    if l.event_handling
    then is_current channel l.current_active_channel || not (has channel l.active_channels)
    else true

-- A step of the loop's thread or of another thread, apart from the call of `loop`.
pub data Work : EventLoop → EventLoop → Type 0 where
  -- Another thread calls `queueInLoop` or `quit`, and then `wakeup`.
  other_pushes : (l : EventLoop) (f : ℕ) → Work l (record (push f l) { waking = suc l.waking })
  other_quits : (l : EventLoop) → Work l (record (set_quit l) { waking = suc l.waking })
  other_wakes :
      (l : EventLoop) (n : ℕ) → l.waking ≡ suc n → Work l (record (wakeup l) { waking = n })
  -- The loop's own thread calls `queueInLoop` or `quit` outside `loop`.
  owner_queues :
      (l : EventLoop) (f : ℕ)
      → l.phase ≡ stopped
      → Work l (record (queue_in_loop f l) { silent = true })
  owner_quits : (l : EventLoop) → l.phase ≡ stopped → Work l (set_quit l)
  tests_quit : (l : EventLoop) → l.phase ≡ tests → Work l (test_quit l)
  poll_returns : (l : EventLoop) (channels : List ℕ) → l.phase ≡ polls → Work l (polled channels l)
  handles_next :
      (l : EventLoop) (channel : ℕ) (channels : List ℕ)
      → l.phase ≡ handles
      → l.left_channels ≡ channel ∷ channels
      → Work l (handle_channel channel channels l)
  -- What handlers do: the wakeup channel's own reads the eventfd.
  reads :
      (l : EventLoop)
      → l.phase ≡ handles
      → l.current_active_channel ≡ some 0
      → Work l (handle_read l)
  handler_queues : (l : EventLoop) (f : ℕ) → l.phase ≡ handles → Work l (queue_in_loop f l)
  handler_quits : (l : EventLoop) → l.phase ≡ handles → Work l (set_quit l)
  handled_all :
      (l : EventLoop) → l.phase ≡ handles → l.left_channels ≡ [] → Work l (start_calling l)
  swaps : (l : EventLoop) → l.phase ≡ starts → Work l (swap_functors l)
  -- A functor is called, and it may queue others or quit.
  calls_one :
      (l : EventLoop) (f : ℕ) (fs : List ℕ)
      → l.phase ≡ calls
      → l.functors ≡ f ∷ fs
      → Work l (record l { functors = fs; called = l.called ++ f ∷ [] })
  functor_queues : (l : EventLoop) (f : ℕ) → l.phase ≡ calls → Work l (queue_in_loop f l)
  functor_quits : (l : EventLoop) → l.phase ≡ calls → Work l (set_quit l)
  done : (l : EventLoop) → l.phase ≡ calls → l.functors ≡ [] → Work l (stop_calling l)

pub data Step : EventLoop → EventLoop → Type 0 where
  works : {l m : EventLoop} → Work l m → Step l m
  -- The loop's thread calls `loop`.
  loops : (l m : EventLoop) → l.phase ≡ stopped → start_loop l ≡ some m → Step l m

pub data Reach (s : EventLoop) : EventLoop → Type 0 where
  here : Reach s s
  next : {t u : EventLoop} → Reach s t → Step t u → Reach s u

-- `loop` is not called.
pub data Works (s : EventLoop) : EventLoop → Type 0 where
  idle : Works s s
  more : {t u : EventLoop} → Works s t → Work t u → Works s u
