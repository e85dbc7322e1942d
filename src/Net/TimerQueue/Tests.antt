-- ===== src/Net/TimerQueue/Tests.antt =====
-- The theorems about timers at a queue of two timers, and runs of it.
use dxian.Prelude.{
  ℕ, suc, ◌+◌, ◌*◌, ◌⊎◌, ◌||◌, ◌≤◌, ◌<◌, ◌≡◌, refl, subst, Bool, true, false, none, some, List, [],
  ◌∷◌, arith, if◌then◌else◌, ltb,
}
use dxian.Net.PairSet.{contains, eq_pair, insert}
use dxian.Net.Store.{find, put}
use dxian.Net.TimerQueue.{
  Timer, TimerQueue, Command, adds, cancels, add_timer, add_timer_in_loop, insert_timer,
  cancel_in_loop, sizes_agree, how_much_time_from_now, due, get_expired, handle_read, reset_timerfd,
}
use dxian.Net.TimerQueue.Alarm.{nanoseconds, how_much_time_from_now_lem, add_timer_in_loop-alarm}
use dxian.Net.TimerQueue.Invariant.{Inv, Unlisted}
use dxian.Net.TimerQueue.Held.{Keeps}
use dxian.Net.TimerQueue.Cancel.{Cancels, cancel_in_loop-Cancels}
use dxian.Net.TimerQueue.Callbacks.{Adds, add_timer-Adds, asked_by}
use dxian.Net.TimerQueue.Expiry.{Expires, get_expired-Expires}
use dxian.Net.TimerQueue.HandleRead.{Handles, handle_read-Handles}

-- An allocator: the address above all that are in use.
unfoldable above : List (ℕ × Timer) → ℕ
above [] = 1
above ((p, t) ∷ m) = let rest = above m in if ltb p rest then rest else suc p

find-above : (p : ℕ) (m : List (ℕ × Timer)) → above m ≤ p → find p m ≡ none
unfolding above find
find-above p [] h = refl
find-above p ((q, t) ∷ m) h = ground (arith, find-above p m)

fresh_above : (m : List (ℕ × Timer)) → find (above m) m ≡ none
fresh_above m = find-above (above m) m (omega arith)

abbrev empty : TimerQueue
empty = record {
  timers = [];
  active_timers = [];
  calling_expired_timers = false;
  canceling_timers = [];
  heap = [];
  num_created = 0;
  timerfd = none;
}

empty-Keeps : Keeps [] empty
unfolding contains
empty-Keeps = record {
  inv = record {
    timers_sorted = tt;
    active_sorted = tt;
    listed = λ t p e. ground arith;
    active = λ p s e. ground arith;
    same_size = omega arith;
  };
  holds = λ t p e. ground arith;
}

abbrev timer : ℕ → ℕ → Bool → ℕ → Timer
timer callback time repeat n = record {
  callback = callback;
  expiration = time;
  interval = 500;
  repeat = repeat;
  sequence = n;
}

-- A timer for 900 that repeats each 500, and then one for 300.
abbrev one : TimerQueue
one = record {
  timers = (900, 1) ∷ [];
  active_timers = (1, 1) ∷ [];
  calling_expired_timers = false;
  canceling_timers = [];
  heap = (1, timer 7 900 true 1) ∷ [];
  num_created = 1;
  timerfd = some (how_much_time_from_now 900 0);
}

abbrev two : TimerQueue
two = record {
  timers = (300, 2) ∷ (900, 1) ∷ [];
  active_timers = (1, 1) ∷ (2, 2) ∷ [];
  calling_expired_timers = false;
  canceling_timers = [];
  heap = (1, timer 7 900 true 1) ∷ (2, timer 8 300 false 2) ∷ [];
  num_created = 2;
  timerfd = some (how_much_time_from_now 300 0);
}

add_one : add_timer above 7 900 500 true 0 empty ≡ some (one, (1, 1))
unfolding add_timer add_timer_in_loop insert_timer sizes_agree reset_timerfd above contains insert
    find put
add_one = refl

add_two : add_timer above 8 300 500 false 0 one ≡ some (two, (2, 2))
unfolding add_timer add_timer_in_loop insert_timer sizes_agree reset_timerfd above contains insert
    find put
add_two = refl

add_timer-Adds_example :
    (q' : TimerQueue) × (p : ℕ) × (add_timer above 7 900 500 true 0 empty ≡ some (q', (p, 1)))
    × Adds above fresh_above 900 [] p 1 empty q'
add_timer-Adds_example = add_timer-Adds above fresh_above [] 7 900 500 true 0 empty empty-Keeps

one-Keeps : Keeps [] one
one-Keeps =
    let (q', p, e, a) = add_timer-Adds above fresh_above [] 7 900 500 true 0 empty empty-Keeps in
    let same : q' ≡ one = ground (arith, e, add_one) in subst (Keeps []) same a.keeps

two-Inv : Inv two
two-Inv =
    let (q', p, e, a) = add_timer-Adds above fresh_above [] 8 300 500 false 0 one one-Keeps in
    let same : q' ≡ two = ground (arith, e, add_two) in subst Inv same a.keeps.inv

cancel_in_loop-Cancels_example :
    (q' : TimerQueue) × (cancel_in_loop (1, 1) two ≡ some q') × Cancels 1 1 two q'
cancel_in_loop-Cancels_example = cancel_in_loop-Cancels two 1 1 two-Inv

get_expired-Expires_example :
    (q' : TimerQueue) × (get_expired 400 two ≡ some (q', due 400 two.timers))
    × Expires 400 two q' (due 400 two.timers)
get_expired-Expires_example = get_expired-Expires 400 two two-Inv

-- The callback 7 adds a timer, and the callback 8 cancels the repeating timer.
abbrev effects : ℕ → List Command
effects n = if ltb n 8 then adds 9 2000 0 false 900 ∷ [] else cancels (1, 1) ∷ []

handle_read-Handles_example :
    (q' : TimerQueue) × (handle_read above effects 900 901 two ≡ some q')
    × Handles 900 901 (asked_by effects two.heap (due 900 two.timers)) two q'
handle_read-Handles_example = handle_read-Handles above fresh_above effects 900 901 two two-Inv

-- Both have expired; the first one's callback cancels the second, which is deleted although it repeats.
both_expire : due 900 two.timers ≡ (300, 2) ∷ (900, 1) ∷ []
unfolding due
both_expire = refl

how_much_time_from_now_lem_example :
    (1000000 + 100 ≤ 2500000
      → nanoseconds (how_much_time_from_now 2500000 1000000) + 1000 * 1000000 ≡ 1000 * 2500000)
    × (2500000 < 1000000 + 100 → nanoseconds (how_much_time_from_now 2500000 1000000) ≡ 100000)
    × (0 < nanoseconds (how_much_time_from_now 2500000 1000000))
    × ((how_much_time_from_now 2500000 1000000).tv_nsec < 1000000000)
how_much_time_from_now_lem_example = how_much_time_from_now_lem 2500000 1000000

-- The object of a timer that is about to be added.
abbrev fresh_one : TimerQueue
fresh_one = record empty { heap = (1, timer 7 900 true 1) ∷ [] }

fresh_one-Inv : Inv fresh_one
unfolding contains
fresh_one-Inv = record {
  timers_sorted = tt;
  active_sorted = tt;
  listed = λ t p e. ground arith;
  active = λ p s e. ground arith;
  same_size = omega arith;
}

fresh_one-Unlisted : Unlisted fresh_one 1
unfolding contains
fresh_one-Unlisted t = refl

find_fresh_one : find 1 fresh_one.heap ≡ some (timer 7 900 true 1)
unfolding find
find_fresh_one = refl

add_timer_in_loop-alarm_example :
    (q' : TimerQueue) × (add_timer_in_loop 1 5 fresh_one ≡ some q')
    × ((e : ℕ × ℕ) → contains e q'.timers ≡ eq_pair e (900, 1) || contains e fresh_one.timers)
    × ((e : ℕ × ℕ)
        → contains e q'.active_timers ≡ eq_pair e (1, 1) || contains e fresh_one.active_timers)
    × (((q'.timerfd ≡ some (how_much_time_from_now 900 5))
          × ((t r : ℕ) → contains (t, r) fresh_one.timers ≡ true → 900 < t))
        ⊎ ((q'.timerfd ≡ fresh_one.timerfd)
            × ((t : ℕ) × (r : ℕ) × (contains (t, r) fresh_one.timers ≡ true) × (t ≤ 900))))
add_timer_in_loop-alarm_example =
    add_timer_in_loop-alarm fresh_one 1 5 (timer 7 900 true 1) fresh_one-Inv find_fresh_one
      fresh_one-Unlisted
