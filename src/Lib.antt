-- ===== src/Lib.antt =====
-- Verification of the reactor in server/src/muduo: the parts of net and base that keep state or compute.
--
-- An event loop owns a poller, which watches file descriptors through channels, and a timer queue,
-- whose alarm is one more descriptor. A channel tells the poller which events it is interested in;
-- the poller fills in the events that it received, and the channel calls the callbacks for them. When
-- the alarm's descriptor becomes readable, the timer queue runs the expired timers.
--
-- Paths such as base/ and net/ are those below server/src/muduo.
--
-- Base/Date.antt: server/src/muduo/base/Date.cpp and include/Date.h. `get_julian_day_number` and
--   `get_year_month_day` are the formulas, with the truncating division of C++, on integers without bounds: no `int` of them overflows up
--   to the day number 536838867 and the year 1465000, to which the theorems keep.
-- Base/Timestamp.antt: base/include/Timestamp.h: times in microseconds.
-- Base/CountDownLatch.antt: base/CountDownLatch.cpp, with the mutex and the condition variable of include/Mutex.h and
--   include/Condition.h: the steps of any number of threads in any order.
-- Base/Thread.antt: base/Thread.cpp: `start`, whose caller waits in the latch for the new thread.
-- Base/TimeZone.antt: base/TimeZone.cpp and include/TimeZone.h: seconds and calendar times, and the local
--   time types of a zone. A zone's transitions and types are its state; `find_local_time_of` is the overload for
--   a calendar time.
-- Base/ZoneFile.antt: the reader of zone files in base/TimeZone.cpp, as readers on a list of bytes. Products of
--   counts wrap around in 32 bits there, and local times in 64.
-- Base/LogStream/Format.antt: formatSI and formatIEC of base/LogStream.cpp.
-- Base/LogStream.antt: base/LogStream.cpp and include/LogStream.h. `put` is `operator<<` and `write` what
--   goes to `current()` and is kept by `add`; the loops of `convert` and `convertHex` have fuel for the digits
--   of 64 bits, and the theorems on them show that it is enough.
-- Base/Logging.antt and Base/Logging/Line.antt: base/Logging.cpp and include/Logging.h: levels, the time of a log line, and
--   a line as a whole.
-- Net/TimerQueue.antt: net/TimerQueue.cpp, net/Timer.cpp and their headers. The state has the sets
--   `timers_`, `activeTimers_` and `cancelingTimers_`, the flag, the heap of timers and the last
--   setting of the timerfd. `insert_timer` is `insert`, the other names are the source's.
-- Net/Channel.antt: net/Channel.cpp and include/Channel.h. `handle_event` returns the channel and the calls
--   made; what callbacks make of the channel is a parameter.
-- Net/EpollPoller.antt: net/EpollPoller.cpp for Linux, and net/Poller.cpp. `change_events` stands for
--   `Channel::enableReading` and its like, up to the kernel.
-- Net/EventLoop.antt: net/EventLoop.cpp and include/EventLoop.h: `loop`, `queueInLoop`, `wakeup` and
--   `doPendingFunctors` as steps of the loop's thread, in `loop` and outside it, and of other threads, in any interleaving.
-- Net/Poller/Watch.antt: what a poller promises, as a record of laws that both pollers fulfil.
-- Net/PollPoller.antt: net/PollPoller.cpp and its header. A place of `pollfds_` has the channel's descriptor,
--   negative if it is ignored; `swap_out` is the end of `removeChannel`.
-- Net/DefaultPoller.antt: net/DefaultPoller.cpp, the choice of the poller, which gives none on macOS without MUDUO_USE_POLL.
-- Net/SocketOps.antt: net/SocketOps.cpp and include/Endian.h: errors of system calls, and addresses as text.
-- Net/KqueuePoller.antt: net/EpollPoller.cpp for macOS, with the filters of kqueue(2).
-- Net/EventLoopThread.antt: net/EventLoopThread.cpp: the thread that runs a loop, and its owner.
-- Net/PairSet.antt and Net/Store.antt: std::set of pairs, and maps from addresses or descriptors.
-- Prelude.antt: names of the standard library, tests and lists over the native numbers, and integers.
--
-- Assertions are tests here: an operation that fails one returns no state, so each theorem that an
-- operation returns a state also says that no assertion fails. The same holds for the reading of
-- an object that is deleted. Loops go over lists, apart from those that convert numbers to text.
--
-- Parameters: the address that `new` returns, which is not one in use; what callbacks do, which may
-- be any sequence of calls of the timer queue; the readings of the clock; the kernel's epoll instance
-- and its queue, with what epoll_ctl(2), epoll(7) and kqueue(2) say of them; poll(2), inet_ntop(3) and
-- inet_pton(3); the identifier that gettid(2) gives a thread; the text of a double, of a port, of an
-- error and of a calendar time.
--
-- Not modelled: other threads in the timer queue, which is the loop's alone; system calls that only
-- create or close descriptors; what parts other than base/Logging.cpp log. Times are natural numbers of
-- microseconds that do not overflow; the interval of a timer is given in microseconds, as the source
-- computes it from a double. Counters such as `iteration_` do not overflow either. Threads take their
-- steps one at a time, each on memory that all of them see.
pub mod Prelude
pub mod Base
pub mod Net
