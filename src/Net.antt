-- ===== src/Net.antt =====
-- The network library, server/src/muduo/net.
pub mod PairSet
pub mod Store
pub mod TimerQueue
pub mod Channel
pub mod Poller
pub mod EpollPoller
pub mod KqueuePoller
pub mod PollPoller
pub mod DefaultPoller
pub mod EventLoop
pub mod EventLoopThread
pub mod SocketOps
