-- ===== src/Base.antt =====
-- The support library, server/src/muduo/base.
pub mod CountDownLatch
pub mod Date
pub mod LogStream
pub mod Logging
pub mod Thread
pub mod TimeZone
pub mod ZoneFile
pub mod Timestamp
