-- ===== src/Thread.antt =====
-- Threads and thread pools.
pub mod Base
pub mod Simple
pub mod Toft
