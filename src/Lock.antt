-- ===== src/Lock.antt =====
-- Locks.
pub mod Exclusive
pub mod Futex
pub mod Posix
pub mod Spin
