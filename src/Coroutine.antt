-- ===== src/Coroutine.antt =====
-- Coroutines.
pub mod Schedule
