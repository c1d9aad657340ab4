-- ===== src/Fiber.antt =====
-- Fibers and their timers.
pub mod Timer
pub mod Switch
