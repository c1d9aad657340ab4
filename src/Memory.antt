-- ===== src/Memory.antt =====
-- Memory pools.
pub mod Regions
pub mod Pool
pub mod Slots
