-- ===== src/Container.antt =====
-- Containers.
pub mod RingBuffer
pub mod ByteArray
