-- ===== src/File.antt =====
-- File descriptors, streams and the files of the process.
pub mod Flags
pub mod Guard
pub mod Stream
pub mod Memory
pub mod Stat
