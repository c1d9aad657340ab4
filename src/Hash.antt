-- ===== src/Hash.antt =====
-- The hash functions of src/utils/hash.cc that are not calls of a library, and those of
-- src/meta/simple_tuple.h.
pub mod Quick
pub mod Murmur
pub mod Block
pub mod Tuple
