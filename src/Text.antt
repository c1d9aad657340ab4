-- ===== src/Text.antt =====
-- Characters and strings.
pub mod Affix
pub mod Ascii
pub mod Json
pub mod JsonGet
pub mod Replace
pub mod Split
