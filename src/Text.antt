-- ===== src/Text.antt =====
-- Text as Go's standard library reads it: utf8, unicode.IsSpace and the functions of strings that
-- the program calls.
pub mod Utf8
pub mod Space
pub mod Search
pub mod Decimal
pub mod Replace
