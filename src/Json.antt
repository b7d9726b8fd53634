-- ===== src/Json.antt =====
-- The JSON output: lib/libjson.c (under zns-tools.fs/).
pub mod Numerals
pub mod Strings
pub mod Objects
pub mod Zonemap
mod Tests
