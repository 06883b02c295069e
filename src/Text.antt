-- ===== src/Text.antt =====
-- What the code uses of Rust's standard library on texts: `i64::from_str`, `to_string` of an
-- integer, `str::from_utf8`, `str::trim_start`. A text is the list of its bytes.
pub mod Decimal
pub mod Utf8
pub mod Str
pub mod Ascii
