-- ===== src/Zval.antt =====
-- src/types/zval.rs: PHP values.
pub mod Numeric
pub mod Float
pub mod FloatText
pub mod Value
pub mod Coerce
pub mod Write
