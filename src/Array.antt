-- ===== src/Array.antt =====
-- src/types/array: PHP arrays, over Zend's hash table.
pub mod Entries
pub mod Zend
pub mod Table
pub mod Entry
pub mod Cursor
pub mod Iter
pub mod Loop
pub mod Convert
