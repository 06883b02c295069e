-- ===== src/Stub.antt =====
-- src/describe/stub.rs: the PHP stubs of an extension. The writes to a `String` cannot fail, so that a
-- printer is the text that it writes.
pub mod Value
pub mod Docs
pub mod Types
pub mod Phpdoc
pub mod Members
pub mod Sorting
pub mod Module
