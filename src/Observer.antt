-- ===== src/Observer.antt =====
-- The observers of src/zend: error_observer.rs, exception_observer.rs and observer.rs, with the parts
-- of PHP's structs that they read. The three files hold the same two functions on Zend strings and
-- the same loop over the call stack. A null pointer is `none`.
pub mod Backtrace
pub mod Errors
pub mod Exceptions
pub mod Fcalls
use ext_php_rs.Prelude.{ℕ, Bool, true, false, Option, none, some, Bytes, if◌then◌else◌}
use ext_php_rs.Text.Utf8.{is_utf8}

-- `OnceLock::set`: only an empty lock takes a value, and the caller learns whether it did.
unfoldable pub set_once : {A : Type 0} → A → Option A → Option A × Bool
set_once a none = (some a, true)
set_once a (some b) = (some b, false)

-- `zend_string_to_str`, and `zend_string_to_string`, which copies the text.
unfoldable pub zend_string_to_str : Option Bytes → Option Bytes
zend_string_to_str none = none
zend_string_to_str (some bytes) = if is_utf8 bytes then some bytes else none

-- `zend_function`: its common fields, then those of an array of opcodes. A scope is a class entry, of
-- which the name is read.
pub record Func : Type 0 where
  pub type_ : ℕ
  pub function_name : Option Bytes
  pub scope : Option (Option Bytes)
  pub filename : Option Bytes
  pub line_start : ℕ

-- An opcode: its address, and its line.
pub record Opline : Type 0 where
  pub address : ℕ
  pub lineno : ℕ

-- `zend_execute_data`
pub record ExecuteData : Type 0 where
  pub func : Option Func
  pub opline : Option Opline

abbrev pub zend_internal_function : ℕ
zend_internal_function = 1

-- A class entry's name as text.
unfoldable pub class_text : Option (Option Bytes) → Option Bytes
unfolding zend_string_to_str
class_text none = none
class_text (some name) = zend_string_to_str name
