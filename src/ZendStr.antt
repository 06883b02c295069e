-- ===== src/ZendStr.antt =====
-- src/types/string/mod.rs: a `zend_string`, and how it is read as text. The flags are those that
-- src/wrapper.c tests and sets: `IS_STR_VALID_UTF8`, never set on an interned string.
pub mod Utf8
use ext_php_rs.Prelude.{ℕ, Bool, true, false, Bytes, length, ◌==◌, if◌then◌else◌}
use ext_php_rs.Error.{Error, Result, ok, err, ok_or}
use ext_php_rs.Text.Utf8.{is_utf8}
use ext_php_rs.ZendType.{c_string}

-- `bytes` are the `len` bytes in front of the final NUL.
pub record ZendStr : Type 0 where
  pub bytes : Bytes
  pub interned : Bool
  pub known_valid_utf8 : Bool

unfoldable pub len : ZendStr → ℕ
len zs = length zs.bytes

unfoldable pub is_empty : ZendStr → Bool
unfolding len
is_empty zs = len zs == 0

-- `CStr::from_bytes_with_nul`, where the last byte is NUL: no other may be.
unfoldable pub as_c_str : ZendStr → Result Bytes
unfolding c_string
as_c_str zs = ok_or (c_string zs.bytes) Error.invalid_c_string

-- `ext_php_rs_set_known_valid_utf8`
unfoldable pub set_known_valid_utf8 : ZendStr → ZendStr
set_known_valid_utf8 zs = if zs.interned then zs else record zs { known_valid_utf8 = true }

-- The result, and the string with the flag that the call may set.
unfoldable pub as_str : ZendStr → Result Bytes × ZendStr
unfolding set_known_valid_utf8
as_str zs =
    if zs.known_valid_utf8
    then (ok zs.bytes, zs)
    else if is_utf8 zs.bytes
    then (ok zs.bytes, set_known_valid_utf8 zs)
    else (err Error.invalid_utf8, zs)
