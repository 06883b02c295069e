-- ===== src/ArrayKey.antt =====
-- src/types/array/array_key.rs: the key of a PHP array, and its conversions.
pub mod Numeric
use ext_php_rs.Prelude.{
  ℕ, ◌^◌, Bool, true, false, not, ◌||◌, Option, none, some, [], ◌∷◌, Bytes, codes, text_eq, ltb,
  ◌==◌, if◌then◌else◌, ◌&&◌,
}
use ext_php_rs.Prelude.Int.{ℤ, pos, i64_limit}
use ext_php_rs.Error.{Error, Result, ok, err, ok_or, ◌>>=◌, map_ok}
use ext_php_rs.Text.Decimal.{from_str, to_string, format}
use ext_php_rs.ZendStr.{ZendStr, as_str}

-- `enum ArrayKey`
pub data ArrayKey : Type 0 where
  long : ℤ → ArrayKey
  string : Bytes → ArrayKey
  str : Bytes → ArrayKey
  zend_string : ZendStr → ArrayKey

-- `starts_with('0')`
abbrev pub starts_with_zero : Bytes → Bool
starts_with_zero [] = false
starts_with_zero (c ∷ s) = c == b'0'

-- `value == "0" || !value.starts_with('0')`
abbrev pub has_no_leading_zero : Bytes → Bool
has_no_leading_zero value = text_eq value (codes "0") || not (starts_with_zero value)

-- `impl From<String> for ArrayKey`
unfoldable pub of_string : Bytes → ArrayKey
of_string value = elim (from_str value) [
  | some index ↦ if has_no_leading_zero value then ArrayKey.long index else ArrayKey.string value
  | none ↦ ArrayKey.string value
]

-- `impl From<&str> for ArrayKey`
unfoldable pub of_str : Bytes → ArrayKey
of_str value = elim (from_str value) [
  | some index ↦ if has_no_leading_zero value then ArrayKey.long index else ArrayKey.str value
  | none ↦ ArrayKey.str value
]

-- `impl From<i64> for ArrayKey`; `From<i32>` widens and is the same.
unfoldable pub of_i64 : ℤ → ArrayKey
of_i64 index = ArrayKey.long index

-- `impl From<u64> for ArrayKey` and `From<usize>`: `i64::try_from` fails from 2 ^ 63 on.
unfoldable pub of_u64 : ℕ → ArrayKey
of_u64 index =
    if ltb index i64_limit then ArrayKey.long (pos index) else ArrayKey.string (format index)

-- The chain of `let` patterns in `impl From<&ZendStr> for ArrayKey`.
abbrev index_of : Result Bytes → Option ℤ
index_of (err e) = none
index_of (ok text) = elim (from_str text) [
  | some index ↦ if has_no_leading_zero text then some index else none
  | none ↦ none
]

-- `impl From<&ZendStr> for ArrayKey`
unfoldable pub of_zend_str : ZendStr → ArrayKey
of_zend_str value = elim (index_of (as_str value).0) [
  | some index ↦ ArrayKey.long index
  | none ↦ ArrayKey.zend_string value
]

-- `impl TryFrom<ArrayKey> for String`
unfoldable pub to_text : ArrayKey → Result Bytes
to_text (ArrayKey.string s) = ok s
to_text (ArrayKey.str s) = ok s
to_text (ArrayKey.long l) = ok (to_string l)
to_text (ArrayKey.zend_string s) = (as_str s).0

-- `s.parse::<i64>().map_err(|_| Error::InvalidProperty)`
abbrev parse_index : Bytes → Result ℤ
parse_index s = ok_or (from_str s) Error.invalid_property

-- `impl TryFrom<ArrayKey> for i64`: an error of `as_str` is one of the property too.
abbrev parse_zend_str : Result Bytes → Result ℤ
parse_zend_str (ok text) = parse_index text
parse_zend_str (err e) = err Error.invalid_property

unfoldable pub to_i64 : ArrayKey → Result ℤ
to_i64 (ArrayKey.long i) = ok i
to_i64 (ArrayKey.string s) = parse_index s
to_i64 (ArrayKey.str s) = parse_index s
to_i64 (ArrayKey.zend_string s) = parse_zend_str (as_str s).0

unfoldable pub is_long : ArrayKey → Bool
is_long (ArrayKey.long _) = true
is_long (ArrayKey.string _) = false
is_long (ArrayKey.str _) = false
is_long (ArrayKey.zend_string _) = false

-- `impl Display for ArrayKey`; `lossy` is `String::from_utf8_lossy`.
abbrev or_lossy : (Bytes → Bytes) → Bytes → Result Bytes → Bytes
or_lossy lossy bytes (ok text) = text
or_lossy lossy bytes (err e) = lossy bytes

unfoldable pub display : (Bytes → Bytes) → ArrayKey → Bytes
display lossy (ArrayKey.long key) = to_string key
display lossy (ArrayKey.string key) = key
display lossy (ArrayKey.str key) = key
display lossy (ArrayKey.zend_string key) = or_lossy lossy key.bytes (as_str key).0
