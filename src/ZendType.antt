-- ===== src/ZendType.antt =====
-- src/zend/_type.rs: the type of a parameter or of a return value, as Zend's `zend_type`.
pub mod Mask
use Prim.Native.Nat.{bit_or}
use ext_php_rs.Prelude.{
  ℕ, ◌*◌, ◌^◌, Bool, true, false, Option, none, some, [], ◌∷◌, Bytes, ◌==◌, if◌then◌else◌,
}
use ext_php_rs.DataType.{DataType, as_u32}
use ext_php_rs.DataType.Tag

-- `ptr` is null, or a C string with the name of a class.
pub record ZendType : Type 0 where
  pub ptr : Option Bytes
  pub type_mask : ℕ

-- `_ZEND_TYPE_NULLABLE_BIT`
abbrev pub nullable_bit : ℕ
nullable_bit = 2

-- `_ZEND_IS_VARIADIC_BIT`
abbrev pub is_variadic_bit : ℕ
is_variadic_bit = 134217728

-- `_ZEND_SEND_MODE_SHIFT`
abbrev pub send_mode_shift : ℕ
send_mode_shift = 25

-- `MAY_BE_BOOL`
abbrev pub may_be_bool : ℕ
may_be_bool = 12

-- `MAY_BE_ANY`
abbrev pub may_be_any : ℕ
may_be_any = 1022

-- `_ZEND_TYPE_LITERAL_NAME_BIT` from PHP 8.3 on, `_ZEND_TYPE_NAME_BIT` before
abbrev pub name_bit : Bool → ℕ
name_bit php83 = if php83 then 8388608 else 16777216

-- `u32::from`
abbrev pub from_bool : Bool → ℕ
from_bool true = 1
from_bool false = 0

-- `CString::new`: a text with a NUL byte is refused.
unfoldable pub c_string : Bytes → Option Bytes
c_string [] = some []
c_string (c ∷ s) = elim (c_string s) [
  | none ↦ none
  | some t ↦ if c == 0 then none else some (c ∷ t)
]

unfoldable pub arg_info_flags : Bool → Bool → ℕ
arg_info_flags pass_by_ref is_variadic =
    bit_or (from_bool pass_by_ref * 2 ^ send_mode_shift)
      (if is_variadic then is_variadic_bit else 0)

-- The shift is of a `u32`; every type number is below 32.
unfoldable pub type_init_code : DataType → Bool → Bool → Bool → ℕ
unfolding as_u32 arg_info_flags
type_init_code type pass_by_ref is_variadic allow_null =
    let t = as_u32 type in
    bit_or
      (bit_or (if t == Tag.bool then may_be_bool else if t == Tag.mixed then may_be_any else 2 ^ t)
        (if allow_null then nullable_bit else 0))
      (arg_info_flags pass_by_ref is_variadic)

unfoldable pub empty : Bool → Bool → ZendType
unfolding arg_info_flags
empty pass_by_ref is_variadic = record {
  ptr = none;
  type_mask = arg_info_flags pass_by_ref is_variadic;
}

-- The flag `php83` is the build's; `.ok()?` returns early on a NUL byte.
unfoldable pub empty_from_class_type : Bool → Bytes → Bool → Bool → Bool → Option ZendType
unfolding arg_info_flags c_string
empty_from_class_type php83 class_name pass_by_ref is_variadic allow_null =
    let flags = arg_info_flags pass_by_ref is_variadic in
    let nullable = if allow_null then bit_or flags nullable_bit else flags in
    elim (c_string class_name) [
      | none ↦ none
      | some name ↦ some (record { ptr = some name; type_mask = bit_or nullable (name_bit php83) })
    ]

-- The assertion holds at the one call below.
unfoldable pub empty_from_primitive_type : DataType → Bool → Bool → Bool → ZendType
unfolding type_init_code
empty_from_primitive_type type pass_by_ref is_variadic allow_null = record {
  ptr = none;
  type_mask = type_init_code type pass_by_ref is_variadic allow_null;
}

unfoldable pub empty_from_type : Bool → DataType → Bool → Bool → Bool → Option ZendType
unfolding empty_from_class_type empty_from_primitive_type
empty_from_type php83 (DataType.object (some class)) pass_by_ref is_variadic allow_null =
    empty_from_class_type php83 class pass_by_ref is_variadic allow_null
empty_from_type php83 type pass_by_ref is_variadic allow_null =
    some (empty_from_primitive_type type pass_by_ref is_variadic allow_null)
