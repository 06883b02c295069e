-- ===== src/ZendType/Mask.antt =====
-- What can be read back from a type mask.
use ext_php_rs.Prelude.{
  ℕ, ◌^◌, ◌/◌, ◌%◌, Bool, true, false, ◌≡◌, refl, arith, none, some, Bytes, [], ◌∷◌, ◌↔◌, ◌==◌,
  ◌||◌, if◌then◌else◌,
}
use ext_php_rs.DataType.{DataType}
use ext_php_rs.ZendType.{
  type_init_code, from_bool, empty_from_type, c_string, may_be_any, may_be_bool,
}

-- The bits that Zend names `MAY_BE_…`, with those that the code uses for the other types.
abbrev pub may_be : DataType → ℕ
may_be DataType.undef = 1
may_be DataType.null = 2
may_be DataType.bool_false = 4
may_be DataType.bool_true = 8
may_be DataType.long = 16
may_be DataType.double = 32
may_be DataType.string = 64
may_be DataType.array = 128
may_be (DataType.object _) = 256
may_be DataType.resource = 512
may_be DataType.reference = 512
may_be DataType.constant_expression = 2048
may_be DataType.callable = 4096
may_be DataType.indirect = 4096
may_be DataType.iterable = 8192
may_be DataType.ptr = 8192
may_be DataType.void = 16384
may_be DataType.mixed = may_be_any
may_be DataType.bool = may_be_bool

-- The types whose own bits include the bit of null.
abbrev pub admits_null : DataType → Bool
admits_null DataType.null = true
admits_null DataType.mixed = true
admits_null _ = false

-- Bit 27 says whether the parameter is variadic, bit 25 whether it is passed by reference, bit 1
-- whether null is allowed, by the flag or by the type, and the bits from 2 to 24 are the type's.
pub record MaskFields (mask : ℕ) (type : DataType) (pass_by_ref is_variadic allow_null : Bool)
    : Type 0 where
  pub variadic : mask / 2 ^ 27 ≡ from_bool is_variadic
  pub send_mode : mask / 2 ^ 25 % 4 ≡ from_bool pass_by_ref
  pub nullable : mask / 2 % 2 ≡ (if admits_null type then 1 else from_bool allow_null)
  pub own_bits : mask % 2 ^ 25 / 4 ≡ may_be type / 4

by_cases :
    (pass_by_ref is_variadic allow_null : Bool) (type : DataType)
    → MaskFields
        (type_init_code type pass_by_ref is_variadic allow_null)
        type
        pass_by_ref
        is_variadic
        allow_null
unfolding type_init_code
by_cases true true true DataType.undef = record {
  variadic = refl;
  send_mode = refl;
  nullable = refl;
  own_bits = refl;
}
by_cases true true false DataType.undef = record {
  variadic = refl;
  send_mode = refl;
  nullable = refl;
  own_bits = refl;
}
by_cases true false true DataType.undef = record {
  variadic = refl;
  send_mode = refl;
  nullable = refl;
  own_bits = refl;
}
by_cases true false false DataType.undef = record {
  variadic = refl;
  send_mode = refl;
  nullable = refl;
  own_bits = refl;
}
by_cases false true true DataType.undef = record {
  variadic = refl;
  send_mode = refl;
  nullable = refl;
  own_bits = refl;
}
by_cases false true false DataType.undef = record {
  variadic = refl;
  send_mode = refl;
  nullable = refl;
  own_bits = refl;
}
by_cases false false true DataType.undef = record {
  variadic = refl;
  send_mode = refl;
  nullable = refl;
  own_bits = refl;
}
by_cases false false false DataType.undef = record {
  variadic = refl;
  send_mode = refl;
  nullable = refl;
  own_bits = refl;
}
by_cases _ _ _ _ = record { variadic = refl; send_mode = refl; nullable = refl; own_bits = refl }

-- For every type and all flags, the mask has in bit 27 whether the parameter is variadic, in bits 25
-- and 26 whether it is passed by reference, in bit 1 whether null is allowed by the flag or by the
-- type itself, and in the bits from 2 to 24 the bits of the type.
pub type_init_code_fields :
    (type : DataType) (pass_by_ref is_variadic allow_null : Bool)
    → MaskFields
        (type_init_code type pass_by_ref is_variadic allow_null)
        type
        pass_by_ref
        is_variadic
        allow_null
type_init_code_fields type pass_by_ref is_variadic allow_null =
    by_cases pass_by_ref is_variadic allow_null type

abbrev pub has_nul : Bytes → Bool
has_nul [] = false
has_nul (c ∷ s) = c == 0 || has_nul s

-- `CString::new` refuses exactly the texts with a NUL byte, and keeps the others.
pub c_string_lem : (s : Bytes) → c_string s ≡ (if has_nul s then none else some s)
unfolding c_string
c_string_lem [] = refl
c_string_lem (c ∷ s) = ground (arith, c_string_lem s)

-- No type is made exactly where the type is an object of a class whose name has a NUL byte.
pub empty_from_type-eq-none :
    (php83 : Bool) (type : DataType) (pass_by_ref is_variadic allow_null : Bool)
    → (empty_from_type php83 type pass_by_ref is_variadic allow_null ≡ none)
      ↔ ((class : Bytes) × (type ≡ DataType.object (some class)) × (has_nul class ≡ true))
unfolding empty_from_type
empty_from_type-eq-none php83 (DataType.object (some class)) r v n = (
  λ e. (class, refl, ground (arith, c_string_lem class)),
  λ h. ground (arith, c_string_lem class, h.1, h.2),
)
empty_from_type-eq-none php83 (DataType.object none) r v n = (λ e. cc, λ h. cc h.1)
empty_from_type-eq-none php83 type r v n = (λ e. cc, λ h. cc h.1)
