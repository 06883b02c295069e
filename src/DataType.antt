-- ===== src/DataType.antt =====
-- `enum DataType` of src/flags.rs, and the conversions between it and Zend's numbers. The numbers
-- are in `Tag`.
pub mod Tag
pub mod Tags
use Prim.Native.Nat.{bit_and}
use ext_php_rs.Prelude.{ℕ, Bool, Option, none, Bytes, ◌==◌, if◌then◌else◌}

-- `Object` may name a class.
pub data DataType : Type 0 where
  undef null bool_false bool_true long double string array iterable : DataType
  object : Option Bytes → DataType
  resource reference callable constant_expression void mixed bool ptr indirect : DataType

-- `DataType::as_u32`: a reference has the number of a resource.
unfoldable pub as_u32 : DataType → ℕ
as_u32 DataType.undef = Tag.undef
as_u32 DataType.null = Tag.null
as_u32 DataType.bool_false = Tag.bool_false
as_u32 DataType.bool_true = Tag.bool_true
as_u32 DataType.long = Tag.long
as_u32 DataType.double = Tag.double
as_u32 DataType.string = Tag.string
as_u32 DataType.array = Tag.array
as_u32 (DataType.object _) = Tag.object
as_u32 DataType.resource = Tag.resource
as_u32 DataType.reference = Tag.resource
as_u32 DataType.indirect = Tag.indirect
as_u32 DataType.callable = Tag.callable
as_u32 DataType.constant_expression = Tag.constant_ast
as_u32 DataType.void = Tag.void
as_u32 DataType.mixed = Tag.mixed
as_u32 DataType.bool = Tag.bool
as_u32 DataType.ptr = Tag.ptr
as_u32 DataType.iterable = Tag.iterable

-- `(value & c) == c`
unfoldable pub has : ℕ → ℕ → Bool
has value c = bit_and value c == c

-- `impl From<u32> for DataType`: the first tag whose bits are all in `value`.
unfoldable pub of_u32 : ℕ → DataType
of_u32 value =
    if has value Tag.void
    then DataType.void
    else if has value Tag.ptr
    then DataType.ptr
    else if has value Tag.indirect
    then DataType.indirect
    else if has value Tag.callable
    then DataType.callable
    else if has value Tag.constant_ast
    then DataType.constant_expression
    else if has value Tag.reference
    then DataType.reference
    else if has value Tag.resource
    then DataType.resource
    else if has value Tag.array
    then DataType.array
    else if has value Tag.string
    then DataType.string
    else if has value Tag.double
    then DataType.double
    else if has value Tag.long
    then DataType.long
    else if has value Tag.bool_true
    then DataType.bool_true
    else if has value Tag.bool_false
    then DataType.bool_false
    else if has value Tag.null
    then DataType.null
    else if has value Tag.object
    then DataType.object none
    else if has value Tag.undef
    then DataType.undef
    else DataType.mixed
