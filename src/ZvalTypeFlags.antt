-- ===== src/ZvalTypeFlags.antt =====
-- The bit set `ZvalTypeFlags` of src/flags.rs as its bits, and its conversion to a type. `contains`
-- is a method of the crate `bitflags`, and so a parameter.
pub mod Conversion
use Prim.Native.Nat.{bit_or}
use ext_php_rs.Prelude.{ℕ, ◌*◌, ◌^◌, Bool, none, if◌then◌else◌}
use ext_php_rs.Error.{Error, Result, ok, err}
use ext_php_rs.DataType.{DataType}
use ext_php_rs.DataType.Tag

-- `IS_TYPE_REFCOUNTED << Z_TYPE_FLAGS_SHIFT`
abbrev pub ref_counted : ℕ
ref_counted = 1 * 2 ^ 8

-- `IS_TYPE_COLLECTABLE << Z_TYPE_FLAGS_SHIFT`
abbrev pub collectable : ℕ
collectable = 2 * 2 ^ 8

-- `GC_IMMUTABLE`
abbrev pub immutable : ℕ
immutable = 64

abbrev pub interned_string_ex : ℕ
interned_string_ex = Tag.string

abbrev pub string_ex : ℕ
string_ex = bit_or Tag.string ref_counted

abbrev pub array_ex : ℕ
array_ex = bit_or (bit_or Tag.array ref_counted) collectable

abbrev pub object_ex : ℕ
object_ex = bit_or (bit_or Tag.object ref_counted) collectable

abbrev pub resource_ex : ℕ
resource_ex = bit_or Tag.resource ref_counted

abbrev pub reference_ex : ℕ
reference_ex = bit_or Tag.reference ref_counted

abbrev pub constant_ast_ex : ℕ
constant_ast_ex = bit_or Tag.constant_ast ref_counted

module _ (contains : ℕ → ℕ → Bool) where
  -- `impl TryFrom<ZvalTypeFlags> for DataType`: the ladder of the macro `contains!`.
  pub try_from : ℕ → Result DataType
  try_from value =
      if contains value Tag.undef
      then ok DataType.undef
      else if contains value Tag.null
      then ok DataType.null
      else if contains value Tag.bool_false
      then ok DataType.bool_false
      else if contains value Tag.bool_true
      then ok DataType.bool_true
      else if contains value Tag.bool_false
      then ok DataType.bool_false
      else if contains value Tag.long
      then ok DataType.long
      else if contains value Tag.double
      then ok DataType.double
      else if contains value Tag.string
      then ok DataType.string
      else if contains value Tag.array
      then ok DataType.array
      else if contains value Tag.resource
      then ok DataType.resource
      else if contains value Tag.callable
      then ok DataType.callable
      else if contains value Tag.constant_ast
      then ok DataType.constant_expression
      else if contains value Tag.void
      then ok DataType.void
      else if contains value Tag.object
      then ok (DataType.object none)
      else err (Error.unknown_datatype 0)
