-- ===== src/Stub/Types.antt =====
-- src/describe/stub.rs: types and parameters of a stub, names and indentation.
pub mod Agree
pub mod Names
use ext_php_rs.Prelude.{
  ℕ, zero, suc, Bool, true, false, not, ◌&&◌, ◌||◌, Option, none, some, List, [], ◌∷◌, ◌++◌, map,
  Bytes, codes, ◌==◌, if◌then◌else◌,
}
use ext_php_rs.DataType.{DataType}
use ext_php_rs.Text.Str.{
  strip_prefix, first_word, unwrap_or, rfind, retrieve, split, join, is_blank,
}

-- `starts_with('\\')`
abbrev pub backslash : ℕ
backslash = 92

abbrev pub starts_with_backslash : Bytes → Bool
starts_with_backslash [] = false
starts_with_backslash (c ∷ s) = c == backslash

unfoldable pub extract_php_type : Bytes → Bytes
extract_php_type type_str = unwrap_or (codes "mixed") (first_word type_str)

unfoldable pub format_class_type : Bytes → Bool → Bytes
format_class_type name nullable =
    let class_name = if starts_with_backslash name then name else backslash ∷ name in
    if nullable then class_name ++ codes "|null" else class_name

-- `!matches!(ty, DataType::Mixed | DataType::Null | DataType::Void)`
abbrev pub takes_null : DataType → Bool
takes_null DataType.mixed = false
takes_null DataType.null = false
takes_null DataType.void = false
takes_null ty = true

-- The `match` of `datatype_to_phpdoc`, without a named class.
abbrev pub phpdoc_base : DataType → Bytes
phpdoc_base DataType.bool = codes "bool"
phpdoc_base DataType.bool_true = codes "bool"
phpdoc_base DataType.bool_false = codes "bool"
phpdoc_base DataType.long = codes "int"
phpdoc_base DataType.double = codes "float"
phpdoc_base DataType.string = codes "string"
phpdoc_base DataType.array = codes "array"
phpdoc_base (DataType.object name) = codes "object"
phpdoc_base DataType.resource = codes "resource"
phpdoc_base DataType.callable = codes "callable"
phpdoc_base DataType.void = codes "void"
phpdoc_base DataType.null = codes "null"
phpdoc_base DataType.iterable = codes "iterable"
phpdoc_base ty = codes "mixed"

abbrev pub or_null : Bytes → Bool → DataType → Bytes
or_null base nullable ty = if nullable && takes_null ty then base ++ codes "|null" else base

unfoldable pub datatype_to_phpdoc : DataType → Bool → Bytes
unfolding format_class_type
datatype_to_phpdoc (DataType.object (some name)) nullable = format_class_type name nullable
datatype_to_phpdoc ty nullable = or_null (phpdoc_base ty) nullable ty

-- `impl ToStub for DataType`
unfoldable pub type_stub : DataType → Bytes
type_stub DataType.bool = codes "bool"
type_stub DataType.bool_true = codes "bool"
type_stub DataType.bool_false = codes "bool"
type_stub DataType.long = codes "int"
type_stub DataType.double = codes "float"
type_stub DataType.string = codes "string"
type_stub DataType.array = codes "array"
type_stub (DataType.object (some ty)) = backslash ∷ ty
type_stub (DataType.object none) = codes "object"
type_stub DataType.resource = codes "resource"
type_stub DataType.reference = codes "reference"
type_stub DataType.callable = codes "callable"
type_stub DataType.iterable = codes "iterable"
type_stub DataType.void = codes "void"
type_stub DataType.null = codes "null"
type_stub ty = codes "mixed"

-- `struct Parameter` and `struct Retval` of src/describe/mod.rs
pub record Parameter : Type 0 where
  pub name : Bytes
  pub ty : Option DataType
  pub nullable : Bool
  pub variadic : Bool
  pub default : Option Bytes

pub record Retval : Type 0 where
  pub ty : DataType
  pub nullable : Bool

-- The type of a signature, with a question mark where it takes null.
unfoldable pub signature_type : DataType → Bool → Bytes
unfolding type_stub
signature_type ty nullable = (if nullable && takes_null ty then codes "?" else []) ++ type_stub ty

-- `Option::Some(DataType::Mixed) | Option::None`
abbrev pub is_mixed : Option DataType → Bool
is_mixed none = true
is_mixed (some DataType.mixed) = true
is_mixed (some ty) = false

abbrev pub type_prefix : Option DataType → Bool → Bytes
unfolding signature_type
type_prefix none nullable = []
type_prefix (some ty) nullable = signature_type ty nullable ++ codes " "

abbrev pub default_suffix : Option Bytes → Bool → Bytes
default_suffix (some default) nullable = codes " = " ++ default
default_suffix none nullable = if nullable then codes " = null" else []

abbrev pub filter_mixed : Option DataType → Option Bytes → Option Bytes
filter_mixed ty none = none
filter_mixed ty (some type_override) = if is_mixed ty then some type_override else none

unfoldable pub param_to_stub : Parameter → List (Bytes × Bytes) → Bytes
unfolding extract_php_type
param_to_stub param type_overrides =
    elim (filter_mixed param.ty (retrieve param.name type_overrides)) [
      | some override_str ↦ extract_php_type override_str ++ codes " "
      | none ↦ type_prefix param.ty param.nullable
    ]
    ++ ((if param.variadic then codes "..." else [])
        ++ (codes "$" ++ (param.name ++ default_suffix param.default param.nullable)))

unfoldable pub split_namespace : Bytes → Option Bytes × Bytes
split_namespace class = elim (rfind backslash class) [
  | some (namespace, name) ↦ (some namespace, name)
  | none ↦ (none, class)
]

abbrev pub spaces : ℕ → Bytes
spaces zero = []
spaces (suc depth) = b' ' ∷ spaces depth

abbrev pub indent_line : ℕ → Bytes → Bytes
indent_line depth line = if is_blank line then [] else spaces depth ++ line

-- `NEW_LINE_SEPARATOR` is the separator of the platform.
unfoldable pub indent : Bytes → Bytes → ℕ → Bytes
indent new_line s depth = join new_line (map (indent_line depth) (split b'\n' s))
