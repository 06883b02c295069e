-- ===== src/Stub/Types/Agree.antt =====
-- The type that a comment names, and the type of the signature under it.
use ext_php_rs.Prelude.{
  Bool, true, false, not, ◌&&◌, none, some, [], ◌∷◌, ◌++◌, Bytes, codes, if◌then◌else◌, ◌≡◌, refl,
  arith, append-nil, sym,
}
use ext_php_rs.DataType.{DataType}
use ext_php_rs.Stub.Types.{
  backslash, starts_with_backslash, takes_null, or_null, phpdoc_base, datatype_to_phpdoc,
  format_class_type, type_stub, signature_type,
}

-- Not a reference, and not a class whose name starts with a backslash.
abbrev pub is_plain : DataType → Bool
is_plain DataType.reference = false
is_plain (DataType.object (some name)) = not (starts_with_backslash name)
is_plain ty = true

null_suffix : Bytes → Bool → Bytes
null_suffix s b = if b then s ++ codes "|null" else s

suffix_lem : (s : Bytes) (b : Bool) → null_suffix s b ≡ s ++ (if b then codes "|null" else [])
unfolding null_suffix
suffix_lem s true = refl
suffix_lem s false = sym (append-nil s)

or_null-suffix :
    (ty : DataType) (nullable : Bool)
    → or_null (phpdoc_base ty) nullable ty
      ≡ phpdoc_base ty ++ (if nullable && takes_null ty then codes "|null" else [])
unfolding null_suffix
or_null-suffix ty nullable = suffix_lem (phpdoc_base ty) (nullable && takes_null ty)

class_suffix :
    (name : Bytes) (nullable : Bool)
    → not (starts_with_backslash name) ≡ true
    → format_class_type name nullable
      ≡ (backslash ∷ name) ++ (if nullable && true then codes "|null" else [])
unfolding format_class_type
class_suffix name true h = ground (arith, h)
class_suffix name false h = ground (arith, h, append-nil name)

-- For a type that is plain, the comment and the signature name the same type, and the comment adds
-- `|null` exactly where the signature has a question mark in front.
pub datatype_to_phpdoc-signature_type :
    (ty : DataType) (nullable : Bool)
    → is_plain ty ≡ true
    → (datatype_to_phpdoc ty nullable
        ≡ type_stub ty ++ (if nullable && takes_null ty then codes "|null" else []))
      × (signature_type ty nullable
          ≡ (if nullable && takes_null ty then codes "?" else []) ++ type_stub ty)
unfolding datatype_to_phpdoc signature_type type_stub format_class_type null_suffix
datatype_to_phpdoc-signature_type DataType.undef nullable h =
    (or_null-suffix DataType.undef nullable, refl)
datatype_to_phpdoc-signature_type DataType.null nullable h =
    (or_null-suffix DataType.null nullable, refl)
datatype_to_phpdoc-signature_type DataType.bool_false nullable h =
    (or_null-suffix DataType.bool_false nullable, refl)
datatype_to_phpdoc-signature_type DataType.bool_true nullable h =
    (or_null-suffix DataType.bool_true nullable, refl)
datatype_to_phpdoc-signature_type DataType.long nullable h =
    (or_null-suffix DataType.long nullable, refl)
datatype_to_phpdoc-signature_type DataType.double nullable h =
    (or_null-suffix DataType.double nullable, refl)
datatype_to_phpdoc-signature_type DataType.string nullable h =
    (or_null-suffix DataType.string nullable, refl)
datatype_to_phpdoc-signature_type DataType.array nullable h =
    (or_null-suffix DataType.array nullable, refl)
datatype_to_phpdoc-signature_type DataType.iterable nullable h =
    (or_null-suffix DataType.iterable nullable, refl)
datatype_to_phpdoc-signature_type DataType.resource nullable h =
    (or_null-suffix DataType.resource nullable, refl)
datatype_to_phpdoc-signature_type DataType.callable nullable h =
    (or_null-suffix DataType.callable nullable, refl)
datatype_to_phpdoc-signature_type DataType.constant_expression nullable h =
    (or_null-suffix DataType.constant_expression nullable, refl)
datatype_to_phpdoc-signature_type DataType.void nullable h =
    (or_null-suffix DataType.void nullable, refl)
datatype_to_phpdoc-signature_type DataType.mixed nullable h =
    (or_null-suffix DataType.mixed nullable, refl)
datatype_to_phpdoc-signature_type DataType.bool nullable h =
    (or_null-suffix DataType.bool nullable, refl)
datatype_to_phpdoc-signature_type DataType.ptr nullable h =
    (or_null-suffix DataType.ptr nullable, refl)
datatype_to_phpdoc-signature_type DataType.indirect nullable h =
    (or_null-suffix DataType.indirect nullable, refl)
datatype_to_phpdoc-signature_type (DataType.object none) nullable h =
    (or_null-suffix (DataType.object none) nullable, refl)
datatype_to_phpdoc-signature_type (DataType.object (some name)) nullable h =
    (class_suffix name nullable h, refl)
datatype_to_phpdoc-signature_type DataType.reference nullable h = absurd (ground (arith, h))
