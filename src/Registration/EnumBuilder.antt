-- ===== src/Registration/EnumBuilder.antt =====
-- src/builders/enum_builder.rs: the builder of an enum, and its registration. A case is one of
-- src/enum_.rs. PHP's `zend_register_internal_enum` gives a class entry.
use ext_php_rs.Prelude.{
  ℕ, Bool, true, false, Option, none, some, List, [], ◌∷◌, ◌++◌, Bytes, ltb, if◌then◌else◌,
}
use ext_php_rs.Text.Str.{is_nil}
use ext_php_rs.DataType.{DataType, as_u32}
use ext_php_rs.Error.{Error, Result, ok, err, ok_or, ◌>>=◌}
use ext_php_rs.ZendType.{c_string}
use ext_php_rs.FunctionBuilder.{FunctionBuilder, FunctionEntry}
use ext_php_rs.Registration.{
  Discriminant, int, string, Effect, enumeration, enum_case, Ended, failed, after, emit, each, end,
  Method, build_methods,
}
use ext_php_rs.Registration.ClassBuilder.{call, call_register}

-- `struct EnumCase` of src/enum_.rs
pub record Case : Type 0 where
  pub name : Bytes
  pub discriminant : Option Discriminant
  pub docs : List Bytes

unfoldable pub data_type : Case → DataType
data_type c = elim c.discriminant [
  | some (int i) ↦ DataType.long
  | some (string s) ↦ DataType.string
  | none ↦ DataType.undef
]

pub record EnumBuilder (Z : Type 0) : Type 0 where
  pub name : Bytes
  pub methods : List (Method Z)
  pub cases : List Case
  pub datatype : DataType
  pub register : Option ℕ
  pub docs : List Bytes

-- Equality of two of the types that `data_type` gives.
abbrev pub same_type : DataType → DataType → Bool
same_type DataType.long DataType.long = true
same_type DataType.string DataType.string = true
same_type DataType.undef DataType.undef = true
same_type _ _ = false

-- `u32` to `u8`
abbrev pub to_u8 : ℕ → Result ℕ
to_u8 n = if ltb n 256 then ok n else err Error.integer_overflow

module _ {Z : Type 0} where
  unfoldable pub new_enum : Bytes → EnumBuilder Z
  new_enum name = record {
    name = name;
    methods = [];
    cases = [];
    datatype = DataType.undef;
    register = none;
    docs = [];
  }

  -- The panic of the assertion is `none`.
  unfoldable pub case : Case → EnumBuilder Z → Option (EnumBuilder Z)
  unfolding data_type
  case c b =
      let added = some (record b { datatype = data_type c; cases = b.cases ++ c ∷ [] }) in
      let alike = if is_nil b.cases then added else none in
      if same_type (data_type c) b.datatype then added else alike

  unfoldable pub enum_method : FunctionBuilder Z → ℕ → EnumBuilder Z → EnumBuilder Z
  enum_method func flags b = record b { methods = b.methods ++ (func, flags) ∷ [] }

  unfoldable pub enum_registration : ℕ → EnumBuilder Z → EnumBuilder Z
  enum_registration f b = record b { register = some f }

  unfoldable pub enum_docs : List Bytes → EnumBuilder Z → EnumBuilder Z
  enum_docs lines b = record b { docs = lines }

  -- An integer and a string become zvals without an error.
  abbrev pub add_case : Case → List (Effect Z) → Ended Z
  add_case c w = emit (enum_case c.name c.discriminant) w

  unfoldable pub enum_call : EnumBuilder Z → List FunctionEntry → Result (Effect Z)
  enum_call b entries = do
    name ← ok_or (c_string b.name) Error.invalid_c_string
    datatype ← to_u8 (as_u32 b.datatype)
    ok (enumeration name datatype entries)

  unfoldable pub enum_built : EnumBuilder Z → List FunctionEntry → List (Effect Z) → Ended Z
  unfolding enum_call
  enum_built b entries w =
      after (call (enum_call b entries) w)
        λ w. after (each add_case b.cases w) λ w. call_register b.register w

  unfoldable pub register_enum : Bool → EnumBuilder Z → List (Effect Z) → Ended Z
  unfolding enum_built
  register_enum php83 b w = elim (build_methods php83 b.methods) [
    | ok entries ↦ enum_built b (entries ++ end ∷ []) w
    | err e ↦ failed e w
  ]
