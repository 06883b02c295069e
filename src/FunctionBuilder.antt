-- ===== src/FunctionBuilder.antt =====
-- src/builders/function.rs: the entry of a function for Zend, and in src/describe/mod.rs its
-- description. A handler is its address. `constructor` is `new` with the name `__construct`.
pub mod Entry
use Prim.Native.Nat.{bit_or}
use ext_php_rs.Prelude.{
  ℕ, ◌+◌, ◌-◌, ◌^◌, Bool, true, false, not, ◌&&◌, Option, none, some, List, [], ◌∷◌, ◌++◌, map,
  length, Bytes, ltb, if◌then◌else◌,
}
use ext_php_rs.DataType.{DataType}
use ext_php_rs.Error.{Error, Result, ok, err, ok_or, ◌>>=◌}
use ext_php_rs.ZendType.{ZendType, c_string, empty, empty_from_type}
use ext_php_rs.Args.{Arg, has_variadic, unwrap_or, to_u32}
use ext_php_rs.Args.Info.{ArgInfo, as_arg_info}
use ext_php_rs.Stub.Types.{Parameter, Retval}
use ext_php_rs.Stub.Module.{Function}

-- The first element of the array of `ArgInfo`, whose name is the number of required arguments.
pub record Header : Type 0 where
  pub required_num_args : ℕ
  pub type : ZendType

-- `struct FunctionEntry`; null pointers are `none`.
pub record FunctionEntry : Type 0 where
  pub fname : Option Bytes
  pub handler : Option ℕ
  pub arg_info : Option (Header × List ArgInfo)
  pub num_args : ℕ
  pub flags : ℕ

pub record FunctionBuilder (Z : Type 0) : Type 0 where
  pub name : Bytes
  pub function : FunctionEntry
  pub args : List (Arg Z)
  pub n_req : Option ℕ
  pub retval : Option DataType
  pub ret_as_ref : Bool
  pub ret_as_null : Bool
  pub docs : List Bytes

-- `MethodFlags::Variadic` and `MethodFlags::Abstract`
abbrev pub variadic_flag : ℕ
variadic_flag = 16384

abbrev pub abstract_flag : ℕ
abstract_flag = 64

-- `type_ != DataType::Void && type_ != DataType::Mixed`
abbrev pub may_be_null : DataType → Bool
may_be_null DataType.void = false
may_be_null DataType.mixed = false
may_be_null type = true

abbrev pub is_mixed : DataType → Bool
is_mixed DataType.mixed = true
is_mixed type = false

abbrev pub header_type : Bool → Option DataType → Bool → Bool → Result ZendType
header_type php83 none ref null = ok (empty false false)
header_type php83 (some retval) ref null =
    ok_or (empty_from_type php83 retval ref false null) Error.invalid_c_string

abbrev pub described_retval : Option DataType → Bool → Option Retval
described_retval none ret_allow_null = none
described_retval (some r) ret_allow_null =
    some (record { ty = r; nullable = not (is_mixed r) && ret_allow_null })

module _ {Z : Type 0} where
  abbrev pub blank : Bytes → Option ℕ → ℕ → FunctionBuilder Z
  blank name handler flags = record {
    name = name;
    function = record {
      fname = none;
      handler = handler;
      arg_info = none;
      num_args = 0;
      flags = flags;
    };
    args = [];
    n_req = none;
    retval = none;
    ret_as_ref = false;
    ret_as_null = false;
    docs = [];
  }

  unfoldable pub new : Bytes → ℕ → FunctionBuilder Z
  new name handler = blank name (some handler) 0

  unfoldable pub new_abstract : Bytes → FunctionBuilder Z
  new_abstract name = blank name none abstract_flag

  unfoldable pub arg : Arg Z → FunctionBuilder Z → FunctionBuilder Z
  arg a b = record b { args = b.args ++ a ∷ [] }

  unfoldable pub not_required : FunctionBuilder Z → FunctionBuilder Z
  not_required b = record b { n_req = some (length b.args) }

  unfoldable pub returns : DataType → Bool → Bool → FunctionBuilder Z → FunctionBuilder Z
  returns type as_ref allow_null b = record b {
    retval = some type;
    ret_as_ref = as_ref;
    ret_as_null = allow_null && may_be_null type;
  }

  -- `collect::<Result<Vec<_>>>()`
  unfoldable pub collect : Bool → List (Arg Z) → Result (List ArgInfo)
  collect php83 [] = ok []
  collect php83 (a ∷ args) = do
    info ← as_arg_info php83 a
    infos ← collect php83 args
    ok (info ∷ infos)

  unfoldable pub required : FunctionBuilder Z → ℕ
  required b =
      let n_req = unwrap_or b.n_req (length b.args) in
      if has_variadic b.args then n_req - 1 else n_req

  unfoldable pub build : Bool → FunctionBuilder Z → Result FunctionEntry
  unfolding required collect
  build php83 b = do
    type ← header_type php83 b.retval b.ret_as_ref b.ret_as_null
    infos ← collect php83 b.args
    fname ← ok_or (c_string b.name) Error.invalid_c_string
    num_args ← to_u32 (length infos)
    ok (record (b.function) {
      fname = some fname;
      arg_info = some (record { required_num_args = required b; type = type }, infos);
      num_args = num_args;
      flags =
          if has_variadic b.args then bit_or b.function.flags variadic_flag else b.function.flags;
    })

  -- `impl From<Arg> for Parameter` of src/args.rs
  unfoldable pub to_parameter : Arg Z → Parameter
  to_parameter val = record {
    name = val.name;
    ty = some val.type;
    nullable = val.allow_null;
    variadic = val.variadic;
    default = val.default_value;
  }

  -- `impl From<FunctionBuilder> for Function`
  unfoldable pub describe : FunctionBuilder Z → Function
  unfolding to_parameter
  describe val = record {
    name = val.name;
    docs = val.docs;
    ret = described_retval val.retval val.ret_as_null;
    params = map to_parameter val.args;
  }
