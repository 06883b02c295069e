-- ===== src/Registration/Describe.antt =====
-- src/describe/mod.rs: the description of an extension, from which its stubs are printed, made from the
-- builders that also register it.
use Prim.Native.Nat.{bit_and}
use ext_php_rs.Prelude.{
  ℕ, Bool, true, false, Option, none, some, List, [], ◌∷◌, ◌++◌, Bytes, map, codes, ◌==◌,
  if◌then◌else◌,
}
use ext_php_rs.Text.Decimal.{to_string}
use ext_php_rs.Text.Str.{◌>>=◌}
use ext_php_rs.Error.{Result}
use ext_php_rs.DataType.{DataType}
use ext_php_rs.FunctionBuilder.{described_retval, to_parameter, describe}
use ext_php_rs.Stub.Members.{
  Visibility, private, protected, public, Property, MethodType, member, static, constructor,
  Constant, EnumCase,
}
use ext_php_rs.Stub.Members
use ext_php_rs.Stub.Module.{Class, Enum, Module}
use ext_php_rs.Registration.{Discriminant, int, string, Method}
use ext_php_rs.Registration.ClassBuilder.{
  ClassProperty, ClassEntryInfo, ClassBuilder, ConstantEntry,
}
use ext_php_rs.Registration.EnumBuilder.{Case, EnumBuilder}
use ext_php_rs.Registration.ModuleBuilder.{ModuleBuilder}

-- `contains` for one flag, which is a power of two.
abbrev pub contains : ℕ → ℕ → Bool
contains flags flag = bit_and flags flag == flag

abbrev pub protected_flag : ℕ
protected_flag = 2

abbrev pub private_flag : ℕ
private_flag = 4

abbrev static_flag : ℕ
static_flag = 16

abbrev abstract_flag : ℕ
abstract_flag = 64

abbrev constructor_flag : ℕ
constructor_flag = 2097152

-- The two conversions, of the flags of a property and of a method, are the same.
unfoldable pub visibility : ℕ → Visibility
visibility flags =
    if contains flags protected_flag
    then protected
    else if contains flags private_flag
    then private
    else public

unfoldable pub method_type : ℕ → MethodType
method_type flags =
    if contains flags constructor_flag
    then constructor
    else if contains flags static_flag
    then static
    else member

abbrev pub backing_type : DataType → Option Bytes
backing_type DataType.long = some (codes "int")
backing_type DataType.string = some (codes "string")
backing_type _ = none

-- The text of a discriminant: a string stands between quotes as it is.
unfoldable pub discriminant_text : Option Discriminant → Option Bytes
discriminant_text none = none
discriminant_text (some (int i)) = some (to_string i)
discriminant_text (some (string s)) = some (39 ∷ s ++ 39 ∷ [])

unfoldable pub describe_case : Case → EnumCase
unfolding discriminant_text
describe_case c = record { name = c.name; docs = c.docs; value = discriminant_text c.discriminant }

abbrev pub stub_name : ClassEntryInfo → Bytes
stub_name (address, is_interface, stub) = stub

abbrev pub parent_name : Option ClassEntryInfo → Option Bytes
parent_name none = none
parent_name (some parent) = some (stub_name parent)

module _ {Z : Type 0} where
  unfoldable pub describe_property : ClassProperty Z → Property
  unfolding visibility
  describe_property val = record {
    name = val.name;
    docs = val.docs;
    ty = val.ty;
    vis = visibility val.flags;
    static_ = contains val.flags static_flag;
    nullable = val.nullable;
    readonly = val.readonly;
    default = val.default_stub;
  }

  -- The field `static` is not printed, and not part of the model.
  unfoldable pub describe_method : Method Z → Members.Method
  unfolding visibility method_type to_parameter
  describe_method (builder, flags) = record {
    name = builder.name;
    docs = builder.docs;
    ty = method_type flags;
    params = map to_parameter builder.args;
    retval = described_retval builder.retval builder.ret_as_null;
    visibility = visibility flags;
    is_abstract = contains flags abstract_flag;
  }

  abbrev pub describe_constant : ConstantEntry Z → Constant
  describe_constant (name, value, lines, stub) = record {
    name = name;
    docs = lines;
    value = some stub;
  }

  unfoldable pub describe_class : ClassBuilder Z → Class
  unfolding describe_property describe_method
  describe_class val = record {
    name = val.name;
    docs = val.docs;
    extends = parent_name val.extends;
    implements = map stub_name val.interfaces;
    properties = map describe_property val.properties;
    methods = map describe_method val.methods;
    constants = map describe_constant val.constants;
    flags = val.ce_flags;
  }

  unfoldable pub describe_enum : EnumBuilder Z → Enum
  unfolding describe_case
  describe_enum val = record {
    name = val.name;
    docs = val.docs;
    cases = map describe_case val.cases;
    backing_type = backing_type val.datatype;
  }

  abbrev pub describe_global : Bytes × Result Z × Bytes × List Bytes → Constant
  describe_global (name, value, stub, lines) = record {
    name = name;
    docs = lines;
    value = some stub;
  }

  -- The panic of a case of an enum is `none`.
  unfoldable pub describe_enums : List (Option (EnumBuilder Z)) → Option (List Enum)
  unfolding describe_enum
  describe_enums [] = some []
  describe_enums (none ∷ es) = none
  describe_enums (some e ∷ es) = do rest ← describe_enums es; some (describe_enum e ∷ rest)

-- `Class::closure`
unfoldable pub closure_class : Class
closure_class = record {
  name = codes "RustClosure";
  docs = [];
  extends = none;
  implements = [];
  properties = [];
  methods =
      record {
        name = codes "__invoke";
        docs = [];
        ty = member;
        params =
            record {
              name = codes "args";
              ty = some DataType.mixed;
              nullable = false;
              variadic = true;
              default = none;
            }
            ∷ [];
        retval = some (record { ty = DataType.mixed; nullable = false });
        visibility = public;
        is_abstract = false;
      }
      ∷ [];
  constants = [];
  flags = 0;
}

module _ {Z : Type 0} where
  -- `impl From<ModuleBuilder> for Module`, with the feature `closure` or without it.
  unfoldable pub describe_module : Bool → ModuleBuilder Z → Option Module
  unfolding describe_class describe_enums closure_class
  describe_module closure builder = do
    enums ← describe_enums builder.enums
    some (record {
      name = builder.name;
      functions = map describe builder.functions;
      classes =
          map describe_class (builder.interfaces ++ builder.classes)
          ++ (if closure then closure_class ∷ [] else []);
      enums = enums;
      constants = map describe_global builder.constants;
    })
