-- ===== src/Tests/Registrations.antt =====
-- The theorems on the registrations of src/builders at concrete inputs.
use ext_php_rs.Prelude.{
  All, ℕ, Bool, true, false, none, some, List, [], ◌∷◌, Bytes, codes, text_eq, not, ◌≡◌, refl,
}
use ext_php_rs.Prelude.Int.{pos}
use ext_php_rs.DataType.{DataType, as_u32}
use ext_php_rs.Stub.Module.{Module}
use ext_php_rs.Registration.Describe.{
  describe_module, describe_enums, describe_enum, describe_class,
}
use ext_php_rs.Registration.Described.{listed, startup-describe_module}
use ext_php_rs.Error.{Error, ok, err}
use ext_php_rs.Registration.{
  panicked, metadata, php_class, Effect, each, int, end, build_methods, class, implement, property,
  registered, enumeration, enum_case, observers,
}
use ext_php_rs.Registration.ClassBuilder.{
  extends, ClassBuilder, ClassProperty, new_class, implements, add_property, registration, register,
  register_built, register_entry, deny, register_interface, property_call, to_i32, default_zval,
  constant_call, override, call_register, stored, has_entry,
}
use ext_php_rs.Registration.EnumBuilder.{
  Case, EnumBuilder, new_enum, case, data_type, register_enum, enum_built, enum_call,
}
use ext_php_rs.Registration.ModuleBuilder.{
  ModuleBuilder, ModuleStartup, startup, startup_of, new_module, register_constant,
  register_enumeration,
}
use ext_php_rs.Registration.Startup.{names}
use ext_php_rs.ZendType.{c_string}
use ext_php_rs.Registration.Order.{Ordered, calls}
use ext_php_rs.Registration.Ordered.{startup-Ordered}
use ext_php_rs.Registration.Cases.{OfType, add_all, add_all-Alike}

-- A class with an interface and a property of value 5; PHP refuses no name but `Taken`.
abbrev gives : Bytes → Bool
gives name = not (text_eq name (codes "Taken"))

abbrev size : ClassProperty ℕ
size = record {
  name = codes "size";
  flags = 1;
  default = some (ok 5);
  docs = [];
  ty = none;
  nullable = false;
  readonly = false;
  default_stub = none;
}

abbrev box : ClassBuilder ℕ
box =
    registration 70
      (add_property size (implements (php_class 9, true, []) (new_class (codes "Box"))))

-- A constant whose value cannot be made stops the start.
abbrev module_startup : ModuleStartup ℕ
module_startup = record {
  constants = (codes "A", ok 1) ∷ (codes "B", err Error.invalid_c_string) ∷ [];
  classes = box ∷ [];
  interfaces = [];
  enums = [];
}

abbrev suit : List Case
suit =
    record { name = codes "Hearts"; discriminant = some (int (pos 1)); docs = [] }
    ∷ record { name = codes "Spades"; discriminant = some (int (pos 2)); docs = [] }
    ∷ []

abbrev suit_enum : EnumBuilder ℕ
suit_enum = record {
  name = codes "Suit";
  methods = [];
  cases = suit;
  datatype = DataType.long;
  register = none;
  docs = [];
}

add_all-Alike_example : All (OfType suit_enum.datatype) suit_enum.cases
unfolding add_all case data_type new_enum
add_all-Alike_example = add_all-Alike (codes "Suit") suit suit_enum refl

-- An extension with that class and that enum, described and started.
abbrev builder : ModuleBuilder ℕ
builder = record (new_module (codes "ext") (codes "1")) {
  classes = box ∷ [];
  enums = some (record suit_enum { register = some 71 }) ∷ [];
}

abbrev told : List (Effect ℕ)
told =
    class (codes "Box") 0 (end ∷ []) none
    ∷ implement (php_class 9)
    ∷ property (codes "size") 1 5
    ∷ registered 70
    ∷ enumeration (codes "Suit") 4 (end ∷ [])
    ∷ enum_case (codes "Hearts") (some (int (pos 1)))
    ∷ enum_case (codes "Spades") (some (int (pos 2)))
    ∷ registered 71
    ∷ observers
    ∷ []

abbrev description : Module
description = record {
  name = codes "ext";
  functions = [];
  classes = describe_class box ∷ [];
  enums = describe_enum suit_enum ∷ [];
  constants = [];
}

startup-describe_module_example : names told ≡ listed description
unfolding describe_module describe_enums describe_enum describe_class startup startup_of each
    register_constant register register_built register_entry build_methods deny register_interface
    property_call to_i32 default_zval constant_call override call_register stored has_entry
    register_enumeration register_enum enum_built enum_call as_u32 c_string new_module new_class
    implements add_property registration end
startup-describe_module_example =
    startup-describe_module gives true true 0 builder description told refl refl

-- A class below another, which stands in front of it, and an extension with the two.
abbrev lid : ClassBuilder ℕ
lid = registration 72 (extends (metadata 70, false, []) (new_class (codes "Lid")))

abbrev two_classes : ModuleStartup ℕ
two_classes = record module_startup { constants = []; classes = box ∷ lid ∷ [] }

startup-Ordered_example : Ordered (calls (startup gives true true 0 two_classes []))
startup-Ordered_example = startup-Ordered gives true true 0 two_classes

-- In the other order the start panics.
child_first :
    startup gives true true 0 (record two_classes { classes = lid ∷ box ∷ [] }) [] ≡ panicked []
unfolding startup each register register_built register_entry build_methods new_class registration
    extends stored has_entry
child_first = refl
