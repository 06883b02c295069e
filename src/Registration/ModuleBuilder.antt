-- ===== src/Registration/ModuleBuilder.antt =====
-- src/builders/module.rs: what an extension declares, the two halves that PHP gets of it, and the
-- start of the extension. A closure that builds a class is the builder that it gives.
use ext_php_rs.Prelude.{ℕ, Bool, Option, none, some, List, [], ◌∷◌, ◌++◌, Bytes, map}
use ext_php_rs.Error.{Error, Result, ok, ok_or, ◌>>=◌}
use ext_php_rs.ZendType.{c_string}
use ext_php_rs.FunctionBuilder.{FunctionBuilder, FunctionEntry, build}
use ext_php_rs.Registration.{
  Effect, constant, observers, Ended, panicked, after, emit, each, expected, end, Method,
}
use ext_php_rs.Registration.ClassBuilder.{ClassBuilder, register, call}
use ext_php_rs.Registration.RegisteredClass.{RegisteredClass, interface_builder, class_builder}
use ext_php_rs.Registration.EnumBuilder.{
  Case, EnumBuilder, new_enum, case, enum_method, enum_registration, enum_docs, register_enum,
}

-- A function of C is its address. A constant is its name, what PHP gets as its value, the text for
-- stubs, and its documentation.
pub record ModuleBuilder (Z : Type 0) : Type 0 where
  pub name : Bytes
  pub version : Bytes
  pub functions : List (FunctionBuilder Z)
  pub constants : List (Bytes × Result Z × Bytes × List Bytes)
  pub classes : List (ClassBuilder Z)
  pub interfaces : List (ClassBuilder Z)
  pub enums : List (Option (EnumBuilder Z))
  pub startup_func : Option ℕ
  pub shutdown_func : Option ℕ
  pub request_startup_func : Option ℕ
  pub request_shutdown_func : Option ℕ
  pub post_deactivate_func : Option ℕ
  pub info_func : Option ℕ
  pub globals_size : ℕ
  pub globals_ptr : Option ℕ
  pub globals_ctor : Option ℕ
  pub globals_dtor : Option ℕ

-- The fields of `struct ModuleEntry` that come from the builder.
pub record ModuleEntry : Type 0 where
  pub name : Bytes
  pub functions : List FunctionEntry
  pub module_startup_func : Option ℕ
  pub module_shutdown_func : Option ℕ
  pub request_startup_func : Option ℕ
  pub request_shutdown_func : Option ℕ
  pub info_func : Option ℕ
  pub version : Bytes
  pub globals_size : ℕ
  pub globals_ptr : Option ℕ
  pub globals_ctor : Option ℕ
  pub globals_dtor : Option ℕ
  pub post_deactivate_func : Option ℕ

pub record ModuleStartup (Z : Type 0) : Type 0 where
  pub constants : List (Bytes × Result Z)
  pub classes : List (ClassBuilder Z)
  pub interfaces : List (ClassBuilder Z)
  pub enums : List (Option (EnumBuilder Z))

-- What `RegisteredEnum` and `RegisteredClass` give for an enum.
pub record RegisteredEnum (Z : Type 0) : Type 0 where
  pub class_name : Bytes
  pub cases : List Case
  pub method_builders : List (Method Z)
  pub set_ce : ℕ
  pub doc_comments : List Bytes

module _ {Z : Type 0} where
  unfoldable pub new_module : Bytes → Bytes → ModuleBuilder Z
  new_module name version = record {
    name = name;
    version = version;
    functions = [];
    constants = [];
    classes = [];
    interfaces = [];
    enums = [];
    startup_func = none;
    shutdown_func = none;
    request_startup_func = none;
    request_shutdown_func = none;
    post_deactivate_func = none;
    info_func = none;
    globals_size = 0;
    globals_ptr = none;
    globals_ctor = none;
    globals_dtor = none;
  }

  unfoldable pub function : FunctionBuilder Z → ModuleBuilder Z → ModuleBuilder Z
  function func b = record b { functions = b.functions ++ func ∷ [] }

  unfoldable pub add_constant :
      Bytes × Result Z × Bytes × List Bytes → ModuleBuilder Z → ModuleBuilder Z
  add_constant c b = record b { constants = b.constants ++ c ∷ [] }

  unfoldable pub add_interface : RegisteredClass Z → ModuleBuilder Z → ModuleBuilder Z
  unfolding interface_builder
  add_interface t b = record b { interfaces = b.interfaces ++ interface_builder t ∷ [] }

  unfoldable pub add_class : RegisteredClass Z → ModuleBuilder Z → ModuleBuilder Z
  unfolding class_builder
  add_class t b = record b { classes = b.classes ++ class_builder t ∷ [] }

  abbrev add_cases : List Case → Option (EnumBuilder Z) → Option (EnumBuilder Z)
  add_cases cs none = none
  add_cases [] (some b) = some b
  add_cases (c ∷ cs) (some b) = add_cases cs (case c b)

  abbrev enum_methods : List (Method Z) → EnumBuilder Z → EnumBuilder Z
  enum_methods [] b = b
  enum_methods ((func, bits) ∷ methods) b = enum_methods methods (enum_method func bits b)

  -- The closure that `enumeration::<T>` pushes; the panic of a case is `none`.
  unfoldable pub enum_builder : RegisteredEnum Z → Option (EnumBuilder Z)
  enum_builder t = elim (add_cases t.cases (some (new_enum t.class_name))) [
    | some b ↦
        some
          (enum_docs t.doc_comments (enum_registration t.set_ce (enum_methods t.method_builders b)))
    | none ↦ none
  ]

  unfoldable pub add_enumeration : RegisteredEnum Z → ModuleBuilder Z → ModuleBuilder Z
  unfolding enum_builder
  add_enumeration t b = record b { enums = b.enums ++ enum_builder t ∷ [] }

  -- The setters of the functions that PHP calls.
  unfoldable pub startup_function : ℕ → ModuleBuilder Z → ModuleBuilder Z
  startup_function f b = record b { startup_func = some f }

  unfoldable pub shutdown_function : ℕ → ModuleBuilder Z → ModuleBuilder Z
  shutdown_function f b = record b { shutdown_func = some f }

  unfoldable pub request_startup_function : ℕ → ModuleBuilder Z → ModuleBuilder Z
  request_startup_function f b = record b { request_startup_func = some f }

  unfoldable pub request_shutdown_function : ℕ → ModuleBuilder Z → ModuleBuilder Z
  request_shutdown_function f b = record b { request_shutdown_func = some f }

  unfoldable pub post_deactivate_function : ℕ → ModuleBuilder Z → ModuleBuilder Z
  post_deactivate_function f b = record b { post_deactivate_func = some f }

  unfoldable pub info_function : ℕ → ModuleBuilder Z → ModuleBuilder Z
  info_function f b = record b { info_func = some f }

  -- The size of the globals, where they are, and the callbacks for their type.
  unfoldable pub globals : ℕ → ℕ → ℕ → ℕ → ModuleBuilder Z → ModuleBuilder Z
  globals size data_ptr ginit gshutdown b = record b {
    globals_size = size;
    globals_ptr = some data_ptr;
    globals_ctor = some ginit;
    globals_dtor = some gshutdown;
  }

  unfoldable pub build_functions : Bool → List (FunctionBuilder Z) → Result (List FunctionEntry)
  build_functions php83 [] = ok []
  build_functions php83 (f ∷ fs) = do
    entry ← build php83 f
    entries ← build_functions php83 fs
    ok (entry ∷ entries)

  -- The second half, for the start of the extension.
  unfoldable pub startup_of : ModuleBuilder Z → ModuleStartup Z
  startup_of b = record {
    constants = map (λ c. (c.0, c.1)) b.constants;
    classes = b.classes;
    interfaces = b.interfaces;
    enums = b.enums;
  }

  -- `impl TryFrom<ModuleBuilder> for (ModuleEntry, ModuleStartup)`, with one thread.
  unfoldable pub into_module : Bool → ModuleBuilder Z → Result (ModuleEntry × ModuleStartup Z)
  unfolding build_functions startup_of
  into_module php83 b = do
    functions ← build_functions php83 b.functions
    name ← ok_or (c_string b.name) Error.invalid_c_string
    version ← ok_or (c_string b.version) Error.invalid_c_string
    ok (
      record {
        name = name;
        functions = functions ++ end ∷ [];
        module_startup_func = b.startup_func;
        module_shutdown_func = b.shutdown_func;
        request_startup_func = b.request_startup_func;
        request_shutdown_func = b.request_shutdown_func;
        info_func = b.info_func;
        version = version;
        globals_size = b.globals_size;
        globals_ptr = b.globals_ptr;
        globals_ctor = b.globals_ctor;
        globals_dtor = b.globals_dtor;
        post_deactivate_func = b.post_deactivate_func;
      },
      startup_of b,
    )

  -- `register_constant_flags` of src/constant.rs: the name is checked before the value.
  unfoldable pub register_constant : Bytes × Result Z → Result (Effect Z)
  register_constant (name, val) = do
    c_name ← ok_or (c_string name) Error.invalid_c_string
    value ← val
    ok (constant c_name value)

  unfoldable pub register_enumeration : Bool → Option (EnumBuilder Z) → List (Effect Z) → Ended Z
  unfolding register_enum
  register_enumeration php83 none w = panicked w
  register_enumeration php83 (some b) w = register_enum php83 b w

  unfoldable pub startup :
      (Bytes → Bool) → Bool → Bool → Z → ModuleStartup Z → List (Effect Z) → Ended Z
  unfolding register_constant register register_enumeration
  startup gives php81 php83 undef m w =
      after (each (λ c. call (register_constant c)) m.constants w) λ w.
        after (each (λ c w. expected (register gives php81 php83 undef c w)) m.interfaces w) λ w.
          after (each (λ c w. expected (register gives php81 php83 undef c w)) m.classes w) λ w.
            after (each (λ e w. expected (register_enumeration php83 e w)) m.enums w)
              λ w. emit observers w
