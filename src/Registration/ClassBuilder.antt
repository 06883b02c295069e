-- ===== src/Registration/ClassBuilder.antt =====
-- src/builders/class.rs: the builder of a class or an interface, and its registration.
use Prim.Native.Nat.{bit_and}
use ext_php_rs.Prelude.{
  ℕ, ◌^◌, Bool, true, false, not, ◌&&◌, ◌||◌, Option, none, some, List, [], ◌∷◌, ◌++◌, Bytes, codes,
  ◌==◌, ltb, if◌then◌else◌,
}
use ext_php_rs.DataType.{DataType}
use ext_php_rs.Error.{Error, Result, ok, err, ok_or, ◌>>=◌}
use ext_php_rs.ZendType.{c_string}
use ext_php_rs.FunctionBuilder.{FunctionBuilder, FunctionEntry, new, new_abstract}
use ext_php_rs.Registration.{
  Closure, php_class, metadata, Effect, interface, class, add_flags, deny_serialization, implement,
  property, class_constant, create_object, registered, Ended, done, failed, panicked, after, emit,
  each, end, Method, build_methods,
}

-- `struct ClassProperty`; the default is what the closure gives.
pub record ClassProperty (Z : Type 0) : Type 0 where
  pub name : Bytes
  pub flags : ℕ
  pub default : Option (Result Z)
  pub docs : List Bytes
  pub ty : Option DataType
  pub nullable : Bool
  pub readonly : Bool
  pub default_stub : Option Bytes

-- A constant: its name, what its closure gives, its documentation and its text for stubs.
abbrev pub ConstantEntry : Type 0 → Type 0
ConstantEntry Z = Bytes × Result Z × List Bytes × Bytes

-- A class entry as the function that gives it, whether it is an interface, and the text for stubs.
abbrev pub ClassEntryInfo : Type 0
ClassEntryInfo = Closure × Bool × Bytes

pub record ClassBuilder (Z : Type 0) : Type 0 where
  pub name : Bytes
  pub ce_flags : ℕ
  pub extends : Option ClassEntryInfo
  pub interfaces : List ClassEntryInfo
  pub methods : List (Method Z)
  pub object_override : Option ℕ
  pub properties : List (ClassProperty Z)
  pub constants : List (ConstantEntry Z)
  pub register : Option ℕ
  pub docs : List Bytes

-- `ClassFlags::Interface` and `ClassFlags::NotSerializable`
abbrev pub interface_flag : ℕ
interface_flag = 1

abbrev pub not_serializable_flag : ℕ
not_serializable_flag = 536870912

abbrev pub is_interface_flags : ℕ → Bool
is_interface_flags flags = bit_and flags interface_flag == interface_flag

-- `u32` to `i32`
unfoldable pub to_i32 : ℕ → Result ℕ
to_i32 n = if ltb n (2 ^ 31) then ok n else err Error.integer_overflow

abbrev pub parent_of : Option ClassEntryInfo → Option Closure
parent_of none = none
parent_of (some (closure, is_interface, stub)) = some closure

module _ {Z : Type 0} where
  unfoldable pub new_class : Bytes → ClassBuilder Z
  new_class name = record {
    name = name;
    ce_flags = 0;
    extends = none;
    interfaces = [];
    methods = [];
    object_override = none;
    properties = [];
    constants = [];
    register = none;
    docs = [];
  }

  unfoldable pub extends : ClassEntryInfo → ClassBuilder Z → ClassBuilder Z
  extends parent b = record b { extends = some parent }

  unfoldable pub implements : ClassEntryInfo → ClassBuilder Z → ClassBuilder Z
  implements i b = record b { interfaces = b.interfaces ++ i ∷ [] }

  unfoldable pub method : FunctionBuilder Z → ℕ → ClassBuilder Z → ClassBuilder Z
  method func flags b = record b { methods = b.methods ++ (func, flags) ∷ [] }

  unfoldable pub add_property : ClassProperty Z → ClassBuilder Z → ClassBuilder Z
  add_property prop b = record b { properties = b.properties ++ prop ∷ [] }

  -- `dyn_constant`, which never fails; `value` is what `as_zval` will give.
  unfoldable pub dyn_constant :
      Bytes → Result Z → Bytes → List Bytes → ClassBuilder Z → ClassBuilder Z
  dyn_constant name value stub docs b = record b {
    constants = b.constants ++ (name, value, docs, stub) ∷ [];
  }

  unfoldable pub flags : ℕ → ClassBuilder Z → ClassBuilder Z
  flags bits b = record b { ce_flags = bits }

  unfoldable pub registration : ℕ → ClassBuilder Z → ClassBuilder Z
  registration f b = record b { register = some f }

  unfoldable pub docs : List Bytes → ClassBuilder Z → ClassBuilder Z
  docs lines b = record b { docs = lines }

  -- The body of a loop: a call of PHP once its arguments are computed.
  abbrev pub call : Result (Effect Z) → List (Effect Z) → Ended Z
  call (ok e) w = emit e w
  call (err e) w = failed e w

  -- The metadata holds an entry.
  unfoldable pub stored : ℕ → List (Effect Z) → Bool
  stored f [] = false
  stored f (registered g ∷ w) = f == g || stored f w
  stored f (e ∷ w) = stored f w

  -- `ce` panics if no entry was stored.
  unfoldable pub has_entry : Closure → List (Effect Z) → Bool
  unfolding stored
  has_entry (php_class address) w = true
  has_entry (metadata f) w = stored f w

  -- The function is called, and the assertion on an interface.
  unfoldable pub register_interface : ClassEntryInfo → List (Effect Z) → Ended Z
  unfolding has_entry
  register_interface (closure, is_interface, stub) w =
      if has_entry closure w && is_interface then emit (implement closure) w else panicked w

  -- `Zval::new` without a default.
  unfoldable pub default_zval : Z → Option (Result Z) → Result Z
  default_zval undef none = ok undef
  default_zval undef (some f) = f

  unfoldable pub property_call : Z → ClassProperty Z → Result (Effect Z)
  unfolding to_i32 default_zval
  property_call undef prop = do
    value ← default_zval undef prop.default
    name ← ok_or (c_string prop.name) Error.invalid_c_string
    bits ← to_i32 prop.flags
    ok (property name bits value)

  unfoldable pub constant_call : ConstantEntry Z → Result (Effect Z)
  constant_call (name, value, docs, stub) = do
    zval ← value
    c_name ← ok_or (c_string name) Error.invalid_c_string
    ok (class_constant c_name zval)

  abbrev pub class_call : ClassBuilder Z → List FunctionEntry → Effect Z
  class_call b entries =
      if is_interface_flags b.ce_flags
      then interface b.name b.ce_flags entries
      else class b.name b.ce_flags entries (parent_of b.extends)

  -- The parent's function is called for a class, and may panic.
  abbrev pub parent_ready : Option Closure → List (Effect Z) → Bool
  parent_ready none w = true
  parent_ready (some closure) w = has_entry closure w

  -- PHP gives an entry or none, by the name.
  unfoldable pub register_entry :
      (Bytes → Bool) → ClassBuilder Z → List FunctionEntry → List (Effect Z) → Ended Z
  unfolding has_entry
  register_entry gives b entries w =
      if not (is_interface_flags b.ce_flags || parent_ready (parent_of b.extends) w)
      then panicked w
      else if gives b.name
      then emit (class_call b entries) w
      else failed Error.invalid_pointer (w ++ class_call b entries ∷ [])

  unfoldable pub deny : Bool → Option ℕ → List (Effect Z) → Ended Z
  deny php81 none w = done w
  deny php81 (some f) w =
      if php81 then emit (add_flags not_serializable_flag) w else emit deny_serialization w

  unfoldable pub override : Option ℕ → List (Effect Z) → Ended Z
  override none w = done w
  override (some f) w = emit (create_object f) w

  -- `set_ce` panics if an entry was stored.
  unfoldable pub call_register : Option ℕ → List (Effect Z) → Ended Z
  unfolding stored
  call_register none w = panicked w
  call_register (some f) w = if stored f w then panicked w else emit (registered f) w

  -- Everything behind the methods. `undef` is `Zval::new`.
  unfoldable pub register_built :
      (Bytes → Bool) → Bool → Z → ClassBuilder Z → List FunctionEntry → List (Effect Z) → Ended Z
  unfolding register_entry deny register_interface property_call constant_call override
      call_register
  register_built gives php81 undef b entries w = after (register_entry gives b entries w) λ w.
      after (deny php81 b.object_override w) λ w.
        after (each register_interface b.interfaces w) λ w.
          after (each (λ p. call (property_call undef p)) b.properties w) λ w.
            after (each (λ c. call (constant_call c)) b.constants w)
              λ w. after (override b.object_override w) λ w. call_register b.register w

  unfoldable pub register :
      (Bytes → Bool) → Bool → Bool → Z → ClassBuilder Z → List (Effect Z) → Ended Z
  unfolding register_built
  register gives php81 php83 undef b w = elim (build_methods php83 b.methods) [
    | ok entries ↦ register_built gives php81 undef b (entries ++ end ∷ []) w
    | err e ↦ failed e w
  ]

-- What `object_override` reads of `RegisteredClass`: the constructor's function to build and its flags,
-- the type's flags, and the addresses of `create_object::<T>` and `constructor::<T>`.
pub record ConstructorMeta (Z : Type 0) : Type 0 where
  pub build_fn : FunctionBuilder Z → FunctionBuilder Z
  pub flags : Option ℕ

pub record Overriding (Z : Type 0) : Type 0 where
  pub constructor : Option (ConstructorMeta Z)
  pub flags : ℕ
  pub create_object : ℕ
  pub handler : ℕ

-- `MethodFlags::Public`
abbrev pub public_flag : ℕ
public_flag = 1

abbrev pub visibility_or_public : Option ℕ → ℕ
visibility_or_public none = public_flag
visibility_or_public (some flags) = flags

abbrev pub construct : Bytes
construct = codes "__construct"

module _ {Z : Type 0} where
  unfoldable pub with_constructor : Overriding Z → ClassBuilder Z → ClassBuilder Z
  unfolding method
  with_constructor t b = elim t.constructor [
    | some meta ↦
        let func =
          if is_interface_flags t.flags then new_abstract construct else new construct t.handler in
        method (meta.build_fn func) (visibility_or_public meta.flags) b
    | none ↦
        if is_interface_flags t.flags then b else method (new construct t.handler) public_flag b
  ]

  -- The assertion on the name is one of debug builds.
  unfoldable pub object_override : Overriding Z → ClassBuilder Z → ClassBuilder Z
  unfolding with_constructor
  object_override t b = with_constructor t (record b { object_override = some t.create_object })
