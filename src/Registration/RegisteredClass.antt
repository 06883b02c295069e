-- ===== src/Registration/RegisteredClass.antt =====
-- The part of src/builders/module.rs that turns what a Rust type implements into the builder of a class
-- or an interface.
use ext_php_rs.Prelude.{ℕ, Bool, true, false, Option, none, some, List, [], ◌∷◌, Bytes, map, codes}
use ext_php_rs.DataType.{DataType}
use ext_php_rs.Error.{Result}
use ext_php_rs.Registration.{Method}
use ext_php_rs.Registration.ClassBuilder.{
  ClassProperty, ClassEntryInfo, ClassBuilder, Overriding, new_class, extends, implements, method,
  add_property, dyn_constant, flags, registration, docs, object_override, interface_flag,
}

-- A constant of a class: its name, what its value gives, the text for stubs, and its documentation.
abbrev pub ConstantDesc : Type 0 → Type 0
ConstantDesc Z = Bytes × Result Z × Bytes × List Bytes

-- `PropertyDescriptor`, as far as it is read here.
pub record PropertyDesc : Type 0 where
  pub name : Bytes
  pub flags : ℕ
  pub docs : List Bytes
  pub ty : DataType
  pub nullable : Bool
  pub readonly : Bool

-- A static property: its name, flags, default with the text for stubs, and documentation.
abbrev pub StaticDesc : Type 0 → Type 0
StaticDesc Z = Bytes × ℕ × Option (Result Z × Bytes) × List Bytes

-- What the implementation of `RegisteredClass` for a type gives; `set_ce` is the closure for its
-- metadata, by its address.
pub record RegisteredClass (Z : Type 0) : Type 0 where
  pub class_name : Bytes
  pub overriding : Overriding Z
  pub extends : Option ClassEntryInfo
  pub implements : List ClassEntryInfo
  pub builder_modifier : Option (ClassBuilder Z → ClassBuilder Z)
  pub method_builders : List (Method Z)
  pub interface_methods : List (Method Z)
  pub interface_implementations : List ClassEntryInfo
  pub constants : List (ConstantDesc Z)
  pub properties : List PropertyDesc
  pub static_properties : List (StaticDesc Z)
  pub set_ce : ℕ
  pub doc_comments : List Bytes

abbrev pub null_stub : Bool → Option Bytes
null_stub true = some (codes "null")
null_stub false = none

abbrev pub default_of : {Z : Type 0} → Option (Result Z × Bytes) → Option (Result Z)
default_of none = none
default_of (some (value, stub)) = some value

abbrev pub stub_of : {Z : Type 0} → Option (Result Z × Bytes) → Option Bytes
stub_of none = none
stub_of (some (value, stub)) = some stub

module _ {Z : Type 0} where
  unfoldable pub with_methods : List (Method Z) → ClassBuilder Z → ClassBuilder Z
  unfolding method
  with_methods [] b = b
  with_methods ((func, bits) ∷ methods) b = with_methods methods (method func bits b)

  unfoldable pub with_interfaces : List ClassEntryInfo → ClassBuilder Z → ClassBuilder Z
  unfolding implements
  with_interfaces [] b = b
  with_interfaces (i ∷ is) b = with_interfaces is (implements i b)

  unfoldable pub with_constants : List (ConstantDesc Z) → ClassBuilder Z → ClassBuilder Z
  unfolding dyn_constant
  with_constants [] b = b
  with_constants ((name, value, stub, lines) ∷ cs) b =
      with_constants cs (dyn_constant name value stub lines b)

  unfoldable pub of_property : PropertyDesc → ClassProperty Z
  of_property desc = record {
    name = desc.name;
    flags = desc.flags;
    default = none;
    docs = desc.docs;
    ty = some desc.ty;
    nullable = desc.nullable;
    readonly = desc.readonly;
    default_stub = null_stub desc.nullable;
  }

  unfoldable pub of_static : StaticDesc Z → ClassProperty Z
  of_static (name, bits, default, lines) = record {
    name = name;
    flags = bits;
    default = default_of default;
    docs = lines;
    ty = none;
    nullable = false;
    readonly = false;
    default_stub = stub_of default;
  }

  unfoldable pub with_properties : List (ClassProperty Z) → ClassBuilder Z → ClassBuilder Z
  unfolding add_property
  with_properties [] b = b
  with_properties (p ∷ ps) b = with_properties ps (add_property p b)

  abbrev pub with_parent : Option ClassEntryInfo → ClassBuilder Z → ClassBuilder Z
  with_parent none b = b
  with_parent (some parent) b = extends parent b

  abbrev pub modified : Option (ClassBuilder Z → ClassBuilder Z) → ClassBuilder Z → ClassBuilder Z
  modified none b = b
  modified (some modifier) b = modifier b

  -- The closure that `interface::<T>` pushes.
  unfoldable pub interface_builder : RegisteredClass Z → ClassBuilder Z
  unfolding with_methods with_interfaces with_constants new_class flags registration docs
  interface_builder t =
      let b = with_methods t.method_builders (new_class t.class_name) in
      let b = with_constants t.constants (with_interfaces t.implements b) in
      let b = flags interface_flag (modified t.builder_modifier b) in
      docs t.doc_comments (registration t.set_ce b)

  -- The closure that `class::<T>` pushes.
  unfoldable pub class_builder : RegisteredClass Z → ClassBuilder Z
  unfolding with_methods with_interfaces with_constants with_properties of_property of_static
      new_class flags registration docs object_override
  class_builder t =
      let b = with_methods t.method_builders (new_class t.class_name) in
      let b = with_parent t.extends (with_methods t.interface_methods b) in
      let b = with_interfaces t.interface_implementations (with_interfaces t.implements b) in
      let b = with_constants t.constants b in
      let b = with_properties (map of_property t.properties) b in
      let b = with_properties (map of_static t.static_properties) b in
      let b = flags t.overriding.flags (modified t.builder_modifier b) in
      docs t.doc_comments (registration t.set_ce (object_override t.overriding b))
