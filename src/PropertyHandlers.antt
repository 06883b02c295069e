-- ===== src/PropertyHandlers.antt =====
-- src/zend/handlers.rs: what PHP calls to read, write and test a property of an object with a value of
-- Rust behind it, and the descriptors of src/class.rs. Values of Rust are of a type `T`, zvals of a type
-- `Z`; class entries and metadata are known by their addresses.
pub mod Cache
pub mod Access
use Prim.Native.Nat.{bit_and}
use ext_php_rs.Prelude.{
  ℕ, zero, suc, Bool, true, false, not, ◌||◌, ◌&&◌, Option, none, some, List, [], ◌∷◌, Bytes, ◌==◌,
  text_eq, if◌then◌else◌,
}
use ext_php_rs.Text.Utf8.{is_utf8}
use ext_php_rs.Registration.Describe.{contains, protected_flag, private_flag}

-- What ends a handler with an exception: an error of its own, or one that a getter or a setter gives.
pub data Fault : Type 0 where
  invalid_name_pointer invalid_utf8 no_getter no_setter invalid_has_set_exists : Fault
  thrown : ℕ → Fault

pub data PhpResult (A : Type 0) : Type 0 where
  ok : A → PhpResult A
  err : Fault → PhpResult A

infixl 5 ◌>>=◌
abbrev pub ◌>>=◌ : {A B : Type 0} → PhpResult A → (A → PhpResult B) → PhpResult B
ok a >>= f = f a
err e >>= f = err e

-- `struct PropertyDescriptor`, as far as the handlers read it. A setter may change the value and fail.
pub record PropertyDescriptor (T Z : Type 0) : Type 0 where
  pub name : Bytes
  pub get : Option (T → PhpResult Z)
  pub set : Option (T → Z → T × Option Fault)
  pub flags : ℕ

-- `struct ClassMetadata`: its address and its properties.
pub record ClassMetadata (T Z : Type 0) : Type 0 where
  pub address : ℕ
  pub field_properties : List (PropertyDescriptor T Z)
  pub method_properties : List (PropertyDescriptor T Z)

-- The two words of a cache slot: the descriptor and the metadata that it belongs to.
pub record Cached (T Z : Type 0) : Type 0 where
  pub descriptor : PropertyDescriptor T Z
  pub guard : ℕ

-- A pointer that may be null, to a slot that may be empty.
abbrev pub Slot : Type 0 → Type 0 → Type 0
Slot T Z = Option (Option (Cached T Z))

-- The name of a property as PHP passes it.
abbrev pub as_str : Option Bytes → PhpResult Bytes
as_str none = err invalid_name_pointer
as_str (some bytes) = if is_utf8 bytes then ok bytes else err invalid_utf8

module _ {T Z : Type 0} where
  unfoldable pub find_named :
      Bytes → List (PropertyDescriptor T Z) → Option (PropertyDescriptor T Z)
  find_named name [] = none
  find_named name (p ∷ ps) =
      let rest = find_named name ps in if text_eq p.name name then some p else rest

  unfoldable pub find_property : ClassMetadata T Z → Bytes → Option (PropertyDescriptor T Z)
  unfolding find_named
  find_property meta name = elim (find_named name meta.field_properties) [
    | some p ↦ some p
    | none ↦ find_named name meta.method_properties
  ]

  -- The descriptor in a slot, if the slot was filled for this class.
  abbrev pub hit : ℕ → Slot T Z → Option (PropertyDescriptor T Z)
  hit address (some (some c)) = if c.guard == address then some c.descriptor else none
  hit address _ = none

  abbrev pub fill : ℕ → PropertyDescriptor T Z → Slot T Z → Slot T Z
  fill address d none = none
  fill address d (some c) = some (some (record { descriptor = d; guard = address }))

  -- The full lookup, which fills the slot if it finds a descriptor.
  unfoldable pub looked_up :
      ClassMetadata T Z
      → Slot T Z
      → Option (PropertyDescriptor T Z)
      → Option (PropertyDescriptor T Z) × Slot T Z
  looked_up meta slot none = (none, slot)
  looked_up meta slot (some d) = (some d, fill meta.address d slot)

  unfoldable pub resolve_property :
      ClassMetadata T Z
      → Option Bytes
      → Slot T Z
      → PhpResult (Option (PropertyDescriptor T Z) × Slot T Z)
  unfolding find_property looked_up
  resolve_property meta member slot = elim (hit meta.address slot) [
    | some d ↦ ok (some d, slot)
    | none ↦ do name ← as_str member; ok (looked_up meta slot (find_property meta name))
  ]

-- What a handler does: with a value of Rust, as PHP does with a standard object, with an error for a
-- property that is not visible, or with an exception.
pub data Done (A : Type 0) : Type 0 where
  done : A → Done A
  standard : Done A
  denied : Bool → Bytes → Done A
  failed : Fault → Done A

abbrev pub from_result : {A : Type 0} → PhpResult A → Done A
from_result (ok a) = done a
from_result (err e) = failed e

-- `isset`, `empty` and `property_exists`; `done tt` is the answer 1.
abbrev pub answer : Bool → Done Unit
answer true = done tt
answer false = standard

-- `is_a` is `instanceof_function_slow`; a calling scope may be null.
module _ (is_a : ℕ → ℕ → Bool) where
  abbrev pub in_family : Option ℕ → ℕ → Bool
  in_family none object_ce = false
  in_family (some scope) object_ce =
      scope == object_ce || (is_a scope object_ce || is_a object_ce scope)

  abbrev pub same_class : Option ℕ → ℕ → Bool
  same_class none object_ce = false
  same_class (some scope) object_ce = scope == object_ce

  unfoldable pub check_property_access : ℕ → Option ℕ → ℕ → Bool
  check_property_access flags scope object_ce =
      if not (contains flags private_flag) && not (contains flags protected_flag)
      then true
      else if contains flags private_flag
      then same_class scope object_ce
      else in_family scope object_ce

  -- The error of a property that is not visible wants its name.
  abbrev pub deny_access : {A : Type 0} → ℕ → Option Bytes → Done A
  deny_access flags member = elim (as_str member) [
    | ok name ↦ denied (contains flags private_flag) name
    | err e ↦ failed e
  ]

  module _ {T Z : Type 0} where
    abbrev pub with_getter : {A : Type 0} → Option (T → PhpResult Z) → T → (Z → Done A) → Done A
    with_getter none self f = failed no_getter
    with_getter (some getter) self f = elim (getter self) [ ok z ↦ f z | err e ↦ failed e ]

    unfoldable pub read_with :
        Option ℕ → ℕ → Option Bytes → T → Option (PropertyDescriptor T Z) → Done Z
    unfolding check_property_access
    read_with scope object_ce member self none = standard
    read_with scope object_ce member self (some prop) =
        let value = with_getter prop.get self done in
        if check_property_access prop.flags scope object_ce
        then value
        else deny_access prop.flags member

    -- `self` is the value of Rust, if there is one.
    unfoldable pub read_property :
        ClassMetadata T Z → Option ℕ → ℕ → Option T → Option Bytes → Slot T Z → Done Z × Slot T Z
    unfolding resolve_property read_with
    read_property meta scope object_ce none member slot = (standard, slot)
    read_property meta scope object_ce (some self) member slot =
        elim (resolve_property meta member slot) [
          | ok (prop, slot') ↦ (read_with scope object_ce member self prop, slot')
          | err e ↦ (failed e, slot)
        ]

    -- The value of Rust that a setter leaves, and the exception that it throws.
    abbrev pub with_setter : Option (T → Z → T × Option Fault) → T → Z → Done (T × Option Fault)
    with_setter none self value = failed no_setter
    with_setter (some setter) self value = done (setter self value)

    unfoldable pub write_with :
        Option ℕ
        → ℕ
        → Option Bytes
        → T
        → Z
        → Option (PropertyDescriptor T Z)
        → Done (T × Option Fault)
    unfolding check_property_access
    write_with scope object_ce member self value none = standard
    write_with scope object_ce member self value (some prop) =
        let written = with_setter prop.set self value in
        if check_property_access prop.flags scope object_ce
        then written
        else deny_access prop.flags member

    unfoldable pub write_property :
        ClassMetadata T Z
        → Option ℕ
        → ℕ
        → Option T
        → Option Bytes
        → Z
        → Slot T Z
        → Done (T × Option Fault) × Slot T Z
    unfolding resolve_property write_with
    write_property meta scope object_ce none member value slot = (standard, slot)
    write_property meta scope object_ce (some self) member value slot =
        elim (resolve_property meta member slot) [
          | ok (prop, slot') ↦ (write_with scope object_ce member self value prop, slot')
          | err e ↦ (failed e, slot)
        ]

    unfoldable pub has_with :
        (Z → Bool) → (Z → Bool) → ℕ → T → Option (PropertyDescriptor T Z) → Done Unit
    has_with is_null is_true zero self none = standard
    has_with is_null is_true zero self (some prop) =
        with_getter prop.get self (λ zv. answer (not (is_null zv)))
    has_with is_null is_true (suc zero) self none = standard
    has_with is_null is_true (suc zero) self (some prop) =
        with_getter prop.get self (λ zv. answer (is_true zv))
    has_with is_null is_true (suc (suc zero)) self none = standard
    has_with is_null is_true (suc (suc zero)) self (some prop) = done tt
    has_with is_null is_true (suc (suc (suc mode))) self prop = failed invalid_has_set_exists

    unfoldable pub has_property :
        (Z → Bool)
        → (Z → Bool)
        → ClassMetadata T Z
        → ℕ
        → Option T
        → Option Bytes
        → Slot T Z
        → Done Unit × Slot T Z
    unfolding resolve_property has_with
    has_property is_null is_true meta mode none member slot = (standard, slot)
    has_property is_null is_true meta mode (some self) member slot =
        elim (resolve_property meta member slot) [
          | ok (prop, slot') ↦ (has_with is_null is_true mode self prop, slot')
          | err e ↦ (failed e, slot)
        ]
