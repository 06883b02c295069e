-- ===== src/PropertyHandlers/Access.antt =====
-- What the handlers of src/zend/handlers.rs do with a property of Rust.
use ext_php_rs.Prelude.{
  ℕ, ◌/◌, ◌%◌, Bool, true, false, ◌||◌, ◌==◌, Option, none, some, Bytes, if◌then◌else◌,
}
use ext_php_rs.PropertyHandlers.{
  Fault, no_getter, no_setter, PhpResult, ok, err, PropertyDescriptor, ClassMetadata, Done, done,
  standard, denied, failed,
}
use ext_php_rs.PropertyHandlers.Cache.{Placed}

-- Bit 2 of the flags makes a property private, and without that bit 1 makes it protected.
pub data Visibility : Type 0 where
  public protected private : Visibility

abbrev pub visibility : ℕ → Visibility
visibility flags =
    if (flags / 4) % 2 == 1 then private else if (flags / 2) % 2 == 1 then protected else public

abbrev pub is_private : Visibility → Bool
is_private private = true
is_private protected = false
is_private public = false

module _ (is_a : ℕ → ℕ → Bool) where
  -- From where a property can be used: a private one in the class of the object alone, a protected one
  -- in that class, in one above it or below it, and a public one everywhere.
  abbrev pub may_use : Visibility → Option ℕ → ℕ → Bool
  may_use public scope object_ce = true
  may_use private none object_ce = false
  may_use private (some scope) object_ce = scope == object_ce
  may_use protected none object_ce = false
  may_use protected (some scope) object_ce =
      scope == object_ce || (is_a scope object_ce || is_a object_ce scope)

  module _ {T Z : Type 0} (classes : ℕ → ClassMetadata T Z) (placed : Placed classes) where
    -- What a use of a property should do: as PHP does if the class has no such property, an error that
    -- names it if it may not be used there, and what is to be done if it may.
    abbrev pub expected_use :
        {A : Type 0}
        → Option ℕ
        → ℕ
        → Bytes
        → (PropertyDescriptor T Z → Done A)
        → Option (PropertyDescriptor T Z)
        → Done A
    expected_use scope object_ce name use_it none = standard
    expected_use scope object_ce name use_it (some d) =
        if may_use (visibility d.flags) scope object_ce
        then use_it d
        else denied (is_private (visibility d.flags)) name

    -- The getter's value or exception; a property that cannot be read is an exception.
    abbrev pub got : Option (T → PhpResult Z) → T → Done Z
    got none self = failed no_getter
    got (some getter) self = elim (getter self) [ ok z ↦ done z | err e ↦ failed e ]

    -- The setter's value of Rust and its exception; a property that cannot be written is an exception.
    abbrev pub put : Option (T → Z → T × Option Fault) → T → Z → Done (T × Option Fault)
    put none self value = failed no_setter
    put (some setter) self value = done (setter self value)
