-- ===== src/Registration/Startup.antt =====
-- How the start of an extension in src/builders/module.rs fails.
use ext_php_rs.Prelude.{true, List, [], ◌∷◌, ◌++◌, Bytes, ◌≡◌, ◌⊎◌, map}
use ext_php_rs.Error.{Error, Result, ok, err}
use ext_php_rs.ZendType.Mask.{has_nul}
use ext_php_rs.Registration.{
  Effect, constant, interface, class, enumeration, Ended, done, failed, panicked,
}
use ext_php_rs.Registration.ClassBuilder.{ClassBuilder}

module _ {Z : Type 0} where
  -- The names of the interfaces, classes and enums that PHP was told of.
  abbrev pub name_of : Effect Z → List Bytes
  name_of (interface name bits entries) = name ∷ []
  name_of (class name bits entries parent) = name ∷ []
  name_of (enumeration name datatype entries) = name ∷ []
  name_of _ = []

  abbrev pub names : List (Effect Z) → List Bytes
  names [] = []
  names (e ∷ w) = name_of e ++ names w

  abbrev pub Failed : Ended Z → Type 0
  Failed (failed e w) = Unit
  Failed (done w) = ⊥
  Failed (panicked w) = ⊥

  -- A step that fails at most by a panic.
  abbrev Firm : (List (Effect Z) → Ended Z) → Type 0
  Firm f = (w : List (Effect Z)) → Failed (f w) → ⊥

  -- A constant with a name and a value, and what PHP is told of it.
  abbrev pub valued : Bytes × Z → Bytes × Result Z
  valued c = (c.0, ok c.1)

  abbrev pub told : Bytes × Z → Effect Z
  told c = constant c.0 c.1

  -- The name has a NUL byte, or there is no value.
  abbrev pub Bad : Bytes × Result Z → Error → Type 0
  Bad c e = ((has_nul c.0 ≡ true) × (e ≡ Error.invalid_c_string)) ⊎ (c.1 ≡ err e)

  -- The constants up to the first bad one, whose error it is.
  abbrev pub FailedAt : List (Bytes × Result Z) → List (Effect Z) → Error → List (Effect Z) → Type 0
  FailedAt cs w e v =
      (good : List (Bytes × Z)) × (bad : Bytes × Result Z) × (rest : List (Bytes × Result Z)) × (cs
        ≡ map valued good ++ bad ∷ rest)
      × (v ≡ w ++ map told good)
      × Bad bad e
