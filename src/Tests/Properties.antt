-- ===== src/Tests/Properties.antt =====
-- The theorems on src/zend/handlers.rs at concrete inputs.
use ext_php_rs.Prelude.{
  ℕ, zero, suc, Bool, true, false, Option, none, some, [], ◌∷◌, Bytes, map, codes, ◌≡◌, refl,
}
use ext_php_rs.Text.Utf8.{is_utf8}
use ext_php_rs.PropertyHandlers.{
  Fault, PhpResult, ok, PropertyDescriptor, ClassMetadata, find_property, find_named, done, denied,
  write_with, write_property, has_property, check_property_access, resolve_property, has_with,
}
use ext_php_rs.PropertyHandlers.Cache.{resolves, lookup, resolves-lookup}

-- Two classes with a property `n`, private in the first; a value of Rust is a number.
abbrev getter : ℕ → PhpResult ℕ
getter t = ok t

abbrev setter : ℕ → ℕ → ℕ × Option Fault
setter t z = (z, none)

abbrev n : Bytes
n = codes "n"

abbrev counter : ℕ → PropertyDescriptor ℕ ℕ
counter bits = record { name = n; get = some getter; set = some setter; flags = bits }

abbrev flags_of : ℕ → ℕ
flags_of zero = 4
flags_of (suc a) = 1

abbrev classes : ℕ → ClassMetadata ℕ ℕ
classes a = record {
  address = a;
  field_properties = counter (flags_of a) ∷ [];
  method_properties = [];
}

abbrev unrelated : ℕ → ℕ → Bool
unrelated a b = false

resolves-lookup_example :
    resolves classes n (0 ∷ 1 ∷ 0 ∷ []) (some none) ≡ map (lookup classes n) (0 ∷ 1 ∷ 0 ∷ [])
unfolding is_utf8
resolves-lookup_example = resolves-lookup classes n (0 ∷ 1 ∷ 0 ∷ []) (some none) (λ a. refl) refl tt

-- A write from the class itself reaches the setter, one from another class does not.
written :
    (write_property unrelated (classes 0) (some 9) 9 (some 5) (some n) 6 none).0 ≡ done (6, none)
unfolding write_property write_with resolve_property find_property find_named check_property_access
    is_utf8
written = refl

not_written :
    (write_property unrelated (classes 0) (some 8) 9 (some 5) (some n) 6 none).0 ≡ denied true n
unfolding write_property write_with resolve_property find_property find_named check_property_access
    is_utf8
not_written = refl

-- `isset` answers for a private property from outside of the class too.
isset_of_private :
    (has_property unrelated (λ z. false) (λ z. true) (classes 0) 0 (some 5) (some n) none).0
    ≡ done tt
unfolding has_property has_with resolve_property find_property find_named is_utf8
isset_of_private = refl

-- A method of a subclass, by which the object was made, reads a private property of its parent.
private_of_parent : check_property_access unrelated 4 (some 9) 9 ≡ true
unfolding check_property_access
private_of_parent = refl
