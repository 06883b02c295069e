-- ===== src/Registration/Planned.antt =====
-- The plans of a class, of an enum and of the start of an extension.
use ext_php_rs.Prelude.{
  ℕ, Bool, true, false, not, ◌&&◌, ◌||◌, Option, none, some, List, [], ◌∷◌, ◌++◌, Bytes, refl,
  if◌then◌else◌,
}
use ext_php_rs.Error.{Error, Result, ok, err}
use ext_php_rs.FunctionBuilder.{FunctionEntry}
use ext_php_rs.Registration.{
  add_flags, deny_serialization, implement, create_object, registered, enum_case, observers, failed,
  panicked, emit, each, expected, end, build_methods,
}
use ext_php_rs.Registration.ClassBuilder.{
  ClassEntryInfo, ClassBuilder, stored, has_entry, is_interface_flags, parent_of, parent_ready,
  not_serializable_flag, register_interface, property_call, constant_call, class_call,
  register_entry, deny, override, call_register, register_built, register,
}
use ext_php_rs.Registration.EnumBuilder.{
  Case, EnumBuilder, add_case, enum_call, enum_built, register_enum,
}
use ext_php_rs.Registration.ModuleBuilder.{
  ModuleStartup, register_constant, register_enumeration, startup,
}
use ext_php_rs.Registration.Plan.{
  Plan, Agrees, ◌⊕◌, sum, Follows, emit-Follows, done-Follows, expected-Follows, after-Follows,
  each-Follows, planned_call, call-Follows,
}

module _ {Z : Type 0} where
  abbrev pub planned_entry : (Bytes → Bool) → ClassBuilder Z → List FunctionEntry → Plan Z
  planned_entry gives b entries = if gives b.name then some (class_call b entries ∷ []) else none

  abbrev pub planned_denial {ℓ} : {A : Type ℓ} → Bool → Option A → Plan Z
  planned_denial php81 none = some []
  planned_denial php81 (some f) =
      some ((if php81 then add_flags not_serializable_flag else deny_serialization) ∷ [])

  abbrev pub planned_interface : ClassEntryInfo → Plan Z
  planned_interface (closure, is_interface, stub) = some (implement closure ∷ [])

  abbrev pub planned_object : Option ℕ → Plan Z
  planned_object none = some []
  planned_object (some f) = some (create_object f ∷ [])

  abbrev pub planned_registration : Option ℕ → Plan Z
  planned_registration none = none
  planned_registration (some f) = some (registered f ∷ [])

  -- The class entry with its methods; then, on that entry, what keeps its objects from being serialized,
  -- its interfaces, properties and constants, and how its objects are made; last the entry is handed on.
  abbrev pub planned_built :
      (Bytes → Bool) → Bool → Z → ClassBuilder Z → Result (List FunctionEntry) → Plan Z
  planned_built gives php81 undef b (err e) = none
  planned_built gives php81 undef b (ok entries) =
      planned_entry gives b (entries ++ end ∷ [])
      ⊕ planned_denial php81 b.object_override
      ⊕ sum planned_interface b.interfaces
      ⊕ sum (λ p. planned_call (property_call undef p)) b.properties
      ⊕ sum (λ c. planned_call (constant_call c)) b.constants
      ⊕ planned_object b.object_override
      ⊕ planned_registration b.register

  abbrev pub planned_class : (Bytes → Bool) → Bool → Bool → Z → ClassBuilder Z → Plan Z
  planned_class gives php81 php83 undef b =
      planned_built gives php81 undef b (build_methods php83 b.methods)

  entry-Follows :
      (gives : Bytes → Bool) (b : ClassBuilder Z) (entries : List FunctionEntry)
      → Follows (register_entry gives b entries) (planned_entry gives b entries)
  unfolding register_entry
  entry-Follows gives b entries w =
      elim (not (is_interface_flags b.ce_flags || parent_ready (parent_of b.extends) w))
        as (λ missing.
          Agrees
            (if missing
              then panicked w
              else if gives b.name
              then emit (class_call b entries) w
              else failed Error.invalid_pointer (w ++ class_call b entries ∷ []))
            (some w ⊕ (if gives b.name then some (class_call b entries ∷ []) else none))) [
              | true ↦ tt
              | false ↦
                  elim (gives b.name)
                    as (λ g.
                      Agrees
                        (if g
                          then emit (class_call b entries) w
                          else failed Error.invalid_pointer (w ++ class_call b entries ∷ []))
                        (some w ⊕ (if g then some (class_call b entries ∷ []) else none))) [
                          | true ↦ refl
                          | false ↦ tt
                        ]
            ]

  denial-Follows : (php81 : Bool) (o : Option ℕ) → Follows (deny php81 o) (planned_denial php81 o)
  unfolding deny
  denial-Follows php81 none w = done-Follows w
  denial-Follows true (some f) w = refl
  denial-Follows false (some f) w = refl

  interface-Follows : (i : ClassEntryInfo) → Follows (register_interface i) (planned_interface i)
  unfolding register_interface
  interface-Follows (closure, is_interface, stub) w =
      elim (has_entry closure w && is_interface)
        as (λ b.
          Agrees (if b then emit (implement closure) w else panicked w)
            (some w ⊕ some (implement closure ∷ []))) [ true ↦ refl | false ↦ tt ]

  object-Follows : (o : Option ℕ) → Follows (override o) (planned_object o)
  unfolding override
  object-Follows none w = done-Follows w
  object-Follows (some f) w = refl

  registration-Follows : (o : Option ℕ) → Follows (call_register o) (planned_registration o)
  unfolding call_register
  registration-Follows none w = tt
  registration-Follows (some f) w =
      elim (stored f w)
        as (λ b.
          Agrees (if b then panicked w else emit (registered f) w)
            (some w ⊕ some (registered f ∷ []))) [ true ↦ tt | false ↦ refl ]

  built-Follows :
      (gives : Bytes → Bool) (php81 : Bool) (undef : Z) (b : ClassBuilder Z)
      (entries : List FunctionEntry)
      → Follows
          (register_built gives php81 undef b (entries ++ end ∷ []))
          (planned_built gives php81 undef b (ok entries))
  unfolding register_built
  built-Follows gives php81 undef b entries =
      after-Follows _ _ _ _ (entry-Follows gives b (entries ++ end ∷ [])) (
        after-Follows _ _ _ _ (denial-Follows php81 b.object_override) (
          after-Follows _ _ _ _
            (each-Follows register_interface planned_interface b.interfaces interface-Follows)
            (after-Follows _ _ _ _
              (each-Follows _ _ b.properties (λ p. call-Follows (property_call undef p)))
              (after-Follows _ _ _ _
                (each-Follows _ _ b.constants (λ c. call-Follows (constant_call c)))
                (after-Follows _ _ _ _ (object-Follows b.object_override)
                  (registration-Follows b.register))))))

  -- A registration of a class or an interface that succeeds told PHP its parts in the order of the plan.
  pub register-planned_class :
      (gives : Bytes → Bool) (php81 php83 : Bool) (undef : Z) (b : ClassBuilder Z)
      → Follows (register gives php81 php83 undef b) (planned_class gives php81 php83 undef b)
  unfolding register
  register-planned_class gives php81 php83 undef b w =
      elim (build_methods php83 b.methods)
        as (λ r.
          Agrees
            (elim r [
              | ok entries ↦ register_built gives php81 undef b (entries ++ end ∷ []) w
              | err e ↦ failed e w
            ])
            (some w ⊕ planned_built gives php81 undef b r)) [
              | ok entries ↦ built-Follows gives php81 undef b entries w
              | err e ↦ tt
            ]

  abbrev pub planned_case : Case → Plan Z
  planned_case c = some (enum_case c.name c.discriminant ∷ [])

  abbrev pub planned_enum_built : EnumBuilder Z → Result (List FunctionEntry) → Plan Z
  planned_enum_built b (err e) = none
  planned_enum_built b (ok entries) =
      planned_call (enum_call b (entries ++ end ∷ []))
      ⊕ sum planned_case b.cases
      ⊕ planned_registration b.register

  abbrev pub planned_enum : Bool → Option (EnumBuilder Z) → Plan Z
  planned_enum php83 none = none
  planned_enum php83 (some b) = planned_enum_built b (build_methods php83 b.methods)

  enum_built-Follows :
      (b : EnumBuilder Z) (entries : List FunctionEntry)
      → Follows (enum_built b (entries ++ end ∷ [])) (planned_enum_built b (ok entries))
  unfolding enum_built
  enum_built-Follows b entries =
      after-Follows _ _ _ _ (call-Follows (enum_call b (entries ++ end ∷ []))) (
        after-Follows _ _ _ _ (each-Follows add_case planned_case b.cases (λ c w. refl))
          (registration-Follows b.register))

  register_enumeration-planned_enum :
      (php83 : Bool) (e : Option (EnumBuilder Z))
      → Follows (register_enumeration php83 e) (planned_enum php83 e)
  unfolding register_enumeration register_enum
  register_enumeration-planned_enum php83 none w = tt
  register_enumeration-planned_enum php83 (some b) w =
      elim (build_methods php83 b.methods)
        as (λ r.
          Agrees (elim r [ ok entries ↦ enum_built b (entries ++ end ∷ []) w | err e ↦ failed e w ])
            (some w ⊕ planned_enum_built b r)) [
              | ok entries ↦ enum_built-Follows b entries w
              | err e ↦ tt
            ]

  -- Constants, interfaces, classes, enums, and then the observers.
  abbrev pub planned_startup : (Bytes → Bool) → Bool → Bool → Z → ModuleStartup Z → Plan Z
  planned_startup gives php81 php83 undef m =
      sum (λ c. planned_call (register_constant c)) m.constants
      ⊕ sum (planned_class gives php81 php83 undef) m.interfaces
      ⊕ sum (planned_class gives php81 php83 undef) m.classes
      ⊕ sum (planned_enum php83) m.enums
      ⊕ some (observers ∷ [])

  classes-Follows :
      (gives : Bytes → Bool) (php81 php83 : Bool) (undef : Z) (bs : List (ClassBuilder Z))
      → Follows
          (each (λ c w. expected (register gives php81 php83 undef c w)) bs)
          (sum (planned_class gives php81 php83 undef) bs)
  classes-Follows gives php81 php83 undef bs = each-Follows _ _ bs λ b.
      expected-Follows (register gives php81 php83 undef b) _
        (register-planned_class gives php81 php83 undef b)

  -- A start that succeeds told PHP of the constants, interfaces, classes and enums in this order.
  pub startup-planned_startup :
      (gives : Bytes → Bool) (php81 php83 : Bool) (undef : Z) (m : ModuleStartup Z)
      → Follows (startup gives php81 php83 undef m) (planned_startup gives php81 php83 undef m)
  unfolding startup
  startup-planned_startup gives php81 php83 undef m w =
      after-Follows _ _ _ _ (each-Follows _ _ m.constants (λ c. call-Follows (register_constant c)))
        (after-Follows _ _ _ _ (classes-Follows gives php81 php83 undef m.interfaces) (
          after-Follows _ _ _ _ (classes-Follows gives php81 php83 undef m.classes) (
            after-Follows _ _ _ _
              (each-Follows _ _ m.enums λ e.
                expected-Follows (register_enumeration php83 e) _
                  (register_enumeration-planned_enum php83 e))
              (emit-Follows observers))))
        w
