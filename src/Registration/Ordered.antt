-- ===== src/Registration/Ordered.antt =====
-- The order of the calls that src/builders make, through a class, an enum and the start of an extension in
-- src/builders/module.rs.
use ext_php_rs.Prelude.{
  ℕ, Bool, true, false, not, ◌&&◌, ◌||◌, Option, none, some, List, [], ◌∷◌, ◌++◌, Bytes, ◌≡◌, refl,
  arith, inl, inr, Bool-cases,
}
use ext_php_rs.Error.{Result, ok, err}
use ext_php_rs.FunctionBuilder.{FunctionEntry}
use ext_php_rs.Registration.{
  Closure, php_class, metadata, Effect, add_flags, deny_serialization, implement, create_object,
  registered, enum_case, observers, Ended, failed, after, each, expected, end, build_methods,
}
use ext_php_rs.Registration.ClassBuilder.{
  ClassEntryInfo, ClassBuilder, ClassProperty, ConstantEntry, call, stored, has_entry, parent_ready,
  parent_of, is_interface_flags, not_serializable_flag, register_interface, property_call,
  constant_call, class_call, register_entry, deny, override, call_register, register_built,
  register,
}
use ext_php_rs.Registration.EnumBuilder.{EnumBuilder, enum_call, enum_built, register_enum}
use ext_php_rs.Registration.ModuleBuilder.{
  ModuleStartup, register_constant, register_enumeration, startup,
}
use ext_php_rs.Registration.Order.{
  Gives, Ready, Ordered, calls, Keeps, Harmless, one_more, stored-Stored, Stored-stored,
  after-Keeps, expected-Keeps, each-Keeps, emit-Keeps, call-Keeps,
}

module _ {Z : Type 0} where
  entry-Gives : (c : Closure) (w : List (Effect Z)) → has_entry c w ≡ true → Gives (some c) w
  unfolding has_entry
  entry-Gives (php_class address) w h = tt
  entry-Gives (metadata f) w h = stored-Stored f w h

  parent-Gives : (p : Option Closure) (w : List (Effect Z)) → parent_ready p w ≡ true → Gives p w
  parent-Gives none w h = tt
  parent-Gives (some c) w h = entry-Gives c w h

  class_call-Ready :
      (b : ClassBuilder Z) (entries : List FunctionEntry) (w : List (Effect Z))
      → not (is_interface_flags b.ce_flags || parent_ready (parent_of b.extends) w) ≡ false
      → Ready (class_call b entries) w
  class_call-Ready b entries w h = elim (Bool-cases (is_interface_flags b.ce_flags)) [
    | inl e ↦ rw e tt
    | inr e ↦ rw e (parent-Gives (parent_of b.extends) w (ground (arith, e, h)))
  ]

  entry-Keeps :
      (gives : Bytes → Bool) (b : ClassBuilder Z) (entries : List FunctionEntry)
      → Keeps (register_entry gives b entries)
  unfolding register_entry
  entry-Keeps gives b entries w h =
      let told = λ (r : Ready (class_call b entries) w). one_more [] w (class_call b entries) h r in
      elim (Bool-cases
        (not (is_interface_flags b.ce_flags || parent_ready (parent_of b.extends) w))) [
          | inl e ↦ rw e h
          | inr e ↦ rw e (elim (Bool-cases (gives b.name)) [
            | inl g ↦ rw g (told (class_call-Ready b entries w e))
            | inr g ↦ rw g (told (class_call-Ready b entries w e))
          ])
        ]

  deny-Keeps : (php81 : Bool) (o : Option ℕ) → Keeps {Z = Z} (deny php81 o)
  unfolding deny
  deny-Keeps php81 none w h = h
  deny-Keeps true (some f) w h = emit-Keeps (add_flags not_serializable_flag) refl w h
  deny-Keeps false (some f) w h = emit-Keeps deny_serialization refl w h

  interface-Keeps : (i : ClassEntryInfo) → Keeps {Z = Z} (register_interface i)
  unfolding register_interface
  interface-Keeps (c, is_interface, stub) w h = elim (Bool-cases (has_entry c w && is_interface)) [
    | inl e ↦ rw e (one_more [] w (implement c) h (entry-Gives c w (ground (arith, e))))
    | inr e ↦ rw e h
  ]

  object-Keeps : (o : Option ℕ) → Keeps {Z = Z} (override o)
  unfolding override
  object-Keeps none w h = h
  object-Keeps (some f) w h = emit-Keeps (create_object f) refl w h

  registration-Keeps : (o : Option ℕ) → Keeps {Z = Z} (call_register o)
  unfolding call_register
  registration-Keeps none w h = h
  registration-Keeps (some f) w h = elim (Bool-cases (stored f w)) [
    | inl e ↦ rw e h
    | inr e ↦ rw e (one_more [] w (registered f) h (λ s. let t = Stored-stored f w s in cc))
  ]

  property-Harmless : (undef : Z) (p : ClassProperty Z) → Harmless (property_call undef p)
  unfolding property_call
  property-Harmless undef p = ground arith

  constant-Harmless : (c : ConstantEntry Z) → Harmless (constant_call c)
  unfolding constant_call
  constant-Harmless (name, value, lines, stub) = ground arith

  global-Harmless : (c : Bytes × Result Z) → Harmless (register_constant c)
  unfolding register_constant
  global-Harmless (name, val) = ground arith

  enum-Harmless :
      (b : EnumBuilder Z) (entries : List FunctionEntry) → Harmless (enum_call b entries)
  unfolding enum_call
  enum-Harmless b entries = ground arith

  -- The same as data, which show the step.
  data Step (f : List (Effect Z) → Ended Z) : Type 0 where
    step : Keeps f → Step f

  kept : {f : List (Effect Z) → Ended Z} → Step f → Keeps f
  kept (step k) = k

  then_Step : {f g : List (Effect Z) → Ended Z} → Step f → Step g → Step (λ w. after (f w) g)
  then_Step {f} {g} a b = step (after-Keeps f g (kept a) (kept b))

  expected_Step : {f : List (Effect Z) → Ended Z} → Step f → Step (λ w. expected (f w))
  expected_Step {f} a = step (expected-Keeps f (kept a))

  each_Step {ℓ} :
      {A : Type ℓ} {f : A → List (Effect Z) → Ended Z} (as' : List A)
      → ((a : A) → Step (f a))
      → Step (each f as')
  each_Step {A} {f} as' h = step (each-Keeps f as' λ a. kept (h a))

  call_Step : (r : Result (Effect Z)) → Harmless r → Step (call r)
  call_Step r h = step (call-Keeps r h)

  entry_Step :
      (gives : Bytes → Bool) (b : ClassBuilder Z) (entries : List FunctionEntry)
      → Step (register_entry gives b entries)
  entry_Step gives b entries = step (entry-Keeps gives b entries)

  deny_Step : (php81 : Bool) (o : Option ℕ) → Step (deny php81 o)
  deny_Step php81 o = step (deny-Keeps php81 o)

  interface_Step : (i : ClassEntryInfo) → Step (register_interface i)
  interface_Step i = step (interface-Keeps i)

  object_Step : (o : Option ℕ) → Step (override o)
  object_Step o = step (object-Keeps o)

  registration_Step : (o : Option ℕ) → Step (call_register o)
  registration_Step o = step (registration-Keeps o)

  enum_built-Keeps :
      (b : EnumBuilder Z) (entries : List FunctionEntry) → Step (enum_built b entries)
  unfolding enum_built
  enum_built-Keeps b entries =
      then_Step (call_Step (enum_call b entries) (enum-Harmless b entries)) (
        then_Step (each_Step b.cases λ c. step (emit-Keeps (enum_case c.name c.discriminant) refl))
          (registration_Step b.register))

  enumeration-Keeps :
      (php83 : Bool) (o : Option (EnumBuilder Z)) → Step (register_enumeration php83 o)
  unfolding register_enumeration register_enum
  enumeration-Keeps php83 none = step (λ w h. h)
  enumeration-Keeps php83 (some b) = step λ w h.
      elim (build_methods php83 b.methods)
        as (λ r. Ordered {Z = Z} (
          calls
            (elim r [ ok entries ↦ enum_built b (entries ++ end ∷ []) w | err e ↦ failed e w ]))) [
              | ok entries ↦
                  kept {f = enum_built b (entries ++ end ∷ [])}
                    (enum_built-Keeps b (entries ++ end ∷ [])) w h
              | err e ↦ h
            ]

  built-Keeps :
      (gives : Bytes → Bool) (php81 : Bool) (undef : Z) (b : ClassBuilder Z)
      (entries : List FunctionEntry)
      → Step (register_built gives php81 undef b entries)
  unfolding register_built
  built-Keeps gives php81 undef b entries = then_Step (entry_Step gives b entries) (
      then_Step (deny_Step php81 b.object_override) (
        then_Step (each_Step b.interfaces interface_Step) (
          then_Step
            (each_Step b.properties
              (λ p. (call_Step (property_call undef p) (property-Harmless undef p))))
            (then_Step
              (each_Step b.constants (λ c. (call_Step (constant_call c) (constant-Harmless c))))
              (then_Step (object_Step b.object_override) (registration_Step b.register))))))

  class-Keeps :
      (gives : Bytes → Bool) (php81 php83 : Bool) (undef : Z) (b : ClassBuilder Z)
      → Step (register gives php81 php83 undef b)
  unfolding register
  class-Keeps gives php81 php83 undef b = step λ w h.
      elim (build_methods php83 b.methods)
        as (λ r. Ordered (
          calls (elim r [
            | ok entries ↦ register_built gives php81 undef b (entries ++ end ∷ []) w
            | err e ↦ failed e w
          ]))) [
            | ok entries ↦ kept (built-Keeps gives php81 undef b (entries ++ end ∷ [])) w h
            | err e ↦ h
          ]

  classes-Keeps :
      (gives : Bytes → Bool) (php81 php83 : Bool) (undef : Z) (bs : List (ClassBuilder Z))
      → Step (each (λ c w. expected (register gives php81 php83 undef c w)) bs)
  classes-Keeps gives php81 php83 undef bs =
      each_Step bs λ b. expected_Step (class-Keeps gives php81 php83 undef b)

  -- However the start of an extension ends, PHP was never told of a class before its parent, nor of an
  -- interface of a class before that interface, where these are types of Rust: their entries were stored
  -- by then. And no entry was stored twice for a type.
  pub startup-Ordered :
      (gives : Bytes → Bool) (php81 php83 : Bool) (undef : Z) (m : ModuleStartup Z)
      → Ordered (calls (startup gives php81 php83 undef m []))
  unfolding startup
  startup-Ordered gives php81 php83 undef m =
      kept
        (then_Step
          (each_Step m.constants (λ c. (call_Step (register_constant c) (global-Harmless c))))
          (then_Step (classes-Keeps gives php81 php83 undef m.interfaces) (
            then_Step (classes-Keeps gives php81 php83 undef m.classes) (
              then_Step (each_Step m.enums λ e. expected_Step (enumeration-Keeps php83 e))
                (step (emit-Keeps observers refl))))))
        [] tt
