-- ===== src/Registration/Names.antt =====
-- The interfaces, classes and enums that the plans of Planned.antt name.
use ext_php_rs.Prelude.{
  ℕ, Bool, true, false, Option, none, some, List, [], ◌∷◌, ◌++◌, Bytes, map, ◌≡◌, refl, sym, ap,
  ◌∙◌, arith, append_assoc, if◌then◌else◌,
}
use ext_php_rs.Error.{Result, ok, err}
use ext_php_rs.FunctionBuilder.{FunctionEntry}
use ext_php_rs.ZendType.Mask.{c_string_lem}
use ext_php_rs.Registration.{Effect, interface, class, end, build_methods}
use ext_php_rs.Registration.ClassBuilder.{
  ClassBuilder, ClassProperty, ClassEntryInfo, ConstantEntry, parent_of, class_call, property_call,
  constant_call, is_interface_flags,
}
use ext_php_rs.Registration.EnumBuilder.{Case, EnumBuilder, enum_call}
use ext_php_rs.Registration.ModuleBuilder.{ModuleStartup, register_constant}
use ext_php_rs.Registration.Plan.{Plan, ◌⊕◌, sum, planned_call}
use ext_php_rs.Registration.Planned.{
  planned_entry, planned_denial, planned_interface, planned_object, planned_registration,
  planned_built, planned_class, planned_case, planned_enum, planned_enum_built, planned_startup,
}
use ext_php_rs.Registration.Startup.{name_of, names}

module _ {Z : Type 0} where
  -- The classes and enums that a plan names.
  abbrev pub Names : List Bytes → Plan Z → Type 0
  Names ns (some v) = names v ≡ ns
  Names ns none = Unit

  names-append : (v w : List (Effect Z)) → names (v ++ w) ≡ names v ++ names w
  names-append [] w = refl
  names-append (e ∷ v) w =
      ap (λ ns. name_of e ++ ns) (names-append v w)
      ∙ sym (append_assoc (name_of e) (names v) (names w))

  Names-⊕ : (ns ms : List Bytes) (p q : Plan Z) → Names ns p → Names ms q → Names (ns ++ ms) (p ⊕ q)
  Names-⊕ ns ms none q h k = tt
  Names-⊕ ns ms (some v) none h k = tt
  Names-⊕ ns ms (some v) (some w) h k = names-append v w ∙ rw (h, k) refl

  Names-sum_none {ℓ} :
      {A : Type ℓ} (p : A → Plan Z) (as' : List A)
      → ((a : A) → Names [] (p a))
      → Names [] (sum p as')
  Names-sum_none p [] h = refl
  Names-sum_none p (a ∷ as') h = Names-⊕ [] [] (p a) (sum p as') (h a) (Names-sum_none p as' h)

  Names-sum_one {ℓ} :
      {A : Type ℓ} (g : A → Bytes) (p : A → Plan Z) (as' : List A)
      → ((a : A) → Names (g a ∷ []) (p a))
      → Names (map g as') (sum p as')
  Names-sum_one g p [] h = refl
  Names-sum_one g p (a ∷ as') h =
      Names-⊕ (g a ∷ []) (map g as') (p a) (sum p as') (h a) (Names-sum_one g p as' h)

  -- A call of PHP that names nothing.
  abbrev Nameless : Result (Effect Z) → Type 0
  Nameless (ok e) = name_of e ≡ []
  Nameless (err e) = Unit

  Nameless-Names : (r : Result (Effect Z)) → Nameless r → Names [] (planned_call r)
  Nameless-Names (ok e) h = rw h refl
  Nameless-Names (err e) h = tt

  class-Names :
      (gives : Bytes → Bool) (b : ClassBuilder Z) (entries : List FunctionEntry)
      → Names (b.name ∷ []) (planned_entry gives b entries)
  class-Names gives b entries =
      elim (gives b.name)
        as (λ g. Names (b.name ∷ []) (if g then some (class_call b entries ∷ []) else none)) [
          | true ↦
              elim (is_interface_flags b.ce_flags)
                as (λ i.
                  names {Z = Z} (
                    (if i
                      then interface b.name b.ce_flags entries
                      else class b.name b.ce_flags entries (parent_of b.extends))
                    ∷ [])
                  ≡ b.name ∷ []) [ true ↦ refl | false ↦ refl ]
          | false ↦ tt
        ]

  denial-Names : (php81 : Bool) (o : Option ℕ) (undef : Z) → Names [] (planned_denial php81 o)
  denial-Names php81 none undef = refl
  denial-Names true (some f) undef = refl
  denial-Names false (some f) undef = refl

  interface-Names : (i : ClassEntryInfo) (undef : Z) → Names [] (planned_interface i)
  interface-Names (closure, is_interface, stub) undef = refl

  object-Names : (o : Option ℕ) (undef : Z) → Names [] (planned_object o)
  object-Names none undef = refl
  object-Names (some f) undef = refl

  registration-Names : (o : Option ℕ) (undef : Z) → Names [] (planned_registration o)
  registration-Names none undef = tt
  registration-Names (some f) undef = refl

  property-Nameless : (undef : Z) (p : ClassProperty Z) → Nameless (property_call undef p)
  unfolding property_call
  property-Nameless undef p = ground arith

  constant-Nameless : (c : ConstantEntry Z) → Nameless (constant_call c)
  unfolding constant_call
  constant-Nameless (name, value, lines, stub) = ground arith

  global-Nameless : (c : Bytes × Result Z) → Nameless (register_constant c)
  unfolding register_constant
  global-Nameless (name, val) = ground arith

  planned_class-Names :
      (gives : Bytes → Bool) (php81 php83 : Bool) (undef : Z) (b : ClassBuilder Z)
      → Names (b.name ∷ []) (planned_class gives php81 php83 undef b)
  planned_class-Names gives php81 php83 undef b =
      elim (build_methods php83 b.methods)
        as (λ r. Names (b.name ∷ []) (planned_built gives php81 undef b r)) [
          | err e ↦ tt
          | ok entries ↦ Names-⊕ (b.name ∷ []) [] _ _ (class-Names gives b (entries ++ end ∷ [])) (
              Names-⊕ [] [] _ _ (denial-Names php81 b.object_override undef) (
                Names-⊕ [] [] _ _
                  (Names-sum_none planned_interface b.interfaces (λ i. interface-Names i undef))
                  (Names-⊕ [] [] _ _
                    (Names-sum_none _ b.properties
                      (λ p. Nameless-Names _ (property-Nameless undef p)))
                    (Names-⊕ [] [] _ _
                      (Names-sum_none _ b.constants (λ c. Nameless-Names _ (constant-Nameless c)))
                      (Names-⊕ [] [] _ _ (object-Names b.object_override undef)
                        (registration-Names b.register undef))))))
        ]

  enum-Names :
      (b : EnumBuilder Z) (entries : List FunctionEntry)
      → Names (b.name ∷ []) (planned_call (enum_call b entries))
  unfolding enum_call
  enum-Names b entries = ground (arith, c_string_lem b.name)

  abbrev pub enum_name : Option (EnumBuilder Z) → List Bytes
  enum_name none = []
  enum_name (some e) = e.name ∷ []

  case-Names : (cs : List Case) (undef : Z) → Names [] (sum planned_case cs)
  case-Names [] undef = refl
  case-Names (c ∷ cs) undef =
      Names-⊕ [] [] (planned_case c) (sum planned_case cs) refl (case-Names cs undef)

  planned_enum-Names :
      (php83 : Bool) (e : Option (EnumBuilder Z)) (undef : Z)
      → Names (enum_name e) (planned_enum php83 e)
  planned_enum-Names php83 none undef = tt
  planned_enum-Names php83 (some b) undef =
      elim (build_methods php83 b.methods) as (λ r. Names (b.name ∷ []) (planned_enum_built b r)) [
        | err e ↦ tt
        | ok entries ↦
            Names-⊕ (b.name ∷ []) [] _ _ (enum-Names b (entries ++ end ∷ []))
              (Names-⊕ [] [] _ _ (case-Names b.cases undef) (registration-Names b.register undef))
      ]

  abbrev pub enum_names : List (Option (EnumBuilder Z)) → List Bytes
  enum_names [] = []
  enum_names (e ∷ es) = enum_name e ++ enum_names es

  enums-Names :
      (php83 : Bool) (es : List (Option (EnumBuilder Z))) (undef : Z)
      → Names (enum_names es) (sum (planned_enum php83) es)
  enums-Names php83 [] undef = refl
  enums-Names php83 (e ∷ es) undef =
      Names-⊕ (enum_name e) (enum_names es) _ _ (planned_enum-Names php83 e undef)
        (enums-Names php83 es undef)

  -- In a plan for the start of an extension: the interfaces, the classes and the enums, in this order.
  pub startup-Names :
      (gives : Bytes → Bool) (php81 php83 : Bool) (undef : Z) (m : ModuleStartup Z)
      → Names
          (map (λ b. b.name) m.interfaces
            ++ (map (λ b. b.name) m.classes ++ (enum_names m.enums ++ [])))
          (planned_startup gives php81 php83 undef m)
  startup-Names gives php81 php83 undef m =
      Names-⊕ [] _ _ _ (Names-sum_none _ m.constants (λ c. Nameless-Names _ (global-Nameless c))) (
        Names-⊕ (map (λ b. b.name) m.interfaces) _ _ _
          (Names-sum_one (λ b. b.name) _ m.interfaces (planned_class-Names gives php81 php83 undef))
          (Names-⊕ (map (λ b. b.name) m.classes) _ _ _
            (Names-sum_one (λ b. b.name) _ m.classes (planned_class-Names gives php81 php83 undef))
            (Names-⊕ (enum_names m.enums) [] _ _ (enums-Names php83 m.enums undef) refl)))
