-- ===== src/Registration/Described.antt =====
-- The description that src/describe/mod.rs makes of an extension, and what src/builders/module.rs
-- registers at its start.
use ext_php_rs.Prelude.{
  Bool, false, Option, none, some, List, [], ◌∷◌, ◌++◌, Bytes, map, ◌≡◌, refl, sym, ap, ◌∙◌,
  append_assoc, append-nil,
}
use mathlib.Core.Path.{subst}
use mathlib.Core.Option.{some-injective}
use ext_php_rs.Text.Str.{◌>>=◌}
use ext_php_rs.Stub.Module.{Enum, Module}
use ext_php_rs.Registration.{Effect}
use ext_php_rs.Registration.ClassBuilder.{ClassBuilder}
use ext_php_rs.Registration.EnumBuilder.{EnumBuilder}
use ext_php_rs.Registration.ModuleBuilder.{ModuleBuilder, startup, startup_of}
use ext_php_rs.Registration.Plan.{finished-Agrees, finished, ◌⊕◌}
use ext_php_rs.Registration.Planned.{planned_startup, startup-planned_startup}
use ext_php_rs.Registration.Startup.{names}
use ext_php_rs.FunctionBuilder.{describe}
use ext_php_rs.Registration.Describe.{
  describe_global, describe_class, describe_enum, describe_enums, describe_module,
}
use ext_php_rs.Registration.Names.{Names, enum_names, startup-Names}

map-append {ℓ κ} :
    {A : Type ℓ} {B : Type κ} (f : A → B) (xs ys : List A) → map f (xs ++ ys) ≡ map f xs ++ map f ys
map-append f [] ys = refl
map-append f (x ∷ xs) ys = ap (λ zs. f x ∷ zs) (map-append f xs ys)

-- The names that a description lists.
abbrev pub listed : Module → List Bytes
listed d = map (λ c. c.name) d.classes ++ map (λ e. e.name) d.enums

module _ {Z : Type 0} where
  described_enums :
      (es : List (Option (EnumBuilder Z))) (ds : List Enum)
      → describe_enums es ≡ some ds
      → enum_names es ≡ map (λ d. d.name) ds
  unfolding describe_enums describe_enum
  described_enums [] ds h = let same : [] ≡ ds = cc in rw (← same) refl
  described_enums (none ∷ es) ds h = cc
  described_enums (some e ∷ es) ds h =
      elim (describe_enums es)
          as (λ o.
            describe_enums es ≡ o
            → (o >>= λ rest. some (describe_enum e ∷ rest)) ≡ some ds
            → e.name ∷ enum_names es ≡ map (λ d. d.name) ds) [
              | some rest ↦ λ p q.
                  let same : describe_enum e ∷ rest ≡ ds = cc in
                  rw (← same) (ap (λ ns. e.name ∷ ns) (described_enums es rest p))
              | none ↦ λ p q. cc
            ]
        refl h

  map-describe_class :
      (bs : List (ClassBuilder Z))
      → map (λ d. d.name) (map describe_class bs) ≡ map (λ b. b.name) bs
  unfolding describe_class
  map-describe_class [] = refl
  map-describe_class (b ∷ bs) = ap (λ ns. b.name ∷ ns) (map-describe_class bs)

  described :
      (builder : ModuleBuilder Z) (d : Module)
      → describe_module false builder ≡ some d
      → listed d
        ≡ map (λ b. b.name) builder.interfaces
          ++ (map (λ b. b.name) builder.classes ++ (enum_names builder.enums ++ []))
  unfolding describe_module
  described builder d h =
      elim (describe_enums builder.enums)
          as (λ o.
            describe_enums builder.enums ≡ o
            → (o >>= λ enums. some (record {
              name = builder.name;
              functions = map describe builder.functions;
              classes = map describe_class (builder.interfaces ++ builder.classes) ++ [];
              enums = enums;
              constants = map describe_global builder.constants;
            }))
              ≡ some d
            → listed d
              ≡ map (λ b. b.name) builder.interfaces
                ++ (map (λ b. b.name) builder.classes ++ (enum_names builder.enums ++ []))) [
                  | some es ↦ λ p q.
                      let classes : d.classes
                          ≡ map describe_class (builder.interfaces ++ builder.classes) ++ [] =
                        sym (ap (λ m. m.classes) (some-injective _ _ q)) in
                      let enums : d.enums ≡ es = sym (ap (λ m. m.enums) (some-injective _ _ q)) in
                      rw
                        (
                          classes,
                          enums,
                          append-nil,
                          map-describe_class (builder.interfaces ++ builder.classes),
                          map-append (λ b. b.name) builder.interfaces builder.classes,
                          ← described_enums builder.enums es p,
                          append-nil,
                          append_assoc,
                        )
                        refl
                  | none ↦ λ p q. cc
                ]
        refl h

  -- The description of an extension, from which its stubs are printed, lists exactly the interfaces,
  -- classes and enums that a start of the extension registers, under the same names and in the same
  -- order, when the start succeeds (and the feature `closure` adds no class of its own).
  pub startup-describe_module :
      (gives : Bytes → Bool) (php81 php83 : Bool) (undef : Z) (builder : ModuleBuilder Z)
      (d : Module) (w : List (Effect Z))
      → describe_module false builder ≡ some d
      → finished (startup gives php81 php83 undef (startup_of builder) []) ≡ some w
      → names w ≡ listed d
  unfolding startup_of
  startup-describe_module gives php81 php83 undef builder d w h s =
      let eq =
        finished-Agrees _ _ w
          (startup-planned_startup gives php81 php83 undef (startup_of builder) []) s in
      let ns =
        map (λ b. b.name) builder.interfaces
        ++ (map (λ b. b.name) builder.classes ++ (enum_names builder.enums ++ [])) in
      elim (planned_startup gives php81 php83 undef (startup_of builder))
          as (λ p. Names ns p → some [] ⊕ p ≡ some w → names w ≡ ns) [
            | some v ↦ λ n e. subst (λ u. names u ≡ ns) (some-injective _ _ e) n
            | none ↦ λ n e. cc
          ]
        (startup-Names gives php81 php83 undef (startup_of builder)) eq
      ∙ sym (described builder d h)
