-- ===== src/Registration.antt =====
-- What the builders of src/builders tell PHP when an extension starts: the calls of PHP, in order, and
-- how a registration ends. Children of this module are the builders.
pub mod ClassBuilder
pub mod EnumBuilder
pub mod RegisteredClass
pub mod ModuleBuilder
pub mod Plan
pub mod Planned
pub mod Cases
pub mod Describe
pub mod Names
pub mod Described
pub mod Startup
pub mod Order
pub mod Ordered
use Prim.Native.Nat.{bit_or}
use ext_php_rs.Prelude.{
  ℕ, Bool, true, false, Option, none, some, List, [], ◌∷◌, ◌++◌, Bytes, if◌then◌else◌,
}
use ext_php_rs.Prelude.Int.{ℤ}
use ext_php_rs.Error.{Error, Result, ok, err, ◌>>=◌}
use ext_php_rs.FunctionBuilder.{FunctionBuilder, FunctionEntry, build}

-- `enum Discriminant` of src/enum_.rs
pub data Discriminant : Type 0 where
  int : ℤ → Discriminant
  string : Bytes → Discriminant

-- A function that gives a class entry: one of PHP's own, known by its address, or `ClassMetadata::ce` of
-- a type of Rust, known by the address of the metadata.
pub data Closure : Type 0 where
  php_class : ℕ → Closure
  metadata : ℕ → Closure

-- A call of PHP, or a write to the class entry that PHP returned. `Z` are zvals; a class entry is known
-- by the function that gives it, a function of C by its address. `registered` is `set_ce` on the
-- metadata of that address, which is what a registration function does.
pub data Effect (Z : Type 0) : Type 0 where
  constant : Bytes → Z → Effect Z
  interface : Bytes → ℕ → List FunctionEntry → Effect Z
  class : Bytes → ℕ → List FunctionEntry → Option Closure → Effect Z
  add_flags : ℕ → Effect Z
  deny_serialization : Effect Z
  implement : Closure → Effect Z
  property : Bytes → ℕ → Z → Effect Z
  class_constant : Bytes → Z → Effect Z
  create_object : ℕ → Effect Z
  registered : ℕ → Effect Z
  enumeration : Bytes → ℕ → List FunctionEntry → Effect Z
  enum_case : Bytes → Option Discriminant → Effect Z
  observers : Effect Z

-- A registration returns, fails or panics, with the calls made so far.
pub data Ended (Z : Type 0) : Type 0 where
  done : List (Effect Z) → Ended Z
  failed : Error → List (Effect Z) → Ended Z
  panicked : List (Effect Z) → Ended Z

module _ {Z : Type 0} where
  -- What follows a `?`.
  abbrev pub after : Ended Z → (List (Effect Z) → Ended Z) → Ended Z
  after (done w) f = f w
  after (failed e w) f = failed e w
  after (panicked w) f = panicked w

  abbrev pub emit : Effect Z → List (Effect Z) → Ended Z
  emit e w = done (w ++ e ∷ [])

  -- A loop whose body may fail.
  unfoldable pub each {ℓ} :
      {A : Type ℓ} → (A → List (Effect Z) → Ended Z) → List A → List (Effect Z) → Ended Z
  each f [] w = done w
  each f (a ∷ as') w = after (f a w) (each f as')

  -- `expect`
  abbrev pub expected : Ended Z → Ended Z
  expected (done w) = done w
  expected (failed e w) = panicked w
  expected (panicked w) = panicked w

-- `FunctionEntry::end` of src/zend/function.rs
unfoldable pub end : FunctionEntry
end = record { fname = none; handler = none; arg_info = none; num_args = 0; flags = 0 }

-- A method and its flags.
abbrev pub Method : Type 0 → Type 0
Method Z = FunctionBuilder Z × ℕ

-- `method.build().map(...)`, collected.
unfoldable pub build_methods : {Z : Type 0} → Bool → List (Method Z) → Result (List FunctionEntry)
build_methods php83 [] = ok []
build_methods php83 ((method, flags) ∷ methods) = do
  entry ← build php83 method
  entries ← build_methods php83 methods
  ok (record entry { flags = bit_or entry.flags flags } ∷ entries)
