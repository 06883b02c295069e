-- ===== src/DataType/Tags.antt =====
-- Which type `From<u32>` reads from a number.
use ext_php_rs.Prelude.{
  ℕ, ◌<◌, ◌%◌, ◌≡◌, refl, arith, none, [], ◌∷◌, get_or, ◌∙◌, ◌↔◌, some, AllBelow, AllBelow-at,
}
use ext_php_rs.Prelude.Bits.{bit_and_low4}
use ext_php_rs.DataType.{DataType, as_u32, has, of_u32}

-- The type that each value of the low four bits stands for.
abbrev pub type_of_tag : ℕ → DataType
type_of_tag = λ tag.
    get_or
      (DataType.undef
        ∷ DataType.null
        ∷ DataType.bool_false
        ∷ DataType.bool_true
        ∷ DataType.long
        ∷ DataType.double
        ∷ DataType.string
        ∷ DataType.array
        ∷ DataType.object none
        ∷ DataType.resource
        ∷ DataType.reference
        ∷ DataType.constant_expression
        ∷ DataType.indirect
        ∷ DataType.ptr
        ∷ [])
      tag DataType.void

has_low4 : (value c : ℕ) → c < 16 → has value c ≡ has (value % 16) c
unfolding has
has_low4 value c h = rw (bit_and_low4 value c h)

of_u32_low4 : (value : ℕ) → of_u32 value ≡ of_u32 (value % 16)
unfolding of_u32
of_u32_low4 value = rw (
  has_low4 value 14 (omega arith),
  has_low4 value 13 (omega arith),
  has_low4 value 12 (omega arith),
  has_low4 value 11 (omega arith),
  has_low4 value 10 (omega arith),
  has_low4 value 9 (omega arith),
  has_low4 value 7 (omega arith),
  has_low4 value 6 (omega arith),
  has_low4 value 5 (omega arith),
  has_low4 value 4 (omega arith),
  has_low4 value 3 (omega arith),
  has_low4 value 2 (omega arith),
  has_low4 value 1 (omega arith),
  has_low4 value 8 (omega arith),
  has_low4 value 0 (omega arith),
)

of_u32_table : AllBelow (λ tag. of_u32 tag ≡ type_of_tag tag) 16
unfolding of_u32 has
of_u32_table = (
  refl,
  (
    refl,
    (
      refl,
      (
        refl,
        (
          refl,
          (
            refl,
            (refl, (refl, (refl, (refl, (refl, (refl, (refl, (refl, (refl, (refl, tt)))))))))),
          ),
        ),
      ),
    ),
  ),
)

-- Whatever the upper bits are, the low four bits of a type number alone decide the type that is read.
pub of_u32-type_of_tag : (value : ℕ) → of_u32 value ≡ type_of_tag (value % 16)
of_u32-type_of_tag value =
    of_u32_low4 value
    ∙ AllBelow-at (λ tag. of_u32 tag ≡ type_of_tag tag) 16 (value % 16) of_u32_table (omega arith)

-- The types that a zval's number can tell from the others.
abbrev pub IsReadable : DataType → Type 0
IsReadable DataType.reference = ⊥
IsReadable DataType.callable = ⊥
IsReadable DataType.iterable = ⊥
IsReadable DataType.mixed = ⊥
IsReadable DataType.bool = ⊥
IsReadable (DataType.object (some _)) = ⊥
IsReadable _ = Unit

-- Reading the number of a type gives the type back exactly when it is not a reference, a callable,
-- an iterable, `mixed`, `bool` or the type of a named class.
pub of_u32-as_u32 : (t : DataType) → (of_u32 (as_u32 t) ≡ t) ↔ IsReadable t
unfolding of_u32 has as_u32
of_u32-as_u32 DataType.undef = (λ _. tt, λ _. refl)
of_u32-as_u32 DataType.null = (λ _. tt, λ _. refl)
of_u32-as_u32 DataType.bool_false = (λ _. tt, λ _. refl)
of_u32-as_u32 DataType.bool_true = (λ _. tt, λ _. refl)
of_u32-as_u32 DataType.long = (λ _. tt, λ _. refl)
of_u32-as_u32 DataType.double = (λ _. tt, λ _. refl)
of_u32-as_u32 DataType.string = (λ _. tt, λ _. refl)
of_u32-as_u32 DataType.array = (λ _. tt, λ _. refl)
of_u32-as_u32 DataType.resource = (λ _. tt, λ _. refl)
of_u32-as_u32 DataType.constant_expression = (λ _. tt, λ _. refl)
of_u32-as_u32 DataType.void = (λ _. tt, λ _. refl)
of_u32-as_u32 DataType.ptr = (λ _. tt, λ _. refl)
of_u32-as_u32 DataType.indirect = (λ _. tt, λ _. refl)
of_u32-as_u32 (DataType.object none) = (λ _. tt, λ _. refl)
of_u32-as_u32 (DataType.object (some c)) = (λ e. cc, λ h. absurd h)
of_u32-as_u32 DataType.reference = (λ e. cc, λ h. absurd h)
of_u32-as_u32 DataType.callable = (λ e. cc, λ h. absurd h)
of_u32-as_u32 DataType.iterable = (λ e. cc, λ h. absurd h)
of_u32-as_u32 DataType.mixed = (λ e. cc, λ h. absurd h)
of_u32-as_u32 DataType.bool = (λ e. cc, λ h. absurd h)
