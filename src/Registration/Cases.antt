-- ===== src/Registration/Cases.antt =====
-- The cases of an enum in src/builders/enum_builder.rs have one type.
use ext_php_rs.Prelude.{
  ℕ, true, false, Option, none, some, List, [], ◌∷◌, ◌++◌, ◌≡◌, refl, sym, arith, All, All-append,
  Bytes, if◌then◌else◌,
}
use mathlib.Core.Path.{subst}
use mathlib.Core.Option.{some-injective}
use ext_php_rs.Text.Str.{is_nil, ◌>>=◌}
use ext_php_rs.Prelude.Int.{ℤ}
use ext_php_rs.DataType.{DataType}
use ext_php_rs.Registration.{int, string}
use ext_php_rs.Registration.EnumBuilder.{Case, EnumBuilder, data_type, same_type, case, new_enum}

same_type_lem : (a b : DataType) → same_type a b ≡ true → a ≡ b
same_type_lem a b h = ground arith

first_case :
    (c : Case) (cases : List Case)
    → is_nil cases ≡ true
    → All (λ x. data_type x ≡ data_type c) cases
first_case c [] h = tt
first_case c (x ∷ cases) h = cc

module _ {Z : Type 0} where
  -- Every case has the type of the enum.
  abbrev pub Alike : EnumBuilder Z → Type 0
  Alike b = All (λ c. data_type c ≡ b.datatype) b.cases

  unfoldable pub add_all : List Case → EnumBuilder Z → Option (EnumBuilder Z)
  unfolding case
  add_all [] b = some b
  add_all (c ∷ cs) b = case c b >>= add_all cs

  abbrev with_case : Case → EnumBuilder Z → EnumBuilder Z
  with_case c b = record b { datatype = data_type c; cases = b.cases ++ c ∷ [] }

  with_case-Alike :
      (c : Case) (b : EnumBuilder Z)
      → All (λ x. data_type x ≡ data_type c) b.cases
      → Alike (with_case c b)
  with_case-Alike c b h = All-append (λ x. data_type x ≡ data_type c) b.cases (c ∷ []) h (refl, tt)

  case-Alike : (c : Case) (b b' : EnumBuilder Z) → Alike b → case c b ≡ some b' → Alike b'
  unfolding case
  case-Alike c b b' h e =
      let t : EnumBuilder Z = with_case c b in
      elim (same_type (data_type c) b.datatype)
          as (λ s.
            same_type (data_type c) b.datatype ≡ s
            → (if s then some t else if is_nil b.cases then some t else none) ≡ some b'
            → Alike b') [
              | true ↦ λ s q.
                  let d = sym (same_type_lem (data_type c) b.datatype s) in
                  subst Alike (some-injective _ _ q)
                    (with_case-Alike c b (subst (λ d. All (λ x. data_type x ≡ d) b.cases) d h))
              | false ↦ λ s q.
                  elim (is_nil b.cases)
                      as (λ n.
                        is_nil b.cases ≡ n → (if n then some t else none) ≡ some b' → Alike b') [
                          | true ↦ λ n r.
                              subst Alike (some-injective _ _ r)
                                (with_case-Alike c b (first_case c b.cases n))
                          | false ↦ λ n r. cc
                        ]
                    refl q
            ]
        refl e

  add_all-from :
      (cs : List Case) (b b' : EnumBuilder Z) → Alike b → add_all cs b ≡ some b' → Alike b'
  unfolding add_all
  add_all-from [] b b' h e = subst Alike (some-injective _ _ e) h
  add_all-from (c ∷ cs) b b' h e =
      elim (case c b) as (λ o. case c b ≡ o → (o >>= add_all cs) ≡ some b' → Alike b') [
        | some u ↦ λ p q. add_all-from cs u b' (case-Alike c b u h p) q
        | none ↦ λ p q. cc
      ]
        refl e

-- The case has an integer, a text or no value.
abbrev pub OfType : DataType → Case → Type 0
OfType DataType.long c = (i : ℤ) × (c.discriminant ≡ some (int i))
OfType DataType.string c = (s : Bytes) × (c.discriminant ≡ some (string s))
OfType DataType.undef c = c.discriminant ≡ none
OfType _ c = ⊥

data_type-OfType : (c : Case) → OfType (data_type c) c
unfolding data_type
data_type-OfType c =
    elim c.discriminant
        as (λ o.
          c.discriminant ≡ o
          → OfType
              (elim o [
                | some (int i) ↦ DataType.long
                | some (string s) ↦ DataType.string
                | none ↦ DataType.undef
              ])
              c) [ some (int i) ↦ λ e. (i, e) | some (string s) ↦ λ e. (s, e) | none ↦ λ e. e ]
      refl

All-OfType : (t : DataType) (cs : List Case) → All (λ c. data_type c ≡ t) cs → All (OfType t) cs
All-OfType t [] h = tt
All-OfType t (c ∷ cs) (e, h) = (subst (λ d. OfType d c) e (data_type-OfType c), All-OfType t cs h)

-- However the cases of an enum are added, if no assertion panics the enum's type is that of every case:
-- with the integer type all have an integer, with that of texts all have a text, and with the undefined
-- type none has a value; and it has no other type unless it has no case.
pub add_all-Alike :
    {Z : Type 0} (name : List ℕ) (cs : List Case) (b : EnumBuilder Z)
    → add_all cs (new_enum name) ≡ some b
    → All (OfType b.datatype) b.cases
unfolding new_enum
add_all-Alike name cs b e = All-OfType b.datatype b.cases (add_all-from cs (new_enum name) b tt e)
