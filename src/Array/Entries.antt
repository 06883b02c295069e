-- ===== src/Array/Entries.antt =====
-- The abstract view of a PHP array, an ordered association list, with its laws. No code of the
-- repository is modelled here.
use ext_php_rs.Prelude.{
  ℕ, Bool, true, false, Option, none, some, [], ◌∷◌, ◌++◌, List, ◌==◌, ◌≡◌, ◌↔◌, refl, arith,
  if◌then◌else◌, Bytes, text_eq, text_eq_iff, ==_iff,
}

-- A key as Zend stores it: an unsigned number, or the bytes of a string.
pub data HashKey : Type 0 where
  index : ℕ → HashKey
  name : Bytes → HashKey

abbrev pub key_eq : HashKey → HashKey → Bool
key_eq (index i) (index j) = i == j
key_eq (index i) (name s) = false
key_eq (name s) (index j) = false
key_eq (name s) (name t) = text_eq s t

pub key_eq_iff : (j k : HashKey) → (key_eq j k ≡ true) ↔ (j ≡ k)
key_eq_iff (index i) (index j) = ground (arith, ==_iff i j)
key_eq_iff (index i) (name s) = ground arith
key_eq_iff (name s) (index j) = ground arith
key_eq_iff (name s) (name t) = ground (arith, text_eq_iff s t)

module _ {V : Type 0} where
  unfoldable pub lookup : HashKey → List (HashKey × V) → Option V
  lookup k [] = none
  lookup k ((j, v) ∷ es) = if key_eq j k then some v else lookup k es

  -- A new value stands where the old one stood, or else at the end.
  unfoldable pub put : HashKey → V → List (HashKey × V) → List (HashKey × V)
  put k v [] = (k, v) ∷ []
  put k v ((j, w) ∷ es) = if key_eq j k then (j, v) ∷ es else (j, w) ∷ put k v es

  unfoldable pub erase : HashKey → List (HashKey × V) → List (HashKey × V)
  erase k [] = []
  erase k ((j, w) ∷ es) = let rest = erase k es in if key_eq j k then rest else (j, w) ∷ rest

  pub lookup-put :
      (k j : HashKey) (v : V) (es : List (HashKey × V))
      → lookup j (put k v es) ≡ (if key_eq k j then some v else lookup j es)
  unfolding lookup put
  lookup-put k j v [] = refl
  lookup-put k j v ((i, w) ∷ es) =
      ground (arith, key_eq_iff k j, key_eq_iff i k, key_eq_iff i j, lookup-put k j v es)

  pub lookup-erase :
      (k j : HashKey) (es : List (HashKey × V))
      → lookup j (erase k es) ≡ (if key_eq k j then none else lookup j es)
  unfolding lookup erase
  lookup-erase k j [] = ground arith
  lookup-erase k j ((i, w) ∷ es) =
      ground (arith, key_eq_iff k j, key_eq_iff i k, key_eq_iff i j, lookup-erase k j es)

  -- A key that is not there yet goes to the end.
  pub put-append :
      (k : HashKey) (v : V) (es : List (HashKey × V))
      → lookup k es ≡ none
      → put k v es ≡ es ++ (k, v) ∷ []
  unfolding lookup put
  put-append k v [] h = refl
  put-append k v ((j, w) ∷ es) h = ground (arith, put-append k v es)

  pub lookup-append :
      (k : HashKey) (es fs : List (HashKey × V))
      → lookup k (es ++ fs) ≡ elim (lookup k es) [ none ↦ lookup k fs | some v ↦ some v ]
  unfolding lookup
  lookup-append k [] fs = refl
  lookup-append k ((j, w) ∷ es) fs = ground (arith, lookup-append k es fs)
