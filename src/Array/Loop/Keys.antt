-- ===== src/Array/Loop/Keys.antt =====
-- What the two tests of an array's keys in src/types/array/mod.rs say of the table.
use ext_php_rs.Prelude.{
  ℕ, ◌+◌, ◌<◌, ◌≤◌, Bool, true, false, not, ◌&&◌, List, [], ◌∷◌, ◌≡◌, ◌↔◌, refl, ap, ◌∙◌, arith,
  length, map, All, ==_iff,
}
use ext_php_rs.Prelude.Int.{i64_limit}
use ext_php_rs.ArrayKey.{is_long}
use ext_php_rs.Array.Entries.{HashKey, index, name, key_eq, key_eq_iff}
use ext_php_rs.Array.Zend.{ZendHash, IsLawful, entries}
use ext_php_rs.Array.Cursor.{Cursor, IsLawfulCursor}
use ext_php_rs.Array.Iter.Forward.{to_key, to_item, IsReadable}
use ext_php_rs.Array.Loop.{
  returned, negated, is_other, not_long, not_at, has_numerical_keys, has_sequential_keys,
}
use ext_php_rs.Array.Loop.Laws.{any_of, any-entries}

-- The keys are the numbers from `n` on, in their order.
unfoldable pub IsSequential : {V : Type 0} → ℕ → List (HashKey × V) → Type 0
IsSequential n [] = Unit
IsSequential n ((k, v) ∷ es) = (k ≡ index n) × IsSequential (n + 1) es

abbrev is_index : HashKey → Bool
is_index (index i) = true
is_index (name s) = false

unfoldable pub IsNumerical : {V : Type 0} → HashKey × V → Type 0
IsNumerical (k, v) = is_index k ≡ true

-- An item at `n` has another key than `n` where the key of the slot is another one.
is_other-to_key :
    (n : ℕ) (k : HashKey) → n < i64_limit → (is_other n (to_key k) ≡ false) ↔ (k ≡ index n)
is_other-to_key n (index i) h = ground (arith, ==_iff i n)
is_other-to_key n (name s) h = ground arith

module _ {V : Type 0} where
  numerical : List (HashKey × V) → Bool
  numerical [] = true
  numerical ((k, v) ∷ es) = is_index k && numerical es

  sequential : ℕ → List (HashKey × V) → Bool
  sequential n [] = true
  sequential n ((k, v) ∷ es) = key_eq k (index n) && sequential (n + 1) es

  numerical_iff : (es : List (HashKey × V)) → (numerical es ≡ true) ↔ All IsNumerical es
  unfolding numerical IsNumerical
  numerical_iff [] = ((λ _. tt), λ _. refl)
  numerical_iff ((k, v) ∷ es) = ground (arith, numerical_iff es)

  sequential_iff : (n : ℕ) (es : List (HashKey × V)) → (sequential n es ≡ true) ↔ IsSequential n es
  unfolding sequential IsSequential
  sequential_iff n [] = ((λ _. tt), λ _. refl)
  sequential_iff n ((k, v) ∷ es) = ground (arith, sequential_iff (n + 1) es, key_eq_iff k (index n))

module _ {V D : Type 0} (z : ZendHash V) (c : Cursor D z) (php85 : Bool) (t : z.Table) where
  any_of-not_long :
      (n : ℕ) (es : List (HashKey × V))
      → any_of (not_long z c php85 t) n (map to_item es) ≡ returned (not (numerical es))
  unfolding numerical is_long
  any_of-not_long n [] = refl
  any_of-not_long n ((index i, v) ∷ es) = any_of-not_long (n + 1) es
  any_of-not_long n ((name s, v) ∷ es) = refl

  any_of-not_at :
      (n : ℕ) (es : List (HashKey × V))
      → n + length es ≤ i64_limit
      → any_of (not_at z c php85 t) n (map to_item es) ≡ returned (not (sequential n es))
  unfolding sequential
  any_of-not_at n [] h = refl
  any_of-not_at n ((k, v) ∷ es) h = ground (
    arith,
    is_other-to_key n k,
    key_eq_iff k (index n),
    any_of-not_at (n + 1) es (omega (arith, h)),
  )

  not-not : (b : Bool) → not (not b) ≡ b
  not-not true = refl
  not-not false = refl

module _ {V D : Type 0} (z : ZendHash V) (l : IsLawful z) (c : Cursor D z) (lc : IsLawfulCursor z c)
    (php85 : Bool) (t : z.Table) where
  -- In a hash table whose string keys are UTF-8, `has_numerical_keys` answers whether every key is a
  -- number, and `has_sequential_keys` whether the keys are 0, 1, 2 and so on in the order of the table,
  -- where there are at most 2 ^ 63 of them.
  pub keys-tests :
      (fuel : ℕ)
      → length (entries z t) < fuel
      → length (entries z t) ≤ i64_limit
      → All IsReadable (entries z t)
      → ((b : Bool) × (has_numerical_keys z c php85 t fuel ≡ returned b)
          × ((b ≡ true) ↔ All IsNumerical (entries z t)))
        × ((b : Bool) × (has_sequential_keys z c php85 t fuel ≡ returned b)
            × ((b ≡ true) ↔ IsSequential 0 (entries z t)))
  unfolding has_numerical_keys has_sequential_keys
  keys-tests fuel f m r =
      let es = entries z t in
      let long = any-entries z l c lc php85 t (not_long z c php85 t) fuel f r in
      let at = any-entries z l c lc php85 t (not_at z c php85 t) fuel f r in
      (
        (
          numerical es,
          ap negated (long ∙ any_of-not_long z c php85 t 0 es)
              ∙ ap returned (not-not z c php85 t (numerical es)),
          numerical_iff es,
        ),
        (
          sequential 0 es,
          ap negated (at ∙ any_of-not_at z c php85 t 0 es (omega (arith, m)))
              ∙ ap returned (not-not z c php85 t (sequential 0 es)),
          sequential_iff 0 es,
        ),
      )
