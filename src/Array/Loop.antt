-- ===== src/Array/Loop.antt =====
-- Loops over a hash table: `for` with `?` in its body, and `Iterator::any`, as has_numerical_keys and
-- has_sequential_keys of src/types/array/mod.rs use it. The fuel bounds the calls of `next`.
pub mod Laws
pub mod Keys
use ext_php_rs.Prelude.{
  ℕ, zero, suc, ◌+◌, Bool, true, false, not, List, [], ◌∷◌, ltb, ◌==◌, if◌then◌else◌,
}
use ext_php_rs.Prelude.Int.{ℤ, pos, negsuc, i64_limit}
use ext_php_rs.Error.{Result, ok, err}
use ext_php_rs.ArrayKey.{ArrayKey, is_long}
use ext_php_rs.Array.Zend.{ZendHash}
use ext_php_rs.Array.Cursor.{Cursor}
use ext_php_rs.Array.Iter.{Iter, Step, done, panic, item, new, next}

-- How a loop ends.
pub data Looped (A : Type 0) : Type 0 where
  returned : A → Looped A
  panicked unfinished : Looped A

abbrev pub negated : Looped Bool → Looped Bool
negated (returned b) = returned (not b)
negated panicked = panicked
negated unfinished = unfinished

-- `ArrayKey::Long(i) != k`
abbrev pub is_other : ℕ → ArrayKey → Bool
is_other n (ArrayKey.long (pos i)) = not (i == n)
is_other n (ArrayKey.long (negsuc i)) = true
is_other n (ArrayKey.string s) = true
is_other n (ArrayKey.str s) = true
is_other n (ArrayKey.zend_string s) = true

module _ {V D : Type 0} (z : ZendHash V) (c : Cursor D z) (php85 : Bool) (t : z.Table) where
  -- `for (key, val) in value { … }`, where `body` is what the body does to the collection.
  unfoldable pub for_each :
      {S : Type 0} → (S → ArrayKey × V → Result S) → ℕ → S → Iter → Looped (Result S)
  for_each body zero s it = unfinished
  for_each body (suc fuel) s it =
      let (step, it') = next z c php85 t it in
      elim step [
        | done ↦ returned (ok s)
        | panic ↦ panicked
        | item e ↦ elim (body s e) [ ok s' ↦ for_each body fuel s' it' | err x ↦ returned (err x) ]
      ]

  -- `any`, with a test of the number of the item and of the item, which may panic as well.
  unfoldable pub any : (ℕ → ArrayKey × V → Looped Bool) → ℕ → ℕ → Iter → Looped Bool
  any test zero n it = unfinished
  any test (suc fuel) n it =
      let (step, it') = next z c php85 t it in
      elim step [
        | done ↦ returned false
        | panic ↦ panicked
        | item e ↦ elim (test n e) [
          | returned true ↦ returned true
          | returned false ↦ any test fuel (n + 1) it'
          | panicked ↦ panicked
          | unfinished ↦ unfinished
        ]
      ]

  abbrev pub not_long : ℕ → ArrayKey × V → Looped Bool
  unfolding is_long
  not_long n (k, v) = returned (not (is_long k))

  -- `i64::try_from(i).expect("Integer overflow")`
  abbrev pub not_at : ℕ → ArrayKey × V → Looped Bool
  not_at n (k, v) = if ltb n i64_limit then returned (is_other n k) else panicked

  unfoldable pub has_numerical_keys : ℕ → Looped Bool
  has_numerical_keys fuel = negated (any not_long fuel 0 (new z c php85 t))

  unfoldable pub has_sequential_keys : ℕ → Looped Bool
  has_sequential_keys fuel = negated (any not_at fuel 0 (new z c php85 t))
