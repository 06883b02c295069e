-- ===== src/Array/Convert.antt =====
-- src/types/array/conversions: the conversions between hash tables and Rust's collections, and
-- `FromIterator` in src/types/array/iterators.rs. A collection that is not a list is a type with an
-- empty value and `insert`; its `into_iter` is the list that it gives. `FromZval::from_zval`,
-- `IntoZval::into_zval` and the conversions of the keys are parameters.
pub mod Lists
pub mod RoundTrip
pub mod Pairs
use ext_php_rs.Prelude.{
  ℕ, suc, ◌+◌, ◌^◌, Bool, Option, none, some, List, [], ◌∷◌, ◌++◌, ltb, if◌then◌else◌, length,
  Bytes,
}
use ext_php_rs.Prelude.Int.{ℤ}
use ext_php_rs.Error.{Error, Result, ok, err, ok_or, ◌>>=◌}
use ext_php_rs.ArrayKey.{ArrayKey, of_u64, of_str}
use ext_php_rs.Zval.Value.{Zval, get_type}
use ext_php_rs.Array.Zend.{ZendHash}
use ext_php_rs.Array.Cursor.{Cursor}
use ext_php_rs.Array.Iter
use ext_php_rs.Array.Table.{new, with_capacity, insert, insert_at_index, push}
use ext_php_rs.Array.Loop.{Looped, for_each}

-- `V::from_zval(val).ok_or_else(|| Error::ZvalConversion(val.get_type()))`
abbrev pub from_zval_or {ℓ} : {D : Type 0} {T : Type ℓ} → (Zval D → Option T) → Zval D → Result T
unfolding get_type
from_zval_or from_zval val = ok_or (from_zval val) (Error.zval_conversion (get_type val))

module _ {D T : Type 0} (z : ZendHash (Zval D)) (c : Cursor D z) (php85 : Bool)
    (from_zval : Zval D → Option T) where
  -- `TryFrom<&ZendHashTable> for Vec<T>`
  unfoldable pub list_of_table : ℕ → z.Table → Looped (Result (List T))
  list_of_table fuel t =
      for_each z c php85 t (λ vec (key, val). do v ← from_zval_or from_zval val; ok (vec ++ v ∷ []))
        fuel [] (Iter.new z c php85 t)

  -- `for Vec<(ArrayKey, V)>`
  unfoldable pub keyed_of_table : ℕ → z.Table → Looped (Result (List (ArrayKey × T)))
  keyed_of_table fuel t =
      for_each z c php85 t
        (λ vec (key, val). do v ← from_zval_or from_zval val; ok (vec ++ (key, v) ∷ [])) fuel []
        (Iter.new z c php85 t)

  -- `for HashSet<V>`, and likewise `BTreeSet` and `IndexSet`
  unfoldable pub set_of_table : {S : Type 0} → S → (T → S → S) → ℕ → z.Table → Looped (Result S)
  set_of_table empty insert fuel t =
      for_each z c php85 t (λ set (key, val). do v ← from_zval_or from_zval val; ok (insert v set))
        fuel empty (Iter.new z c php85 t)

  module _ {K : Type 0} (try_into : ArrayKey → Result K) where
    -- `for Vec<(K, V)>`
    unfoldable pub pairs_of_table : ℕ → z.Table → Looped (Result (List (K × T)))
    pairs_of_table fuel t =
        for_each z c php85 t
          (λ vec (key, val). do
            k ← try_into key
            v ← from_zval_or from_zval val
            ok (vec ++ (k, v) ∷ []))
          fuel [] (Iter.new z c php85 t)

    -- `for HashMap<K, V, H>`, and likewise `BTreeMap` and `IndexMap`
    unfoldable pub map_of_table :
        {M : Type 0} → M → (K → T → M → M) → ℕ → z.Table → Looped (Result M)
    map_of_table empty insert fuel t =
        for_each z c php85 t
          (λ hm (key, val). do k ← try_into key; v ← from_zval_or from_zval val; ok (insert k v hm))
          fuel empty (Iter.new z c php85 t)

-- `with_capacity(value.len().try_into().map_err(|_| Error::IntegerOverflow)?)`
abbrev pub capacity : ℕ → Result ℕ
capacity n = if ltb n (2 ^ 32) then ok n else err Error.integer_overflow

module _ {V W : Type 0} (z : ZendHash V) (into_zval : W → Result V) where
  -- `for val in value { ht.push(val)?; }`
  unfoldable pub push_all : List W → z.Table → Result z.Table
  push_all [] t = ok t
  push_all (val ∷ value) t = push z into_zval val t >>= push_all value

  -- `TryFrom<Vec<T>> for ZBox<ZendHashTable>`
  unfoldable pub table_of_list : List W → Result z.Table
  table_of_list value = capacity (length value) >>= λ size. push_all value (with_capacity z size)

  -- `for (k, v) in value.into_iter().enumerate() { ht.insert(k, v)?; }`
  unfoldable pub insert_numbered : ℕ → List W → z.Table → Result z.Table
  insert_numbered k [] t = ok t
  insert_numbered k (v ∷ value) t =
      insert z into_zval (of_u64 k) v t >>= insert_numbered (k + 1) value

  -- `TryFrom<HashSet<V, H>>`, and likewise `BTreeSet` and `IndexSet`
  unfoldable pub table_of_set : List W → Result z.Table
  table_of_set value =
      capacity (length value) >>= λ size. insert_numbered 0 value (with_capacity z size)

  module _ {K : Type 0} (into : K → ArrayKey) where
    -- `for (k, v) in value { ht.insert(k, v)?; }`
    unfoldable pub insert_all : List (K × W) → z.Table → Result z.Table
    insert_all [] t = ok t
    insert_all ((k, v) ∷ value) t = insert z into_zval (into k) v t >>= insert_all value

    -- `TryFrom<Vec<(K, V)>>`, and likewise the three maps
    unfoldable pub table_of_pairs : List (K × W) → Result z.Table
    table_of_pairs value =
        capacity (length value) >>= λ size. insert_all value (with_capacity z size)

-- `let _ = …;` on a call that fails without a change.
abbrev pub or_same {ℓ} : {T : Type ℓ} → T → Result T → T
or_same t (ok t') = t'
or_same t (err e) = t

module _ {V : Type 0} (z : ZendHash V) (into_zval : V → Result V) where
  unfoldable pub push_each : List V → z.Table → z.Table
  push_each [] t = t
  push_each (item ∷ iter) t = push_each iter (or_same t (push z into_zval item t))

  unfoldable pub insert_each_at : List (ℤ × V) → z.Table → z.Table
  insert_each_at [] t = t
  insert_each_at ((key, val) ∷ iter) t =
      insert_each_at iter (or_same t (insert_at_index z into_zval key val t))

  unfoldable pub insert_each : List (Bytes × V) → z.Table → z.Table
  insert_each [] t = t
  insert_each ((key, val) ∷ iter) t =
      insert_each iter (or_same t (insert z into_zval (of_str key) val t))

  -- `FromIterator<Zval>`; `into_zval` is that of `Zval`.
  unfoldable pub of_zvals : List V → z.Table
  of_zvals iter = push_each iter (new z)

  -- `FromIterator<(i64, Zval)>`
  unfoldable pub of_indexed : List (ℤ × V) → z.Table
  of_indexed iter = insert_each_at iter (new z)

  -- `FromIterator<(&str, Zval)>`
  unfoldable pub of_named : List (Bytes × V) → z.Table
  of_named iter = insert_each iter (new z)
