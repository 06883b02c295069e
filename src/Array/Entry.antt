-- ===== src/Array/Entry.antt =====
-- src/types/array/entry.rs: the entry of a key in a hash table. An entry owns the table, so an operation
-- on it returns the table that it leaves, and a pointer to a value is the value.
pub mod Laws
use ext_php_rs.Prelude.{ℕ, Bool, true, false, Option, none, some, if◌then◌else◌}
use ext_php_rs.Error.{Error, Result, ok, err, ok_or, ◌>>=◌, map_ok}
use ext_php_rs.ArrayKey.{ArrayKey}
use ext_php_rs.Array.Zend.{ZendHash}
use ext_php_rs.Array.Table.{get, has_key, write, remove}
use ext_php_rs.Array.Table.Map.{hash_key}

module _ {V : Type 0} (z : ZendHash V) where
  open z use {Table, assign}

  -- `enum Entry`; its two structs hold the same.
  pub data Entry : Type 0 where
    occupied : Table → ArrayKey → Entry
    vacant : Table → ArrayKey → Entry

  -- `ZendHashTable::entry`
  unfoldable pub entry : ArrayKey → Table → Entry
  entry key t = if has_key z key t then occupied t key else vacant t key

  unfoldable pub key : Entry → ArrayKey
  key (occupied t k) = k
  key (vacant t k) = k

  -- The find that `get` of an entry and `get_value_mut` choose by the key is that of `ZendHashTable::get`.
  unfoldable pub get_value_mut : ArrayKey → Table → Option V
  get_value_mut k t = get z k t

  -- `into_mut().ok_or(Error::InvalidPointer)`
  unfoldable pub into_mut : Table → ArrayKey → Result (Table × V)
  unfolding get_value_mut
  into_mut t k = map_ok (λ v. (t, v)) (ok_or (get_value_mut k t) Error.invalid_pointer)

  -- The write of `f(value)` through the pointer.
  abbrev pub modify : (V → V) → ArrayKey → Table → Option V → Table
  modify f k t none = t
  modify f k t (some v) = assign t (hash_key k) (f v)

  unfoldable pub and_modify : (V → V) → Entry → Entry
  unfolding get_value_mut
  and_modify f (occupied t k) = occupied (modify f k t (get_value_mut k t)) k
  and_modify f (vacant t k) = vacant t k

  unfoldable pub remove_entry : Table → ArrayKey → Table × ArrayKey × Option V
  remove_entry t k = let value = get z k t in ((remove z k t).0, k, value)

  -- `OccupiedEntry::remove`
  unfoldable pub take_value : Table → ArrayKey → Table × Option V
  take_value t k = let value = get z k t in ((remove z k t).0, value)

module _ {V W : Type 0} (z : ZendHash V) (into_zval : W → Result V) where
  open z use {Table}

  unfoldable pub insert_value : ArrayKey → Table → W → Result (Table × V)
  insert_value k t value = do
    val ← into_zval value
    let updated = write z k val t
    p ← ok_or updated.1 Error.invalid_pointer
    ok (updated.0, p)

  unfoldable pub or_insert : Entry z → W → Result (Table × V)
  unfolding into_mut insert_value
  or_insert (occupied t k) default = into_mut z t k
  or_insert (vacant t k) default = insert_value k t default

  unfoldable pub or_insert_with : Entry z → (Unit {0} → W) → Result (Table × V)
  unfolding into_mut insert_value
  or_insert_with (occupied t k) default = into_mut z t k
  or_insert_with (vacant t k) default = insert_value k t (default tt)

  unfoldable pub or_insert_with_key : Entry z → (ArrayKey → W) → Result (Table × V)
  unfolding into_mut insert_value
  or_insert_with_key (occupied t k) default = into_mut z t k
  or_insert_with_key (vacant t k) default = insert_value k t (default k)

  -- `null` is `Zval::new()`.
  unfoldable pub or_default : W → Entry z → Result (Table × V)
  unfolding into_mut insert_value
  or_default null (occupied t k) = into_mut z t k
  or_default null (vacant t k) = insert_value k t null

  -- `OccupiedEntry::insert`, on the entry's table and key; the old value is a shallow clone.
  unfoldable pub replace : Table → ArrayKey → W → Result (Table × Option V)
  unfolding insert_value
  replace t k value =
      let old = get z k t in map_ok (λ (r : Table × V). (r.0, old)) (insert_value k t value)
