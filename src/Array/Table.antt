-- ===== src/Array/Table.antt =====
-- src/types/array/mod.rs: the operations of `ZendHashTable`. Each is a `match` on the key, and calls one
-- of Zend's functions. `W` is the type of the values that are written, and `into_zval` their
-- conversion (`IntoZval::into_zval`), which may fail. The reference counts are those of
-- `Zval.Write`: `val.release()` only keeps a value that the table has taken over from being dropped.
pub mod Map
pub mod Fresh
use Prim.Native.Nat.{bit_and}
use ext_php_rs.ZvalTypeFlags.{immutable}
use ext_php_rs.Prelude.{
  ℕ, ◌-◌, ◌%◌, ◌/◌, ◌^◌, Bool, true, false, not, Option, none, some, [], ◌∷◌, List, ◌==◌, ltb,
  if◌then◌else◌, Bytes,
}
use ext_php_rs.Prelude.Int.{ℤ, pos, negsuc}
use ext_php_rs.Error.{Error, Result, ok, err, ◌>>=◌}
use ext_php_rs.ArrayKey.{ArrayKey}
use ext_php_rs.Array.Entries.{HashKey, index, name}
use ext_php_rs.Array.Zend.{ZendHash}

-- `index as zend_ulong`
unfoldable pub as_ulong : ℤ → ℕ
as_ulong (pos n) = n % 2 ^ 64
as_ulong (negsuc n) = 2 ^ 64 - 1 - n % 2 ^ 64

-- `if result < 0 { None } else { Some(()) }`
abbrev pub unless_negative : ℤ → Option (Unit {0})
unless_negative (pos n) = some tt
unless_negative (negsuc n) = none

-- `HT_MIN_SIZE`
abbrev pub ht_min_size : ℕ
ht_min_size = 8

abbrev pub is_some {ℓ} : {A : Type ℓ} → Option A → Bool
is_some none = false
is_some (some a) = true

-- `is_immutable`, on the word `gc.u.type_info`: `GC_FLAGS_SHIFT` is 0, and `GC_FLAGS_MASK` 1008.
unfoldable pub is_immutable : ℕ → Bool
is_immutable gc_type_info =
    let gc_flags = bit_and (gc_type_info / 2 ^ 0) (1008 / 2 ^ 0) in
    not (bit_and gc_flags immutable == 0)

module _ {V : Type 0} (z : ZendHash V) where
  open z use {
    Table, new_array, array_count, clean, index_find, str_find, find, index_update, str_update,
    update, next_index_insert, index_del, str_del, del,
  }

  unfoldable pub with_capacity : ℕ → Table
  with_capacity size = new_array size

  unfoldable pub new : Table
  unfolding with_capacity
  new = with_capacity ht_min_size

  unfoldable pub len : Table → ℕ
  len t = array_count t

  unfoldable pub is_empty : Table → Bool
  unfolding len
  is_empty t = len t == 0

  unfoldable pub clear : Table → Table
  clear t = clean t

  -- `get`, and `get_mut`, which returns the same pointer to write to.
  unfoldable pub get : ArrayKey → Table → Option V
  unfolding as_ulong
  get (ArrayKey.long i) t = index_find t (as_ulong i)
  get (ArrayKey.string key) t = str_find t key
  get (ArrayKey.str key) t = str_find t key
  get (ArrayKey.zend_string key) t = find t key.bytes

  unfoldable pub get_index : ℤ → Table → Option V
  unfolding as_ulong
  get_index key t = index_find t (as_ulong key)

  unfoldable pub has_key : ArrayKey → Table → Bool
  unfolding as_ulong
  has_key (ArrayKey.long i) t = is_some (index_find t (as_ulong i))
  has_key (ArrayKey.string key) t = is_some (str_find t key)
  has_key (ArrayKey.str key) t = is_some (str_find t key)
  has_key (ArrayKey.zend_string key) t = is_some (find t key.bytes)

  -- The deletion that `remove` chooses by the key.
  unfoldable pub delete : ArrayKey → Table → Table × ℤ
  unfolding as_ulong
  delete (ArrayKey.long i) t = index_del t (as_ulong i)
  delete (ArrayKey.string key) t = str_del t key
  delete (ArrayKey.str key) t = str_del t key
  delete (ArrayKey.zend_string key) t = del t key.bytes

  unfoldable pub remove : ArrayKey → Table → Table × Option (Unit {0})
  unfolding delete
  remove key t = let (t', result) = delete key t in (t', unless_negative result)

  unfoldable pub remove_index : ℤ → Table → Table × Option (Unit {0})
  unfolding as_ulong
  remove_index key t = let (t', result) = index_del t (as_ulong key) in (t', unless_negative result)

  -- The update that `insert` and the entries choose by the key.
  unfoldable pub write : ArrayKey → V → Table → Table × Option V
  unfolding as_ulong
  write (ArrayKey.long i) val t = index_update t (as_ulong i) val
  write (ArrayKey.string key) val t = str_update t key val
  write (ArrayKey.str key) val t = str_update t key val
  write (ArrayKey.zend_string key) val t = update t key.bytes val

  module _ {W : Type 0} (into_zval : W → Result V) where
    unfoldable pub insert : ArrayKey → W → Table → Result Table
    unfolding write
    insert key val t = do v ← into_zval val; ok (write key v t).0

    unfoldable pub insert_at_index : ℤ → W → Table → Result Table
    unfolding as_ulong
    insert_at_index key val t = do v ← into_zval val; ok (index_update t (as_ulong key) v).0

    unfoldable pub push : W → Table → Result Table
    push val t = do v ← into_zval val; ok (next_index_insert t v).0
