-- ===== src/Array/Table/Map.antt =====
-- `ZendHashTable` as a map: what each operation of src/types/array/mod.rs does to every other lookup.
use ext_php_rs.Prelude.{Option, none, some, [], ◌≡◌, refl, sym, ap, ◌∙◌, arith, if◌then◌else◌}
use mathlib.Core.Path.{subst}
use ext_php_rs.Prelude.Int.{ℤ, IsI64}
use ext_php_rs.Error.{Result, ok, err, ◌>>=◌, map_ok}
use ext_php_rs.Text.Decimal.{to_string}
use ext_php_rs.ArrayKey.{ArrayKey, of_str, of_i64}
use ext_php_rs.ArrayKey.Numeric.{of_str-to_string}
use ext_php_rs.Array.Entries.{
  HashKey, index, name, key_eq, key_eq_iff, lookup, lookup-put, lookup-erase,
}
use ext_php_rs.Array.Zend.{ZendHash, IsLawful, entries, status, Updates, Deletes}
use ext_php_rs.Array.Table.{
  as_ulong, unless_negative, is_some, new, with_capacity, clear, get, get_index, has_key, delete,
  remove, remove_index, write, insert, insert_at_index,
}

-- The key of Zend that a key stands for.
unfoldable pub hash_key : ArrayKey → HashKey
unfolding as_ulong
hash_key (ArrayKey.long i) = index (as_ulong i)
hash_key (ArrayKey.string s) = name s
hash_key (ArrayKey.str s) = name s
hash_key (ArrayKey.zend_string s) = name s.bytes

module _ {V : Type 0} (z : ZendHash V) (l : IsLawful z) where
  pub get-entries :
      (key : ArrayKey) (t : z.Table) → get z key t ≡ lookup (hash_key key) (entries z t)
  unfolding get hash_key
  get-entries (ArrayKey.long i) t = l.index_find-entries t (as_ulong i)
  get-entries (ArrayKey.string s) t = l.str_find-entries t s
  get-entries (ArrayKey.str s) t = l.str_find-entries t s
  get-entries (ArrayKey.zend_string s) t = l.find-entries t s.bytes

  pub has_key-get : (key : ArrayKey) (t : z.Table) → has_key z key t ≡ is_some (get z key t)
  unfolding get has_key
  has_key-get (ArrayKey.long i) t = refl
  has_key-get (ArrayKey.string s) t = refl
  has_key-get (ArrayKey.str s) t = refl
  has_key-get (ArrayKey.zend_string s) t = refl

  pub write-Updates :
      (key : ArrayKey) (v : V) (t : z.Table) → Updates z (hash_key key) v t (write z key v t)
  unfolding write hash_key
  write-Updates (ArrayKey.long i) v t = l.index_update-Updates t (as_ulong i) v
  write-Updates (ArrayKey.string s) v t = l.str_update-Updates t s v
  write-Updates (ArrayKey.str s) v t = l.str_update-Updates t s v
  write-Updates (ArrayKey.zend_string s) v t = l.update-Updates t s.bytes v

  pub delete-Deletes : (key : ArrayKey) (t : z.Table) → Deletes z (hash_key key) t (delete z key t)
  unfolding delete hash_key
  delete-Deletes (ArrayKey.long i) t = l.index_del-Deletes t (as_ulong i)
  delete-Deletes (ArrayKey.string s) t = l.str_del-Deletes t s
  delete-Deletes (ArrayKey.str s) t = l.str_del-Deletes t s
  delete-Deletes (ArrayKey.zend_string s) t = l.del-Deletes t s.bytes

  pub get-write :
      (key j : ArrayKey) (v : V) (t : z.Table)
      → get z j (write z key v t).0
        ≡ (if key_eq (hash_key key) (hash_key j) then some v else get z j t)
  get-write key j v t =
      get-entries j (write z key v t).0
      ∙ ap (lookup (hash_key j)) (write-Updates key v t).0
      ∙ lookup-put (hash_key key) (hash_key j) v (entries z t)
      ∙ ap (λ o. if key_eq (hash_key key) (hash_key j) then some v else o) (sym (get-entries j t))

  pub get-delete :
      (key j : ArrayKey) (t : z.Table)
      → get z j (delete z key t).0
        ≡ (if key_eq (hash_key key) (hash_key j) then none else get z j t)
  get-delete key j t =
      get-entries j (delete z key t).0
      ∙ ap (lookup (hash_key j)) (delete-Deletes key t).0
      ∙ lookup-erase (hash_key key) (hash_key j) (entries z t)
      ∙ ap (λ o. if key_eq (hash_key key) (hash_key j) then none else o) (sym (get-entries j t))

  status-some : (o : Option V) → unless_negative (status o) ≡ (if is_some o then some tt else none)
  status-some none = refl
  status-some (some v) = refl

  pub remove-some :
      (key : ArrayKey) (t : z.Table)
      → (remove z key t).1 ≡ (if has_key z key t then some tt else none)
  unfolding remove
  remove-some key t =
      ap unless_negative ((delete-Deletes key t).1 ∙ ap status (sym (get-entries key t)))
      ∙ status-some (get z key t)
      ∙ ap (λ b. if b then some tt else none) (sym (has_key-get key t))

-- An insertion and a removal, for every key, as a map promises it.
pub record MapLaws {V W : Type 0} (z : ZendHash V) (into_zval : W → Result V) : Type 0 where
  pub get-new : (j : ArrayKey) → get z j (new z) ≡ none
  pub get-clear : (j : ArrayKey) (t : z.Table) → get z j (clear z t) ≡ none
  -- Also where the value cannot be converted: the error is that of the conversion.
  pub get-insert :
      (key j : ArrayKey) (val : W) (t : z.Table)
      → map_ok (get z j) (insert z into_zval key val t)
        ≡ map_ok
            (λ v. if key_eq (hash_key key) (hash_key j) then some v else get z j t)
            (into_zval val)
  pub get-remove :
      (key j : ArrayKey) (t : z.Table)
      → get z j (remove z key t).0
        ≡ (if key_eq (hash_key key) (hash_key j) then none else get z j t)
  pub remove-has_key :
      (key : ArrayKey) (t : z.Table)
      → (remove z key t).1 ≡ (if has_key z key t then some tt else none)
  pub has_key-is_some : (key : ArrayKey) (t : z.Table) → has_key z key t ≡ is_some (get z key t)

module _ {V W : Type 0} (z : ZendHash V) (l : IsLawful z) (into_zval : W → Result V) where
  nil_get : (j : ArrayKey) (t : z.Table) → entries z t ≡ [] → get z j t ≡ none
  unfolding lookup
  nil_get j t e = get-entries z l j t ∙ ap (lookup (hash_key j)) e

  inserted_get :
      (key j : ArrayKey) (t : z.Table) (o : Result V)
      → map_ok (get z j) (do v ← o; ok (write z key v t).0)
        ≡ map_ok (λ v. if key_eq (hash_key key) (hash_key j) then some v else get z j t) o
  inserted_get key j t (ok v) = ap ok (get-write z l key j v t)
  inserted_get key j t (err e) = refl

  -- Where Zend's table keeps its entries as it is documented to, the hash table is a map for keys of
  -- all four kinds: a new or cleared table has nothing, an insertion changes one key and fails only
  -- where the value cannot be converted, a removal takes one key away and returns whether it was there.
  pub table-MapLaws : MapLaws z into_zval
  unfolding new with_capacity clear insert remove
  table-MapLaws = record {
    get-new = λ j. nil_get j (new z) (l.entries-new_array 8);
    get-clear = λ j t. nil_get j (clear z t) (l.entries-clean t);
    get-insert = λ key j val t. inserted_get key j t (into_zval val);
    get-remove = get-delete z l;
    remove-has_key = remove-some z l;
    has_key-is_some = has_key-get z l;
  }

  -- The index operations are those of the integer key.
  pub index-long :
      (i : ℤ) (val : W) (t : z.Table)
      → (get_index z i t ≡ get z (ArrayKey.long i) t)
        × (remove_index z i t ≡ remove z (ArrayKey.long i) t)
        × (insert_at_index z into_zval i val t ≡ insert z into_zval (ArrayKey.long i) val t)
  unfolding get_index get remove_index remove delete insert_at_index insert write
  index-long i val t = (refl, refl, refl)

  get-inserted :
      (key : ArrayKey) (val : W) (v : V) (t t' : z.Table)
      → into_zval val ≡ ok v
      → insert z into_zval key val t ≡ ok t'
      → get z key t' ≡ some v
  unfolding insert
  get-inserted key val v t t' e h =
      let same : (write z key v t).0 ≡ t' = ground (arith, e, h) in
      subst (λ u. get z key u ≡ some v) same
        (get-write z l key key v t
          ∙ ap (λ b. if b then some v else get z key t)
              ((key_eq_iff (hash_key key) (hash_key key)).1 refl))

  -- What is inserted under the decimal text of an `i64` is found under that `i64`, and the other way
  -- round, since both keys are the same number for Zend.
  pub get-insert_text :
      (i : ℤ) (val : W) (v : V) (t t' u' : z.Table)
      → IsI64 i
      → into_zval val ≡ ok v
      → insert z into_zval (of_str (to_string i)) val t ≡ ok t'
      → insert z into_zval (of_i64 i) val t ≡ ok u'
      → (get z (of_i64 i) t' ≡ some v) × (get z (of_str (to_string i)) u' ≡ some v)
  unfolding of_i64
  get-insert_text i val v t t' u' r e h k =
      let same = of_str-to_string i r in
      (
        get-inserted (of_i64 i) val v t t' e (ap (λ a. insert z into_zval a val t) (sym same) ∙ h),
        ap (λ a. get z a u') same ∙ get-inserted (of_i64 i) val v t u' e k,
      )
