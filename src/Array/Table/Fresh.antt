-- ===== src/Array/Table/Fresh.antt =====
-- The insertion of a key that is not there yet.
use ext_php_rs.Prelude.{none, List, [], ◌∷◌, ◌++◌, false, ◌≡◌, refl, ◌∙◌}
use ext_php_rs.Error.{Result, ok}
use ext_php_rs.ArrayKey.{ArrayKey}
use ext_php_rs.Array.Entries.{HashKey, key_eq, lookup, put-append, lookup-append}
use ext_php_rs.Array.Zend.{ZendHash, IsLawful, entries}
use ext_php_rs.Array.Table.{insert, write}
use ext_php_rs.Array.Table.Map.{hash_key, write-Updates}

module _ {V W : Type 0} (z : ZendHash V) (l : IsLawful z) (into_zval : W → Result V) where
  pub insert-append :
      (key : ArrayKey) (w : W) (v : V) (t : z.Table)
      → into_zval w ≡ ok v
      → lookup (hash_key key) (entries z t) ≡ none
      → (t' : z.Table) × (insert z into_zval key w t ≡ ok t')
        × (entries z t' ≡ entries z t ++ (hash_key key, v) ∷ [])
  unfolding insert
  insert-append key w v t e h = (
    (write z key v t).0,
    rw e refl,
    (write-Updates z l key v t).0 ∙ put-append (hash_key key) v (entries z t) h,
  )

module _ {V : Type 0} where
  pub lookup-snoc :
      (j k : HashKey) (v : V) (es : List (HashKey × V))
      → lookup j es ≡ none
      → key_eq k j ≡ false
      → lookup j (es ++ (k, v) ∷ []) ≡ none
  unfolding lookup
  lookup-snoc j k v es h e = lookup-append j es ((k, v) ∷ []) ∙ rw (h, e) refl
