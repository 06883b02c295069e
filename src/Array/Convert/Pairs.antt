-- ===== src/Array/Convert/Pairs.antt =====
-- Pairs of a key and a value that are converted to a hash table and back.
use ext_php_rs.Prelude.{
  ℕ, ◌<◌, ◌^◌, Bool, true, false, Option, none, some, List, [], ◌∷◌, ◌++◌, length, ◌≡◌, refl, sym,
  ap, ◌∙◌, arith, map, All, append_assoc, append-nil,
}
use mathlib.Core.Path.{subst}
use ext_php_rs.Prelude.Int.{ℤ, pos, negsuc, IsI64}
use ext_php_rs.Error.{Result, ok, ◌>>=◌}
use ext_php_rs.ArrayKey.{ArrayKey, of_i64, to_i64}
use ext_php_rs.Zval.Value.{Zval, get_type}
use ext_php_rs.Array.Entries.{HashKey, key_eq, lookup}
use ext_php_rs.Array.Zend.{ZendHash, IsLawful, entries}
use ext_php_rs.Array.Cursor.{Cursor, IsLawfulCursor}
use ext_php_rs.Array.Iter.Forward.{to_key, to_item, is_readable, IsReadable}
use ext_php_rs.Array.Table.{as_ulong, with_capacity}
use ext_php_rs.Array.Table.Map.{hash_key}
use ext_php_rs.Array.Table.Fresh.{insert-append, lookup-snoc}
use ext_php_rs.Array.Loop.{returned, for_each}
use ext_php_rs.Array.Loop.Laws.{for_each-entries, try_fold}
use ext_php_rs.Array.Convert.{from_zval_or, pairs_of_table, insert_all, table_of_pairs}
use ext_php_rs.Array.Convert.Lists.{capacity_ok}

module _ {K W V : Type 0} (into : K → ArrayKey) (enc : W → V) where
  abbrev stored : K × W → HashKey × V
  stored (k, w) = (hash_key (into k), enc w)

  -- Two pairs with keys that Zend tells apart, and all pairs of a list.
  abbrev Apart : K × W → K × W → Type 0
  Apart p q = key_eq (stored p).0 (stored q).0 ≡ false

  unfoldable pub AllApart : List (K × W) → Type 0
  AllApart [] = Unit
  AllApart (p ∷ ps) = All (Apart p) ps × AllApart ps

  snoc_fresh :
      (p : K × W) (ps : List (K × W)) (es : List (HashKey × V))
      → All (Apart p) ps
      → All (λ q. lookup (stored q).0 es ≡ none) ps
      → All (λ q. lookup (stored q).0 (es ++ stored p ∷ []) ≡ none) ps
  snoc_fresh p [] es a f = tt
  snoc_fresh p (q ∷ ps) es a f =
      (lookup-snoc (stored q).0 (stored p).0 (stored p).1 es f.0 a.0, snoc_fresh p ps es a.1 f.1)

  none_fresh : (ps : List (K × W)) → All (λ q. lookup {V = V} (stored q).0 [] ≡ none) ps
  unfolding lookup
  none_fresh [] = tt
  none_fresh (p ∷ ps) = (refl, none_fresh ps)

  module _ (z : ZendHash V) (l : IsLawful z) (into_zval : W → Result V) where
    insert_all-entries :
        (ps : List (K × W)) (t : z.Table)
        → AllApart ps
        → All (λ q. lookup (stored q).0 (entries z t) ≡ none) ps
        → All (λ q. into_zval q.1 ≡ ok (enc q.1)) ps
        → (t' : z.Table) × (insert_all z into_zval into ps t ≡ ok t')
          × (entries z t' ≡ entries z t ++ map stored ps)
    unfolding insert_all AllApart
    insert_all-entries [] t d f a = (t, refl, sym (append-nil (entries z t)))
    insert_all-entries ((k, w) ∷ ps) t d f a =
        let (u, done, here) = insert-append z l into_zval (into k) w (enc w) t a.0 f.0 in
        let more =
          insert_all-entries ps u d.1
            (subst (λ es. All (λ q. lookup (stored q).0 es ≡ none) ps) (sym here)
              (snoc_fresh (k, w) ps (entries z t) d.0 f.1))
            a.1 in
        (
          more.0,
          rw done more.1,
          more.2 ∙ ap (λ es. es ++ map stored ps) here ∙ append_assoc (entries z t) _ _,
        )

    table_of_pairs-entries :
        (ps : List (K × W))
        → length ps < 2 ^ 32
        → AllApart ps
        → All (λ q. into_zval q.1 ≡ ok (enc q.1)) ps
        → (t : z.Table) × (table_of_pairs z into_zval into ps ≡ ok t)
          × (entries z t ≡ map stored ps)
    unfolding table_of_pairs with_capacity
    table_of_pairs-entries ps h d a =
        let empty = l.entries-new_array (length ps) in
        let (t, done, es) =
          insert_all-entries ps (with_capacity z (length ps)) d
            (subst (λ es. All (λ q. lookup (stored q).0 es ≡ none) ps) (sym empty) (none_fresh ps))
            a in
        (
          t,
          rw (capacity_ok z l into_zval enc (length ps) h) done,
          es ∙ ap (λ xs. xs ++ map stored ps) empty,
        )

module _ {K D T : Type 0} (from_zval : Zval D → Option T) (try_into : ArrayKey → Result K) where
  -- The body of the loop into a list of pairs.
  abbrev paired : List (K × T) → ArrayKey × Zval D → Result (List (K × T))
  unfolding get_type
  paired vec (key, val) = do
    k ← try_into key
    v ← from_zval_or from_zval val
    ok (vec ++ (k, v) ∷ [])

  -- A pair that is read back.
  unfoldable pub Returns : (K → ArrayKey) → (T → Zval D) → K × T → Type 0
  Returns into enc (k, w) =
      (is_readable (hash_key (into k)) ≡ true)
      × (try_into (to_key (hash_key (into k))) ≡ ok k)
      × (from_zval (enc w) ≡ some w)

  try_fold-paired :
      (into : K → ArrayKey) (enc : T → Zval D) (ps vec : List (K × T))
      → All (Returns into enc) ps
      → try_fold paired vec (map to_item (map (stored into enc) ps)) ≡ ok (vec ++ ps)
  unfolding paired Returns
  try_fold-paired into enc [] vec a = ap ok (sym (append-nil vec))
  try_fold-paired into enc ((k, w) ∷ ps) vec a =
      rw (a.0.1, a.0.2)
        (try_fold-paired into enc ps (vec ++ (k, w) ∷ []) a.1
          ∙ ap ok (append_assoc vec ((k, w) ∷ []) ps))

  stored-IsReadable :
      (into : K → ArrayKey) (enc : T → Zval D) (ps : List (K × T))
      → All (Returns into enc) ps
      → All IsReadable (map (stored into enc) ps)
  unfolding Returns
  stored-IsReadable into enc [] a = tt
  stored-IsReadable into enc ((k, w) ∷ ps) a = (a.0.0, stored-IsReadable into enc ps a.1)

  length-stored :
      (into : K → ArrayKey) (enc : T → Zval D) (ps : List (K × T))
      → length (map (stored into enc) ps) ≡ length ps
  length-stored into enc [] = refl
  length-stored into enc (p ∷ ps) = omega (arith, length-stored into enc ps)

module _ {D T K : Type 0} (z : ZendHash (Zval D)) (l : IsLawful z) (c : Cursor D z)
    (lc : IsLawfulCursor z c) (php85 : Bool) where
  -- Fewer than 2 ^ 32 pairs, whose keys Zend tells apart, are converted to a hash table without an
  -- error, and the table back to the same pairs in the same order, where each key and value alone is
  -- read back as it was.
  pub pairs_of_table-table_of_pairs :
      (from_zval : Zval D → Option T) (into_zval : T → Result (Zval D)) (enc : T → Zval D)
      (try_into : ArrayKey → Result K) (into : K → ArrayKey) (ps : List (K × T)) (fuel : ℕ)
      → length ps < 2 ^ 32
      → length ps < fuel
      → AllApart into enc ps
      → All (λ q. into_zval q.1 ≡ ok (enc q.1)) ps
      → All (Returns from_zval try_into into enc) ps
      → (t : z.Table) × (table_of_pairs z into_zval into ps ≡ ok t)
        × (pairs_of_table z c php85 from_zval try_into fuel t ≡ returned (ok ps))
  unfolding pairs_of_table for_each paired
  pairs_of_table-table_of_pairs from_zval into_zval enc try_into into ps fuel h f d a r =
      let (t, done, es) = table_of_pairs-entries into enc z l into_zval ps h d a in
      (
        t,
        done,
        for_each-entries z l c lc php85 t (paired from_zval try_into) fuel []
              (omega (arith, ap length es, length-stored from_zval try_into into enc ps))
              (subst (All IsReadable) (sym es) (stored-IsReadable from_zval try_into into enc ps r))
            ∙ ap (λ xs. returned (try_fold (paired from_zval try_into) [] (map to_item xs))) es
            ∙ ap returned (try_fold-paired from_zval try_into into enc ps [] r),
      )

-- Every `i64` is read back from the number that Zend stores.
pub to_i64-of_i64 : (i : ℤ) → IsI64 i → to_i64 (to_key (hash_key (of_i64 i))) ≡ ok i
unfolding to_i64 of_i64 hash_key as_ulong
to_i64-of_i64 (pos n) h = ground arith
to_i64-of_i64 (negsuc n) h = ground arith
