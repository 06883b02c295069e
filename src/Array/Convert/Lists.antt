-- ===== src/Array/Convert/Lists.antt =====
-- A list that is converted to a hash table and back, and a set in the place of the list.
use ext_php_rs.Prelude.{
  ℕ, ◌+◌, ◌<◌, ◌≤◌, ◌^◌, none, List, [], ◌∷◌, ◌++◌, length, ◌≡◌, refl, sym, ap, ◌∙◌, arith, All,
  append_assoc, append-nil, ==_iff,
}
use ext_php_rs.Prelude.Int.{i64_limit}
use ext_php_rs.Error.{Result, ok}
use ext_php_rs.ArrayKey.{of_u64}
use ext_php_rs.Array.Entries.{HashKey, index, lookup}
use ext_php_rs.Array.Zend.{ZendHash, IsLawful, entries}
use ext_php_rs.Array.Iter.Forward.{IsReadable}
use ext_php_rs.Array.Table.{with_capacity, push, as_ulong}
use ext_php_rs.Array.Table.Map.{hash_key}
use ext_php_rs.Array.Table.Fresh.{insert-append, lookup-snoc}
use ext_php_rs.Array.Convert.{capacity, push_all, table_of_list, insert_numbered, table_of_set}

module _ {V W : Type 0} (enc : W → V) where
  -- The values under the numbers from `n` on.
  unfoldable pub numbered : ℕ → List W → List (HashKey × V)
  numbered n [] = []
  numbered n (w ∷ ws) = (index n, enc w) ∷ numbered (n + 1) ws

  pub length-numbered : (n : ℕ) (ws : List W) → length (numbered n ws) ≡ length ws
  unfolding numbered
  length-numbered n [] = refl
  length-numbered n (w ∷ ws) = omega (arith, length-numbered (n + 1) ws)

  pub numbered-IsReadable : (n : ℕ) (ws : List W) → All IsReadable (numbered n ws)
  unfolding numbered
  numbered-IsReadable n [] = tt
  numbered-IsReadable n (w ∷ ws) = (refl, numbered-IsReadable (n + 1) ws)

module _ {V W : Type 0} (z : ZendHash V) (l : IsLawful z) (into_zval : W → Result V)
    (enc : W → V) where
  push_all-entries :
      (ws : List W) (t : z.Table)
      → z.next_free t + length ws ≤ 2 ^ 63
      → All (λ w. into_zval w ≡ ok (enc w)) ws
      → (t' : z.Table) × (push_all z into_zval ws t ≡ ok t')
        × (entries z t' ≡ entries z t ++ numbered enc (z.next_free t) ws)
  unfolding push_all numbered push
  push_all-entries [] t h a = (t, refl, sym (append-nil (entries z t)))
  push_all-entries (w ∷ ws) t h a =
      let u = (z.next_index_insert t (enc w)).0 in
      let here = l.entries-next_index_insert t (enc w) (omega arith) in
      let free = l.next_free-next_index_insert t (enc w) (omega arith) in
      let more = push_all-entries ws u (omega arith) a.1 in
      (
        more.0,
        rw a.0 more.1,
        more.2
            ∙ ap (λ es. es ++ numbered enc (z.next_free u) ws) here
            ∙ append_assoc (entries z t) _ _
            ∙ ap (λ n. entries z t ++ (index (z.next_free t), enc w) ∷ numbered enc n ws) free,
      )

  index-of_u64 : (k : ℕ) → k < i64_limit → hash_key (of_u64 k) ≡ index k
  unfolding hash_key of_u64 as_ulong
  index-of_u64 k h = ground arith

  insert_numbered-entries :
      (ws : List W) (k : ℕ) (t : z.Table)
      → k + length ws ≤ 2 ^ 63
      → ((j : ℕ) → k ≤ j → lookup (index j) (entries z t) ≡ none)
      → All (λ w. into_zval w ≡ ok (enc w)) ws
      → (t' : z.Table) × (insert_numbered z into_zval k ws t ≡ ok t')
        × (entries z t' ≡ entries z t ++ numbered enc k ws)
  unfolding insert_numbered numbered
  insert_numbered-entries [] k t h fresh a = (t, refl, sym (append-nil (entries z t)))
  insert_numbered-entries (w ∷ ws) k t h fresh a =
      let key = index-of_u64 k (omega arith) in
      let (u, done, here) =
        insert-append z l into_zval (of_u64 k) w (enc w) t a.0
          (ap (λ j. lookup j (entries z t)) key ∙ fresh k (omega arith)) in
      let here' = here ∙ ap (λ j. entries z t ++ (j, enc w) ∷ []) key in
      let more =
        insert_numbered-entries ws (k + 1) u (omega arith)
          (λ j m.
            ap (lookup (index j)) here'
            ∙ lookup-snoc (index j) (index k) (enc w) (entries z t) (fresh j (omega arith))
                (ground (arith, ==_iff k j)))
          a.1 in
      (
        more.0,
        rw done more.1,
        more.2 ∙ ap (λ es. es ++ numbered enc (k + 1) ws) here' ∙ append_assoc (entries z t) _ _,
      )

  new-entries :
      (n : ℕ) → (entries z (with_capacity z n) ≡ []) × (z.next_free (with_capacity z n) ≡ 0)
  unfolding with_capacity
  new-entries n = (l.entries-new_array n, l.next_free-new_array n)

  pub capacity_ok : (n : ℕ) → n < 2 ^ 32 → capacity n ≡ ok n
  capacity_ok n h = ground arith

  pub table_of_list-entries :
      (ws : List W)
      → length ws < 2 ^ 32
      → All (λ w. into_zval w ≡ ok (enc w)) ws
      → (t : z.Table) × (table_of_list z into_zval ws ≡ ok t) × (entries z t ≡ numbered enc 0 ws)
  unfolding table_of_list
  table_of_list-entries ws h a =
      let (none_yet, zero_free) = new-entries (length ws) in
      let (t, done, es) = push_all-entries ws (with_capacity z (length ws)) (omega arith) a in
      (
        t,
        rw (capacity_ok (length ws) h) done,
        es
            ∙ ap (λ xs. xs ++ numbered enc (z.next_free (with_capacity z (length ws))) ws) none_yet
            ∙ ap (λ n. numbered enc n ws) zero_free,
      )

  pub table_of_set-entries :
      (ws : List W)
      → length ws < 2 ^ 32
      → All (λ w. into_zval w ≡ ok (enc w)) ws
      → (t : z.Table) × (table_of_set z into_zval ws ≡ ok t) × (entries z t ≡ numbered enc 0 ws)
  unfolding table_of_set lookup
  table_of_set-entries ws h a =
      let none_yet = (new-entries (length ws)).0 in
      let (t, done, es) =
        insert_numbered-entries ws 0 (with_capacity z (length ws)) (omega arith)
          (λ j m. ap (lookup (index j)) none_yet) a in
      (t, rw (capacity_ok (length ws) h) done, es ∙ ap (λ xs. xs ++ numbered enc 0 ws) none_yet)
