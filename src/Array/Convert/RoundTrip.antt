-- ===== src/Array/Convert/RoundTrip.antt =====
-- A list, or a set, that is converted to a hash table and back.
use ext_php_rs.Prelude.{
  ℕ, ◌+◌, ◌<◌, ◌^◌, Bool, Option, none, some, List, [], ◌∷◌, ◌++◌, length, ◌≡◌, ◌≢◌, inl, inr,
  Option-cases, refl, sym, ap, ◌∙◌, arith, map, All, append_assoc, append-nil,
}
use mathlib.Core.Path.{subst}
use mathlib.Core.List.{map-append}
use ext_php_rs.Error.{Error, Result, ok, err, ◌>>=◌}
use ext_php_rs.ArrayKey.{ArrayKey}
use ext_php_rs.Zval.Value.{Zval, get_type}
use ext_php_rs.Array.Entries.{HashKey}
use ext_php_rs.Array.Zend.{ZendHash, IsLawful, entries}
use ext_php_rs.Array.Cursor.{Cursor, IsLawfulCursor}
use ext_php_rs.Array.Iter.Forward.{to_key, to_item, IsReadable}
use ext_php_rs.Array.Loop.{returned, for_each}
use ext_php_rs.Array.Loop.Laws.{for_each-entries, try_fold}
use ext_php_rs.Array.Convert.{from_zval_or, list_of_table, table_of_list, table_of_set}
use ext_php_rs.Array.Convert.Lists.{
  numbered, length-numbered, numbered-IsReadable, table_of_list-entries, table_of_set-entries,
}

bind_step :
    {S R : Type 0} (o : Result S) (f : S → Result R) (g : S → Result S) (h : S → Result R)
    → ((s : S) → f s ≡ (g s >>= h))
    → (o >>= f) ≡ ((o >>= g) >>= h)
bind_step (ok s) f g h e = e s
bind_step (err x) f g h e = refl

module _ {S A : Type 0} (body : S → A → Result S) where
  pub try_fold-append :
      (xs ys : List A) (s : S)
      → try_fold body s (xs ++ ys) ≡ (try_fold body s xs >>= λ s'. try_fold body s' ys)
  try_fold-append [] ys s = refl
  try_fold-append (x ∷ xs) ys s = bind_step (body s x) _ _ _ (try_fold-append xs ys)

module _ {D T : Type 0} (from_zval : Zval D → Option T) where
  -- The body of the loop into a list.
  abbrev pub pushed : List T → ArrayKey × Zval D → Result (List T)
  unfolding get_type
  pushed vec (key, val) = do v ← from_zval_or from_zval val; ok (vec ++ v ∷ [])

  try_fold-pushed :
      (enc : T → Zval D) (ws vec : List T) (n : ℕ)
      → All (λ w. from_zval (enc w) ≡ some w) ws
      → try_fold pushed vec (map to_item (numbered enc n ws)) ≡ ok (vec ++ ws)
  unfolding numbered pushed
  try_fold-pushed enc [] vec n a = ap ok (sym (append-nil vec))
  try_fold-pushed enc (w ∷ ws) vec n a =
      rw a.0
        (try_fold-pushed enc ws (vec ++ w ∷ []) (n + 1) a.1 ∙ ap ok (append_assoc vec (w ∷ []) ws))

  pushed-All :
      (es : List (ArrayKey × Zval D)) (vec : List T)
      → All (λ e. from_zval e.1 ≢ none) es
      → (vec' : List T) × (try_fold pushed vec es ≡ ok vec')
  unfolding pushed
  pushed-All [] vec a = (vec, refl)
  pushed-All ((k, v) ∷ es) vec a = elim (Option-cases (from_zval v)) [
    | inl e ↦ absurd (a.0 e)
    | inr (w, e) ↦ rw e (pushed-All es (vec ++ w ∷ []) a.1)
  ]

module _ {D T : Type 0} (z : ZendHash (Zval D)) (l : IsLawful z) (c : Cursor D z)
    (lc : IsLawfulCursor z c) (php85 : Bool) (from_zval : Zval D → Option T) where
  read_numbered :
      (enc : T → Zval D) (ws : List T) (fuel : ℕ) (t : z.Table)
      → length ws < fuel
      → entries z t ≡ numbered enc 0 ws
      → All (λ w. from_zval (enc w) ≡ some w) ws
      → list_of_table z c php85 from_zval fuel t ≡ returned (ok ws)
  unfolding list_of_table for_each pushed
  read_numbered enc ws fuel t f e a =
      for_each-entries z l c lc php85 t (pushed from_zval) fuel []
        (omega (arith, ap length e, length-numbered enc 0 ws))
        (subst (All IsReadable) (sym e) (numbered-IsReadable enc 0 ws))
      ∙ ap (λ es. returned (try_fold (pushed from_zval) [] (map to_item es))) e
      ∙ ap returned (try_fold-pushed from_zval enc ws [] 0 a)

  -- A list of fewer than 2 ^ 32 values, each of which its conversion to a zval and back gives again, is
  -- converted to a hash table without an error, and the table back to that list; so is a set, by the
  -- list of its values.
  pub list_of_table-table_of_list :
      (into_zval : T → Result (Zval D)) (enc : T → Zval D) (ws : List T) (fuel : ℕ)
      → length ws < 2 ^ 32
      → length ws < fuel
      → All (λ w. into_zval w ≡ ok (enc w)) ws
      → All (λ w. from_zval (enc w) ≡ some w) ws
      → ((t : z.Table) × (table_of_list z into_zval ws ≡ ok t)
          × (list_of_table z c php85 from_zval fuel t ≡ returned (ok ws)))
        × ((t : z.Table) × (table_of_set z into_zval ws ≡ ok t)
            × (list_of_table z c php85 from_zval fuel t ≡ returned (ok ws)))
  list_of_table-table_of_list into_zval enc ws fuel h f a b =
      let (t, done, es) = table_of_list-entries z l into_zval enc ws h a in
      let (u, done', es') = table_of_set-entries z l into_zval enc ws h a in
      (
        (t, done, read_numbered enc ws fuel t f es b),
        (u, done', read_numbered enc ws fuel u f es' b),
      )

  -- A hash table with a value that cannot be converted is not converted to a list: the error names the
  -- type of the first such value.
  pub list_of_table-err :
      (fuel : ℕ) (t : z.Table) (es fs : List (HashKey × Zval D)) (k : HashKey) (v : Zval D)
      → entries z t ≡ es ++ (k, v) ∷ fs
      → length (entries z t) < fuel
      → All IsReadable (entries z t)
      → All (λ e. from_zval e.1 ≢ none) (map to_item es)
      → from_zval v ≡ none
      → list_of_table z c php85 from_zval fuel t
        ≡ returned (err (Error.zval_conversion (get_type v)))
  unfolding list_of_table for_each pushed
  list_of_table-err fuel t es fs k v e f r a h =
      let (vec, before) = pushed-All from_zval (map to_item es) [] a in
      for_each-entries z l c lc php85 t (pushed from_zval) fuel [] f r
      ∙ ap (λ xs. returned (try_fold (pushed from_zval) [] (map to_item xs))) e
      ∙ ap (λ xs. returned (try_fold (pushed from_zval) [] xs))
          (map-append to_item es ((k, v) ∷ fs))
      ∙ ap returned (
          try_fold-append (pushed from_zval) (map to_item es) ((to_key k, v) ∷ map to_item fs) []
          ∙ rw (before, h) refl)
