-- ===== src/Array/Loop/Laws.antt =====
-- What loops over a hash table do: a fold over the entries, and the two tests of the keys.
use ext_php_rs.Prelude.{
  ℕ, zero, suc, none, some, ◌+◌, ◌<◌, Bool, true, false, List, [], ◌∷◌, if◌then◌else◌, ◌≡◌, refl,
  ap, ◌∙◌, arith, length, map, All,
}
use ext_php_rs.Error.{Result, ok, err, ◌>>=◌}
use ext_php_rs.ArrayKey.{ArrayKey}
use ext_php_rs.Array.Entries.{HashKey}
use ext_php_rs.Array.Zend.{ZendHash, IsLawful, entries}
use ext_php_rs.Array.Cursor.{Cursor, IsLawfulCursor, tail}
use ext_php_rs.Array.Iter.{Iter, Step, done, panic, item, step_key, new}
use ext_php_rs.Array.Iter.Forward.{
  to_key, to_item, is_readable, IsReadable, rest, advanced, next_end, next_slot,
}
use ext_php_rs.Array.Loop.{Looped, returned, panicked, unfinished, for_each, any}

-- A fold that stops at the first error.
abbrev pub try_fold : {S A : Type 0} → (S → A → Result S) → S → List A → Result S
try_fold body s [] = ok s
try_fold body s (a ∷ xs) = body s a >>= λ s'. try_fold body s' xs

-- `any` over a list.
abbrev pub any_of : {A : Type 0} → (ℕ → A → Looped Bool) → ℕ → List A → Looped Bool
any_of test n [] = returned false
any_of test n (a ∷ xs) = elim (test n a) [
  | returned true ↦ returned true
  | returned false ↦ any_of test (n + 1) xs
  | panicked ↦ panicked
  | unfinished ↦ unfinished
]

each_step :
    {S : Type 0} (o : Result S) (f : S → Looped (Result S)) (g : S → Result S)
    → ((s : S) → f s ≡ returned (g s))
    → elim o [ ok s ↦ f s | err x ↦ returned (err x) ] ≡ returned (o >>= g)
each_step (ok s) f g more = more s
each_step (err x) f g more = refl

any_step :
    (o m n : Looped Bool)
    → m ≡ n
    → elim o [
      | returned true ↦ returned true
      | returned false ↦ m
      | panicked ↦ panicked
      | unfinished ↦ unfinished
    ]
      ≡ elim o [
        | returned true ↦ returned true
        | returned false ↦ n
        | panicked ↦ panicked
        | unfinished ↦ unfinished
      ]
any_step (returned true) m n e = refl
any_step (returned false) m n e = e
any_step panicked m n e = refl
any_step unfinished m n e = refl

module _ {V D : Type 0} (z : ZendHash V) (c : Cursor D z) (lc : IsLawfulCursor z c) (php85 : Bool)
    (t : z.Table) where
  after_each :
      {S : Type 0}
      → (S → ArrayKey × V → Result S)
      → ℕ
      → S
      → Step (ArrayKey × V) × Iter
      → Looped (Result S)
  after_each body fuel s p = elim p.0 [
    | done ↦ returned (ok s)
    | panic ↦ panicked
    | item e ↦ elim (body s e) [
      | ok s' ↦ for_each z c php85 t body fuel s' p.1
      | err x ↦ returned (err x)
    ]
  ]

  after_any : (ℕ → ArrayKey × V → Looped Bool) → ℕ → ℕ → Step (ArrayKey × V) × Iter → Looped Bool
  after_any test fuel n p = elim p.0 [
    | done ↦ returned false
    | panic ↦ panicked
    | item e ↦ elim (test n e) [
      | returned true ↦ returned true
      | returned false ↦ any z c php85 t test fuel (n + 1) p.1
      | panicked ↦ panicked
      | unfinished ↦ unfinished
    ]
  ]

  read_key :
      (k : HashKey) (v : V) (it : Iter)
      → is_readable k ≡ true
      → ◌≡◌ {A = Step (ArrayKey × V) × Iter}
          (step_key (if is_readable k then some (to_key k) else none) v, it)
          (item (to_key k, v), it)
  read_key k v it r = rw r refl

  for_each-rest :
      {S : Type 0} (body : S → ArrayKey × V → Result S) (fuel : ℕ) (s : S) (it : Iter)
      (es : List (HashKey × V))
      → rest z c lc php85 t it ≡ es
      → it.current_num + length es ≡ it.end_num
      → length es < fuel
      → All IsReadable es
      → for_each z c php85 t body fuel s it ≡ returned (try_fold body s (map to_item es))
  unfolding for_each after_each
  for_each-rest body zero s it es e n f r = absurd (omega (arith, f))
  for_each-rest body (suc fuel) s it [] e n f r =
      ap (after_each body fuel s) (next_end z c lc php85 t it (omega arith))
  for_each-rest body (suc fuel) s it ((k, v) ∷ es) e n f r =
      let step = next_slot z c lc php85 t it k v es (omega arith) e in
      ap (after_each body fuel s) (step ∙ read_key k v _ r.0)
      ∙ each_step (body s (to_key k, v)) _ _ (λ s'.
        for_each-rest body fuel s' (advanced z c lc php85 t it) es
          (lc.live-move_forward t it.pos ∙ ap tail e) (omega arith) (omega arith) r.1)

  any-rest :
      (test : ℕ → ArrayKey × V → Looped Bool) (fuel n : ℕ) (it : Iter) (es : List (HashKey × V))
      → rest z c lc php85 t it ≡ es
      → it.current_num + length es ≡ it.end_num
      → length es < fuel
      → All IsReadable es
      → any z c php85 t test fuel n it ≡ any_of test n (map to_item es)
  unfolding any after_any
  any-rest test zero n it es e m f r = absurd (omega (arith, f))
  any-rest test (suc fuel) n it [] e m f r =
      ap (after_any test fuel n) (next_end z c lc php85 t it (omega arith))
  any-rest test (suc fuel) n it ((k, v) ∷ es) e m f r =
      let step = next_slot z c lc php85 t it k v es (omega arith) e in
      ap (after_any test fuel n) (step ∙ read_key k v _ r.0)
      ∙ any_step (test n (to_key k, v)) _ _ (
          any-rest test fuel (n + 1) (advanced z c lc php85 t it) es
            (lc.live-move_forward t it.pos ∙ ap tail e) (omega arith) (omega arith) r.1)

module _ {V D : Type 0} (z : ZendHash V) (l : IsLawful z) (c : Cursor D z) (lc : IsLawfulCursor z c)
    (php85 : Bool) (t : z.Table) where
  -- A `for` loop over a hash table is a fold over its entries, up to the first error.
  pub for_each-entries :
      {S : Type 0} (body : S → ArrayKey × V → Result S) (fuel : ℕ) (s : S)
      → length (entries z t) < fuel
      → All IsReadable (entries z t)
      → for_each z c php85 t body fuel s (new z c php85 t)
        ≡ returned (try_fold body s (map to_item (entries z t)))
  unfolding new
  for_each-entries body fuel s f r =
      for_each-rest z c lc php85 t body fuel s (new z c php85 t) (entries z t) refl
        (omega (arith, l.count-entries t)) f r

  pub any-entries :
      (test : ℕ → ArrayKey × V → Looped Bool) (fuel : ℕ)
      → length (entries z t) < fuel
      → All IsReadable (entries z t)
      → any z c php85 t test fuel 0 (new z c php85 t) ≡ any_of test 0 (map to_item (entries z t))
  unfolding new
  any-entries test fuel f r =
      any-rest z c lc php85 t test fuel 0 (new z c php85 t) (entries z t) refl
        (omega (arith, l.count-entries t)) f r
