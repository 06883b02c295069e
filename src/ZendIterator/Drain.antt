-- ===== src/ZendIterator/Drain.antt =====
-- A `for` over an iterator of src/types/iterator.rs gets what PHP's iterator stands for, and ends.
use ext_php_rs.Prelude.{
  ℕ, zero, suc, ◌+◌, ◌-◌, ◌^◌, ◌≤◌, ◌<◌, Bool, true, false, not, some, List, [], ◌∷◌, ◌≡◌, refl, ap,
  arith, length, ltb, lt→ltb,
}
use ext_php_rs.Text.Str.{is_nil}
use ext_php_rs.ZendIterator.{
  Funcs, ZendIterator, Next, item, stop, rewind, move_forward, get_current_data, get_current_key,
  iter, current, checked, next, Loop, drain,
}

-- The five functions of an iterator that has all of them.
pub record Methods (S K V : Type 0) : Type 0 where
  pub valid : S → Bool × S
  pub rewind : S → S
  pub move_forward : S → S
  pub get_current_data : S → V × S
  pub get_current_key : S → K × S

abbrev pub funcs_of : {S K V : Type 0} → Methods S K V → Funcs S K V
funcs_of m = record {
  valid = some m.valid;
  rewind = some m.rewind;
  move_forward = some m.move_forward;
  get_current_data = some m.get_current_data;
  get_current_key = some m.get_current_key;
}

-- What PHP documents of an iterator that raises no exception: `Rep s xs` says that in the state `s` the
-- items from the current one on are `xs`.
pub record Cursor {S K V : Type 0} (has_exception : S → Bool) (m : Methods S K V)
    (Rep : S → List (K × V) → Type 0) : Type 0 where
  pub quiet : (s : S) (xs : List (K × V)) → Rep s xs → has_exception s ≡ false
  pub valid_lem :
      (s : S) (xs : List (K × V))
      → Rep s xs
      → ((m.valid s).0 ≡ not (is_nil xs)) × Rep (m.valid s).1 xs
  pub forward_lem :
      (s : S) (x : K × V) (xs : List (K × V)) → Rep s (x ∷ xs) → Rep (m.move_forward s) xs
  pub data_lem :
      (s : S) (x : K × V) (xs : List (K × V))
      → Rep s (x ∷ xs)
      → ((m.get_current_data s).0 ≡ x.1) × Rep (m.get_current_data s).1 (x ∷ xs)
  pub key_lem :
      (s : S) (x : K × V) (xs : List (K × V))
      → Rep s (x ∷ xs)
      → ((m.get_current_key s).0 ≡ x.0) × Rep (m.get_current_key s).1 (x ∷ xs)

module _ {S K V : Type 0} (has_exception : S → Bool) (set_long : ℕ → K) (m : Methods S K V)
    (Rep : S → List (K × V) → Type 0) (laws : Cursor has_exception m Rep) where
  -- What is left to get: from the current item on before the first `next`, and behind it afterwards.
  abbrev pub Left : ℕ → S → List (K × V) → Type 0
  Left zero s xs = Rep s xs
  Left (suc i) s xs = (x : K × V) × Rep s (x ∷ xs)

  -- A `next` that gets an item and leaves it the current one.
  abbrev Got : ℕ → K × V → List (K × V) → Next K V × ZendIterator S → Type 0
  Got i x xs r = (t : S) × (r ≡ (item x.0 x.1, record { index = suc i; php = t })) × Rep t (x ∷ xs)

  current-Got :
      (i : ℕ) (s : S) (x : K × V) (xs : List (K × V))
      → i < 2 ^ 63
      → Rep s (x ∷ xs)
      → Got i x xs (current has_exception set_long (funcs_of m) (record { index = i; php = s }))
  unfolding current get_current_key get_current_data
  current-Got i s x xs b h =
      let (key_eq, h') = laws.key_lem s x xs h in
      let (data_eq, h'') = laws.data_lem (m.get_current_key s).1 x xs h' in
      let quiet' = laws.quiet (m.get_current_key s).1 (x ∷ xs) h' in
      let quiet'' = laws.quiet (m.get_current_data (m.get_current_key s).1).1 (x ∷ xs) h'' in
      let inside : ltb (i + 1 - 1) (2 ^ 63) ≡ true = lt→ltb (i + 1 - 1) (2 ^ 63) (omega arith) in
      let plus : i + 1 ≡ suc i = omega arith in
      (
        (m.get_current_data (m.get_current_key s).1).1,
        rw (inside, quiet', quiet'', key_eq, data_eq, plus) refl,
        h'',
      )

  checked-Got :
      (i : ℕ) (s : S) (x : K × V) (xs : List (K × V))
      → i < 2 ^ 63
      → Rep s (x ∷ xs)
      → Got i x xs
          (checked has_exception set_long (funcs_of m) (true, record { index = i; php = s }))
  unfolding checked
  checked-Got i s x xs b h =
      let (eq, h') = laws.valid_lem s (x ∷ xs) h in
      rw (laws.quiet (m.valid s).1 (x ∷ xs) h', eq) (current-Got i (m.valid s).1 x xs b h')

  checked_stop :
      (i : ℕ) (s : S)
      → Rep s []
      → checked has_exception set_long (funcs_of m) (true, record { index = i; php = s })
        ≡ (stop, record { index = i; php = (m.valid s).1 })
  unfolding checked
  checked_stop i s h =
      let (eq, h') = laws.valid_lem s [] h in rw (laws.quiet (m.valid s).1 [] h', eq) refl

  next-Got :
      (i : ℕ) (s : S) (x : K × V) (xs : List (K × V))
      → i < 2 ^ 63
      → Left i s (x ∷ xs)
      → Got i x xs (next has_exception set_long (funcs_of m) (record { index = i; php = s }))
  unfolding next move_forward
  next-Got zero s x xs b h = checked-Got zero s x xs b h
  next-Got (suc i) s x xs b (y, h) =
      let h' = laws.forward_lem s y (x ∷ xs) h in
      rw (lt→ltb 0 (suc i) (omega arith), laws.quiet (m.move_forward s) (x ∷ xs) h')
        (checked-Got (suc i) (m.move_forward s) x xs b h')

  next_stop :
      (i : ℕ) (s : S)
      → Left i s []
      → (t : S) × (next has_exception set_long (funcs_of m) (record { index = i; php = s })
          ≡ (stop, record { index = i; php = t }))
  unfolding next move_forward
  next_stop zero s h = ((m.valid s).1, checked_stop zero s h)
  next_stop (suc i) s (y, h) =
      let h' = laws.forward_lem s y [] h in
      (
        (m.valid (m.move_forward s)).1,
        rw (lt→ltb 0 (suc i) (omega arith), laws.quiet (m.move_forward s) [] h')
            (checked_stop (suc i) (m.move_forward s) h'),
      )

  -- All that is left is got, in order, and then the loop is at its end.
  Drained : List (K × V) → Loop has_exception set_long (funcs_of m) → Type 0
  Drained xs l = (l.items ≡ xs) × (l.ended ≡ true)

  drain-Drained :
      (fuel i : ℕ) (s : S) (xs : List (K × V))
      → length xs < fuel
      → i + length xs ≤ 2 ^ 63
      → Left i s xs
      → Drained xs (drain has_exception set_long (funcs_of m) fuel (record { index = i; php = s }))
  unfolding drain Drained
  drain-Drained zero i s xs f b h = absurd (omega arith)
  drain-Drained (suc fuel) i s [] f b h = let (t, eq) = next_stop i s h in rw eq (refl, refl)
  drain-Drained (suc fuel) i s (x ∷ xs) f b h =
      let (t, eq, h') = next-Got i s x xs (omega arith) h in
      let ih = drain-Drained fuel (suc i) t xs (omega arith) (omega arith) (x, h') in
      rw eq (ap (λ l. x ∷ l) ih.0, ih.1)

  -- A loop over an iterator of PHP that raises no exception rewinds it, gets exactly its items, with
  -- their keys and in their order, and ends after one `next` more than there are items, provided the
  -- items are no more than an `i64` counts.
  pub iter-drain :
      (fuel i : ℕ) (s : S) (xs : List (K × V))
      → Rep (m.rewind s) xs
      → length xs < fuel
      → length xs ≤ 2 ^ 63
      → (z : ZendIterator S) × (iter has_exception set_long
            (funcs_of m)
            (record { index = i; php = s })
          ≡ some z)
        × ((drain has_exception set_long (funcs_of m) fuel z).items ≡ xs)
        × ((drain has_exception set_long (funcs_of m) fuel z).ended ≡ true)
  unfolding iter rewind Drained
  iter-drain fuel i s xs h f b =
      let (same, ended) = drain-Drained fuel 0 (m.rewind s) xs f (omega arith) h in
      (record { index = 0; php = m.rewind s }, rw (laws.quiet (m.rewind s) xs h) refl, same, ended)
