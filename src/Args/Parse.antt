-- ===== src/Args/Parse.antt =====
-- What a parse returns, and which parameter gets which argument.
use ext_php_rs.Prelude.{
  ℕ, ◌+◌, ◌^◌, ◌<◌, ◌≤◌, true, ◌&&◌, Option, [], ◌∷◌, ◌++◌, List, ◌≡◌, refl, ltb, if◌then◌else◌,
  length, arith, append_assoc, append-nil, length-append, inl, inr, ◌∙◌, ap, ◌↔◌, ◌⊎◌, ◌≢◌, ◌-◌,
  some, none, Bool-cases,
}
use mathlib.Core.Path.{subst}
use ext_php_rs.Error.{Error, Result, ok, err}
use ext_php_rs.Args.{
  Arg, ArgParser, report, has_variadic, give, give_last, give_at, place, assign, min_args, parse,
  arg, not_required, unwrap_or,
}

ok_or_not : (r : Result (Unit {0})) → (r ≡ ok tt) ⊎ (r ≢ ok tt)
ok_or_not (ok tt) = inl refl
ok_or_not (err e) = inr λ h. cc

module _ {Z : Type 0} where
  -- The rest of the arguments, all for one variadic parameter.
  abbrev pub collect : Arg Z → List (Option Z) → Arg Z
  collect a zs = record a { variadic_zvals = a.variadic_zvals ++ zs }

  -- One argument for each parameter in order; the last parameter takes all the rest if it is
  -- variadic, and the first of them if it is not.
  abbrev pub take_last : Arg Z → List (Option Z) → Arg Z
  take_last a [] = a
  take_last a (z ∷ zs) = if a.variadic then collect a (z ∷ zs) else record a { zval = z }

  abbrev pub distribute : List (Arg Z) → List (Option Z) → List (Arg Z)
  distribute [] zs = []
  distribute (a ∷ []) zs = take_last a zs ∷ []
  distribute (a ∷ b ∷ as') [] = a ∷ b ∷ as'
  distribute (a ∷ b ∷ as') (z ∷ zs) = give z a ∷ distribute (b ∷ as') zs

  give_at-append :
      (pre : List (Arg Z)) (a : Arg Z) (as' : List (Arg Z)) (z : Option Z)
      → give_at (length pre) z (pre ++ a ∷ as') ≡ pre ++ give z a ∷ as'
  unfolding give_at
  give_at-append [] a as' z = refl
  give_at-append (b ∷ pre) a as' z = rw (give_at-append pre a as' z)

  give_last-append :
      (pre : List (Arg Z)) (a : Arg Z) (z : Option Z)
      → give_last z (pre ++ a ∷ []) ≡ pre ++ (if a.variadic then give z a else a) ∷ []
  unfolding give_last
  give_last-append [] a z = refl
  give_last-append (b ∷ []) a z = refl
  give_last-append (b ∷ c ∷ pre) a z = rw (give_last-append (c ∷ pre) a z)

  length-before :
      (pre : List (Arg Z)) (a : Arg Z) (as' : List (Arg Z)) → length pre < length (pre ++ a ∷ as')
  length-before [] a as' = omega arith
  length-before (b ∷ pre) a as' = omega (arith, length-before pre a as')

  place_at :
      (pre : List (Arg Z)) (a : Arg Z) (as' : List (Arg Z)) (i : ℕ) (z : Option Z)
      → length pre ≡ i
      → place i z (pre ++ a ∷ as') ≡ (pre ++ give z a ∷ []) ++ as'
  unfolding place
  place_at pre a as' i z h = ground (
    arith,
    length-before pre a as',
    give_at-append pre a as' z,
    append_assoc pre (give z a ∷ []) as',
    ap (λ n. give_at n z (pre ++ a ∷ as')) h,
  )

  place_rest :
      (pre : List (Arg Z)) (a : Arg Z) (i : ℕ) (z : Option Z)
      → length pre < i
      → place i z (pre ++ a ∷ []) ≡ pre ++ (if a.variadic then give z a else a) ∷ []
  unfolding place
  place_rest pre a i z h = ground (arith, length-append pre (a ∷ []), give_last-append pre a z)

  -- Behind the last parameter only a variadic one takes anything.
  assign_rest :
      (pre : List (Arg Z)) (a : Arg Z) (i : ℕ) (zs : List (Option Z))
      → length pre < i
      → assign i zs (pre ++ a ∷ []) ≡ pre ++ (if a.variadic then collect a zs else a) ∷ []
  unfolding assign give
  assign_rest pre a i [] h = ground (arith, append-nil a.variadic_zvals)
  assign_rest pre a i (z ∷ zs) h = rw (place_rest pre a i z h) (
      ground (
        arith,
        assign_rest pre (if a.variadic then give z a else a) (i + 1) zs (omega arith),
        append_assoc a.variadic_zvals (z ∷ []) zs,
      ))

  assign_lem :
      (pre args : List (Arg Z)) (zs : List (Option Z)) (i : ℕ)
      → args ≢ []
      → length pre ≡ i
      → assign i zs (pre ++ args) ≡ pre ++ distribute args zs
  unfolding assign give
  assign_lem pre [] zs i h e = absurd (h refl)
  assign_lem pre (a ∷ []) [] i h e = refl
  assign_lem pre (a ∷ b ∷ as') [] i h e = refl
  assign_lem pre (a ∷ []) (z ∷ zs) i h e =
      rw (place_at pre a [] i z e, append-nil (pre ++ give z a ∷ []))
        (ground (
          arith,
          assign_rest pre (give z a) (i + 1) zs (omega (arith, e)),
          append_assoc a.variadic_zvals (z ∷ []) zs,
        ))
  assign_lem pre (a ∷ b ∷ as') (z ∷ zs) i h e = rw (place_at pre a (b ∷ as') i z e) (
      ground (
        arith,
        assign_lem (pre ++ give z a ∷ []) (b ∷ as') zs (i + 1) (cc)
            (omega (arith, e, length-append pre (give z a ∷ []))),
        append_assoc pre (give z a ∷ []) (distribute (b ∷ as') zs),
      ))

  -- The last parameter is variadic.
  abbrev pub EndsVariadic : List (Arg Z) → Type 0
  EndsVariadic [] = ⊥
  EndsVariadic (a ∷ []) = a.variadic ≡ true
  EndsVariadic (a ∷ b ∷ as') = EndsVariadic (b ∷ as')

  -- The number of the parameters that were declared as required.
  abbrev pub required : ArgParser Z → ℕ
  required p = elim p.min_num_args [ some n ↦ n | none ↦ length p.args ]

  -- Each required parameter and no other gets its argument; a variadic one takes none or many.
  abbrev pub Accepts : ArgParser Z → Type 0
  Accepts p =
      (EndsVariadic p.args × (required p ≤ length p.arg_zvals + 1))
      ⊎ ((EndsVariadic p.args → ⊥)
          × (required p ≤ length p.arg_zvals)
          × (length p.arg_zvals ≤ length p.args))

  has_variadic-Ends : (as' : List (Arg Z)) → has_variadic as' ≡ true → EndsVariadic as'
  unfolding has_variadic
  has_variadic-Ends [] h = cc
  has_variadic-Ends (a ∷ []) h = h
  has_variadic-Ends (a ∷ b ∷ as') h = has_variadic-Ends (b ∷ as') h

  Ends-has_variadic : (as' : List (Arg Z)) → EndsVariadic as' → has_variadic as' ≡ true
  unfolding has_variadic
  Ends-has_variadic [] h = absurd h
  Ends-has_variadic (a ∷ []) h = h
  Ends-has_variadic (a ∷ b ∷ as') h = Ends-has_variadic (b ∷ as') h

  -- The number of arguments is in the range that the code computes.
  abbrev InRange : ArgParser Z → Type 0
  InRange p =
      (min_args p ≤ length p.arg_zvals)
      × ((has_variadic p.args ≡ true) ⊎ (length p.arg_zvals ≤ length p.args))

  parse-InRange : (p : ArgParser Z) → ((parse p).result ≡ ok tt) ↔ InRange p
  unfolding parse
  parse-InRange p = (λ e. ground arith, λ h. ground arith)

  required_lem : (p : ArgParser Z) → unwrap_or p.min_num_args (length p.args) ≡ required p
  required_lem p = ground arith

  InRange-Accepts : (p : ArgParser Z) → InRange p → Accepts p
  unfolding min_args
  InRange-Accepts p (low, high) = elim (Bool-cases (has_variadic p.args)) [
    | inl e ↦ inl (has_variadic-Ends p.args e, ground (arith, required_lem p))
    | inr e ↦ inr (
      (λ v. let t = Ends-has_variadic p.args v in cc),
      (ground (arith, required_lem p)),
      ground arith,
    )
  ]

  Accepts-InRange : (p : ArgParser Z) → Accepts p → InRange p
  unfolding min_args
  Accepts-InRange p (inl (v, low)) =
      let e = Ends-has_variadic p.args v in (ground (arith, required_lem p, e), inl e)
  Accepts-InRange p (inr (v, low, high)) = (ground (arith, required_lem p), inr high)

  -- A parse succeeds exactly if there are, at a last parameter that is variadic, at least as many
  -- arguments as required parameters, less one; and at another at least as many as these, and at most
  -- as many as there are parameters.
  pub parse-ok_iff : (p : ArgParser Z) → ((parse p).result ≡ ok tt) ↔ Accepts p
  parse-ok_iff p =
      let (to, from) = parse-InRange p in
      (λ e. InRange-Accepts p (to e), λ h. from (Accepts-InRange p h))

  -- With at least one parameter, a parse that succeeds reports nothing, and gives the parameters, in
  -- order, one argument each; the last parameter takes all that are left if it is variadic.
  pub parse-distribute :
      (p : ArgParser Z)
      → p.args ≢ []
      → (parse p).result ≡ ok tt
      → ((parse p).reported ≡ []) × ((parse p).args ≡ distribute p.args p.arg_zvals)
  unfolding parse
  parse-distribute p h e = ground (arith, assign_lem [] p.args p.arg_zvals 0 h refl)

  -- The least number of arguments, as the report and the error give it.
  abbrev pub Least : ArgParser Z → ℕ → Type 0
  Least p n =
      (EndsVariadic p.args × (n ≡ required p - 1)) ⊎ ((EndsVariadic p.args → ⊥) × (n ≡ required p))

  abbrev pub Small : ℕ → ArgParser Z → Type 0
  Small n p = (n < 2 ^ 32) × (length p.args < 2 ^ 32)

  -- The two ways in which a parse of a wrong number of arguments ends.
  abbrev pub Rejected : ArgParser Z → ℕ → Type 0
  Rejected p n =
      (Small n p
        × ((parse p).reported ≡ (n, length p.args) ∷ [])
        × ((parse p).result ≡ err (Error.incorrect_arguments (length p.arg_zvals) n)))
      ⊎ ((Small n p → ⊥)
          × ((parse p).reported ≡ [])
          × ((parse p).result ≡ err Error.integer_overflow))

  Least-min_args : (p : ArgParser Z) (n : ℕ) → Least p n → min_args p ≡ n
  unfolding min_args
  Least-min_args p n (inl (v, e)) = ground (arith, required_lem p, Ends-has_variadic p.args v)
  Least-min_args p n (inr (v, e)) = elim (Bool-cases (has_variadic p.args)) [
    | inl h ↦ absurd (v (has_variadic-Ends p.args h))
    | inr h ↦ ground (arith, required_lem p)
  ]

  refused :
      (p : ArgParser Z)
      → ((parse p).result ≢ ok tt)
      → ((parse p).args ≡ p.args) × Rejected p (min_args p)
  unfolding parse report
  refused p h = elim (Bool-cases (ltb (min_args p) (2 ^ 32) && ltb (length p.args) (2 ^ 32))) [
    | inl s ↦ (ground arith, inl ((ground arith, ground arith), ground arith, ground arith))
    | inr s ↦ (ground arith, inr ((λ (k, l). ground arith), ground arith, ground arith))
  ]

  reported_none : (p : ArgParser Z) → (parse p).result ≡ ok tt → (parse p).reported ≡ []
  unfolding parse report
  reported_none p h = ground arith

  -- A parse either has an accepted number of arguments, succeeds and reports nothing; or it has another
  -- number, leaves the parameters alone, and fails. Where the least number of arguments and the number
  -- of parameters fit in 32 bits, it then reports the two once, and its error has the number of
  -- arguments and the least one; otherwise it reports nothing, and its error is that of the conversion.
  pub parse-refused :
      (p : ArgParser Z) (n : ℕ)
      → Least p n
      → (Accepts p × ((parse p).result ≡ ok tt) × ((parse p).reported ≡ []))
        ⊎ ((Accepts p → ⊥) × ((parse p).args ≡ p.args) × Rejected p n)
  parse-refused p n l =
      let (to, from) = parse-ok_iff p in
      elim (ok_or_not (parse p).result) [
        | inl e ↦ inl (to e, e, reported_none p e)
        | inr e ↦
            let (same, r) = refused p e in
            inr ((λ a. e (from a)), same, subst (Rejected p) (Least-min_args p n l) r)
      ]

  has_variadic-append : (pre : List (Arg Z)) (a : Arg Z) → has_variadic (pre ++ a ∷ []) ≡ a.variadic
  unfolding has_variadic
  has_variadic-append [] a = refl
  has_variadic-append (b ∷ []) a = refl
  has_variadic-append (b ∷ c ∷ pre) a = has_variadic-append (c ∷ pre) a

  -- After `not_required`, a variadic parameter lowers the minimum by one below the number of the
  -- parameters that were declared as required: a call with one argument too few is accepted.
  pub variadic_not_required :
      (p : ArgParser Z) (v : Arg Z)
      → v.variadic ≡ true
      → ((parse (arg v (not_required p))).result ≡ ok tt) ↔ (length p.args ≤ length p.arg_zvals + 1)
  variadic_not_required p v h =
      let q = arg v (not_required p) in
      let (to, from) = parse-InRange q in
      unfold arg not_required min_args in
      (
        λ e. ground (arith, has_variadic-append p.args v, to e),
        λ le.
            from (
              ground (arith, has_variadic-append p.args v),
              inl (has_variadic-append p.args v ∙ h),
            ),
      )
