-- ===== src/Registration/Order.antt =====
-- The order in which the start of an extension in src/builders/module.rs tells PHP of classes that need
-- each other, and that no class entry is stored twice.
use mathlib.Core.Path.{subst}
use ext_php_rs.Prelude.{
  ℕ, Bool, true, false, ◌==◌, Option, none, some, List, [], ◌∷◌, ◌++◌, ◌≡◌, sym, ap, append_assoc,
  append-nil, arith, ◌⊎◌, inl, inr, Bool-cases,
}
use ext_php_rs.Error.{Result, ok, err}
use ext_php_rs.Registration.{
  Closure, php_class, metadata, Effect, constant, interface, class, add_flags, deny_serialization,
  implement, property, class_constant, create_object, registered, enumeration, enum_case, observers,
  Ended, done, failed, panicked, after, emit, each, expected,
}
use ext_php_rs.Registration.ClassBuilder.{call, stored}

module _ {Z : Type 0} where
  -- Some call stored the entry of the metadata `f`.
  abbrev pub Stored : ℕ → List (Effect Z) → Type 0
  Stored f [] = ⊥
  Stored f (e ∷ w) = (e ≡ registered f) ⊎ Stored f w

  pub stored-Stored : (f : ℕ) (w : List (Effect Z)) → stored f w ≡ true → Stored f w
  unfolding stored
  stored-Stored f [] h = cc
  stored-Stored f (registered g ∷ w) h = elim (Bool-cases (f == g)) [
    | inl e ↦ inl (let same : g ≡ f = ground (arith, e) in ap registered same)
    | inr e ↦ inr (stored-Stored f w (ground (arith, e, h)))
  ]
  stored-Stored f (constant name value ∷ w) h = inr (stored-Stored f w h)
  stored-Stored f (interface name bits entries ∷ w) h = inr (stored-Stored f w h)
  stored-Stored f (class name bits entries parent ∷ w) h = inr (stored-Stored f w h)
  stored-Stored f (add_flags bits ∷ w) h = inr (stored-Stored f w h)
  stored-Stored f (deny_serialization ∷ w) h = inr (stored-Stored f w h)
  stored-Stored f (implement closure ∷ w) h = inr (stored-Stored f w h)
  stored-Stored f (property name bits value ∷ w) h = inr (stored-Stored f w h)
  stored-Stored f (class_constant name value ∷ w) h = inr (stored-Stored f w h)
  stored-Stored f (create_object g ∷ w) h = inr (stored-Stored f w h)
  stored-Stored f (enumeration name bits entries ∷ w) h = inr (stored-Stored f w h)
  stored-Stored f (enum_case name value ∷ w) h = inr (stored-Stored f w h)
  stored-Stored f (observers ∷ w) h = inr (stored-Stored f w h)

  stored_later :
      (f : ℕ) (e : Effect Z) (w : List (Effect Z)) → stored f w ≡ true → stored f (e ∷ w) ≡ true
  unfolding stored
  stored_later f (registered g) w h = ground (arith, h)
  stored_later f (constant name value) w h = h
  stored_later f (interface name bits entries) w h = h
  stored_later f (class name bits entries parent) w h = h
  stored_later f (add_flags bits) w h = h
  stored_later f deny_serialization w h = h
  stored_later f (implement closure) w h = h
  stored_later f (property name bits value) w h = h
  stored_later f (class_constant name value) w h = h
  stored_later f (create_object g) w h = h
  stored_later f (enumeration name bits entries) w h = h
  stored_later f (enum_case name value) w h = h
  stored_later f observers w h = h

  stored_now : (f : ℕ) (w : List (Effect Z)) → stored f (registered f ∷ w) ≡ true
  unfolding stored
  stored_now f w = ground arith

  pub Stored-stored : (f : ℕ) (w : List (Effect Z)) → Stored f w → stored f w ≡ true
  Stored-stored f [] h = absurd h
  Stored-stored f (e ∷ w) (inl p) = subst (λ x. stored f (x ∷ w) ≡ true) (sym p) (stored_now f w)
  Stored-stored f (e ∷ w) (inr h) = stored_later f e w (Stored-stored f w h)

  -- The function gives a class entry.
  abbrev pub Gives : Option Closure → List (Effect Z) → Type 0
  Gives none w = Unit
  Gives (some (php_class address)) w = Unit
  Gives (some (metadata f)) w = Stored f w

  -- What a call of PHP wants of those before it.
  abbrev pub Ready : Effect Z → List (Effect Z) → Type 0
  Ready (constant name value) w = Unit
  Ready (interface name bits entries) w = Unit
  Ready (class name bits entries parent) w = Gives parent w
  Ready (add_flags bits) w = Unit
  Ready deny_serialization w = Unit
  Ready (implement closure) w = Gives (some closure) w
  Ready (property name bits value) w = Unit
  Ready (class_constant name value) w = Unit
  Ready (create_object f) w = Unit
  Ready (registered f) w = Stored f w → ⊥
  Ready (enumeration name bits entries) w = Unit
  Ready (enum_case name value) w = Unit
  Ready observers w = Unit

  abbrev pub OrderedFrom : List (Effect Z) → List (Effect Z) → Type 0
  OrderedFrom before [] = Unit
  OrderedFrom before (e ∷ w) = Ready e before × OrderedFrom (before ++ e ∷ []) w

  -- Each call is ready when it is made.
  abbrev pub Ordered : List (Effect Z) → Type 0
  Ordered w = OrderedFrom [] w

  abbrev pub calls : Ended Z → List (Effect Z)
  calls (done w) = w
  calls (failed e w) = w
  calls (panicked w) = w

  pub one_more :
      (before w : List (Effect Z)) (e : Effect Z)
      → OrderedFrom before w
      → Ready e (before ++ w)
      → OrderedFrom before (w ++ e ∷ [])
  one_more before [] e h r = (subst (Ready e) (append-nil before) r, tt)
  one_more before (x ∷ w) e h r = (
    h.0,
    one_more (before ++ x ∷ []) w e h.1 (subst (Ready e) (sym (append_assoc before (x ∷ []) w)) r),
  )

  -- A step that keeps the order however it ends.
  abbrev pub Keeps : (List (Effect Z) → Ended Z) → Type 0
  Keeps f = (w : List (Effect Z)) → Ordered w → Ordered (calls (f w))

  pub after-Keeps :
      (f g : List (Effect Z) → Ended Z) → Keeps f → Keeps g → Keeps (λ w. after (f w) g)
  after-Keeps f g hf hg w h = go (f w) (hf w h)
    where
      go : (o : Ended Z) → Ordered (calls o) → Ordered (calls (after o g))
      go (done v) k = hg v k
      go (failed e v) k = k
      go (panicked v) k = k

  pub expected-Keeps : (f : List (Effect Z) → Ended Z) → Keeps f → Keeps (λ w. expected (f w))
  expected-Keeps f hf w h = go (f w) (hf w h)
    where
      go : (o : Ended Z) → Ordered (calls o) → Ordered (calls (expected o))
      go (done v) k = k
      go (failed e v) k = k
      go (panicked v) k = k

  pub each-Keeps {ℓ} :
      {A : Type ℓ} (f : A → List (Effect Z) → Ended Z) (as' : List A)
      → ((a : A) → Keeps (f a))
      → Keeps (each f as')
  unfolding each
  each-Keeps f [] hf w h = h
  each-Keeps f (a ∷ as') hf w h = after-Keeps (f a) (each f as') (hf a) (each-Keeps f as' hf) w h

  -- A call that wants nothing.
  abbrev pub harmless : Effect Z → Bool
  harmless (class name bits entries parent) = false
  harmless (implement closure) = false
  harmless (registered f) = false
  harmless _ = true

  harmless-Ready : (e : Effect Z) (w : List (Effect Z)) → harmless e ≡ true → Ready e w
  harmless-Ready (constant name value) w h = tt
  harmless-Ready (interface name bits entries) w h = tt
  harmless-Ready (class name bits entries parent) w h = cc
  harmless-Ready (add_flags bits) w h = tt
  harmless-Ready deny_serialization w h = tt
  harmless-Ready (implement closure) w h = cc
  harmless-Ready (property name bits value) w h = tt
  harmless-Ready (class_constant name value) w h = tt
  harmless-Ready (create_object f) w h = tt
  harmless-Ready (registered f) w h = cc
  harmless-Ready (enumeration name bits entries) w h = tt
  harmless-Ready (enum_case name value) w h = tt
  harmless-Ready observers w h = tt

  pub emit-Keeps : (e : Effect Z) → harmless e ≡ true → Keeps (emit e)
  emit-Keeps e p w h = one_more [] w e h (harmless-Ready e w p)

  abbrev pub Harmless : Result (Effect Z) → Type 0
  Harmless (ok e) = harmless e ≡ true
  Harmless (err e) = Unit

  pub call-Keeps : (r : Result (Effect Z)) → Harmless r → Keeps (call r)
  call-Keeps (ok e) p w h = emit-Keeps e p w h
  call-Keeps (err e) p w h = h
