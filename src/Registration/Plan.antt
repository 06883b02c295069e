-- ===== src/Registration/Plan.antt =====
-- Plans of the registrations in src/builders: what a registration that succeeds tells PHP, without the
-- state that it passes on.
use ext_php_rs.Prelude.{
  Option, none, some, List, [], ◌∷◌, ◌++◌, ◌≡◌, refl, sym, ap, ◌∙◌, append_assoc, append-nil,
}
use mathlib.Core.Path.{subst}
use ext_php_rs.Error.{Result, ok, err}
use ext_php_rs.Registration.{Effect, Ended, done, failed, panicked, after, emit, each, expected}
use ext_php_rs.Registration.ClassBuilder.{call}

-- The calls of PHP, or none if something fails.
abbrev pub Plan : Type 0 → Type 0
Plan Z = Option (List (Effect Z))

module _ {Z : Type 0} where
  abbrev pub finished : Ended Z → Plan Z
  finished (done w) = some w
  finished (failed e w) = none
  finished (panicked w) = none

  infixr 6 ◌⊕◌
  abbrev pub ◌⊕◌ : Plan Z → Plan Z → Plan Z
  some p ⊕ some q = some (p ++ q)
  some p ⊕ none = none
  none ⊕ q = none

  abbrev pub sum {ℓ} : {A : Type ℓ} → (A → Plan Z) → List A → Plan Z
  sum p [] = some []
  sum p (a ∷ as') = p a ⊕ sum p as'

  -- What ends well ends with these calls.
  abbrev pub Agrees : Ended Z → Plan Z → Type 0
  Agrees (done w) p = p ≡ some w
  Agrees (failed e w) p = Unit
  Agrees (panicked w) p = Unit

  -- A step that follows a plan if it ends well, whatever was done before.
  abbrev pub Follows : (List (Effect Z) → Ended Z) → Plan Z → Type 0
  Follows f p = (w : List (Effect Z)) → Agrees (f w) (some w ⊕ p)

  pub finished-Agrees :
      (o : Ended Z) (p : Plan Z) (w : List (Effect Z))
      → Agrees o p
      → finished o ≡ some w
      → p ≡ some w
  finished-Agrees (done v) p w h e = h ∙ e
  finished-Agrees (failed x v) p w h e = cc
  finished-Agrees (panicked v) p w h e = cc

  ⊕_assoc : (p q r : Plan Z) → (p ⊕ q) ⊕ r ≡ p ⊕ (q ⊕ r)
  ⊕_assoc none q r = refl
  ⊕_assoc (some p) none r = refl
  ⊕_assoc (some p) (some q) none = refl
  ⊕_assoc (some p) (some q) (some r) = ap some (append_assoc p q r)

  pub done-Follows : Follows done (some [])
  done-Follows w = ap some (append-nil w)

  pub emit-Follows : (e : Effect Z) → Follows (emit e) (some (e ∷ []))
  emit-Follows e w = refl

  expected-Agrees : (o : Ended Z) (p : Plan Z) → Agrees o p → Agrees (expected o) p
  expected-Agrees (done w) p h = h
  expected-Agrees (failed e w) p h = tt
  expected-Agrees (panicked w) p h = tt

  pub expected-Follows :
      (f : List (Effect Z) → Ended Z) (p : Plan Z) → Follows f p → Follows (λ w. expected (f w)) p
  expected-Follows f p h w = expected-Agrees (f w) (some w ⊕ p) (h w)

  after-Agrees :
      (o : Ended Z) (g : List (Effect Z) → Ended Z) (p q : Plan Z)
      → Agrees o p
      → Follows g q
      → Agrees (after o g) (p ⊕ q)
  after-Agrees (done w) g p q h k = subst (λ r. Agrees (g w) (r ⊕ q)) (sym h) (k w)
  after-Agrees (failed e w) g p q h k = tt
  after-Agrees (panicked w) g p q h k = tt

  -- One step and then another.
  pub after-Follows :
      (f g : List (Effect Z) → Ended Z) (p q : Plan Z)
      → Follows f p
      → Follows g q
      → Follows (λ w. after (f w) g) (p ⊕ q)
  after-Follows f g p q hf hg w =
      subst (Agrees (after (f w) g)) (⊕_assoc (some w) p q)
        (after-Agrees (f w) g (some w ⊕ p) q (hf w) hg)

  pub each-Follows {ℓ} :
      {A : Type ℓ} (f : A → List (Effect Z) → Ended Z) (p : A → Plan Z) (as' : List A)
      → ((a : A) → Follows (f a) (p a))
      → Follows (each f as') (sum p as')
  unfolding each
  each-Follows f p [] h = done-Follows
  each-Follows f p (a ∷ as') h =
      after-Follows (f a) (each f as') (p a) (sum p as') (h a) (each-Follows f p as' h)

  abbrev pub planned_call : Result (Effect Z) → Plan Z
  planned_call (ok e) = some (e ∷ [])
  planned_call (err e) = none

  pub call-Follows : (r : Result (Effect Z)) → Follows (call r) (planned_call r)
  call-Follows (ok e) w = refl
  call-Follows (err e) w = tt
