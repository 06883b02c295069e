-- ===== src/PropertyHandlers/Cache.antt =====
-- The cache slots of src/zend/handlers.rs never change what a property resolves to.
use ext_php_rs.Prelude.{
  ℕ, true, false, Option, none, some, List, [], ◌∷◌, Bytes, map, ◌==◌, ==_iff, ◌≡◌, refl, sym, ap,
  ◌∙◌, if◌then◌else◌,
}
use ext_php_rs.Text.Utf8.{is_utf8}
use ext_php_rs.PropertyHandlers.{
  PhpResult, ok, err, ◌>>=◌, PropertyDescriptor, ClassMetadata, Slot, as_str, find_property,
  looked_up, resolve_property,
}

-- `classes` gives the metadata of a class by its address.
module _ {T Z : Type 0} (classes : ℕ → ClassMetadata T Z) where
  -- An address is that of the metadata that it gives.
  abbrev pub Placed : Type 0
  Placed = (a : ℕ) → (classes a).address ≡ a

  -- What is in a slot of an opcode that names `name` was found under it.
  abbrev pub Sound : Bytes → Slot T Z → Type 0
  Sound name (some (some c)) = find_property (classes c.guard) name ≡ some c.descriptor
  Sound name _ = Unit

  -- The lookup without a slot.
  abbrev pub lookup : Bytes → ℕ → PhpResult (Option (PropertyDescriptor T Z))
  lookup name a = ok (find_property (classes a) name)

  -- A resolution that gives what the lookup gives and leaves the slot sound.
  abbrev Agrees : Bytes → ℕ → PhpResult (Option (PropertyDescriptor T Z) × Slot T Z) → Type 0
  Agrees name a (ok (d, slot)) = (d ≡ find_property (classes a) name) × Sound name slot
  Agrees name a (err e) = ⊥

  looked_up-Agrees :
      (placed : Placed) (name : Bytes) (a : ℕ) (slot : Slot T Z)
      (d : Option (PropertyDescriptor T Z))
      → Sound name slot
      → find_property (classes a) name ≡ d
      → Agrees name a (ok (looked_up (classes a) slot d))
  unfolding looked_up
  looked_up-Agrees placed name a slot none h e = (sym e, h)
  looked_up-Agrees placed name a none (some d) h e = (sym e, tt)
  looked_up-Agrees placed name a (some c) (some d) h e =
      (sym e, ap (λ b. find_property (classes b) name) (placed a) ∙ e)

  missed-Agrees :
      (placed : Placed) (name : Bytes) (a : ℕ) (slot : Slot T Z)
      → is_utf8 name ≡ true
      → Sound name slot
      → Agrees name a (
          as_str (some name) >>= λ n. ok (looked_up (classes a) slot (find_property (classes a) n)))
  missed-Agrees placed name a slot u h =
      rw u (looked_up-Agrees placed name a slot (find_property (classes a) name) h refl)

  resolve-Agrees :
      (placed : Placed) (name : Bytes) (a : ℕ) (slot : Slot T Z)
      → is_utf8 name ≡ true
      → Sound name slot
      → Agrees name a (resolve_property (classes a) (some name) slot)
  unfolding resolve_property
  resolve-Agrees placed name a none u h = missed-Agrees placed name a none u h
  resolve-Agrees placed name a (some none) u h = missed-Agrees placed name a (some none) u h
  resolve-Agrees placed name a (some (some c)) u h =
      elim (c.guard == (classes a).address)
          as (λ b.
            (c.guard == (classes a).address) ≡ b
            → Agrees name a (elim (if b then some c.descriptor else none) [
              | some d ↦ ok (some d, some (some c))
              | none ↦ as_str (some name) >>= λ n.
                  ok (looked_up (classes a) (some (some c)) (find_property (classes a) n))
            ])) [
              | true ↦ λ q.
                  let same : c.guard ≡ a = (==_iff c.guard (classes a).address).0 q ∙ placed a in
                  (sym h ∙ ap (λ b. find_property (classes b) name) same, h)
              | false ↦ λ q. missed-Agrees placed name a (some (some c)) u h
            ]
        refl

  -- The resolutions at one opcode, which names one property, for objects of any classes in turn.
  unfoldable pub resolves :
      Bytes → List ℕ → Slot T Z → List (PhpResult (Option (PropertyDescriptor T Z)))
  unfolding resolve_property
  resolves name [] slot = []
  resolves name (a ∷ as') slot = elim (resolve_property (classes a) (some name) slot) [
    | ok (d, slot') ↦ ok d ∷ resolves name as' slot'
    | err e ↦ err e ∷ resolves name as' slot
  ]

  -- However the objects of different classes follow one another at an opcode with a cache slot, or with
  -- none, every access resolves to the property that the class has under the name, just as without the
  -- cache, if the slot starts out empty or with what such accesses left there.
  pub resolves-lookup :
      (name : Bytes) (as' : List ℕ) (slot : Slot T Z)
      → Placed
      → is_utf8 name ≡ true
      → Sound name slot
      → resolves name as' slot ≡ map (lookup name) as'
  unfolding resolves
  resolves-lookup name [] slot placed u h = refl
  resolves-lookup name (a ∷ as') slot placed u h =
      elim (resolve_property (classes a) (some name) slot)
          as (λ r.
            Agrees name a r
            → elim r [
              | ok (d, slot') ↦ ok d ∷ resolves name as' slot'
              | err e ↦ err e ∷ resolves name as' slot
            ]
              ≡ lookup name a ∷ map (lookup name) as') [
                | ok (d, slot') ↦
                    λ (same, sound). rw (same, resolves-lookup name as' slot' placed u sound) refl
                | err e ↦ λ k. absurd k
              ]
        (resolve-Agrees placed name a slot u h)

  -- What a single resolution gives.
  pub resolve_lookup :
      (name : Bytes) (a : ℕ) (slot : Slot T Z)
      → Placed
      → is_utf8 name ≡ true
      → Sound name slot
      → (slot' : Slot T Z) × (resolve_property (classes a) (some name) slot
          ≡ ok (find_property (classes a) name, slot'))
        × Sound name slot'
  resolve_lookup name a slot placed u h =
      elim (resolve_property (classes a) (some name) slot)
          as (λ r.
            Agrees name a r
            → (slot' : Slot T Z) × (r ≡ ok (find_property (classes a) name, slot'))
              × Sound name slot') [
                | ok (d, slot') ↦ λ (same, sound). (slot', rw same refl, sound)
                | err e ↦ λ k. absurd k
              ]
        (resolve-Agrees placed name a slot u h)
