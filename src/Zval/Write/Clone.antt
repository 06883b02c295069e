-- ===== src/Zval/Write/Clone.antt =====
-- The count that `shallow_clone` of src/types/zval.rs makes.
use Prim.Native.Nat.{bit_and}
use ext_php_rs.Prelude.{
  ℕ, Bool, true, false, [], ◌==◌, if◌then◌else◌, ◌≡◌, refl, arith, Bool-cases, inl, inr,
}
use ext_php_rs.ZvalTypeFlags.{ref_counted}
use ext_php_rs.Zval.Write.{Slot, shallow_clone, counted}
use ext_php_rs.Zval.Write.Counts.{Content, total, makes, owns, tag}
use ext_php_rs.Zval.Write.Balance.{IsValid}

-- Whether the type word of a content has the flag for counts.
abbrev has_count : (ℕ → Bool) → Content → Bool
has_count immortal (Content.string_of p) = if immortal p then false else true
has_count immortal (Content.array_of p) = if immortal p then false else true
has_count immortal (Content.object_of p) = true
has_count immortal (Content.resource_of p) = true
has_count immortal _ = false

module _ (immortal : ℕ → Bool) (contains : ℕ → ℕ → Bool) where
  contains-tag :
      ((flags other : ℕ) → contains flags other ≡ (bit_and flags other == other))
      → (c : Content) → contains (tag immortal c) ref_counted ≡ has_count immortal c
  contains-tag law Content.null_of = law _ _
  contains-tag law Content.long_of = law _ _
  contains-tag law Content.double_of = law _ _
  contains-tag law (Content.bool_of true) = law _ _
  contains-tag law (Content.bool_of false) = law _ _
  contains-tag law (Content.object_of p) = law _ _
  contains-tag law (Content.resource_of p) = law _ _
  contains-tag law (Content.string_of p) = elim (Bool-cases (immortal p)) [
    | inl e ↦ rw e (law _ _)
    | inr e ↦ rw e (law _ _)
  ]
  contains-tag law (Content.array_of p) = elim (Bool-cases (immortal p)) [
    | inl e ↦ rw e (law _ _)
    | inr e ↦ rw e (law _ _)
  ]

module _ {D : Type 0} (immortal : ℕ → Bool) where
  counted_lem :
      (c : Content) (z : Slot D) (p : ℕ)
      → IsValid immortal z c
      → total makes (if has_count immortal c then counted z.value else []) p ≡ owns immortal c p
  counted_lem Content.null_of z p h = refl
  counted_lem Content.long_of z p h = refl
  counted_lem Content.double_of z p h = refl
  counted_lem (Content.bool_of b) z p h = refl
  counted_lem (Content.object_of q) z p h = rw h.1 (omega arith)
  counted_lem (Content.resource_of q) z p h = rw h.1 (omega arith)
  counted_lem (Content.string_of q) z p h = rw h.1.0 (ground arith)
  counted_lem (Content.array_of q) z p h = rw h.1 (ground arith)

  -- A shallow clone of a zval with a content has the same content, and makes for every address as many
  -- counts as that content owns, if `contains` tests, as `bitflags` documents, for all bits.
  pub shallow_clone-owns :
      (contains : ℕ → ℕ → Bool)
      → ((flags other : ℕ) → contains flags other ≡ (bit_and flags other == other))
      → (z : Slot D) (c : Content) (p : ℕ) → IsValid immortal z c
      → IsValid immortal (shallow_clone contains z).0 c
        × (total makes (shallow_clone contains z).1 p ≡ owns immortal c p)
  unfolding shallow_clone
  shallow_clone-owns contains law z c p h =
      (h, rw (h.0, contains-tag immortal contains law c) (counted_lem c z p h))
