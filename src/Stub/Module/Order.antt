-- ===== src/Stub/Module/Order.antt =====
-- The sort of the stubs in src/describe/stub.rs keeps them all and puts them in the order of their keys.
use mathlib.Core.List.{Perm}
use mathlib.Core.List.Perm
use ext_php_rs.Prelude.{true, false, List, [], ◌∷◌, Bytes, ◌≡◌, refl, arith, Bool-cases, inl, inr}
use ext_php_rs.Stub.Sorting.{greater, sort_by, insert_sorted}
use ext_php_rs.Stub.Module.{Keyed, key_greater, sorted}

-- No key is greater than the next one.
abbrev pub InOrder : List Keyed → Type 0
InOrder [] = Unit
InOrder (a ∷ []) = Unit
InOrder (a ∷ b ∷ ks) = (greater a.0 b.0 ≡ false) × InOrder (b ∷ ks)

greater_asym : (s t : Bytes) → greater s t ≡ true → greater t s ≡ false
unfolding greater
greater_asym [] t h = cc
greater_asym (a ∷ s) [] h = refl
greater_asym (a ∷ s) (b ∷ t) h = ground (arith, greater_asym s t)

insert_sorted-Perm : (x : Keyed) (ys : List Keyed) → Perm (insert_sorted key_greater x ys) (x ∷ ys)
unfolding insert_sorted key_greater
insert_sorted-Perm x [] = Perm.refl (x ∷ [])
insert_sorted-Perm x (y ∷ ys) = elim (Bool-cases (greater x.0 y.0)) [
  | inl g ↦ rw g (Perm.trans (Perm.cons y (insert_sorted-Perm x ys)) (Perm.swap x y ys))
  | inr g ↦ rw g (Perm.refl (x ∷ y ∷ ys))
]

pub sorted-Perm : (ks : List Keyed) → Perm (sorted ks) ks
unfolding sorted sort_by key_greater
sorted-Perm [] = Perm.refl []
sorted-Perm (k ∷ ks) =
    Perm.trans (insert_sorted-Perm k (sort_by key_greater ks)) (Perm.cons k (sorted-Perm ks))

insert_sorted-InOrder :
    (x : Keyed) (ys : List Keyed) → InOrder ys → InOrder (insert_sorted key_greater x ys)
unfolding insert_sorted key_greater
insert_sorted-InOrder x [] h = tt
insert_sorted-InOrder x (y ∷ []) h = elim (Bool-cases (greater x.0 y.0)) [
  | inl g ↦ rw g (greater_asym x.0 y.0 g, tt)
  | inr g ↦ rw g (g, tt)
]
insert_sorted-InOrder x (y ∷ z ∷ ys) h = elim (Bool-cases (greater x.0 y.0)) [
  | inl g ↦
      let rest = insert_sorted-InOrder x (z ∷ ys) h.1 in
      elim (Bool-cases (greater x.0 z.0)) [
        | inl k ↦ rw (g, k) (h.0, rw k at rest)
        | inr k ↦ rw (g, k) (greater_asym x.0 y.0 g, (k, h.1))
      ]
  | inr g ↦ rw g (g, h)
]

pub sorted-InOrder : (ks : List Keyed) → InOrder (sorted ks)
unfolding sorted sort_by key_greater
sorted-InOrder [] = tt
sorted-InOrder (k ∷ ks) = insert_sorted-InOrder k (sort_by key_greater ks) (sorted-InOrder ks)
