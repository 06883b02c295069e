-- ===== src/Array/Iter/Slots.antt =====
-- Lists that are taken apart at both ends, and the slots of a table without deleted ones.
use ext_php_rs.Prelude.{
  ℕ, zero, suc, ◌<◌, some, [], ◌∷◌, ◌++◌, List, ◌≡◌, ◌≢◌, ◌⊎◌, refl, ap, arith, length, drop, All,
  map, get_elem?, inl, inr,
}
use ext_php_rs.Array.Entries.{HashKey}
use ext_php_rs.Array.Zend.{live}

module _ {A : Type 0} where
  pub drop-some : (n : ℕ) (es : List A) → drop n (map some es) ≡ map some (drop n es)
  drop-some zero es = refl
  drop-some (suc n) [] = refl
  drop-some (suc n) (e ∷ es) = drop-some n es

  pub drop-length-append : (xs ys : List A) → drop (length xs) (xs ++ ys) ≡ ys
  drop-length-append [] ys = refl
  drop-length-append (x ∷ xs) ys = drop-length-append xs ys

  pub get_some :
      (es : List A) (n : ℕ) → n < length es → (e : A) × (get_elem? (map some es) n ≡ some (some e))
  get_some [] n h = absurd (omega arith)
  get_some (e ∷ es) zero h = (e, refl)
  get_some (e ∷ es) (suc n) h = get_some es n (omega arith)

  pub length-some : (es : List A) → length (map some es) ≡ length es
  length-some [] = refl
  length-some (e ∷ es) = omega (arith, length-some es)

  pub nonempty : (xs : List A) → xs ≢ [] → 0 < length xs
  nonempty [] ne = absurd (ne refl)
  nonempty (x ∷ xs) ne = omega arith

  pub append_cons :
      (m post : List A) (y : A) → (x : A) × (gs : List A) × ((m ++ y ∷ []) ++ post ≡ x ∷ gs)
  append_cons [] post y = (y, post, refl)
  append_cons (x ∷ m) post y = (x, (m ++ y ∷ []) ++ post, refl)

  -- A list is empty, or has a last element.
  pub snoc_cases : (xs : List A) → (xs ≡ []) ⊎ ((ys : List A) × (y : A) × (xs ≡ ys ++ y ∷ []))
  snoc_cases [] = inl refl
  snoc_cases (x ∷ xs) = elim (snoc_cases xs) [
    | inl e ↦ inr ([], x, ap (λ zs. x ∷ zs) e)
    | inr (ys, y, e) ↦ inr (x ∷ ys, y, ap (λ zs. x ∷ zs) e)
  ]

module _ {A : Type 0} (P : A → Type 0) where
  pub All-unsnoc : (xs : List A) (y : A) → All P (xs ++ y ∷ []) → All P xs × P y
  All-unsnoc [] y h = (tt, h.0)
  All-unsnoc (x ∷ xs) y h = let rest = All-unsnoc xs y h.1 in ((h.0, rest.0), rest.1)

pub live-some : {V : Type 0} (es : List (HashKey × V)) → live (map some es) ≡ es
unfolding live
live-some [] = refl
live-some (e ∷ es) = ap (λ xs. e ∷ xs) (live-some es)
