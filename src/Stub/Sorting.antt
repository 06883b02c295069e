-- ===== src/Stub/Sorting.antt =====
-- `sort_by` with the order of `str`, a stable sort, as src/describe/stub.rs uses it; it follows the
-- documentation of Rust. No code of the repository is modelled here.
use ext_php_rs.Prelude.{Bool, true, false, List, [], ◌∷◌, Bytes, ltb, ◌==◌, if◌then◌else◌}

-- The first text is greater.
unfoldable pub greater : Bytes → Bytes → Bool
greater [] t = false
greater (a ∷ s) [] = true
greater (a ∷ s) (b ∷ t) = let rest = greater s t in if a == b then rest else ltb b a

module _ {A : Type 0} (gt : A → A → Bool) where
  unfoldable pub insert_sorted : A → List A → List A
  insert_sorted x [] = x ∷ []
  insert_sorted x (y ∷ ys) =
      let rest = insert_sorted x ys in if gt x y then y ∷ rest else x ∷ y ∷ ys

  unfoldable pub sort_by : List A → List A
  sort_by [] = []
  sort_by (x ∷ xs) = insert_sorted x (sort_by xs)
