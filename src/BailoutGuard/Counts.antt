-- ===== src/BailoutGuard/Counts.antt =====
-- How often src/zend/bailout_guard.rs has an address, and what its operations do to these numbers.
use ext_php_rs.Prelude.{
  ℕ, zero, suc, ◌+◌, Bool, true, some, [], ◌∷◌, ◌++◌, List, ◌==◌, ◌≡◌, ◌≢◌, refl, sym, ap, arith,
  if◌then◌else◌, get_elem?, remove_at, All, All-map, All-remove_at, All-get_elem?, ◌∙◌,
}
use ext_php_rs.BailoutGuard.{BailoutGuard, World, deactivate, cleanups}

-- How often an address stands in a list, and in the active entries of a stack.
abbrev pub count : ℕ → List ℕ → ℕ
count p [] = 0
count p (q ∷ s) = (if q == p then 1 else 0) + count p s

abbrev pub count_active : ℕ → List (ℕ × Bool) → ℕ
count_active p [] = 0
count_active p ((q, active) ∷ s) =
    (if active then (if q == p then 1 else 0) else 0) + count_active p s

-- The number of fates of an address.
abbrev pub fates : World → ℕ → ℕ
fates w p = count_active p w.stack + count p w.dropped + count p w.taken

abbrev pub Registered : List (ℕ × Bool) → BailoutGuard → Type 0
Registered s g = get_elem? s g.index ≡ some (g.value, true)

abbrev pub Apart : List BailoutGuard → Type 0
Apart [] = Unit
Apart (g ∷ gs) = All (λ (h : BailoutGuard). h.index ≢ g.index) gs × Apart gs

pub count-append : (p : ℕ) (s t : List ℕ) → count p (s ++ t) ≡ count p s + count p t
count-append p [] t = omega arith
count-append p (q ∷ s) t = omega (arith, count-append p s t)

pub count_active-append :
    (p : ℕ) (s t : List (ℕ × Bool)) → count_active p (s ++ t) ≡ count_active p s + count_active p t
count_active-append p [] t = omega arith
count_active-append p ((q, a) ∷ s) t = omega (arith, count_active-append p s t)

pub count-cleanups : (p : ℕ) (s : List (ℕ × Bool)) → count p (cleanups s) ≡ count_active p s
unfolding cleanups
count-cleanups p [] = refl
count-cleanups p ((q, a) ∷ s) =
    ground (arith, count-cleanups p s, count-append p (cleanups s) (if a then q ∷ [] else []))

-- Silencing an active entry takes its address from the active ones.
pub count_active-deactivate :
    (p q : ℕ) (s : List (ℕ × Bool)) (i : ℕ)
    → get_elem? s i ≡ some (q, true)
    → count_active p (deactivate s i) + (if q == p then 1 else 0) ≡ count_active p s
count_active-deactivate p q [] i h = cc
count_active-deactivate p q ((r, a) ∷ s) zero h = ground arith
count_active-deactivate p q ((r, a) ∷ s) (suc i) h =
    omega (arith, count_active-deactivate p q s i h)

pub get_elem?-deactivate_ne :
    (s : List (ℕ × Bool)) (i j : ℕ) → i ≢ j → get_elem? (deactivate s i) j ≡ get_elem? s j
get_elem?-deactivate_ne [] i j h = refl
get_elem?-deactivate_ne ((q, a) ∷ s) zero zero h = absurd (h refl)
get_elem?-deactivate_ne ((q, a) ∷ s) zero (suc j) h = refl
get_elem?-deactivate_ne ((q, a) ∷ s) (suc i) zero h = refl
get_elem?-deactivate_ne ((q, a) ∷ s) (suc i) (suc j) h = get_elem?-deactivate_ne s i j (omega arith)

pub Apart-remove_at : (gs : List BailoutGuard) (k : ℕ) → Apart gs → Apart (remove_at gs k)
Apart-remove_at [] k h = h
Apart-remove_at (g ∷ gs) zero h = h.1
Apart-remove_at (g ∷ gs) (suc k) h =
    (All-remove_at (λ (h : BailoutGuard). h.index ≢ g.index) gs k h.0, Apart-remove_at gs k h.1)

abbrev pub ApartFrom : BailoutGuard → BailoutGuard → Type 0
ApartFrom g h = g.index ≢ h.index

pub Apart-others :
    (gs : List BailoutGuard) (k : ℕ) {g : BailoutGuard}
    → get_elem? gs k ≡ some g
    → Apart gs
    → All (ApartFrom g) (remove_at gs k)
Apart-others [] k e h = tt
Apart-others (x ∷ gs) zero {g} e h =
    All-map (λ (y : BailoutGuard). y.index ≢ x.index) (ApartFrom g) gs
      (λ y ne same.
        let e' : x ≡ g = cc in ne (sym same ∙ ap (λ (z : BailoutGuard). z.index) (sym e')))
      h.0
Apart-others (x ∷ gs) (suc k) {g} e h =
    (All-get_elem? (λ (y : BailoutGuard). y.index ≢ x.index) gs k h.0 e, Apart-others gs k e h.1)
