-- ===== src/Zval/FloatText/Mantissa.antt =====
-- The shapes that `php_float_to_string` gives to a mantissa and to a decimal print.
use ext_php_rs.Prelude.{ℕ, true, false, [], ◌∷◌, ◌++◌, Bytes, codes, ◌≡◌, refl, arith, ◌||◌}
use ext_php_rs.Zval.FloatText.{trim_end, contains, ends_with, mantissa, php_float_to_string}

tests :
    (php_float_to_string (codes "1.00000000000000E14") (codes "100000000000000") ≡ codes "1.0E+14")
    × (php_float_to_string (codes "1.00000000000000E-5") (codes "0.00001") ≡ codes "1.0E-5")
    × (php_float_to_string (codes "-1.50000000000000E52") (codes "?") ≡ codes "-1.5E+52")
    × (php_float_to_string (codes "1.00000000000000E2") (codes "100") ≡ codes "100")
    × (php_float_to_string (codes "1.50000000000000E0") (codes "1.50") ≡ codes "1.5")
unfolding php_float_to_string
tests = (refl, refl, refl, refl, refl)

ends_with-trim_end : (c : ℕ) (s : Bytes) → ends_with c (trim_end c s) ≡ false
unfolding ends_with trim_end
ends_with-trim_end c [] = refl
ends_with-trim_end c (d ∷ s) = ground (arith, ends_with-trim_end c s)

ends_with-append : (c d : ℕ) (s t : Bytes) → ends_with c (s ++ d ∷ t) ≡ ends_with c (d ∷ t)
unfolding ends_with
ends_with-append c d [] t = refl
ends_with-append c d (e ∷ []) t = refl
ends_with-append c d (e ∷ x ∷ s) t = ends_with-append c d (x ∷ s) t

contains-append : (c : ℕ) (s t : Bytes) → contains c (s ++ t) ≡ contains c s || contains c t
unfolding contains
contains-append c [] t = refl
contains-append c (d ∷ s) t = ground (arith, contains-append c s t)

-- The mantissa of a scientific print always has a point, and a digit or sign behind it: it does not
-- end in the point.
pub mantissa_has_point :
    (part : Bytes)
    → (contains b'.' (mantissa part) ≡ true) × (ends_with b'.' (mantissa part) ≡ false)
mantissa_has_point part =
    let m = trim_end b'.' (trim_end b'0' part) in
    unfold mantissa in
    ground (
      arith,
      ends_with-trim_end b'.' (trim_end b'0' part),
      contains-append b'.' m (codes ".0"),
      ends_with-append b'.' b'.' m (codes "0"),
    )
