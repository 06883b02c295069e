-- ===== src/Zval/Numeric/Long.antt =====
-- `parse_long_from_str`: the saturated value of the leading digits.
use ext_php_rs.Prelude.{
  ℕ, zero, suc, ◌+◌, ◌<◌, true, false, [], ◌∷◌, some, Bytes, codes, ◌==◌, if◌then◌else◌, take, ◌≡◌,
  ◌≢◌, refl, arith, leb, ltb, ◌-◌, ◌*◌, ◌||◌, Bool-cases, inl, inr,
}
use native.Mathlib.Nat.{zero-add}
use native.Mathlib.Numerals.{one-add}
use ext_php_rs.Prelude.Int.{ℤ, pos, negsuc, neg, i64_max, i64_min, IsI64, i64_limit}
use ext_php_rs.Text.Decimal.{from_str, is_digit, minus, plus, digits?, magnitude, to_pos, to_neg}
use ext_php_rs.Text.Utf8.{trim_start}
use ext_php_rs.Zval.Numeric.{digit_run, parse_digits, parse_trimmed_long, parse_long_from_str}

documented :
    (parse_long_from_str (codes "42") ≡ pos 42)
    × (parse_long_from_str (codes "42abc") ≡ pos 42)
    × (parse_long_from_str (codes " \t 42") ≡ pos 42)
    × (parse_long_from_str (codes "-42") ≡ negsuc 41)
    × (parse_long_from_str (codes "abc") ≡ pos 0)
    × (parse_long_from_str (codes "") ≡ pos 0)
    × (parse_long_from_str (codes "0xFF") ≡ pos 0)
    × (parse_long_from_str (codes "010") ≡ pos 10)
    × (parse_long_from_str (codes "99999999999999999999") ≡ i64_max)
    × (parse_long_from_str (codes "-99999999999999999999") ≡ i64_min)
unfolding parse_long_from_str from_str
documented = (refl, refl, refl, refl, refl, refl, refl, refl, refl, refl)

-- The number that the leading digits spell behind `n`.
abbrev pub leading : ℕ → Bytes → ℕ
leading n [] = n
leading n (c ∷ s) = let rest = leading (n * 10 + (c - b'0')) s in if is_digit c then rest else n

abbrev pub clamp_pos : ℕ → ℤ
clamp_pos n = if ltb n i64_limit then pos n else i64_max

abbrev pub clamp_neg : ℕ → ℤ
clamp_neg n = if leb n i64_limit then neg n else i64_min

-- An optional sign, the value of the digits behind it, clamped to the range of `i64`.
abbrev pub signed_leading : Bytes → ℤ
signed_leading [] = pos 0
signed_leading (c ∷ s) =
    if c == minus
    then clamp_neg (leading 0 s)
    else if c == plus
    then clamp_pos (leading 0 s)
    else clamp_pos (leading 0 (c ∷ s))

magnitude-take : (s : Bytes) (n : ℕ) → magnitude n (take (digit_run s) s) ≡ some (leading n s)
unfolding magnitude digit_run
magnitude-take [] n = refl
magnitude-take (c ∷ s) n = ground (arith, magnitude-take s (n * 10 + (c - b'0')))

digits?-take : (s : Bytes) → digit_run s ≢ 0 → digits? (take (digit_run s) s) ≡ some (leading 0 s)
unfolding digits? digit_run
digits?-take [] h = absurd (h refl)
digits?-take (c ∷ s) h = ground (arith, magnitude-take (c ∷ s) 0)

no_digits : (s : Bytes) (n : ℕ) → digit_run s ≡ 0 → leading n s ≡ n
unfolding digit_run
no_digits [] n h = refl
no_digits (c ∷ s) n h = ground arith

from_str-take :
    (c : ℕ) (s : Bytes)
    → digit_run (c ∷ s) ≢ 0
    → from_str (take (digit_run (c ∷ s)) (c ∷ s)) ≡ to_pos (some (leading 0 (c ∷ s)))
unfolding from_str digit_run
from_str-take c s h = ground (arith, digits?-take (c ∷ s))

parse_digits_unsigned :
    (c : ℕ) (s : Bytes) → parse_digits (c ∷ s) false 0 (c ∷ s) ≡ clamp_pos (leading 0 (c ∷ s))
unfolding parse_digits to_pos
parse_digits_unsigned c s =
    rw (zero-add (digit_run (c ∷ s)), parse_digits)
      (ground (arith, from_str-take c s, no_digits (c ∷ s) 0))

parse_digits_signed :
    (c : ℕ) (s : Bytes)
    → (c == minus || c == plus) ≡ true
    → parse_digits (c ∷ s) (c == minus) 1 s
      ≡ (if c == minus then clamp_neg (leading 0 s) else clamp_pos (leading 0 s))
unfolding parse_digits to_pos to_neg from_str
parse_digits_signed c s h =
    rw (one-add (digit_run s), parse_digits) (ground (arith, digits?-take s, no_digits s 0))

parse_trimmed_long-eq : (s : Bytes) → parse_trimmed_long s ≡ signed_leading s
unfolding parse_trimmed_long
parse_trimmed_long-eq [] = refl
parse_trimmed_long-eq (c ∷ s) = ground (arith, parse_digits_unsigned c s, parse_digits_signed c s)

-- On every text, `parse_long_from_str` is the sign and the leading digits behind the white space,
-- clamped to the range of `i64`; it is 0 where there are none.
pub parse_long_from_str-eq : (s : Bytes) → parse_long_from_str s ≡ signed_leading (trim_start s)
unfolding parse_long_from_str
parse_long_from_str-eq s = parse_trimmed_long-eq (trim_start s)

neg-IsI64 : (n : ℕ) → n < suc i64_limit → IsI64 (neg n)
neg-IsI64 zero h = omega arith
neg-IsI64 (suc n) h = omega arith

clamp_pos-IsI64 : (n : ℕ) → IsI64 (clamp_pos n)
clamp_pos-IsI64 n = elim (Bool-cases (ltb n i64_limit)) [
  | inl fits ↦ rw fits (ground arith)
  | inr over ↦ rw over (omega arith)
]

clamp_neg-IsI64 : (n : ℕ) → IsI64 (clamp_neg n)
clamp_neg-IsI64 n = elim (Bool-cases (leb n i64_limit)) [
  | inl fits ↦ rw fits (neg-IsI64 n (ground arith))
  | inr over ↦ rw over (omega arith)
]

signed_leading-IsI64 : (s : Bytes) → IsI64 (signed_leading s)
signed_leading-IsI64 [] = omega arith
signed_leading-IsI64 (c ∷ s) = elim (Bool-cases (c == minus)) [
  | inl negative ↦ rw negative (clamp_neg-IsI64 (leading 0 s))
  | inr other ↦ rw other (elim (Bool-cases (c == plus)) [
    | inl positive ↦ rw positive (clamp_pos-IsI64 (leading 0 s))
    | inr unsigned ↦ rw unsigned (clamp_pos-IsI64 (leading 0 (c ∷ s)))
  ])
]

-- Whatever the text, the result is an `i64`.
pub parse_long_from_str-IsI64 : (s : Bytes) → IsI64 (parse_long_from_str s)
parse_long_from_str-IsI64 s = rw parse_long_from_str-eq (signed_leading-IsI64 (trim_start s))
