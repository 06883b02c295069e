-- ===== src/Zval/Numeric/Double.antt =====
-- `parse_double_from_str`: which part of the text it hands to Rust's parser.
pub mod Reads
use ext_php_rs.Prelude.{
  ℕ, zero, suc, ◌+◌, Bool, true, false, not, [], ◌∷◌, ◌++◌, Option, none, some, Bytes, codes, ◌==◌,
  if◌then◌else◌, take, ◌≡◌, ◌≢◌, refl, sym, arith, ◌&&◌, ◌||◌, All, length, append_assoc,
  append-nil, ap,
}
use mathlib.Core.Path.{subst}
use ext_php_rs.Text.Decimal.{is_digit, minus, plus}
use ext_php_rs.Text.Utf8.{trim_start}
use ext_php_rs.Zval.Numeric.{
  Flags, no_flags, float_run, float_end, parse_trimmed_double, parse_double_from_str, is_sign, is_e,
}

abbrev pub IsDigit : ℕ → Type 0
IsDigit c = is_digit c ≡ true

-- What may stand behind a number with or without a point and an exponent: the end, or a byte that does
-- not continue it. A digit continues every number, a point one with neither a point nor an exponent, and
-- a letter `e` one without an exponent.
abbrev pub Stops : Bool → Bool → Bytes → Type 0
Stops point exponent [] = Unit
Stops point exponent (c ∷ s) =
    (is_digit c ≡ false)
    × ((c == b'.' && not (point || exponent)) ≡ false)
    × ((is_e c && not exponent) ≡ false)

abbrev pub is_there {ℓ} : {A : Type ℓ} → Option A → Bool
is_there none = false
is_there (some a) = true

pub digit_step :
    (f : Flags) (c : ℕ) (t : Bytes)
    → IsDigit c
    → float_run f (c ∷ t) ≡ suc (float_run (record f { has_digits = true }) t)
unfolding float_run
digit_step f c [] h = ground arith
digit_step f c (d ∷ s) h = ground arith

dot_step :
    (f : Flags) (t : Bytes)
    → f.has_decimal ≡ false
    → f.has_exponent ≡ false
    → float_run f (b'.' ∷ t) ≡ suc (float_run (record f { has_decimal = true }) t)
unfolding float_run
dot_step f [] h k = ground arith
dot_step f (d ∷ s) h k = ground arith

e_step :
    (f : Flags) (c d : ℕ) (t : Bytes)
    → is_e c ≡ true
    → f.has_exponent ≡ false
    → f.has_digits ≡ true
    → IsDigit d
    → float_run f (c ∷ d ∷ t) ≡ suc (float_run (record f { has_exponent = true }) (d ∷ t))
unfolding float_run
e_step f c d t h k l m = ground arith

e_sign_step :
    (f : Flags) (c d : ℕ) (t : Bytes)
    → is_e c ≡ true
    → f.has_exponent ≡ false
    → f.has_digits ≡ true
    → is_sign d ≡ true
    → float_run f (c ∷ d ∷ t) ≡ suc (suc (float_run (record f { has_exponent = true }) t))
unfolding float_run
e_sign_step f c d t h k l m = ground arith

pub stop_step : (f : Flags) (t : Bytes) → Stops f.has_decimal f.has_exponent t → float_run f t ≡ 0
unfolding float_run
stop_step f [] h = refl
stop_step f (c ∷ []) h = ground arith
stop_step f (c ∷ d ∷ s) h = ground arith

pub digits_step :
    (f : Flags) (c : ℕ) (ds t : Bytes)
    → All IsDigit (c ∷ ds)
    → float_run f (c ∷ ds ++ t) ≡ suc (length ds + float_run (record f { has_digits = true }) t)
digits_step f c [] t h = ground (arith, digit_step f c t h.0)
digits_step f c (d ∷ ds) t h = ground (
  arith,
  digit_step f c (d ∷ ds ++ t) h.0,
  digits_step (record f { has_digits = true }) d ds t h.1,
)

abbrev pub sign_text : Option ℕ → Bytes
sign_text none = []
sign_text (some c) = c ∷ []

abbrev pub IsSign : Option ℕ → Type 0
IsSign none = Unit
IsSign (some c) = is_sign c ≡ true

-- The exponent of a float: its letter, its sign and its digits, of which there is one.
pub record Exponent : Type 0 where
  pub letter : ℕ
  pub sign : Option ℕ
  pub first : ℕ
  pub others : Bytes

-- A float as it is written: digits, perhaps a point with more digits, perhaps an exponent.
pub record Literal : Type 0 where
  pub sign : Option ℕ
  pub first : ℕ
  pub others : Bytes
  pub fraction : Option Bytes
  pub exponent : Option Exponent

abbrev pub exponent_text : Option Exponent → Bytes
exponent_text none = []
exponent_text (some x) = x.letter ∷ sign_text x.sign ++ x.first ∷ x.others

abbrev pub fraction_text : Option Bytes → Bytes
fraction_text none = []
fraction_text (some ds) = b'.' ∷ ds

abbrev pub text : Literal → Bytes
text l =
    sign_text l.sign
    ++ (l.first ∷ l.others ++ (fraction_text l.fraction ++ exponent_text l.exponent))

abbrev pub IsExponent : Option Exponent → Type 0
IsExponent none = Unit
IsExponent (some x) = (is_e x.letter ≡ true) × IsSign x.sign × All IsDigit (x.first ∷ x.others)

abbrev pub IsFraction : Option Bytes → Type 0
IsFraction none = Unit
IsFraction (some ds) = All IsDigit ds

pub record IsLiteral (l : Literal) : Type 0 where
  pub sign : IsSign l.sign
  pub digits : All IsDigit (l.first ∷ l.others)
  pub fraction : IsFraction l.fraction
  pub exponent : IsExponent l.exponent

pub exponent_digits :
    (f : Flags) (c : ℕ) (ds t : Bytes)
    → All IsDigit (c ∷ ds)
    → Stops f.has_decimal f.has_exponent t
    → float_run f (c ∷ ds ++ t) ≡ suc (length ds)
exponent_digits f c ds t h stop =
    ground (arith, digits_step f c ds t h, stop_step (record f { has_digits = true }) t stop)

exponent_run :
    (f : Flags) (x : Option Exponent) (t : Bytes)
    → f.has_exponent ≡ false
    → f.has_digits ≡ true
    → IsExponent x
    → Stops f.has_decimal (is_there x) t
    → float_run f (exponent_text x ++ t) ≡ length (exponent_text x)
exponent_run f none t h k g stop = stop_step f t (subst (λ b. Stops f.has_decimal b t) (sym h) stop)
exponent_run f (some x) t h k g stop = by_sign x.sign g.1
  where
    f' : Flags
    f' = record f { has_exponent = true }

    by_sign :
        (sign : Option ℕ)
        → IsSign sign
        → float_run f (x.letter ∷ (sign_text sign ++ x.first ∷ x.others) ++ t)
          ≡ suc (length (sign_text sign ++ x.first ∷ x.others))
    by_sign none _ = ground (
      arith,
      e_step f x.letter x.first (x.others ++ t) g.0 h k g.2.0,
      exponent_digits f' x.first x.others t g.2 stop,
    )
    by_sign (some c) s = ground (
      arith,
      e_sign_step f x.letter c (x.first ∷ x.others ++ t) g.0 h k s,
      exponent_digits f' x.first x.others t g.2 stop,
    )

-- Digits may be missing behind the point.
fraction_digits :
    (f : Flags) (ds t : Bytes)
    → f.has_digits ≡ true
    → All IsDigit ds
    → float_run f (ds ++ t) ≡ length ds + float_run f t
fraction_digits f [] t k h = omega arith
fraction_digits f (d ∷ ds) t k h = ground (arith, digits_step f d ds t h)

pub fraction_run :
    (f : Flags) (o : Option Bytes) (x : Option Exponent) (t : Bytes)
    → f.has_decimal ≡ false
    → f.has_exponent ≡ false
    → f.has_digits ≡ true
    → IsFraction o
    → IsExponent x
    → Stops (is_there o) (is_there x) t
    → float_run f (fraction_text o ++ (exponent_text x ++ t))
      ≡ length (fraction_text o) + length (exponent_text x)
fraction_run f none x t h k l g gx stop =
    let s = subst (λ b. Stops b (is_there x) t) (sym h) stop in
    omega (arith, exponent_run f x t k l gx s)
fraction_run f (some ds) x t h k l g gx stop =
    let f' : Flags = record f { has_decimal = true } in
    ground (
      arith,
      dot_step f (ds ++ (exponent_text x ++ t)) h k,
      fraction_digits f' ds (exponent_text x ++ t) l g,
      exponent_run f' x t k l gx stop,
    )
