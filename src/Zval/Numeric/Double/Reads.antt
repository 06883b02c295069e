-- ===== src/Zval/Numeric/Double/Reads.antt =====
-- `parse_double_from_str` on a float with anything behind it, and on a letter `e` with no exponent.
use ext_php_rs.Prelude.{
  ℕ, Bool, true, false, [], ◌∷◌, ◌++◌, Option, none, some, Bytes, take, ◌≡◌, ◌≢◌, refl, arith, All,
  length, append_assoc, ap, take-append, length-append, ◌∙◌, ◌||◌,
}
use ext_php_rs.Text.Decimal.{is_digit}
use ext_php_rs.Text.Utf8.{trim_start, is_space}
use ext_php_rs.Zval.Numeric.{
  no_flags, Flags, float_run, float_end, parse_trimmed_double, parse_double_from_str, is_sign, is_e,
  unwrap_or_zero,
}
use ext_php_rs.Zval.Numeric.Double.{
  IsDigit, Stops, is_there, Literal, IsLiteral, IsSign, text, fraction_text, exponent_text,
  digits_step, fraction_run, sign_text,
}

abbrev with_digits : Flags
with_digits = record no_flags { has_digits = true }

-- Everything behind the sign.
abbrev pub unsigned_text : Literal → Bytes
unsigned_text l = l.first ∷ l.others ++ (fraction_text l.fraction ++ exponent_text l.exponent)

unsigned_run :
    (l : Literal) (t : Bytes)
    → IsLiteral l
    → Stops (is_there l.fraction) (is_there l.exponent) t
    → float_run no_flags (unsigned_text l ++ t) ≡ length (unsigned_text l)
unsigned_run l t h stop =
    let tail = fraction_text l.fraction ++ exponent_text l.exponent in
    ground (
      arith,
      append_assoc (l.first ∷ l.others) tail t,
      append_assoc (fraction_text l.fraction) (exponent_text l.exponent) t,
      digits_step no_flags l.first l.others (tail ++ t) h.digits,
      fraction_run with_digits l.fraction l.exponent t refl refl refl h.fraction h.exponent stop,
      length-append l.others tail,
      length-append (fraction_text l.fraction) (exponent_text l.exponent),
    )

float_end-text :
    (l : Literal) (t : Bytes)
    → IsLiteral l
    → Stops (is_there l.fraction) (is_there l.exponent) t
    → float_end (text l ++ t) ≡ length (text l)
unfolding float_end
float_end-text l t h stop = by_sign l.sign h.sign
  where
    by_sign :
        (sign : Option ℕ)
        → IsSign sign
        → float_end ((sign_text sign ++ unsigned_text l) ++ t)
          ≡ length (sign_text sign ++ unsigned_text l)
    by_sign none _ = ground (arith, unsigned_run l t h stop, h.digits.0)
    by_sign (some c) s = ground (arith, unsigned_run l t h stop)

-- A text that starts like a number keeps its start, and white space in front of it is dropped.
abbrev starts_number : Bytes → Bool
starts_number [] = false
starts_number (c ∷ s) = is_digit c || is_sign c

trim_start_number : (s : Bytes) → starts_number s ≡ true → trim_start s ≡ s
unfolding trim_start
trim_start_number [] h = refl
trim_start_number (a ∷ []) h = ground arith
trim_start_number (a ∷ b ∷ []) h = ground arith
trim_start_number (a ∷ b ∷ c ∷ s) h = ground arith

trim_start_space : (c : ℕ) (s : Bytes) → is_space c ≡ true → trim_start (c ∷ s) ≡ trim_start s
unfolding trim_start
trim_start_space c [] h = ground arith
trim_start_space c (d ∷ []) h = ground arith
trim_start_space c (d ∷ e ∷ s) h = ground arith

trim_start_spaces :
    (ws s : Bytes) → All (λ c. is_space c ≡ true) ws → trim_start (ws ++ s) ≡ trim_start s
trim_start_spaces [] s h = refl
trim_start_spaces (c ∷ ws) s h = trim_start_space c (ws ++ s) h.0 ∙ trim_start_spaces ws s h.1

text_starts : (l : Literal) (t : Bytes) → IsLiteral l → starts_number (text l ++ t) ≡ true
text_starts l t h = by_sign l.sign h.sign
  where
    by_sign :
        (sign : Option ℕ)
        → IsSign sign
        → starts_number ((sign_text sign ++ unsigned_text l) ++ t) ≡ true
    by_sign none _ = ground (arith, h.digits.0)
    by_sign (some c) s = ground arith

module _ {ℓ} {D : Type ℓ} (parse : Bytes → Option D) (float_zero : D) where
  -- A non-empty text is handed to the parser up to the end of the loop.
  trimmed-float_end :
      (s : Bytes)
      → s ≢ []
      → parse_trimmed_double parse float_zero s
        ≡ unwrap_or_zero parse float_zero (parse (take (float_end s) s))
  unfolding parse_trimmed_double
  trimmed-float_end [] h = absurd (h refl)
  trimmed-float_end (c ∷ s) h = refl

  trimmed_prefix :
      (p t : Bytes)
      → p ++ t ≢ []
      → float_end (p ++ t) ≡ length p
      → parse_trimmed_double parse float_zero (p ++ t) ≡ unwrap_or_zero parse float_zero (parse p)
  trimmed_prefix p t h e =
      trimmed-float_end (p ++ t) h
      ∙ ap (λ n. unwrap_or_zero parse float_zero (parse (take n (p ++ t)))) e
      ∙ ap (λ s. unwrap_or_zero parse float_zero (parse s)) (take-append p t)

starts-ne-nil : (s : Bytes) → starts_number s ≡ true → s ≢ []
starts-ne-nil [] h = cc
starts-ne-nil (c ∷ s) h = cc

-- White space, a float that has a digit at its start or behind its sign, and anything that does not
-- continue it, such as a second point, or a point or a second letter `e` behind an exponent: the text of
-- the float is what Rust's parser reads, and the result is its value, or zero if the parser refuses it.
pub parse_double_from_str-text {ℓ} :
    {D : Type ℓ} (parse : Bytes → Option D) (float_zero : D) (ws : Bytes) (l : Literal) (t : Bytes)
    → All (λ c. is_space c ≡ true) ws
    → IsLiteral l
    → Stops (is_there l.fraction) (is_there l.exponent) t
    → parse_double_from_str parse float_zero (ws ++ (text l ++ t))
      ≡ unwrap_or_zero parse float_zero (parse (text l))
unfolding parse_double_from_str
parse_double_from_str-text parse float_zero ws l t hw h stop =
    let starts = text_starts l t h in
    ap (parse_trimmed_double parse float_zero)
      (trim_start_spaces ws (text l ++ t) hw ∙ trim_start_number (text l ++ t) starts)
    ∙ trimmed_prefix parse float_zero (text l) t (starts-ne-nil (text l ++ t) starts)
        (float_end-text l t h stop)

-- A byte that no exponent starts with.
abbrev pub NoExponent : Bytes → Type 0
NoExponent [] = Unit
NoExponent (c ∷ s) = (is_digit c ≡ false) × (is_sign c ≡ false)

e_end : (c : ℕ) (t : Bytes) → is_e c ≡ true → NoExponent t → float_run with_digits (c ∷ t) ≡ 1
unfolding float_run
e_end c [] h k = ground arith
e_end c (d ∷ []) h k = ground arith
e_end c (d ∷ x ∷ t) h k = ground arith

float_end-e :
    (d : ℕ) (ds : Bytes) (c : ℕ) (t : Bytes)
    → All IsDigit (d ∷ ds)
    → is_e c ≡ true
    → NoExponent t
    → float_end ((d ∷ ds ++ c ∷ []) ++ t) ≡ length (d ∷ ds ++ c ∷ [])
unfolding float_end
float_end-e d ds c t h e k = ground (
  arith,
  h.0,
  append_assoc (d ∷ ds) (c ∷ []) t,
  digits_step no_flags d ds (c ∷ t) h,
  e_end c t e k,
  length-append ds (c ∷ []),
)

-- Digits and a letter `e` with no exponent behind it are read as zero, and not as the digits, if the
-- parser refuses, as Rust documents, a text that ends in the letter.
pub parse_double_from_str-dangling_e {ℓ} :
    {D : Type ℓ} (parse : Bytes → Option D) (float_zero : D) (d : ℕ) (ds : Bytes) (c : ℕ)
    (t : Bytes)
    → ((s : Bytes) → parse (s ++ c ∷ []) ≡ none)
    → All IsDigit (d ∷ ds)
    → is_e c ≡ true
    → NoExponent t
    → parse_double_from_str parse float_zero ((d ∷ ds ++ c ∷ []) ++ t) ≡ float_zero
unfolding parse_double_from_str
parse_double_from_str-dangling_e parse float_zero d ds c t refuses h e k =
    ap (parse_trimmed_double parse float_zero)
      (trim_start_number ((d ∷ ds ++ c ∷ []) ++ t) (ground (arith, h.0)))
    ∙ trimmed_prefix parse float_zero (d ∷ ds ++ c ∷ []) t (cc) (float_end-e d ds c t h e k)
    ∙ ap (unwrap_or_zero parse float_zero) (refuses (d ∷ ds))
