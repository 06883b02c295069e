-- ===== src/Zval/Numeric.antt =====
-- The numeric readers at the end of src/types/zval.rs, which the coercions use. An index `i` into
-- the bytes is the number of bytes that a loop has passed; `s[..i]` is `take i s`.
pub mod Long
pub mod Double
use ext_php_rs.Prelude.{
  ℕ, zero, suc, ◌+◌, Bool, true, false, not, ◌&&◌, ◌||◌, [], ◌∷◌, Option, none, some, Bytes, ◌==◌,
  if◌then◌else◌, take,
}
use ext_php_rs.Prelude.Int.{ℤ, pos, i64_max, i64_min}
use ext_php_rs.Text.Decimal.{from_str, is_digit, minus, plus}
use ext_php_rs.Text.Utf8.{trim_start}

-- `while i < bytes.len() && bytes[i].is_ascii_digit() { i += 1; }` from the start of `bytes`.
unfoldable pub digit_run : Bytes → ℕ
digit_run [] = 0
digit_run (c ∷ s) = let rest = digit_run s in if is_digit c then suc rest else 0

-- `Err(_)` of `parse`: the digits overflow.
unfoldable pub saturate : Bool → Option ℤ → ℤ
saturate is_negative (some n) = n
saturate is_negative none = if is_negative then i64_min else i64_max

-- The part behind the tests for an empty text and for a sign; `digits_start` is 1 behind a sign.
unfoldable pub parse_digits : Bytes → Bool → ℕ → Bytes → ℤ
unfolding digit_run saturate
parse_digits s is_negative digits_start rest =
    let n = digit_run rest in
    if n == 0 then pos 0 else saturate is_negative (from_str (take (digits_start + n) s))

unfoldable pub parse_trimmed_long : Bytes → ℤ
unfolding parse_digits
parse_trimmed_long [] = pos 0
parse_trimmed_long (c ∷ rest) =
    if c == minus || c == plus
    then parse_digits (c ∷ rest) (c == minus) 1 rest
    else parse_digits (c ∷ rest) false 0 (c ∷ rest)

unfoldable pub parse_long_from_str : Bytes → ℤ
unfolding parse_trimmed_long trim_start
parse_long_from_str s = parse_trimmed_long (trim_start s)

-- The three flags of the loop in `parse_double_from_str`.
pub record Flags : Type 0 where
  pub has_decimal : Bool
  pub has_exponent : Bool
  pub has_digits : Bool

abbrev is_sign : ℕ → Bool
is_sign c = c == minus || c == plus

abbrev is_e : ℕ → Bool
is_e c = c == b'e' || c == b'E'

-- How many bytes the loop passes. A sign directly behind an exponent is passed with it.
unfoldable pub float_run : Flags → Bytes → ℕ
float_run f [] = 0
float_run f (c ∷ []) =
    if is_digit c
    then 1
    else if c == b'.' && not f.has_decimal && not f.has_exponent
    then 1
    else if is_e c && not f.has_exponent && f.has_digits
    then 1
    else 0
float_run f (c ∷ d ∷ s) =
    let digit = suc (float_run (record f { has_digits = true }) (d ∷ s)) in
    let decimal = suc (float_run (record f { has_decimal = true }) (d ∷ s)) in
    let exponent = suc (float_run (record f { has_exponent = true }) (d ∷ s)) in
    let signed = suc (suc (float_run (record f { has_exponent = true }) s)) in
    if is_digit c
    then digit
    else if c == b'.' && not f.has_decimal && not f.has_exponent
    then decimal
    else if is_e c && not f.has_exponent && f.has_digits
    then (if is_sign d then signed else exponent)
    else 0

abbrev pub no_flags : Flags
no_flags = record { has_decimal = false; has_exponent = false; has_digits = false }

-- `i` at the end of the loop; the text is not empty.
unfoldable pub float_end : Bytes → ℕ
unfolding float_run
float_end [] = 0
float_end (c ∷ s) = if is_sign c then suc (float_run no_flags s) else float_run no_flags (c ∷ s)

-- Floats are not modelled: `D` is `f64`, `parse` its `str::parse`, and `float_zero` the literal `0.0`.
module _ {ℓ} {D : Type ℓ} (parse : Bytes → Option D) (float_zero : D) where
  abbrev pub unwrap_or_zero : Option D → D
  unwrap_or_zero none = float_zero
  unwrap_or_zero (some d) = d

  unfoldable pub parse_trimmed_double : Bytes → D
  unfolding float_end
  parse_trimmed_double [] = float_zero
  parse_trimmed_double (c ∷ s) = unwrap_or_zero (parse (take (float_end (c ∷ s)) (c ∷ s)))

  unfoldable pub parse_double_from_str : Bytes → D
  unfolding parse_trimmed_double trim_start
  parse_double_from_str s = parse_trimmed_double (trim_start s)
