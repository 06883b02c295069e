-- ===== src/Tests/Zvals.antt =====
-- The theorems on src/types/zval.rs at concrete inputs. A float is the text of its print.
use ext_php_rs.Prelude.{
  ℕ, ◌==◌, true, false, Option, some, none, [], ◌∷◌, ◌++◌, Bytes, codes, ◌≡◌, refl, arith,
  if◌then◌else◌,
}
use ext_php_rs.Prelude.Int.{pos}
use ext_php_rs.Error.{Result, ok}
use ext_php_rs.Text.Decimal.{to_string}
use ext_php_rs.Text.Utf8.{trim_start}
use ext_php_rs.Zval.Numeric.{parse_long_from_str, parse_double_from_str, unwrap_or_zero}
use ext_php_rs.Zval.Numeric.Long.{signed_leading, parse_long_from_str-eq, parse_long_from_str-IsI64}
use ext_php_rs.Zval.Numeric.Double.{Literal, text}
use ext_php_rs.Zval.Numeric.Double.Reads.{parse_double_from_str-text}
use ext_php_rs.Zval.Float.{Float}
use ext_php_rs.DataType.{of_u32, has}
use ext_php_rs.Zval.Value.{Zval, zval, lval, ref_, get_type, dereference, long}
use ext_php_rs.Zval.Value.View.{view, Reads, accessors-view}
use ext_php_rs.Zval.Coerce.{coerce_to_long, coerce_to_double, coerce_to_string}
use ext_php_rs.Zval.Coerce.Laws.{
  coerce-view, InRange, coerce_to_long-InRange, long_of_view, double_of_view, text_of_view,
}

parse_long_from_str-eq_example :
    parse_long_from_str (codes " -12x") ≡ signed_leading (trim_start (codes " -12x"))
parse_long_from_str-eq_example = parse_long_from_str-eq (codes " -12x")

-- A parser that refuses what ends in the letter e, and takes the rest.
abbrev parse : Bytes → Option Bytes
parse [] = none
parse (c ∷ []) = if c == b'e' then none else some (c ∷ [])
parse (c ∷ d ∷ s) = elim (parse (d ∷ s)) [ none ↦ none | some t ↦ some (c ∷ t) ]

refuses : (s : Bytes) → parse (s ++ b'e' ∷ []) ≡ none
refuses [] = refl
refuses (c ∷ []) = refl
refuses (c ∷ d ∷ s) = rw (refuses (d ∷ s))

abbrev twelve : Literal
twelve = record { sign = none; first = b'1'; others = codes "2"; fraction = none; exponent = none }

abbrev twelve_and_half : Literal
twelve_and_half = record twelve { fraction = some (codes "5") }

-- A second point stops the float.
parse_double_from_str-text_example :
    parse_double_from_str parse (codes "0") (codes " " ++ (text twelve_and_half ++ codes ".3"))
    ≡ unwrap_or_zero parse (codes "0") (parse (text twelve_and_half))
parse_double_from_str-text_example =
    parse_double_from_str-text parse (codes "0") (codes " ") twelve_and_half (codes ".3") (refl, tt)
      (record { sign = tt; digits = (refl, (refl, tt)); fraction = (refl, tt); exponent = tt })
      (refl, refl, refl)

abbrev printed : Float
printed = record {
  F64 = Bytes;
  is_nan = λ d. false;
  is_infinite = λ d. false;
  is_sign_positive = λ d. true;
  of_i64 = to_string;
  to_i64 = parse_long_from_str;
  parse = parse;
  print = λ d. d;
  print_e14 = λ d. d;
  float_zero = codes "0";
  float_one = codes "1";
  to_i64-IsI64 = parse_long_from_str-IsI64;
}

-- An integer, and a reference to null.
abbrev five : Zval Bytes
five = zval 4 (lval (pos 5))

abbrev to_null : Zval Bytes
to_null = zval 266 (ref_ (zval 1 (lval (pos 0))))

-- `__toString` is not defined.
abbrev no_method : ℕ → Result (Zval Bytes)
no_method o = ok (zval 1 (lval (pos 0)))

accessors-view_example : Reads five (view five)
accessors-view_example = accessors-view five

coerce-view_example :
    (coerce_to_long printed five ≡ long_of_view printed (view five))
    × (coerce_to_double printed five ≡ double_of_view printed (view five))
    × (coerce_to_string printed no_method five ≡ text_of_view printed no_method (view five))
unfolding dereference get_type of_u32 has
coerce-view_example = coerce-view printed no_method five refl

coerce_to_long-InRange_example : InRange (coerce_to_long printed five)
unfolding long dereference get_type of_u32 has
coerce_to_long-InRange_example = coerce_to_long-InRange printed five (omega arith)
