-- ===== src/Zval/Coerce/Laws.antt =====
-- The coercions as functions of the value that PHP code sees, and where they are not.
use ext_php_rs.Prelude.{
  ℕ, Bool, true, false, Option, none, some, [], Bytes, codes, if◌then◌else◌, ◌≡◌, arith,
}
use ext_php_rs.Prelude.Int.{ℤ, pos, IsI64}
use ext_php_rs.Error.{Result, to_option}
use ext_php_rs.Text.Decimal.{to_string}
use ext_php_rs.ZendStr.{as_str}
use ext_php_rs.Zval.Float.{Float}
use ext_php_rs.Zval.Numeric.{parse_long_from_str, parse_double_from_str}
use ext_php_rs.Zval.Numeric.Long.{parse_long_from_str-IsI64}
use ext_php_rs.Zval.Value.{Zval, zval, str, bool, is_null, is_reference, long, double, dereference}
use ext_php_rs.Zval.Value.View.{
  View, view, seen, view-seen, long-seen, bool-seen, double-seen, zend_str-seen, object-seen,
}
use ext_php_rs.Zval.Coerce.{
  coerce_to_string, coerce_to_long, coerce_to_double, map_some, ◌or_else◌, float_text,
  returned_text,
}

module _ (fl : Float) where
  open fl use {F64, of_i64, to_i64, parse, float_zero, float_one}

  abbrev pub long_of_view : View F64 → Option ℤ
  long_of_view View.null = some (pos 0)
  long_of_view (View.bool_of b) = some (if b then pos 1 else pos 0)
  long_of_view (View.long_of n) = some n
  long_of_view (View.double_of d) = some (to_i64 d)
  long_of_view (View.string_of s) = map_some parse_long_from_str (to_option (as_str s).0)
  long_of_view _ = none

  abbrev pub double_of_view : View F64 → Option F64
  double_of_view View.null = some float_zero
  double_of_view (View.bool_of b) = some (if b then float_one else float_zero)
  double_of_view (View.long_of n) = some (of_i64 n)
  double_of_view (View.double_of d) = some d
  double_of_view (View.string_of s) =
      map_some (parse_double_from_str parse float_zero) (to_option (as_str s).0)
  double_of_view _ = none

  abbrev pub text_of_view : (ℕ → Result (Zval F64)) → View F64 → Option Bytes
  text_of_view call View.null = some []
  text_of_view call (View.bool_of b) = some (if b then codes "1" else [])
  text_of_view call (View.long_of n) = some (to_string n)
  text_of_view call (View.double_of d) = some (float_text fl d)
  text_of_view call (View.string_of s) = to_option (as_str s).0
  text_of_view call (View.object_of o) = returned_text fl (call o)
  text_of_view call _ = none

  long_coerced :
      (z : Zval F64)
      → is_null z ≡ is_null (dereference z)
      → coerce_to_long fl z ≡ long_of_view (seen z)
  unfolding coerce_to_long str is_null
  long_coerced (zval info v) h =
      let z = zval info v in
      ground (arith, long-seen z, bool-seen z, double-seen z, zend_str-seen z)

  double_coerced :
      (z : Zval F64)
      → is_null z ≡ is_null (dereference z)
      → coerce_to_double fl z ≡ double_of_view (seen z)
  unfolding coerce_to_double str is_null
  double_coerced (zval info v) h =
      let z = zval info v in
      ground (arith, long-seen z, bool-seen z, double-seen z, zend_str-seen z)

  text_coerced :
      (call : ℕ → Result (Zval F64)) (z : Zval F64)
      → is_null z ≡ is_null (dereference z)
      → coerce_to_string fl call z ≡ text_of_view call (seen z)
  unfolding coerce_to_string str is_null
  text_coerced call (zval info v) h =
      let z = zval info v in
      ground (arith, long-seen z, bool-seen z, double-seen z, zend_str-seen z, object-seen z)

-- On a zval that is not a reference to null nor an indirection to null, the three coercions are the
-- documented functions of the value behind it: null is 0, 0.0 and the empty text, booleans, integers,
-- floats and valid texts are converted, objects have the text that `__toString` returns, and nothing
-- else is converted.
pub coerce-view :
    (fl : Float) (call : ℕ → Result (Zval (fl.F64))) (z : Zval (fl.F64))
    → is_null z ≡ is_null (dereference z)
    → (coerce_to_long fl z ≡ long_of_view fl (view z))
      × (coerce_to_double fl z ≡ double_of_view fl (view z))
      × (coerce_to_string fl call z ≡ text_of_view fl call (view z))
coerce-view fl call z h =
    rw (view-seen z) (long_coerced fl z h, double_coerced fl z h, text_coerced fl call z h)

-- A reference to null is not converted at all, while the value behind it is null.
pub coerce-null_reference :
    (fl : Float) (call : ℕ → Result (Zval (fl.F64))) (z : Zval (fl.F64))
    → is_reference z ≡ true
    → is_null (dereference z) ≡ true
    → (coerce_to_long fl z ≡ none)
      × (coerce_to_double fl z ≡ none)
      × (coerce_to_string fl call z ≡ none)
      × (view z ≡ View.null)
unfolding coerce_to_long coerce_to_double coerce_to_string str is_null is_reference
coerce-null_reference fl call (zval info v) r h =
    let z = zval info v in
    ground
      (arith, view-seen z, long-seen z, bool-seen z, double-seen z, zend_str-seen z, object-seen z)

-- An integer, if there is one, in the range of `i64`.
abbrev pub InRange : Option ℤ → Type 0
InRange none = Unit
InRange (some n) = IsI64 n

or_else-InRange : (a b : Option ℤ) → InRange a → InRange b → InRange (a or_else b)
or_else-InRange none b ha hb = hb
or_else-InRange (some n) b ha hb = ha

map_some-InRange {ℓ} :
    {A : Type ℓ} (f : A → ℤ) (o : Option A) → ((a : A) → IsI64 (f a)) → InRange (map_some f o)
map_some-InRange f none h = tt
map_some-InRange f (some a) h = h a

bit-IsI64 : (b : Bool) → IsI64 (if b then pos 1 else pos 0)
bit-IsI64 true = omega arith
bit-IsI64 false = omega arith

zero-InRange : (b : Bool) → InRange (if b then some (pos 0) else none)
zero-InRange true = omega arith
zero-InRange false = tt

-- If the integer that a zval holds is in the range of `i64`, then so is what `coerce_to_long` returns,
-- whatever the type of the zval, however long the digits of its text and however large its float.
pub coerce_to_long-InRange :
    (fl : Float) (z : Zval (fl.F64)) → InRange (long z) → InRange (coerce_to_long fl z)
unfolding coerce_to_long
coerce_to_long-InRange fl z h = or_else-InRange (long z) _ h (
    or_else-InRange _ _ (map_some-InRange _ (bool z) bit-IsI64) (
      or_else-InRange _ _ (zero-InRange (is_null z)) (
        or_else-InRange _ _ (map_some-InRange _ (double z) (fl.to_i64-IsI64))
          (map_some-InRange _ (str z) parse_long_from_str-IsI64))))
