-- ===== src/Zval/Coerce.antt =====
-- The coercions of src/types/zval.rs that are written in Rust. `coerce_to_bool` only calls Zend.
-- What Zend or Rust's floats do is an argument: `call` is `try_call_method("__toString", vec![])` on
-- the object at an address.
pub mod Laws
use ext_php_rs.Prelude.{ℕ, Bool, true, false, Option, none, some, [], Bytes, codes, if◌then◌else◌}
use ext_php_rs.Prelude.Int.{ℤ, pos}
use ext_php_rs.Error.{Result, ok, err}
use ext_php_rs.Text.Decimal.{to_string}
use ext_php_rs.Zval.Float.{Float}
use ext_php_rs.Zval.FloatText.{php_float_to_string}
use ext_php_rs.Zval.Numeric.{parse_long_from_str, parse_double_from_str}
use ext_php_rs.Zval.Value.{Zval, str, bool, is_null, long, double, object}

-- `if let Some(x) = o { return Some(x); }` with the rest behind it.
infixr 20 ◌or_else◌
abbrev pub ◌or_else◌ {ℓ} : {A : Type ℓ} → Option A → Option A → Option A
(some a) or_else rest = some a
none or_else rest = rest

abbrev pub map_some {ℓ κ} : {A : Type ℓ} {B : Type κ} → (A → B) → Option A → Option B
map_some f none = none
map_some f (some a) = some (f a)

module _ (fl : Float) where
  open fl use {
    F64, is_nan, is_infinite, is_sign_positive, of_i64, to_i64, parse, print, print_e14, float_zero,
    float_one,
  }

  abbrev pub float_text : F64 → Bytes
  float_text d =
      if is_nan d
      then codes "NAN"
      else if is_infinite d
      then (if is_sign_positive d then codes "INF" else codes "-INF")
      else php_float_to_string (print_e14 d) (print d)

  -- The text of what `__toString` returned; an exception is no text.
  abbrev pub returned_text : Result (Zval F64) → Option Bytes
  returned_text (ok result) = str result
  returned_text (err e) = none

  abbrev pub object_text : (ℕ → Result (Zval F64)) → Option ℕ → Option Bytes
  object_text call none = none
  object_text call (some o) = returned_text (call o)

  unfoldable pub coerce_to_string : (ℕ → Result (Zval F64)) → Zval F64 → Option Bytes
  coerce_to_string call z =
      str z
      or_else map_some (λ b. if b then codes "1" else []) (bool z)
      or_else (if is_null z then some [] else none)
      or_else map_some to_string (long z)
      or_else map_some float_text (double z)
      or_else object_text call (object z)

  unfoldable pub coerce_to_long : Zval F64 → Option ℤ
  coerce_to_long z =
      long z
      or_else map_some (λ b. if b then pos 1 else pos 0) (bool z)
      or_else (if is_null z then some (pos 0) else none)
      or_else map_some to_i64 (double z)
      or_else map_some parse_long_from_str (str z)

  unfoldable pub coerce_to_double : Zval F64 → Option F64
  coerce_to_double z =
      double z
      or_else map_some of_i64 (long z)
      or_else map_some (λ b. if b then float_one else float_zero) (bool z)
      or_else (if is_null z then some float_zero else none)
      or_else map_some (parse_double_from_str parse float_zero) (str z)
