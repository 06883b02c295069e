-- ===== src/Zval/Float.antt =====
-- The language has no floats: `f64` and the operations of Rust that src/types/zval.rs uses on it are
-- an interface, with the one law that the model needs.
use ext_php_rs.Prelude.{Bool, Option, Bytes}
use ext_php_rs.Prelude.Int.{ℤ, IsI64}

pub record Float : Type 1 where
  pub F64 : Type 0
  pub is_nan : F64 → Bool
  pub is_infinite : F64 → Bool
  pub is_sign_positive : F64 → Bool
  -- `l as f64`, `d as i64`
  pub of_i64 : ℤ → F64
  pub to_i64 : F64 → ℤ
  -- `str::parse::<f64>`, `to_string`, `format!("{d:.14E}")`
  pub parse : Bytes → Option F64
  pub print : F64 → Bytes
  pub print_e14 : F64 → Bytes
  -- the literals `0.0` and `1.0`
  pub float_zero : F64
  pub float_one : F64
  -- The cast saturates.
  pub to_i64-IsI64 : (d : F64) → IsI64 (to_i64 d)
