-- ===== src/Error.antt =====
-- src/error.rs: the errors that the library returns, `Result`, and the `?` operator.
use ext_php_rs.Prelude.{ℕ, Option, none, some}
use ext_php_rs.DataType.{DataType}

-- `enum Error`; flags are their bits, and the object of an exception is its address.
pub data Error : Type 0 where
  incorrect_arguments : ℕ → ℕ → Error
  zval_conversion : DataType → Error
  unknown_datatype : ℕ → Error
  invalid_type_to_datatype : ℕ → Error
  invalid_scope invalid_pointer invalid_property invalid_c_string invalid_utf8 : Error
  callable object : Error
  invalid_exception : ℕ → Error
  integer_overflow : Error
  exception : ℕ → Error
  stream_wrapper_registration_failure stream_wrapper_unregistration_failure : Error
  sapi_write_unavailable lazy_object_failed : Error

pub data Result {ℓ} (A : Type ℓ) : Type ℓ where
  ok : A → Result A
  err : Error → Result A

infixl 5 ◌>>=◌ ◌>>◌
abbrev pub ◌>>=◌ {ℓ κ} : {A : Type ℓ} {B : Type κ} → Result A → (A → Result B) → Result B
ok a >>= f = f a
err e >>= f = err e

abbrev pub ◌>>◌ {ℓ κ} : {A : Type ℓ} {B : Type κ} → Result A → Result B → Result B
m >> k = m >>= λ _. k

-- `Option::ok_or`
abbrev pub ok_or {ℓ} : {A : Type ℓ} → Option A → Error → Result A
ok_or none e = err e
ok_or (some a) e = ok a

-- `Result::ok`
abbrev pub to_option {ℓ} : {A : Type ℓ} → Result A → Option A
to_option (ok a) = some a
to_option (err e) = none

-- `Result::map`
abbrev pub map_ok {ℓ κ} : {A : Type ℓ} {B : Type κ} → (A → B) → Result A → Result B
map_ok f (ok a) = ok (f a)
map_ok f (err e) = err e
