-- ===== src/Args.antt =====
-- src/args.rs: the declared parameters of a function, and how the arguments of a call are matched
-- with them. `Z` is the type of a reference to a zval; a list stands for a vector.
pub mod Parse
pub mod Info
use ext_php_rs.Prelude.{
  ℕ, zero, suc, ◌+◌, ◌-◌, ◌^◌, Bool, true, false, not, ◌&&◌, ◌||◌, Option, none, some, [], ◌∷◌,
  ◌++◌, List, Bytes, codes, text_eq, ltb, if◌then◌else◌, length,
}
use ext_php_rs.DataType.{DataType}
use ext_php_rs.Error.{Error, Result, ok, err, ok_or, ◌>>=◌, ◌>>◌}
use ext_php_rs.ZendType.{ZendType, c_string, empty_from_type}

-- `struct Arg`
pub record Arg (Z : Type 0) : Type 0 where
  pub name : Bytes
  pub type : DataType
  pub as_ref : Bool
  pub allow_null : Bool
  pub variadic : Bool
  pub default_value : Option Bytes
  pub zval : Option Z
  pub variadic_zvals : List (Option Z)

-- `struct ArgParser`
pub record ArgParser (Z : Type 0) : Type 0 where
  pub args : List (Arg Z)
  pub min_num_args : Option ℕ
  pub arg_zvals : List (Option Z)

-- What a parse does: its result, the calls of `zend_wrong_parameters_count_error`, and the
-- parameters, which it fills in place.
pub record Outcome (Z : Type 0) : Type 0 where
  pub result : Result (Unit {0})
  pub reported : List (ℕ × ℕ)
  pub args : List (Arg Z)

-- `u32::try_from`
unfoldable pub to_u32 : ℕ → Result ℕ
to_u32 n = if ltb n (2 ^ 32) then ok n else err Error.integer_overflow

-- The arguments of the report are converted, each with `?`, before the call.
unfoldable pub report : ℕ → ℕ → Result (ℕ × ℕ)
unfolding to_u32
report min max = do low ← to_u32 min; high ← to_u32 max; ok (low, high)

abbrev pub unwrap_or : Option ℕ → ℕ → ℕ
unwrap_or none n = n
unwrap_or (some m) n = m

module _ {Z : Type 0} where
  pub new_arg : Bytes → DataType → Arg Z
  new_arg name type = record {
    name = name;
    type = type;
    as_ref = false;
    allow_null = false;
    variadic = false;
    default_value = none;
    zval = none;
    variadic_zvals = [];
  }

  unfoldable pub new : List (Option Z) → ArgParser Z
  new arg_zvals = record { args = []; min_num_args = none; arg_zvals = arg_zvals }

  unfoldable pub arg : Arg Z → ArgParser Z → ArgParser Z
  arg a p = record p { args = p.args ++ a ∷ [] }

  unfoldable pub not_required : ArgParser Z → ArgParser Z
  not_required p = record p { min_num_args = some (length p.args) }

  -- `self.args.last().is_some_and(|arg| arg.variadic)`
  unfoldable pub has_variadic : List (Arg Z) → Bool
  has_variadic [] = false
  has_variadic (a ∷ []) = a.variadic
  has_variadic (a ∷ b ∷ as') = has_variadic (b ∷ as')

  -- The body of `if let Some(arg)` in the loop.
  unfoldable pub give : Option Z → Arg Z → Arg Z
  give z a =
      if a.variadic
      then record a { variadic_zvals = a.variadic_zvals ++ z ∷ [] }
      else record a { zval = z }

  -- `self.args.last_mut().filter(|arg| arg.variadic)`
  unfoldable pub give_last : Option Z → List (Arg Z) → List (Arg Z)
  unfolding give
  give_last z [] = []
  give_last z (a ∷ []) = (if a.variadic then give z a else a) ∷ []
  give_last z (a ∷ b ∷ as') = a ∷ give_last z (b ∷ as')

  -- `self.args.get_mut(i)`: whether there is one is tested by the caller.
  unfoldable pub give_at : ℕ → Option Z → List (Arg Z) → List (Arg Z)
  unfolding give
  give_at i z [] = []
  give_at zero z (a ∷ as') = give z a ∷ as'
  give_at (suc i) z (a ∷ as') = a ∷ give_at i z as'

  unfoldable pub place : ℕ → Option Z → List (Arg Z) → List (Arg Z)
  unfolding give_at give_last
  place i z args = if ltb i (length args) then give_at i z args else give_last z args

  -- `for (i, arg_zval) in self.arg_zvals.into_iter().enumerate()`
  unfoldable pub assign : ℕ → List (Option Z) → List (Arg Z) → List (Arg Z)
  unfolding place
  assign i [] args = args
  assign i (z ∷ zs) args = assign (i + 1) zs (place i z args)

  -- `min_num_args` after the correction for a variadic parameter.
  unfoldable pub min_args : ArgParser Z → ℕ
  unfolding has_variadic
  min_args p =
      let min = unwrap_or p.min_num_args (length p.args) in
      if has_variadic p.args then min - 1 else min

  -- The error path: the report may itself fail.
  abbrev pub refuse : ℕ → ℕ → Result (ℕ × ℕ) → List (Arg Z) → Outcome Z
  refuse num min (ok counts) args = record {
    result = err (Error.incorrect_arguments num min);
    reported = counts ∷ [];
    args = args;
  }
  refuse num min (err e) args = record { result = err e; reported = []; args = args }

  unfoldable pub parse : ArgParser Z → Outcome Z
  parse p =
      let max_num_args = length p.args in
      let min_num_args = min_args p in
      let num_args = length p.arg_zvals in
      if ltb num_args min_num_args || (not (has_variadic p.args) && ltb max_num_args num_args)
      then refuse num_args min_num_args (report min_num_args max_num_args) p.args
      else record { result = ok tt; reported = []; args = assign 0 p.arg_zvals p.args }
