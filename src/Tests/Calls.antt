-- ===== src/Tests/Calls.antt =====
-- The theorems on src/args.rs at concrete inputs; an argument is a number.
use ext_php_rs.Prelude.{ℕ, true, false, some, none, [], ◌∷◌, codes, ◌≡◌, ◌↔◌, ◌⊎◌, refl, arith, inl}
use ext_php_rs.DataType.{DataType}
use ext_php_rs.Error.{ok}
use ext_php_rs.Args.{Arg, ArgParser, parse, min_args}
use ext_php_rs.Args.Parse.{
  Accepts, Rejected, distribute, parse-ok_iff, parse-distribute, parse-refused,
}
use ext_php_rs.Args.Info.{ArgInfo}

abbrev count_arg : Arg ℕ
count_arg = record {
  name = codes "count";
  type = DataType.long;
  as_ref = false;
  allow_null = false;
  variadic = false;
  default_value = none;
  zval = none;
  variadic_zvals = [];
}

abbrev rest_arg : Arg ℕ
rest_arg = record count_arg { name = codes "rest"; variadic = true }

abbrev called : ArgParser ℕ
called = record {
  args = count_arg ∷ rest_arg ∷ [];
  min_num_args = none;
  arg_zvals = some 7 ∷ some 8 ∷ some 9 ∷ [];
}

abbrev empty_call : ArgParser ℕ
empty_call = record called { arg_zvals = [] }

parse-ok_iff_example : ((parse called).result ≡ ok tt) ↔ Accepts called
parse-ok_iff_example = parse-ok_iff called

parse-distribute_example :
    ((parse called).reported ≡ []) × ((parse called).args ≡ distribute called.args called.arg_zvals)
unfolding parse min_args
parse-distribute_example =
    parse-distribute called (cc) ((parse-ok_iff called).1 (inl (refl, omega arith)))

parse-refused_example :
    (Accepts empty_call × ((parse empty_call).result ≡ ok tt) × ((parse empty_call).reported ≡ []))
    ⊎ ((Accepts empty_call → ⊥)
        × ((parse empty_call).args ≡ empty_call.args)
        × Rejected empty_call 1)
parse-refused_example = parse-refused empty_call 1 (inl (refl, refl))

abbrev two_required : ArgParser ℕ
two_required = record {
  args = count_arg ∷ count_arg ∷ [];
  min_num_args = none;
  arg_zvals = some 7 ∷ [];
}

abbrev count_info : ArgInfo
count_info = record {
  name = codes "count";
  type = record { ptr = none; type_mask = 16 };
  default_value = none;
}
