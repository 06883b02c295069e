-- ===== src/Tests/Builders.antt =====
-- The theorem on src/builders/function.rs at a concrete input.
use ext_php_rs.Prelude.{ℕ, true, false, none, some, List, [], ◌∷◌, codes, length, ◌≡◌, refl, arith}
use ext_php_rs.DataType.{DataType}
use ext_php_rs.Error.{ok}
use ext_php_rs.ZendType.{ZendType}
use ext_php_rs.Args.{new_arg, min_args}
use ext_php_rs.Args
use ext_php_rs.Args.Info.{ArgInfo}
use ext_php_rs.FunctionBuilder.{FunctionEntry, new, build}
use ext_php_rs.FunctionBuilder.Entry.{
  Declaration, parameter, optional_from_here, to_builder, to_parser, build-to_parser,
}

abbrev declared : List (Declaration ℕ)
declared =
    parameter (record {
      name = codes "a";
      type = DataType.long;
      as_ref = false;
      allow_null = false;
      variadic = false;
      default_value = none;
      zval = none;
      variadic_zvals = [];
    })
    ∷ optional_from_here
    ∷ parameter (record {
      name = codes "b";
      type = DataType.long;
      as_ref = false;
      allow_null = false;
      variadic = false;
      default_value = none;
      zval = none;
      variadic_zvals = [];
    })
    ∷ []

build-to_parser_example :
    (f : FunctionEntry) × (type : ZendType) × (infos : List ArgInfo) × (build true
        (to_builder declared (new (codes "f") 1))
      ≡ ok f)
    × (f.arg_info
        ≡ some (
          record { required_num_args = min_args (to_parser declared (Args.new [])); type = type },
          infos,
        ))
    × (length infos ≡ length (to_parser declared (Args.new [])).args)
    × (f.num_args ≡ length (to_parser declared (Args.new [])).args)
    × (f.fname ≡ some (codes "f"))
unfolding to_parser Args.arg Args.not_required Args.new
build-to_parser_example =
    build-to_parser true (codes "f") 1 [] declared refl
      ((refl, refl, refl), ((refl, refl, refl), tt)) (omega arith)
