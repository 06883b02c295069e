-- ===== src/FunctionBuilder/Entry.antt =====
-- What the entry tells PHP, and what the parser of the same parameters asks for.
use Prim.Native.Nat.{bit_or}
use ext_php_rs.Prelude.{
  ℕ, ◌<◌, ◌^◌, Bool, false, Option, none, some, List, [], ◌∷◌, ◌++◌, length, Bytes, if◌then◌else◌,
  ◌≡◌, refl, sym, ap, ◌∙◌, arith, All, Option-cases, inl, inr,
}
use mathlib.Core.Path.{subst}
use ext_php_rs.DataType.{DataType}
use ext_php_rs.Error.{ok}
use ext_php_rs.ZendType.{ZendType, c_string, empty_from_type, empty}
use ext_php_rs.ZendType.Mask.{has_nul, c_string_lem}
use ext_php_rs.Args.{Arg, ArgParser, has_variadic, unwrap_or, to_u32, min_args}
use ext_php_rs.Args
use ext_php_rs.Args.Info.{ArgInfo, as_arg_info-some, a_class, nul_in_class, nul_in_default}
use ext_php_rs.FunctionBuilder.{
  FunctionBuilder, FunctionEntry, new, arg, not_required, header_type, collect, required, build,
  variadic_flag,
}

-- What a handler and the builder of its function declare alike.
pub data Declaration (Z : Type 0) : Type 0 where
  parameter : Arg Z → Declaration Z
  optional_from_here : Declaration Z

abbrev pub nul_in_retval : Option DataType → Bool
nul_in_retval none = false
nul_in_retval (some t) = nul_in_class t

module _ {Z : Type 0} where
  unfoldable pub to_builder : List (Declaration Z) → FunctionBuilder Z → FunctionBuilder Z
  to_builder [] b = b
  to_builder (parameter a ∷ ds) b = to_builder ds (arg a b)
  to_builder (optional_from_here ∷ ds) b = to_builder ds (not_required b)

  unfoldable pub to_parser : List (Declaration Z) → ArgParser Z → ArgParser Z
  to_parser [] p = p
  to_parser (parameter a ∷ ds) p = to_parser ds (Args.arg a p)
  to_parser (optional_from_here ∷ ds) p = to_parser ds (Args.not_required p)

  -- A builder and a parser with the same parameters.
  abbrev Alike : FunctionBuilder Z → ArgParser Z → Type 0
  Alike b p = (b.args ≡ p.args) × (b.n_req ≡ p.min_num_args)

  declared-Alike :
      (ds : List (Declaration Z)) (b : FunctionBuilder Z) (p : ArgParser Z)
      → Alike b p
      → Alike (to_builder ds b) (to_parser ds p)
  unfolding to_builder to_parser arg not_required Args.arg Args.not_required
  declared-Alike [] b p e = e
  declared-Alike (parameter a ∷ ds) b p e =
      declared-Alike ds (arg a b) (Args.arg a p) (ap (λ as'. as' ++ a ∷ []) e.0, e.1)
  declared-Alike (optional_from_here ∷ ds) b p e =
      declared-Alike ds (not_required b) (Args.not_required p)
        (e.0, ap (λ as'. some (length as')) e.0)

  required-min_args :
      (b : FunctionBuilder Z) (p : ArgParser Z) → Alike b p → required b ≡ min_args p
  unfolding required min_args
  required-min_args b p e = rw (e.0, e.1) refl

  -- No NUL byte in the texts of a parameter.
  abbrev pub IsNulFree : Arg Z → Type 0
  IsNulFree a =
      (has_nul a.name ≡ false)
      × (nul_in_class a.type ≡ false)
      × (nul_in_default a.default_value ≡ false)

  collect_ok :
      (php83 : Bool) (args : List (Arg Z))
      → All IsNulFree args
      → (infos : List ArgInfo) × (collect php83 args ≡ ok infos) × (length infos ≡ length args)
  unfolding collect
  collect_ok php83 [] h = ([], refl, refl)
  collect_ok php83 (a ∷ args) h =
      let (info, e) = as_arg_info-some php83 a h.0.0 h.0.1 h.0.2 in
      let (infos, es, n) = collect_ok php83 args h.1 in
      (info ∷ infos, rw (e, es) refl, omega (arith, n))

header_type_ok :
    (php83 : Bool) (retval : Option DataType) (ref null : Bool)
    → nul_in_retval retval ≡ false
    → (type : ZendType) × (header_type php83 retval ref null ≡ ok type)
header_type_ok php83 none ref null h = (empty false false, refl)
header_type_ok php83 (some t) ref null h =
    elim (Option-cases (empty_from_type php83 t ref false null)) [
      | inl e ↦ absurd (a_class php83 t ref false null h e)
      | inr (type, e) ↦ (type, rw e refl)
    ]

to_u32_ok : (n : ℕ) → n < 2 ^ 32 → to_u32 n ≡ ok n
unfolding to_u32
to_u32_ok n h = ground (arith, h)

module _ {Z : Type 0} where
  to_builder_keeps :
      (ds : List (Declaration Z)) (b : FunctionBuilder Z)
      → ((to_builder ds b).name ≡ b.name) × ((to_builder ds b).retval ≡ b.retval)
  unfolding to_builder arg not_required
  to_builder_keeps [] b = (refl, refl)
  to_builder_keeps (parameter a ∷ ds) b = to_builder_keeps ds (arg a b)
  to_builder_keeps (optional_from_here ∷ ds) b = to_builder_keeps ds (not_required b)

  build_ok :
      (php83 : Bool) (b : FunctionBuilder Z)
      → has_nul b.name ≡ false
      → nul_in_retval b.retval ≡ false
      → All IsNulFree b.args
      → length b.args < 2 ^ 32
      → (f : FunctionEntry) × (type : ZendType) × (infos : List ArgInfo) × (build php83 b ≡ ok f)
        × (f.arg_info ≡ some (record { required_num_args = required b; type = type }, infos))
        × (length infos ≡ length b.args)
        × (f.num_args ≡ length b.args)
        × (f.fname ≡ some b.name)
  unfolding build
  build_ok php83 b n r h m =
      let (type, e) = header_type_ok php83 b.retval b.ret_as_ref b.ret_as_null r in
      let (infos, es, k) = collect_ok php83 b.args h in
      let named : c_string b.name ≡ some b.name = ground (arith, c_string_lem b.name, n) in
      let f : FunctionEntry = record (b.function) {
        fname = some b.name;
        arg_info = some (record { required_num_args = required b; type = type }, infos);
        num_args = length b.args;
        flags =
            if has_variadic b.args then bit_or b.function.flags variadic_flag else b.function.flags;
      } in
      (f, type, infos, rw (e, es, named, k, to_u32_ok (length b.args) m) refl, refl, k, refl, refl)

  -- A function and its handler that declare the same parameters, with no NUL byte in the name of the
  -- function and the texts of the parameters and fewer than 2 ^ 32 of them: the entry is built, under
  -- that name, and tells PHP just the least number of arguments that the parser of the handler asks
  -- for, and the parser's number of parameters, with an information for each.
  pub build-to_parser :
      (php83 : Bool) (name : Bytes) (handler : ℕ) (zvals : List (Option Z))
      (ds : List (Declaration Z))
      → has_nul name ≡ false
      → All IsNulFree (to_parser ds (Args.new zvals)).args
      → length (to_parser ds (Args.new zvals)).args < 2 ^ 32
      → (f : FunctionEntry) × (type : ZendType) × (infos : List ArgInfo) × (build php83
            (to_builder ds (new name handler))
          ≡ ok f)
        × (f.arg_info
            ≡ some (
              record { required_num_args = min_args (to_parser ds (Args.new zvals)); type = type },
              infos,
            ))
        × (length infos ≡ length (to_parser ds (Args.new zvals)).args)
        × (f.num_args ≡ length (to_parser ds (Args.new zvals)).args)
        × (f.fname ≡ some name)
  unfolding new Args.new
  build-to_parser php83 name handler zvals ds n h m =
      let b = to_builder ds (new name handler) in
      let p = to_parser ds (Args.new zvals) in
      let alike = declared-Alike ds (new name handler) (Args.new zvals) (refl, refl) in
      let kept = to_builder_keeps ds (new name handler) in
      let (f, type, infos, done, info, k, num, named) =
        build_ok php83 b (ap has_nul kept.0 ∙ n) (ap nul_in_retval kept.1)
          (subst (All IsNulFree) (sym alike.0) h)
          (subst (λ args. length args < 2 ^ 32) (sym alike.0) m) in
      (
        f,
        type,
        infos,
        done,
        info
            ∙ ap (λ r. some (record { required_num_args = r; type = type }, infos))
                (required-min_args b p alike),
        k ∙ ap length alike.0,
        num ∙ ap length alike.0,
        named ∙ ap some kept.0,
      )
