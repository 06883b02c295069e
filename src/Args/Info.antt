-- ===== src/Args/Info.antt =====
-- The rest of src/args.rs: how a parameter's value is taken, and what it is for Zend.
-- `FromZvalMut::from_zval_mut` after `dereference_mut` is the argument `from_zval`.
use ext_php_rs.Prelude.{
  ℕ, ◌+◌, Bool, true, false, ◌||◌, Option, none, some, [], ◌∷◌, List, Bytes, codes, text_eq, ◌≡◌,
  refl, ◌↔◌, ◌⊎◌, inl, inr, arith, if◌then◌else◌, Bool-cases, Option-cases, ap, text_eq_iff, ◌≢◌,
}
use ext_php_rs.DataType.{DataType}
use ext_php_rs.Error.{Error, Result, ok, err, ok_or, ◌>>=◌}
use ext_php_rs.ZendType.{ZendType, c_string, empty_from_type}
use ext_php_rs.ZendType.Mask.{has_nul, c_string_lem, empty_from_type-eq-none}
use ext_php_rs.Args.{Arg}

-- `ArgInfo`: the default is a null pointer or a C string.
pub record ArgInfo : Type 0 where
  pub name : Bytes
  pub type : ZendType
  pub default_value : Option Bytes

-- `CString::new(…)?`
abbrev new_c_string : Bytes → Result Bytes
new_c_string s = ok_or (c_string s) Error.invalid_c_string

-- The default of Rust's `Option` is PHP's null.
unfoldable pub default_text : Option Bytes → Result (Option Bytes)
default_text none = ok none
default_text (some val) =
    if text_eq val (codes "None")
    then (do text ← new_c_string (codes "null"); ok (some text))
    else do text ← new_c_string val; ok (some text)

-- `impl From<Arg> for _zend_expected_type`; `none` is the panic of `unreachable!`.
abbrev expected_id : DataType → Option ℕ
expected_id t = elim t [
  | DataType.bool_false ↦ some 2
  | DataType.bool_true ↦ some 2
  | DataType.long ↦ some 0
  | DataType.double ↦ some 20
  | DataType.string ↦ some 4
  | DataType.array ↦ some 6
  | DataType.object _ ↦ some 18
  | DataType.resource ↦ some 14
  | _ ↦ none
]

module _ {Z : Type 0} where
  unfoldable pub consume {ℓ} : {T : Type ℓ} → (Z → Option T) → Arg Z → T ⊎ Arg Z
  consume from_zval a = elim a.zval [
    | none ↦ inr a
    | some z ↦ elim (from_zval z) [ none ↦ inr a | some t ↦ inl t ]
  ]

  unfoldable pub val {ℓ} : {T : Type ℓ} → (Z → Option T) → Arg Z → Option T
  val from_zval a = elim a.zval [ none ↦ none | some z ↦ from_zval z ]

  -- The two calls of `filter_map` in `variadic_vals`.
  unfoldable pub filter_vals {ℓ} : {T : Type ℓ} → (Z → Option T) → List (Option Z) → List T
  filter_vals from_zval [] = []
  filter_vals from_zval (none ∷ zs) = filter_vals from_zval zs
  filter_vals from_zval (some z ∷ zs) =
      let rest = filter_vals from_zval zs in elim (from_zval z) [ none ↦ rest | some t ↦ t ∷ rest ]

  unfoldable pub variadic_vals {ℓ} : {T : Type ℓ} → (Z → Option T) → Arg Z → List T
  unfolding filter_vals
  variadic_vals from_zval a = filter_vals from_zval a.variadic_zvals

  -- `Arg::as_arg_info`; `php83` is the build's flag.
  unfoldable pub as_arg_info : Bool → Arg Z → Result ArgInfo
  unfolding default_text
  as_arg_info php83 a = do
    name ← new_c_string a.name
    type ←
        ok_or (empty_from_type php83 a.type a.as_ref a.variadic a.allow_null) Error.invalid_c_string
    default ← default_text a.default_value
    ok (record { name = name; type = type; default_value = default })

  unfoldable pub expected_type : Arg Z → Option ℕ
  expected_type a = elim (expected_id a.type) [
    | none ↦ none
    | some type_id ↦ some (if a.allow_null then type_id + 1 else type_id)
  ]

-- A NUL byte somewhere in the texts of a parameter.
abbrev pub nul_in_class : DataType → Bool
nul_in_class (DataType.object (some class)) = has_nul class
nul_in_class _ = false

abbrev pub nul_in_default : Option Bytes → Bool
nul_in_default none = false
nul_in_default (some text) = has_nul text

-- What PHP shows of a default.
abbrev pub shown_default : Option Bytes → Option Bytes
shown_default none = none
shown_default (some text) = some (if text_eq text (codes "None") then codes "null" else text)

default_text_lem :
    (o : Option Bytes)
    → default_text o
      ≡ (if nul_in_default o then err Error.invalid_c_string else ok (shown_default o))
unfolding default_text
default_text_lem none = refl
default_text_lem (some text) = elim (Bool-cases (text_eq text (codes "None"))) [
  | inl same ↦ rw ((text_eq_iff text (codes "None")).0 same, default_text) (unfold c_string in refl)
  | inr other ↦ ground (arith, other, c_string_lem text)
]

no_class :
    (php83 : Bool) (t : DataType) (r v n : Bool)
    → nul_in_class t ≡ true
    → empty_from_type php83 t r v n ≡ none
no_class php83 (DataType.object (some class)) r v n h =
    (empty_from_type-eq-none php83 (DataType.object (some class)) r v n).1 (class, refl, h)
no_class php83 (DataType.object none) r v n h = cc
no_class php83 t r v n h = cc

pub a_class :
    (php83 : Bool) (t : DataType) (r v n : Bool)
    → nul_in_class t ≡ false
    → empty_from_type php83 t r v n ≢ none
a_class php83 t r v n h e =
    let (class, same, nul) = (empty_from_type-eq-none php83 t r v n).0 e in
    ground (arith, h, nul, ap nul_in_class same)

module _ {Z : Type 0} (php83 : Bool) (a : Arg Z) where
  -- The information for Zend fails to be made exactly where the name of the parameter, the class that
  -- its type names or its default holds a NUL byte; the error is that of the C string.
  pub as_arg_info-err_iff :
      (as_arg_info php83 a ≡ err Error.invalid_c_string)
      ↔ ((has_nul a.name || (nul_in_class a.type || nul_in_default a.default_value)) ≡ true)
  unfolding as_arg_info
  as_arg_info-err_iff = (
    λ e. ground (
      arith,
      c_string_lem a.name,
      default_text_lem a.default_value,
      no_class php83 a.type a.as_ref a.variadic a.allow_null,
      a_class php83 a.type a.as_ref a.variadic a.allow_null,
    ),
    λ h. ground (
      arith,
      c_string_lem a.name,
      default_text_lem a.default_value,
      no_class php83 a.type a.as_ref a.variadic a.allow_null,
    ),
  )

  -- Where it is made, it has the name, the type, and the default with `None` shown as `null`.
  pub as_arg_info-ok :
      (info : ArgInfo)
      → as_arg_info php83 a ≡ ok info
      → (info.name ≡ a.name)
        × (empty_from_type php83 a.type a.as_ref a.variadic a.allow_null ≡ some info.type)
        × (info.default_value ≡ shown_default a.default_value)
  unfolding as_arg_info
  as_arg_info-ok info e = ground (arith, c_string_lem a.name, default_text_lem a.default_value)

  -- It is made where there is no NUL byte.
  pub as_arg_info-some :
      has_nul a.name ≡ false
      → nul_in_class a.type ≡ false
      → nul_in_default a.default_value ≡ false
      → (info : ArgInfo) × (as_arg_info php83 a ≡ ok info)
  unfolding as_arg_info
  as_arg_info-some n c d =
      elim (Option-cases (empty_from_type php83 a.type a.as_ref a.variadic a.allow_null)) [
        | inl e ↦ absurd (a_class php83 a.type a.as_ref a.variadic a.allow_null c e)
        | inr (t, e) ↦ (
          record { name = a.name; type = t; default_value = shown_default a.default_value },
          ground (arith, c_string_lem a.name, default_text_lem a.default_value, n, d, e),
        )
      ]
