-- ===== src/Stub/Phpdoc.antt =====
-- src/describe/stub.rs: the stubs of functions, methods, properties and constants, with their comments.
-- A line ends with a line feed, as `writeln!` ends it.
use ext_php_rs.Prelude.{
  Bool, true, false, not, ◌&&◌, ◌||◌, Option, none, some, List, [], ◌∷◌, ◌++◌, map, Bytes, codes,
  if◌then◌else◌,
}
use ext_php_rs.Text.Str.{is_nil, is_blank, join, retrieve}
use ext_php_rs.Stub.Docs.{ParsedRustDoc, parse_rustdoc}
use ext_php_rs.Stub.Types.{
  Parameter, Retval, extract_php_type, datatype_to_phpdoc, signature_type, param_to_stub,
  split_namespace,
}

abbrev pub line : Bytes → Bytes
line s = s ++ b'\n' ∷ []

unfoldable pub concat : List Bytes → Bytes
concat [] = []
concat (s ∷ ss) = s ++ concat ss

-- `.rev().skip_while(…).rev()`: the lines up to the last one that is not blank.
unfoldable pub trim_lines : List Bytes → List Bytes
trim_lines [] = []
trim_lines (s ∷ ss) = let rest = trim_lines ss in if is_nil rest && is_blank s then [] else s ∷ rest

abbrev pub is_some {ℓ} : {A : Type ℓ} → Option A → Bool
is_some none = false
is_some (some a) = true

unfoldable pub any_text : List Bytes → Bool
any_text [] = false
any_text (s ∷ ss) = not (is_blank s) || any_text ss

-- The type in the tag of a parameter: the one of the documentation, or else that of the parameter.
abbrev pub documented_type : Option Bytes → Parameter → Bytes
unfolding extract_php_type datatype_to_phpdoc
documented_type (some type_override) param = extract_php_type type_override
documented_type none param = elim param.ty [
  | some ty ↦ datatype_to_phpdoc ty param.nullable
  | none ↦ codes "mixed"
]

abbrev pub with_text : Option Bytes → Bytes
with_text none = []
with_text (some desc) = codes " " ++ desc

unfoldable pub param_tag : ParsedRustDoc → Parameter → Bytes
unfolding documented_type
param_tag parsed param = line (
    codes " * @param "
    ++ (documented_type (retrieve param.name parsed.param_types) param
        ++ (codes " $" ++ (param.name ++ with_text (retrieve param.name parsed.params)))))

abbrev pub return_tag : ParsedRustDoc → Option Retval → Bytes
unfolding datatype_to_phpdoc
return_tag parsed none = []
return_tag parsed (some retval) = line (
    codes " * @return "
    ++ (datatype_to_phpdoc retval.ty retval.nullable ++ with_text parsed.returns))

abbrev pub throws_tag : Bytes → Bytes
throws_tag error = line (codes " * @throws \\Exception " ++ error)

-- The comment of a function or method, and the overrides of its parameters' types.
abbrev pub phpdoc_of : ParsedRustDoc → List Parameter → Option Retval → Bytes
unfolding param_tag return_tag
phpdoc_of parsed params ret =
    let summary_lines = trim_lines parsed.summary in
    let has_tags = not (is_nil params) || is_some ret || not (is_nil parsed.errors) in
    line (codes "/**")
    ++ (concat (map (λ s. line (codes " *" ++ s)) summary_lines)
        ++ ((if not (is_nil summary_lines) && has_tags then line (codes " *") else [])
            ++ (concat (map (param_tag parsed) params)
                ++ (return_tag parsed ret
                    ++ (concat (map throws_tag parsed.errors) ++ line (codes " */"))))))

unfoldable pub format_phpdoc :
    List Bytes → List Parameter → Option Retval → Bytes × List (Bytes × Bytes)
unfolding phpdoc_of
format_phpdoc docs params ret =
    let parsed = parse_rustdoc docs in
    if is_nil docs && is_nil params && not (is_some ret)
    then ([], [])
    else if not (any_text parsed.summary)
        && is_nil params
        && not (is_some ret)
        && is_nil parsed.errors
    then ([], parsed.param_types)
    else (phpdoc_of parsed params ret, parsed.param_types)

-- `: ` and the type that is returned.
abbrev pub return_type : Option Retval → Bytes
unfolding signature_type
return_type none = []
return_type (some retval) = codes ": " ++ signature_type retval.ty retval.nullable

abbrev pub params_of : List Parameter → List (Bytes × Bytes) → Bytes
unfolding param_to_stub
params_of params type_overrides =
    join (codes ", ") (map (λ p. param_to_stub p type_overrides) params)

-- `impl ToStub for Function`
unfoldable pub function_stub : Bytes → List Bytes → List Parameter → Option Retval → Bytes
unfolding return_type params_of
function_stub name docs params ret =
    let (comment, type_overrides) = format_phpdoc docs params ret in
    comment
    ++ (codes "function "
        ++ ((split_namespace name).1
            ++ (codes "("
                ++ (params_of params type_overrides
                    ++ (codes ")" ++ (return_type ret ++ line (codes " {}")))))))
