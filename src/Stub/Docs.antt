-- ===== src/Stub/Docs.antt =====
-- src/describe/stub.rs: the sections of a Rust documentation, `parse_rustdoc`.
pub mod Sections
pub mod Lines
use ext_php_rs.Prelude.{
  ℕ, Bool, true, false, not, Option, none, some, List, [], ◌∷◌, ◌++◌, map, Bytes, codes, text_eq,
  if◌then◌else◌,
}
use ext_php_rs.Text.Str.{trim, strip_prefix, find, join, is_nil, unwrap_or, store, retrieve, ◌>>=◌}

-- `struct ParsedRustDoc`
pub record ParsedRustDoc : Type 0 where
  pub summary : List Bytes
  pub params : List (Bytes × Bytes)
  pub param_types : List (Bytes × Bytes)
  pub returns : Option Bytes
  pub errors : List Bytes

abbrev pub no_docs : ParsedRustDoc
no_docs = record { summary = []; params = []; param_types = []; returns = none; errors = [] }

-- `strip_prefix('$').unwrap_or(name)`
abbrev pub without_dollar : Bytes → Bytes
unfolding strip_prefix
without_dollar name = unwrap_or name (strip_prefix (codes "$") name)

-- `or_else` of `Option`
abbrev pub or_else : Option Bytes → Option Bytes → Option Bytes
or_else none o = o
or_else (some s) o = some s

-- The description behind the closing backtick.
abbrev pub described : Bytes → Bytes
unfolding trim strip_prefix
described after_tick =
    elim (or_else (strip_prefix (codes "-") (trim after_tick))
      (strip_prefix (codes ":") (trim after_tick))) [
        | none ↦ trim after_tick
        | some desc ↦ trim desc
      ]

-- A backtick, and what stands up to the next one and behind that.
unfoldable pub ticked : Bytes → Option (Bytes × Bytes)
ticked line = do rest ← strip_prefix (codes "`") line; find (codes "`") rest

unfoldable pub parse_param_line : Bytes → Option (Bytes × Bytes)
unfolding described
parse_param_line line = elim (ticked line) [
  | some (name, after_tick) ↦ some (without_dollar name, described after_tick)
  | none ↦ elim (find (codes " - ") line) [
    | some (name, desc) ↦ some (without_dollar (trim name), trim desc)
    | none ↦ none
  ]
]

unfoldable pub parse_typed_param_line : Bytes → Option (Bytes × Bytes × Bytes)
parse_typed_param_line line = do
  (name, after_name) ← ticked line
  after_colon ← strip_prefix (codes ":") (trim after_name)
  (ty, desc) ← ticked (trim after_colon)
  some (without_dollar name, ty, trim desc)

-- The item of a line of a list.
unfoldable pub item_of : Bytes → Option Bytes
item_of line =
    let trimmed = trim line in
    elim (or_else (strip_prefix (codes "* ") trimmed) (strip_prefix (codes "- ") trimmed)) [
      | none ↦ none
      | some item ↦ some (trim item)
    ]

unfoldable pub add_argument : Bytes → ParsedRustDoc → ParsedRustDoc
add_argument line result = elim (item_of line >>= parse_param_line) [
  | none ↦ result
  | some (name, desc) ↦ record result { params = store name desc result.params }
]

unfoldable pub add_parameter : Bytes → ParsedRustDoc → ParsedRustDoc
add_parameter line result = elim (item_of line >>= parse_typed_param_line) [
  | none ↦ result
  | some (name, ty, desc) ↦ record result {
    param_types = store name ty result.param_types;
    params = if is_nil desc then result.params else store name desc result.params;
  }
]

unfoldable pub add_error : Bytes → ParsedRustDoc → ParsedRustDoc
add_error line result =
    let trimmed = trim line in
    if is_nil trimmed then result else record result { errors = result.errors ++ trimmed ∷ [] }

-- `for line in content { … }`
unfoldable pub for_lines :
    (Bytes → ParsedRustDoc → ParsedRustDoc) → List Bytes → ParsedRustDoc → ParsedRustDoc
for_lines body [] result = result
for_lines body (line ∷ content) result = for_lines body content (body line result)

unfoldable pub non_empty_lines : List Bytes → List Bytes
non_empty_lines [] = []
non_empty_lines (s ∷ content) =
    let rest = non_empty_lines content in if is_nil (trim s) then rest else trim s ∷ rest

abbrev pub set_returns : Bytes → ParsedRustDoc → ParsedRustDoc
set_returns desc result = if is_nil desc then result else record result { returns = some desc }

unfoldable pub finalize_section : ParsedRustDoc → Option Bytes → List Bytes → ParsedRustDoc
finalize_section result none content = result
finalize_section result (some section_name) content =
    if text_eq section_name (codes "Arguments")
    then for_lines add_argument content result
    else if text_eq section_name (codes "Returns")
    then set_returns (join (codes " ") (non_empty_lines content)) result
    else if text_eq section_name (codes "Errors")
    then for_lines add_error content result
    else if text_eq section_name (codes "Parameters")
    then for_lines add_parameter content result
    else result

-- The variables of the loop of `parse_rustdoc`: `result`, `current_section` and `section_content`.
abbrev pub Parsing : Type 0
Parsing = ParsedRustDoc × Option Bytes × List Bytes

-- `trimmed.strip_prefix("# ")`, which is there where the line is a header.
unfoldable pub header : Bytes → Option Bytes
header line = strip_prefix (codes "# ") (trim line)

-- A turn of the loop, by the name that the line heads.
unfoldable pub turn : Option Bytes → Bytes → Parsing → Parsing
turn (some section_name) line (result, current_section, section_content) =
    (finalize_section result current_section section_content, some section_name, [])
turn none line (result, some section_name, section_content) =
    (result, some section_name, section_content ++ line ∷ [])
turn none line (result, none, section_content) =
    (record result { summary = result.summary ++ line ∷ [] }, none, section_content)

unfoldable pub parse_lines : List Bytes → Parsing → ParsedRustDoc
parse_lines [] (result, current_section, section_content) =
    finalize_section result current_section section_content
parse_lines (line ∷ docs) variables = parse_lines docs (turn (header line) line variables)

unfoldable pub parse_rustdoc : List Bytes → ParsedRustDoc
parse_rustdoc docs = parse_lines docs (no_docs, none, [])
