-- ===== src/Stub/Docs/Sections.antt =====
-- `parse_rustdoc` walks over the lines with three variables; here it is compared with the outline of
-- the documentation, a summary and a list of sections.
use ext_php_rs.Prelude.{
  Option, none, some, List, [], ◌∷◌, ◌++◌, Bytes, ◌≡◌, sym, ap, ◌∙◌, append_assoc, append-nil, refl,
  true, false, codes, text_eq, if◌then◌else◌, Bool-cases, inl, inr,
}
use ext_php_rs.Text.Str.{trim, join, is_nil, store, ◌>>=◌}
use ext_php_rs.Stub.Docs.{
  item_of, parse_param_line, parse_typed_param_line, add_argument, add_parameter, add_error,
  for_lines, non_empty_lines, set_returns, ParsedRustDoc, no_docs, finalize_section, header, turn,
  parse_lines, parse_rustdoc,
}

abbrev pub Outline : Type 0
Outline = List Bytes × List (Bytes × List Bytes)

abbrev pub onto : Option Bytes → Bytes → Outline → Outline
onto none line o = (line ∷ o.0, o.1)
onto (some name) line o = ([], (name, o.0) ∷ o.1)

-- The lines in front of the first header, and each header's name with the lines up to the next one.
unfoldable pub outline : List Bytes → Outline
outline [] = ([], [])
outline (line ∷ docs) = onto (header line) line (outline docs)

-- The sections one after the other.
unfoldable pub finalize_all : List (Bytes × List Bytes) → ParsedRustDoc → ParsedRustDoc
finalize_all [] result = result
finalize_all ((name, content) ∷ sections) result =
    finalize_all sections (finalize_section result (some name) content)

parse_lines-section :
    (docs : List Bytes) (result : ParsedRustDoc) (name : Bytes) (content : List Bytes)
    → parse_lines docs (result, some name, content)
      ≡ finalize_all
          (outline docs).1
          (finalize_section result (some name) (content ++ (outline docs).0))
unfolding parse_lines turn outline finalize_all
parse_lines-section [] result name content =
    ap (finalize_section result (some name)) (sym (append-nil content))
parse_lines-section (line ∷ docs) result name content =
    elim (header line)
      as (λ h.
        parse_lines docs (turn h line (result, some name, content))
        ≡ finalize_all (onto h line (outline docs)).1
            (finalize_section result (some name) (content ++ (onto h line (outline docs)).0))) [
              | none ↦
                  parse_lines-section docs result name (content ++ line ∷ [])
                  ∙ ap (λ c. finalize_all (outline docs).1 (finalize_section result (some name) c))
                      (append_assoc content (line ∷ []) (outline docs).0)
              | some next ↦
                  parse_lines-section docs (finalize_section result (some name) content) next []
                  ∙ ap
                      (λ c. finalize_all (outline docs).1 (
                        finalize_section (finalize_section result (some name) c) (some next)
                          (outline docs).0))
                      (sym (append-nil content))
            ]

with_summary : ParsedRustDoc → List Bytes → ParsedRustDoc
with_summary result lines = record result { summary = lines }

parse_lines-summary :
    (docs : List Bytes) (result : ParsedRustDoc)
    → parse_lines docs (result, none, [])
      ≡ finalize_all (outline docs).1 (with_summary result (result.summary ++ (outline docs).0))
unfolding parse_lines turn outline finalize_all finalize_section with_summary
parse_lines-summary [] result = ap (with_summary result) (sym (append-nil result.summary))
parse_lines-summary (line ∷ docs) result =
    elim (header line)
      as (λ h.
        parse_lines docs (turn h line (result, none, []))
        ≡ finalize_all (onto h line (outline docs)).1
            (with_summary result (result.summary ++ (onto h line (outline docs)).0))) [
              | none ↦
                  parse_lines-summary docs (with_summary result (result.summary ++ line ∷ []))
                  ∙ ap (λ ls. finalize_all (outline docs).1 (with_summary result ls))
                      (append_assoc result.summary (line ∷ []) (outline docs).0)
              | some next ↦
                  parse_lines-section docs result next []
                  ∙ ap
                      (λ ls.
                        finalize_all (outline docs).1
                          (finalize_section (with_summary result ls) (some next) (outline docs).0))
                      (sym (append-nil result.summary))
            ]

-- The sections that are read; any other is skipped.
pub data Section : Type 0 where
  arguments returns errors parameters other : Section

abbrev pub section_of : Bytes → Section
section_of name =
    if text_eq name (codes "Arguments")
    then arguments
    else if text_eq name (codes "Returns")
    then returns
    else if text_eq name (codes "Errors")
    then errors
    else if text_eq name (codes "Parameters")
    then parameters
    else other

-- The items of a list that can be read, with their descriptions.
abbrev pub listed : List Bytes → List (Bytes × Bytes)
listed [] = []
listed (l ∷ content) = elim (item_of l >>= parse_param_line) [
  | some p ↦ p ∷ listed content
  | none ↦ listed content
]

-- The items with a type: the types, and the descriptions that are there.
abbrev pub typed : List Bytes → List (Bytes × Bytes)
typed [] = []
typed (l ∷ content) = elim (item_of l >>= parse_typed_param_line) [
  | some (name, ty, desc) ↦ (name, ty) ∷ typed content
  | none ↦ typed content
]

abbrev pub typed_listed : List Bytes → List (Bytes × Bytes)
typed_listed [] = []
typed_listed (l ∷ content) = elim (item_of l >>= parse_typed_param_line) [
  | some (name, ty, desc) ↦
      if is_nil desc then typed_listed content else (name, desc) ∷ typed_listed content
  | none ↦ typed_listed content
]

-- A later item of the same name replaces an earlier one.
abbrev pub store_all : List (Bytes × Bytes) → List (Bytes × Bytes) → List (Bytes × Bytes)
store_all [] stored = stored
store_all ((name, text) ∷ items) stored = store_all items (store name text stored)

abbrev pub or_before : Bytes → Option Bytes → Option Bytes
or_before [] before = before
or_before (c ∷ s) before = some (c ∷ s)

-- What a section adds to what was read before it.
abbrev pub read_as : Section → List Bytes → ParsedRustDoc → ParsedRustDoc
read_as arguments content r = record r { params = store_all (listed content) r.params }
read_as parameters content r = record r {
  params = store_all (typed_listed content) r.params;
  param_types = store_all (typed content) r.param_types;
}
read_as returns content r = record r {
  returns = or_before (join (codes " ") (non_empty_lines content)) r.returns;
}
read_as errors content r = record r { errors = r.errors ++ non_empty_lines content }
read_as other content r = r

abbrev pub read_all : List (Bytes × List Bytes) → ParsedRustDoc → ParsedRustDoc
read_all [] r = r
read_all ((name, content) ∷ sections) r = read_all sections (read_as (section_of name) content r)

arguments_read :
    (content : List Bytes) (r : ParsedRustDoc)
    → for_lines add_argument content r ≡ read_as arguments content r
unfolding for_lines add_argument
arguments_read [] r = refl
arguments_read (l ∷ content) r =
    elim (item_of l >>= parse_param_line)
      as (λ o.
        for_lines add_argument content
          (elim o [ none ↦ r | some (name, desc) ↦ record r { params = store name desc r.params } ])
        ≡ record r {
          params =
              store_all (elim o [ some p ↦ p ∷ listed content | none ↦ listed content ]) r.params;
        }) [
          | none ↦ arguments_read content r
          | some (name, desc) ↦
              arguments_read content (record r { params = store name desc r.params })
        ]

errors_read :
    (content : List Bytes) (r : ParsedRustDoc)
    → for_lines add_error content r ≡ read_as errors content r
unfolding for_lines add_error non_empty_lines
errors_read [] r = rw append-nil refl
errors_read (l ∷ content) r =
    elim (is_nil (trim l))
      as (λ b.
        for_lines add_error content (if b then r else record r { errors = r.errors ++ trim l ∷ [] })
        ≡ record r {
          errors =
              r.errors ++ (if b then non_empty_lines content else trim l ∷ non_empty_lines content);
        }) [
          | true ↦ errors_read content r
          | false ↦
              errors_read content (record r { errors = r.errors ++ trim l ∷ [] })
              ∙ ap (λ e. record r { errors = e })
                  (append_assoc r.errors (trim l ∷ []) (non_empty_lines content))
        ]

parameters_read :
    (content : List Bytes) (r : ParsedRustDoc)
    → for_lines add_parameter content r ≡ read_as parameters content r
unfolding for_lines add_parameter
parameters_read [] r = refl
parameters_read (l ∷ content) r =
    elim (item_of l >>= parse_typed_param_line)
      as (λ o.
        for_lines add_parameter content (elim o [
          | none ↦ r
          | some (name, ty, desc) ↦ record r {
            param_types = store name ty r.param_types;
            params = if is_nil desc then r.params else store name desc r.params;
          }
        ])
        ≡ record r {
          params =
              store_all
                (elim o [
                  | some (name, ty, desc) ↦
                      if is_nil desc
                      then typed_listed content
                      else (name, desc) ∷ typed_listed content
                  | none ↦ typed_listed content
                ])
                r.params;
          param_types =
              store_all
                (elim o [
                  | some (name, ty, desc) ↦ (name, ty) ∷ typed content
                  | none ↦ typed content
                ])
                r.param_types;
        }) [
          | none ↦ parameters_read content r
          | some (name, ty, desc) ↦
              elim (is_nil desc)
                as (λ b.
                  for_lines add_parameter content (record r {
                    param_types = store name ty r.param_types;
                    params = if b then r.params else store name desc r.params;
                  })
                  ≡ record r {
                    params =
                        store_all
                          (if b then typed_listed content else (name, desc) ∷ typed_listed content)
                          r.params;
                    param_types = store_all (typed content) (store name ty r.param_types);
                  }) [
                    | true ↦
                        parameters_read content
                          (record r { param_types = store name ty r.param_types })
                    | false ↦ parameters_read content (record r {
                      param_types = store name ty r.param_types;
                      params = store name desc r.params;
                    })
                  ]
        ]

returns_read :
    (desc : Bytes) (r : ParsedRustDoc)
    → set_returns desc r ≡ record r { returns = or_before desc r.returns }
returns_read [] r = refl
returns_read (c ∷ s) r = refl

section_read :
    (r : ParsedRustDoc) (name : Bytes) (content : List Bytes)
    → finalize_section r (some name) content ≡ read_as (section_of name) content r
unfolding finalize_section
section_read r name content = elim (Bool-cases (text_eq name (codes "Arguments"))) [
  | inl a ↦ rw a (arguments_read content r)
  | inr a ↦ rw a (elim (Bool-cases (text_eq name (codes "Returns"))) [
    | inl b ↦ rw b (returns_read (join (codes " ") (non_empty_lines content)) r)
    | inr b ↦ rw b (elim (Bool-cases (text_eq name (codes "Errors"))) [
      | inl c ↦ rw c (errors_read content r)
      | inr c ↦ rw c (elim (Bool-cases (text_eq name (codes "Parameters"))) [
        | inl d ↦ rw d (parameters_read content r)
        | inr d ↦ rw d refl
      ])
    ])
  ])
]

sections_read :
    (sections : List (Bytes × List Bytes)) (r : ParsedRustDoc)
    → finalize_all sections r ≡ read_all sections r
unfolding finalize_all
sections_read [] r = refl
sections_read ((name, content) ∷ sections) r =
    ap (finalize_all sections) (section_read r name content)
    ∙ sections_read sections (read_as (section_of name) content r)

-- A documentation is read as its outline says: the summary is the lines in front of the first header, and
-- each section, in the order of the headers, is read by its name from exactly the lines between its header
-- and the next. `Arguments` adds a description for each item that can be read, and `Parameters` a type
-- and, where there is one, a description; `Returns` sets what is returned to its lines that are not empty,
-- if there are any; `Errors` adds its lines that are not empty; and no other section adds anything.
pub parse_rustdoc-outline :
    (docs : List Bytes)
    → parse_rustdoc docs ≡ read_all (outline docs).1 (record no_docs { summary = (outline docs).0 })
unfolding parse_rustdoc with_summary
parse_rustdoc-outline docs =
    parse_lines-summary docs no_docs
    ∙ sections_read (outline docs).1 (record no_docs { summary = (outline docs).0 })
