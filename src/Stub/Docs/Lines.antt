-- ===== src/Stub/Docs/Lines.antt =====
-- A line of the `# Arguments` section, written and read.
use ext_php_rs.Prelude.{
  ℕ, Bool, false, Option, some, [], ◌∷◌, ◌++◌, Bytes, codes, ◌==◌, if◌then◌else◌, ◌≡◌, refl, ap,
  ◌∙◌, All,
}
use ext_php_rs.Text.Utf8.{trim_start}
use ext_php_rs.Text.Str.{trim, trim_end, strip_prefix, find, is_nil, is_blank}
use ext_php_rs.Stub.Docs.{parse_param_line, ticked, described, without_dollar}

abbrev backtick : ℕ
backtick = 96

abbrev space : ℕ
space = 32

abbrev pub Unticked : Bytes → Type 0
Unticked s = All (λ c. (backtick == c) ≡ false) s

-- A text without white space at its ends.
abbrev pub IsTrimmed : Bytes → Type 0
IsTrimmed s = (trim_start s ≡ s) × (trim_end s ≡ s)

abbrev pub starts_with_dollar : Bytes → Bool
starts_with_dollar [] = false
starts_with_dollar (c ∷ s) = 36 == c

-- `name` - description
abbrev pub param_line : Bytes → Bytes → Bytes
param_line name desc = backtick ∷ (name ++ backtick ∷ space ∷ 45 ∷ space ∷ desc)

find-backtick :
    (name s : Bytes) → Unticked name → find (codes "`") (name ++ backtick ∷ s) ≡ some (name, s)
unfolding find strip_prefix
find-backtick [] s a = refl
find-backtick (c ∷ name) s a = rw (find, a.0, find-backtick name s a.1) refl

trim_start-space : (s : Bytes) → trim_start (space ∷ s) ≡ trim_start s
unfolding trim_start
trim_start-space [] = refl
trim_start-space (a ∷ []) = refl
trim_start-space (a ∷ b ∷ s) = refl

trim_start-dash : (s : Bytes) → trim_start (45 ∷ s) ≡ 45 ∷ s
unfolding trim_start
trim_start-dash [] = refl
trim_start-dash (a ∷ []) = refl
trim_start-dash (a ∷ b ∷ s) = refl

-- A dash and a text in front of it are trimmed to the dash alone, or with a space to the text.
trim_end-dash : (s : Bytes) → trim_end (45 ∷ s) ≡ 45 ∷ trim_end s
unfolding trim_end
trim_end-dash s = rw (trim_start-dash s) refl

trim-space_dash : (desc : Bytes) → trim (space ∷ 45 ∷ space ∷ desc) ≡ 45 ∷ trim_end (space ∷ desc)
unfolding trim
trim-space_dash desc =
    ap trim_end (trim_start-space (45 ∷ space ∷ desc) ∙ trim_start-dash (space ∷ desc))
    ∙ trim_end-dash (space ∷ desc)

trim_end-space :
    (s : Bytes) → trim_end (space ∷ s) ≡ (if is_blank s then [] else space ∷ trim_end s)
unfolding trim_end
trim_end-space s = rw (trim_start-space s) refl

trim-trim_end-space : (desc : Bytes) → IsTrimmed desc → trim (trim_end (space ∷ desc)) ≡ desc
unfolding trim
trim-trim_end-space [] t = ap trim (trim_end-space []) ∙ (unfold trim trim_start trim_end in refl)
trim-trim_end-space (c ∷ desc) t =
    let there : is_blank (c ∷ desc) ≡ false = ap is_nil t.0 in
    ap trim (
      trim_end-space (c ∷ desc)
      ∙ ap (λ b. if b then [] else space ∷ trim_end (c ∷ desc)) there
      ∙ ap (λ s. space ∷ s) t.1)
    ∙ ap trim_end (trim_start-space (c ∷ desc) ∙ t.0)
    ∙ t.1

described_lem : (desc : Bytes) → IsTrimmed desc → described (space ∷ 45 ∷ space ∷ desc) ≡ desc
unfolding described strip_prefix trim_start
described_lem desc t = rw (trim-space_dash desc) (trim-trim_end-space desc t)

without_dollar_lem : (name : Bytes) → starts_with_dollar name ≡ false → without_dollar name ≡ name
unfolding without_dollar strip_prefix
without_dollar_lem [] h = refl
without_dollar_lem (c ∷ name) h = rw h refl

ticked-param_line :
    (name desc : Bytes)
    → Unticked name
    → ticked (param_line name desc) ≡ some (name, space ∷ 45 ∷ space ∷ desc)
unfolding ticked strip_prefix
ticked-param_line name desc a = find-backtick name (space ∷ 45 ∷ space ∷ desc) a

pair_eq :
    (a b c d : Bytes) → a ≡ b → c ≡ d → ◌≡◌ {A = Option (Bytes × Bytes)} (some (a, c)) (some (b, d))
pair_eq a b c d e f = rw (e, f) refl

-- A line that names a parameter in backticks and describes it behind a dash is read as that name and
-- that description, where no backtick is in the name, no dollar is at its start, and the description
-- has no white space at its ends.
pub parse_param_line-param_line :
    (name desc : Bytes)
    → Unticked name
    → starts_with_dollar name ≡ false
    → IsTrimmed desc
    → parse_param_line (param_line name desc) ≡ some (name, desc)
unfolding parse_param_line
parse_param_line-param_line name desc a d t =
    rw (parse_param_line, ticked-param_line name desc a)
      (pair_eq _ _ _ _ (without_dollar_lem name d) (described_lem desc t))
