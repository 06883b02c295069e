-- ===== src/Text/Str.antt =====
-- Methods of Rust's `str` that the source calls, on valid UTF-8; they follow the documentation of Rust.
-- No code of the repository is modelled here.
use ext_php_rs.Prelude.{
  ℕ, Bool, true, false, Option, none, some, List, [], ◌∷◌, ◌++◌, Bytes, ◌==◌, text_eq,
  if◌then◌else◌, length,
}
use ext_php_rs.Text.Utf8.{trim_start}

abbrev pub is_nil {ℓ} : {A : Type ℓ} → List A → Bool
is_nil [] = true
is_nil (a ∷ xs) = false

-- White space alone.
abbrev pub is_blank : Bytes → Bool
is_blank s = is_nil (trim_start s)

unfoldable pub trim_end : Bytes → Bytes
trim_end [] = []
trim_end (c ∷ s) = let rest = trim_end s in if is_blank (c ∷ s) then [] else c ∷ rest

unfoldable pub trim : Bytes → Bytes
unfolding trim_end
trim s = trim_end (trim_start s)

unfoldable pub strip_prefix : Bytes → Bytes → Option Bytes
strip_prefix [] s = some s
strip_prefix (p ∷ ps) [] = none
strip_prefix (p ∷ ps) (c ∷ s) = let rest = strip_prefix ps s in if p == c then rest else none

-- `find`, as what stands in front of the first occurrence and what stands behind it.
abbrev pub before : ℕ → Option (Bytes × Bytes) → Option (Bytes × Bytes)
before c none = none
before c (some (a, b)) = some (c ∷ a, b)

unfoldable pub find : Bytes → Bytes → Option (Bytes × Bytes)
unfolding strip_prefix
find p [] = none
find p (c ∷ s) =
    let rest = find p s in
    elim (strip_prefix p (c ∷ s)) [ some behind ↦ some ([], behind) | none ↦ before c rest ]

-- `rfind` of one byte, in the same way.
abbrev pub or_here : Bool → ℕ → Bytes → Option (Bytes × Bytes) → Option (Bytes × Bytes)
or_here here c s (some (a, b)) = some (c ∷ a, b)
or_here here c s none = if here then some ([], s) else none

unfoldable pub rfind : ℕ → Bytes → Option (Bytes × Bytes)
rfind p [] = none
rfind p (c ∷ s) = or_here (c == p) c s (rfind p s)

-- The characters in front of the first white space.
unfoldable pub word : Bytes → Bytes
word [] = []
word (c ∷ s) =
    let rest = word s in if length (trim_start (c ∷ s)) == length (c ∷ s) then c ∷ rest else []

-- `split_whitespace().next()`
unfoldable pub first_word : Bytes → Option Bytes
unfolding word
first_word s = let w = word (trim_start s) in if is_nil w then none else some w

-- `split('\n')` and `join` with a separator.
abbrev pub onto_first : ℕ → List Bytes → List Bytes
onto_first c [] = (c ∷ []) ∷ []
onto_first c (l ∷ ls) = (c ∷ l) ∷ ls

unfoldable pub split : ℕ → Bytes → List Bytes
split p [] = [] ∷ []
split p (c ∷ s) = let rest = split p s in if c == p then [] ∷ rest else onto_first c rest

unfoldable pub join : Bytes → List Bytes → Bytes
join p [] = []
join p (l ∷ []) = l
join p (l ∷ m ∷ ls) = l ++ (p ++ join p (m ∷ ls))

-- `unwrap_or`
abbrev pub unwrap_or {ℓ} : {A : Type ℓ} → A → Option A → A
unwrap_or a none = a
unwrap_or a (some b) = b

-- `?` on an option
infixl 5 ◌>>=◌
abbrev pub ◌>>=◌ : {A B : Type 0} → Option A → (A → Option B) → Option B
none >>= f = none
some a >>= f = f a

-- `HashMap::insert` and `HashMap::get`, on a list without an order that matters.
unfoldable pub store : {A : Type 0} → Bytes → A → List (Bytes × A) → List (Bytes × A)
store k a [] = (k, a) ∷ []
store k a ((j, b) ∷ ps) = if text_eq j k then (k, a) ∷ ps else (j, b) ∷ store k a ps

unfoldable pub retrieve : {A : Type 0} → Bytes → List (Bytes × A) → Option A
retrieve k [] = none
retrieve k ((j, b) ∷ ps) = if text_eq j k then some b else retrieve k ps
