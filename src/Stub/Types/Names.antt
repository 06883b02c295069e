-- ===== src/Stub/Types/Names.antt =====
-- Names with a namespace, and indented lines.
use ext_php_rs.Prelude.{
  ℕ, zero, suc, false, Option, none, some, List, [], ◌∷◌, ◌++◌, map, Bytes, codes, ◌==◌, ◌≡◌, ◌≢◌,
  refl, sym, ap, ◌∙◌, arith, length, All, All-append, Bool-cases, inl, inr, ==_iff,
}
use ext_php_rs.Text.Str.{rfind, split, join, onto_first, or_here, is_blank}
use ext_php_rs.Stub.Types.{backslash, split_namespace, spaces, indent_line, indent}

-- A name with its namespace in front.
abbrev pub qualified : Option Bytes × Bytes → Bytes
qualified (none, name) = name
qualified (some namespace, name) = namespace ++ backslash ∷ name

abbrev pub Lacks : ℕ → Bytes → Type 0
Lacks p s = All (λ c. (c == p) ≡ false) s

-- What `rfind` says of a text.
abbrev pub Found : ℕ → Bytes → Option (Bytes × Bytes) → Type 0
Found p s none = Lacks p s
Found p s (some (a, b)) = (s ≡ a ++ p ∷ b) × Lacks p b

rfind-Found : (p : ℕ) (s : Bytes) → Found p s (rfind p s)
unfolding rfind
rfind-Found p [] = tt
rfind-Found p (c ∷ s) = go p c s (rfind p s) (rfind-Found p s)
  where
    go :
        (p c : ℕ) (s : Bytes) (o : Option (Bytes × Bytes))
        → Found p s o
        → Found p (c ∷ s) (or_here (c == p) c s o)
    go p c s (some (a, b)) f = (ap (λ t. c ∷ t) f.0, f.1)
    go p c s none f = elim (Bool-cases (c == p)) [
      | inl e ↦ rw e (ap (λ d. d ∷ s) ((==_iff c p).0 e), f)
      | inr e ↦ rw e (e, f)
    ]

abbrev split_of : Bytes → Option (Bytes × Bytes) → Option Bytes × Bytes
split_of class (some (namespace, name)) = (some namespace, name)
split_of class none = (none, class)

Found-split :
    (class : Bytes) (o : Option (Bytes × Bytes))
    → Found backslash class o
    → (qualified (split_of class o) ≡ class) × Lacks backslash (split_of class o).1
Found-split class (some (namespace, name)) f = (sym f.0, f.1)
Found-split class none f = (refl, f)

-- A class's name is split at its last backslash: the two parts make up the name, and no backslash is
-- in the second, nor anywhere where there is no namespace.
pub split_namespace-qualified :
    (class : Bytes)
    → (qualified (split_namespace class) ≡ class) × Lacks backslash (split_namespace class).1
unfolding split_namespace
split_namespace-qualified class =
    Found-split class (rfind backslash class) (rfind-Found backslash class)

split-Lacks : (p : ℕ) (s : Bytes) → All (Lacks p) (split p s)
unfolding split
split-Lacks p [] = (tt, tt)
split-Lacks p (c ∷ s) = elim (Bool-cases (c == p)) [
  | inl e ↦ rw e (tt, split-Lacks p s)
  | inr e ↦ rw e (first p c (split p s) e (split-Lacks p s))
]
  where
    first :
        (p c : ℕ) (ls : List Bytes)
        → (c == p) ≡ false
        → All (Lacks p) ls
        → All (Lacks p) (onto_first c ls)
    first p c [] e a = ((e, tt), tt)
    first p c (l ∷ ls) e a = ((e, a.0), a.1)

split_last : (p : ℕ) (l : Bytes) → Lacks p l → split p l ≡ l ∷ []
unfolding split
split_last p [] a = refl
split_last p (c ∷ l) a = rw (a.0, split_last p l a.1) refl

split_line : (p : ℕ) (l s : Bytes) → Lacks p l → split p (l ++ p ∷ s) ≡ l ∷ split p s
unfolding split
split_line p [] s a = ground (arith, ==_iff p p)
split_line p (c ∷ l) s a = rw (a.0, split_line p l s a.1) refl

-- Lines that are joined are split again.
split-join :
    (p : ℕ) (l : Bytes) (ls : List Bytes)
    → Lacks p l
    → All (Lacks p) ls
    → split p (join (p ∷ []) (l ∷ ls)) ≡ l ∷ ls
unfolding join
split-join p l [] a b = split_last p l a
split-join p l (m ∷ ls) a b =
    split_line p l (join (p ∷ []) (m ∷ ls)) a ∙ ap (λ xs. l ∷ xs) (split-join p m ls b.0 b.1)

spaces-Lacks : (depth : ℕ) → Lacks b'\n' (spaces depth)
spaces-Lacks zero = tt
spaces-Lacks (suc depth) = (refl, spaces-Lacks depth)

indent_line-Lacks : (depth : ℕ) (l : Bytes) → Lacks b'\n' l → Lacks b'\n' (indent_line depth l)
indent_line-Lacks depth l a = elim (Bool-cases (is_blank l)) [
  | inl e ↦ rw e tt
  | inr e ↦ rw e (All-append (λ c. (c == b'\n') ≡ false) (spaces depth) l (spaces-Lacks depth) a)
]

indent_lines-Lacks :
    (depth : ℕ) (ls : List Bytes)
    → All (Lacks b'\n') ls
    → All (Lacks b'\n') (map (indent_line depth) ls)
indent_lines-Lacks depth [] a = tt
indent_lines-Lacks depth (l ∷ ls) a =
    (indent_line-Lacks depth l a.0, indent_lines-Lacks depth ls a.1)

split-join_lines :
    (p : ℕ) (ls : List Bytes) → ls ≢ [] → All (Lacks p) ls → split p (join (p ∷ []) ls) ≡ ls
split-join_lines p [] ne a = absurd (ne refl)
split-join_lines p (l ∷ ls) ne a = split-join p l ls a.0 a.1

onto_first_nonempty :
    (depth c : ℕ) (ls : List Bytes) → map (indent_line depth) (onto_first c ls) ≢ []
onto_first_nonempty depth c [] e = absurd (omega (arith, ap length e))
onto_first_nonempty depth c (l ∷ ls) e = absurd (omega (arith, ap length e))

split_nonempty : (p : ℕ) (depth : ℕ) (s : Bytes) → map (indent_line depth) (split p s) ≢ []
unfolding split
split_nonempty p depth [] = λ e. absurd (omega (arith, ap length e))
split_nonempty p depth (c ∷ s) = elim (Bool-cases (c == p)) [
  | inl h ↦ rw h (λ e. absurd (omega (arith, ap length e)))
  | inr h ↦ rw h (onto_first_nonempty depth c (split p s))
]

-- With line feeds as separators, an indented text has as many lines as the text, each of white space
-- alone now empty, and each other one with so many spaces in front.
pub split-indent :
    (s : Bytes) (depth : ℕ)
    → split b'\n' (indent (codes "\n") s depth) ≡ map (indent_line depth) (split b'\n' s)
unfolding indent
split-indent s depth =
    split-join_lines b'\n' (map (indent_line depth) (split b'\n' s)) (split_nonempty b'\n' depth s)
      (indent_lines-Lacks depth (split b'\n' s) (split-Lacks b'\n' s))
