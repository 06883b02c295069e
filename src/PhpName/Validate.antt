-- ===== src/PhpName/Validate.antt =====
-- Which names `validate_php_name` forbids, and how the contexts compare.
use ext_php_rs.Prelude.{
  Bool, true, false, not, ◌&&◌, ◌||◌, [], ◌∷◌, List, Bytes, codes, text_eq_iff, ◌≡◌, ◌≢◌, ◌↔◌, ◌⊎◌,
  inl, inr, refl, sym, ◌∙◌, arith, if◌then◌else◌,
}
use ext_php_rs.PhpName.Keywords.{
  php_reserved_keywords, php_method_forbidden_keywords, php_function_allowed_keywords,
  php_type_keywords,
}
use ext_php_rs.PhpName.{
  any_keyword, is_forbidden, is_php_type_keyword, is_php_reserved_keyword,
  is_php_method_forbidden_keyword, is_php_function_allowed_keyword, PhpNameContext, class,
  interface, enum, enum_case, function, method, constant, property, fine, cannot_use,
  validate_php_name, description,
}

-- A keyword of a list has the same lower case as a name.
abbrev pub Among : (Bytes → Bytes) → Bytes → List Bytes → Type 0
Among f name [] = ⊥
Among f name (kw ∷ kws) = (f kw ≡ f name) ⊎ Among f name kws

any_keyword_iff :
    (f : Bytes → Bytes) (name : Bytes) (kws : List Bytes)
    → (any_keyword f kws (f name) ≡ true) ↔ Among f name kws
any_keyword_iff f name [] = ground arith
any_keyword_iff f name (kw ∷ kws) =
    ground (arith, any_keyword_iff f name kws, text_eq_iff (f kw) (f name))

-- The names that PHP does not take, context by context.
abbrev pub IsForbidden : (Bytes → Bytes) → Bytes → PhpNameContext → Type 0
IsForbidden f name class = Among f name php_reserved_keywords ⊎ Among f name php_type_keywords
IsForbidden f name interface = Among f name php_reserved_keywords ⊎ Among f name php_type_keywords
IsForbidden f name enum = Among f name php_reserved_keywords ⊎ Among f name php_type_keywords
IsForbidden f name enum_case = Among f name php_reserved_keywords ⊎ Among f name php_type_keywords
IsForbidden f name function =
    Among f name php_reserved_keywords × ¬ Among f name php_function_allowed_keywords
IsForbidden f name method = Among f name php_method_forbidden_keywords
IsForbidden f name constant = Among f name php_method_forbidden_keywords
IsForbidden f name property = Among f name php_method_forbidden_keywords

or_iff :
    {P Q : Type 0} (a b : Bool) → ((a ≡ true) ↔ P) → ((b ≡ true) ↔ Q) → ((a || b) ≡ true) ↔ (P ⊎ Q)
or_iff true b h k = (λ e. inl (h.0 refl), λ q. refl)
or_iff false b h k =
    (λ e. inr (k.0 e), λ q. elim q [ inl p ↦ absurd (let c = h.1 p in cc) | inr r ↦ k.1 r ])

and_not_iff :
    {P Q : Type 0} (a b : Bool)
    → ((a ≡ true) ↔ P)
    → ((b ≡ true) ↔ Q)
    → ((a && not b) ≡ true) ↔ (P × ¬ Q)
and_not_iff false b h k = (λ e. absurd (ground arith), λ q. h.1 q.0)
and_not_iff true true h k = (λ e. absurd (ground arith), λ q. absurd (q.1 (k.0 refl)))
and_not_iff true false h k =
    (λ e. (h.0 refl, λ q. absurd (let c = k.1 q in ground arith)), λ q. refl)

reserved_or_type_iff :
    (f : Bytes → Bytes) (name : Bytes)
    → ((is_php_reserved_keyword f name || is_php_type_keyword f name) ≡ true)
      ↔ (Among f name php_reserved_keywords ⊎ Among f name php_type_keywords)
unfolding is_php_reserved_keyword is_php_type_keyword
reserved_or_type_iff f name =
    or_iff (is_php_reserved_keyword f name) (is_php_type_keyword f name)
      (any_keyword_iff f name php_reserved_keywords) (any_keyword_iff f name php_type_keywords)

abbrev tests : (Bytes → Bytes) → Bytes → PhpNameContext → Bool
tests f name context =
    is_forbidden context (is_php_reserved_keyword f name) (is_php_type_keyword f name)
      (is_php_method_forbidden_keyword f name) (is_php_function_allowed_keyword f name)

tests_iff :
    (f : Bytes → Bytes) (name : Bytes) (context : PhpNameContext)
    → (tests f name context ≡ true) ↔ IsForbidden f name context
unfolding is_php_reserved_keyword is_php_method_forbidden_keyword is_php_function_allowed_keyword
tests_iff f name class = reserved_or_type_iff f name
tests_iff f name interface = reserved_or_type_iff f name
tests_iff f name enum = reserved_or_type_iff f name
tests_iff f name enum_case = reserved_or_type_iff f name
tests_iff f name function =
    and_not_iff (is_php_reserved_keyword f name) (is_php_function_allowed_keyword f name)
      (any_keyword_iff f name php_reserved_keywords)
      (any_keyword_iff f name php_function_allowed_keywords)
tests_iff f name method = any_keyword_iff f name php_method_forbidden_keywords
tests_iff f name constant = any_keyword_iff f name php_method_forbidden_keywords
tests_iff f name property = any_keyword_iff f name php_method_forbidden_keywords

verdict_iff :
    {P : Type 0} (b : Bool) (s t : Bytes)
    → ((b ≡ true) ↔ P)
    → ((if b then cannot_use s t else fine) ≡ fine) ↔ (¬ P)
verdict_iff true s t h = (λ e. absurd (cc), λ n. absurd (n (h.0 refl)))
verdict_iff false s t h = (λ e p. absurd (let c = h.1 p in cc), λ n. refl)

-- A name passes exactly when PHP does not forbid it in the context: no reserved word and no type
-- keyword for a class, interface, enum or enum case, no reserved word but `readonly` for a function,
-- anything but `__halt_compiler` for a method, constant or property, up to the lower case.
pub validate_php_name-fine_iff :
    (to_lowercase : Bytes → Bytes) (name : Bytes) (context : PhpNameContext)
    → (validate_php_name to_lowercase name context ≡ fine)
      ↔ (¬ IsForbidden to_lowercase name context)
unfolding validate_php_name
validate_php_name-fine_iff f name context =
    verdict_iff (tests f name context) name (description context) (tests_iff f name context)

Among-same :
    (f : Bytes → Bytes) (s t : Bytes) (kws : List Bytes) → f s ≡ f t → Among f s kws → Among f t kws
Among-same f s t [] e p = elim p [ ]
Among-same f s t (kw ∷ kws) e (inl p) = inl (p ∙ e)
Among-same f s t (kw ∷ kws) e (inr p) = inr (Among-same f s t kws e p)

either-same :
    (f : Bytes → Bytes) (s t : Bytes) (kws kts : List Bytes)
    → f s ≡ f t
    → Among f s kws ⊎ Among f s kts
    → Among f t kws ⊎ Among f t kts
either-same f s t kws kts e (inl p) = inl (Among-same f s t kws e p)
either-same f s t kws kts e (inr p) = inr (Among-same f s t kts e p)

IsForbidden-same :
    (f : Bytes → Bytes) (s t : Bytes) (context : PhpNameContext)
    → f s ≡ f t
    → IsForbidden f s context
    → IsForbidden f t context
IsForbidden-same f s t class e = either-same f s t php_reserved_keywords php_type_keywords e
IsForbidden-same f s t interface e = either-same f s t php_reserved_keywords php_type_keywords e
IsForbidden-same f s t enum e = either-same f s t php_reserved_keywords php_type_keywords e
IsForbidden-same f s t enum_case e = either-same f s t php_reserved_keywords php_type_keywords e
IsForbidden-same f s t function e = λ p. (
  Among-same f s t php_reserved_keywords e p.0,
  λ q. p.1 (Among-same f t s php_function_allowed_keywords (sym e) q),
)
IsForbidden-same f s t method e = Among-same f s t php_method_forbidden_keywords e
IsForbidden-same f s t constant e = Among-same f s t php_method_forbidden_keywords e
IsForbidden-same f s t property e = Among-same f s t php_method_forbidden_keywords e

-- Two names with one lower case both pass or both fail, in every context.
pub validate_php_name-case_insensitive :
    (to_lowercase : Bytes → Bytes) (s t : Bytes) (context : PhpNameContext)
    → to_lowercase s ≡ to_lowercase t
    → (validate_php_name to_lowercase s context ≡ fine)
      ↔ (validate_php_name to_lowercase t context ≡ fine)
validate_php_name-case_insensitive f s t context e = (
  λ h. (validate_php_name-fine_iff f t context).1 (λ p.
      (validate_php_name-fine_iff f s context).0 h (IsForbidden-same f t s context (sym e) p)),
  λ h.
      (validate_php_name-fine_iff f s context).1
        (λ p. (validate_php_name-fine_iff f t context).0 h (IsForbidden-same f s t context e p)),
)

reserved-halt_compiler :
    (f : Bytes → Bytes) (name : Bytes)
    → Among f name php_method_forbidden_keywords
    → Among f name php_reserved_keywords
unfolding php_method_forbidden_keywords php_reserved_keywords
reserved-halt_compiler f name (inl p) = inl p
reserved-halt_compiler f name (inr p) = elim p [ ]

not_readonly :
    (f : Bytes → Bytes) (name : Bytes)
    → f (codes "readonly") ≢ f (codes "__halt_compiler")
    → Among f name php_method_forbidden_keywords
    → ¬ Among f name php_function_allowed_keywords
unfolding php_method_forbidden_keywords php_function_allowed_keywords
not_readonly f name ne (inl p) (inl q) = ne (q ∙ sym p)
not_readonly f name ne (inl p) (inr q) = elim q [ ]
not_readonly f name ne (inr p) q = elim p [ ]

-- A name that passes as a class passes as a function, and a name that passes as a function passes as
-- a method, where lower case keeps `readonly` and `__halt_compiler` apart.
pub validate_php_name-contexts :
    (to_lowercase : Bytes → Bytes) (name : Bytes)
    → to_lowercase (codes "readonly") ≢ to_lowercase (codes "__halt_compiler")
    → (validate_php_name to_lowercase name class ≡ fine
        → validate_php_name to_lowercase name function ≡ fine)
      × (validate_php_name to_lowercase name function ≡ fine
          → validate_php_name to_lowercase name method ≡ fine)
validate_php_name-contexts f name ne = (
  λ h.
      (validate_php_name-fine_iff f name function).1
        (λ p. (validate_php_name-fine_iff f name class).0 h (inl p.0)),
  λ h. (validate_php_name-fine_iff f name method).1 (λ p.
      (validate_php_name-fine_iff f name function).0 h
        (reserved-halt_compiler f name p, not_readonly f name ne p)),
)
