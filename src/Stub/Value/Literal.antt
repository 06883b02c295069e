-- ===== src/Stub/Value/Literal.antt =====
-- What PHP reads in the literals of src/constant.rs and src/convert.rs.
use ext_php_rs.Prelude.{
  ℕ, ◌&&◌, ◌||◌, Option, none, some, [], ◌∷◌, ◌++◌, Bytes, ◌==◌, ◌≡◌, ◌≢◌, refl, sym, ap, ◌∙◌,
  arith, All, if◌then◌else◌, ne→==false, ◌⊎◌, inl, inr,
}
use ext_php_rs.Stub.Value.{replace_char, escape_key, escape_value, text_stub, key_stub}

abbrev pub cons : ℕ → Option Bytes → Option Bytes
cons c none = none
cons c (some s) = some (c ∷ s)

-- The text behind the first quote of a literal in single quotes, by PHP's manual: `\\` and `\'` are one
-- byte each, every other byte is itself, and a quote ends the literal, which nothing follows here.
unfoldable pub read_body : Bytes → Option Bytes
read_body [] = none
read_body (c ∷ []) = if c == 39 then some [] else none
read_body (c ∷ d ∷ s) =
    let behind = read_body s in
    let rest = read_body (d ∷ s) in
    if c == 39
    then none
    else if (c == 92) && (d == 92 || d == 39)
    then cons d behind
    else cons c rest

unfoldable pub read_literal : Bytes → Option Bytes
unfolding read_body
read_literal [] = none
read_literal (c ∷ s) = let rest = read_body s in if c == 39 then rest else none

read_plain :
    (c : ℕ) (s : Bytes)
    → c ≢ 39
    → c ≢ 92
    → read_body (c ∷ s ++ 39 ∷ []) ≡ cons c (read_body (s ++ 39 ∷ []))
unfolding read_body
read_plain c [] p q = rw (ne→==false c 39 p, ne→==false c 92 q) refl
read_plain c (d ∷ s) p q = rw (ne→==false c 39 p, ne→==false c 92 q) refl

quote_cases : (c : ℕ) → (c ≡ 92) ⊎ (c ≡ 39) ⊎ ((c ≢ 92) × (c ≢ 39))
quote_cases c = ground arith

escape_key-other : (c : ℕ) (s : Bytes) → c ≢ 92 → c ≢ 39 → escape_key (c ∷ s) ≡ c ∷ escape_key s
unfolding escape_key replace_char
escape_key-other c s p q = rw (ne→==false c 92 p, ne→==false c 39 q) refl

read_key : (s : Bytes) → read_body (escape_key s ++ 39 ∷ []) ≡ some s
unfolding read_body escape_key replace_char
read_key [] = refl
read_key (c ∷ s) = elim (quote_cases c) [
  | inl e ↦ rw e (ap (cons 92) (read_key s))
  | inr (inl e) ↦ rw e (ap (cons 39) (read_key s))
  | inr (inr (p, q)) ↦
      ap (λ t. read_body (t ++ 39 ∷ [])) (escape_key-other c s p q)
      ∙ read_plain c (escape_key s) q p
      ∙ ap (cons c) (read_key s)
]

-- PHP reads the key of an array in a stub back as the key, whatever bytes it has.
pub read_literal-key_stub : (s : Bytes) → read_literal (key_stub s) ≡ some s
unfolding read_literal key_stub
read_literal-key_stub s = read_key s

-- Neither a line feed, nor a carriage return, nor a tab.
abbrev pub IsPlain : ℕ → Type 0
IsPlain c = (c ≢ 10) × (c ≢ 13) × (c ≢ 9)

replace_char-absent : (p : ℕ) (t s : Bytes) → All (λ c. c ≢ p) s → replace_char p t s ≡ s
unfolding replace_char
replace_char-absent p t [] h = refl
replace_char-absent p t (c ∷ s) h =
    rw (ne→==false c p h.0) (ap (λ u. c ∷ u) (replace_char-absent p t s h.1))

escape_key-All :
    (p : ℕ) (s : Bytes) → p ≢ 92 → p ≢ 39 → All (λ c. c ≢ p) s → All (λ c. c ≢ p) (escape_key s)
unfolding escape_key replace_char
escape_key-All p [] a b h = tt
escape_key-All p (c ∷ s) a b h =
    let ih = escape_key-All p s a b h.1 in
    elim (quote_cases c) [
      | inl e ↦ rw e (λ q. a (sym q), (λ q. a (sym q), ih))
      | inr (inl e) ↦ rw e (λ q. a (sym q), (λ q. b (sym q), ih))
      | inr (inr (u, v)) ↦ rw (escape_key-other c s u v) (h.0, ih)
    ]

plain_parts :
    (s : Bytes) → All IsPlain s → All (λ c. c ≢ 10) s × All (λ c. c ≢ 13) s × All (λ c. c ≢ 9) s
plain_parts [] h = (tt, tt, tt)
plain_parts (c ∷ s) h = let ih = plain_parts s h.1 in ((h.0.0, ih.0), (h.0.1, ih.1), (h.0.2, ih.2))

escape_value-plain : (s : Bytes) → All IsPlain s → escape_value s ≡ escape_key s
unfolding escape_value
escape_value-plain s h =
    let (a, b, c) = plain_parts s h in
    rw
      (
        replace_char-absent 10 (92 ∷ 110 ∷ []) (escape_key s)
            (escape_key-All 10 s (omega arith) (omega arith) a),
        replace_char-absent 13 (92 ∷ 114 ∷ []) (escape_key s)
            (escape_key-All 13 s (omega arith) (omega arith) b),
        replace_char-absent 9 (92 ∷ 116 ∷ []) (escape_key s)
            (escape_key-All 9 s (omega arith) (omega arith) c),
      )
      refl

-- PHP reads the stub of a text back as the text, unless it has a line feed, a carriage return or a tab.
pub read_literal-text_stub : (s : Bytes) → All IsPlain s → read_literal (text_stub s) ≡ some s
unfolding read_literal text_stub
read_literal-text_stub s h =
    ap (λ t. read_body (t ++ 39 ∷ [])) (escape_value-plain s h) ∙ read_key s
