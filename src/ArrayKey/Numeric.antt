-- ===== src/ArrayKey/Numeric.antt =====
-- Which texts become numeric keys, and that no text is lost.
use ext_php_rs.Prelude.{
  ℕ, zero, suc, ◌≡◌, ◌≢◌, ◌⊎◌, inl, inr, refl, arith, Bool, true, false, some, ◌∷◌, [], Bytes, sym,
  ◌∙◌, Option-cases, ltb, ◌<◌, ◌^◌, ◌&&◌, ◌||◌, ◌==◌, ◌↔◌,
}
use ext_php_rs.Prelude.Int.{ℤ, pos, negsuc, neg, IsI64}
use ext_php_rs.Error.{Error, ok, ok_or}
use ext_php_rs.Text.Decimal.{from_str, to_string, format, to_pos, to_neg, digits?, plus, minus}
use ext_php_rs.Text.Decimal.RoundTrip.{
  from_str-to_string, format-StartsWithDigit, format_head, format-digits?, digits?-format,
  digits?-zero,
}
use ext_php_rs.ZendStr.{ZendStr}
use ext_php_rs.ZendStr.Utf8.{IsSound, as_str_lem}
use ext_php_rs.Text.Utf8.{is_utf8}
use ext_php_rs.ArrayKey.{
  ArrayKey, of_string, of_str, of_u64, of_zend_str, to_text, to_i64, has_no_leading_zero, is_long,
}

format-has_no_leading_zero : (n : ℕ) → has_no_leading_zero (format n) ≡ true
format-has_no_leading_zero zero = unfold format in refl
format-has_no_leading_zero (suc n) =
    let d = format-StartsWithDigit (suc n) in
    rw d.shape (ground (arith, format_head (suc n) (omega arith) d.shape))

to_string-has_no_leading_zero : (z : ℤ) → has_no_leading_zero (to_string z) ≡ true
unfolding to_string
to_string-has_no_leading_zero (pos n) = format-has_no_leading_zero n
to_string-has_no_leading_zero (negsuc n) = refl

-- The decimal print of every `i64` becomes the numeric key of that `i64`.
pub of_str-to_string : (z : ℤ) → IsI64 z → of_str (to_string z) ≡ ArrayKey.long z
unfolding of_str
of_str-to_string z h = rw (from_str-to_string z h, to_string-has_no_leading_zero z, of_str)

-- Every text is read as the number that it spells, or refused, whether or not it became a numeric key.
pub to_i64-of_str : (s : Bytes) → to_i64 (of_str s) ≡ ok_or (from_str s) Error.invalid_property
unfolding to_i64 of_str
to_i64-of_str s = ground arith

-- The sign that a numeric text may have and its print has not: `+`, or `-` in front of a zero.
abbrev pub has_odd_sign : Bytes → Bool
has_odd_sign [] = false
has_odd_sign (c ∷ []) = c == plus
has_odd_sign (c ∷ d ∷ s) = c == plus || (c == minus && d == b'0')

no_zero_in_front : (c : ℕ) (s : Bytes) → has_no_leading_zero (c ∷ s) ≡ true → (c ≢ b'0') ⊎ (s ≡ [])
no_zero_in_front c [] h = inr refl
no_zero_in_front c (d ∷ s) h = inl (ground arith)

to_string-to_pos :
    (c : ℕ) (s : Bytes) (z : ℤ)
    → has_no_leading_zero (c ∷ s) ≡ true
    → to_pos (digits? (c ∷ s)) ≡ some z
    → to_string z ≡ c ∷ s
unfolding to_pos to_string
to_string-to_pos c s z h e = elim (Option-cases (digits? (c ∷ s))) [
  | inl stuck ↦ ground arith
  | inr (n, read) ↦ ground (arith, format-digits? c s {n = n} (no_zero_in_front c s h) read)
]

format_zero : format 0 ≡ b'0' ∷ []
unfolding format
format_zero = refl

to_string-to_neg :
    (c : ℕ) (s : Bytes) (z : ℤ)
    → c ≢ b'0'
    → to_neg (digits? (c ∷ s)) ≡ some z
    → to_string z ≡ minus ∷ c ∷ s
unfolding to_neg to_string
to_string-to_neg c s z h e = elim (Option-cases (digits? (c ∷ s))) [
  | inl stuck ↦ ground arith
  | inr (n, read) ↦ by_size n (format-digits? c s {n = n} (inl h) read) read
]
  where
    by_size : (n : ℕ) → format n ≡ c ∷ s → digits? (c ∷ s) ≡ some n → to_string z ≡ minus ∷ c ∷ s
    by_size zero print read = ground (arith, format_zero)
    by_size (suc n) print read = ground arith

-- A text with no odd sign that spells a number and has no leading zero is the print of that number.
to_string-from_str :
    (s : Bytes) (z : ℤ)
    → has_odd_sign s ≡ false
    → has_no_leading_zero s ≡ true
    → from_str s ≡ some z
    → to_string z ≡ s
unfolding from_str
to_string-from_str [] z odd lead e = cc
to_string-from_str (c ∷ []) z odd lead e = ground (arith, to_string-to_pos c [] z)
to_string-from_str (c ∷ d ∷ s) z odd lead e =
    ground (arith, to_string-to_pos c (d ∷ s) z, to_string-to_neg d s z)

-- A text that does not start with `+` or `-0`, turned into a key and back, is the text: numeric keys
-- lose nothing.
pub to_text-of_str : (s : Bytes) → has_odd_sign s ≡ false → to_text (of_str s) ≡ ok s
unfolding to_text of_str
to_text-of_str s odd = elim (Option-cases (from_str s)) [
  | inl unread ↦ rw (unread, of_str, to_text)
  | inr (z, read) ↦ ground (arith, to_string-from_str s z)
]

-- Two texts that do not start with `+` or `-0` and become the same key are the same text.
pub of_str_injective :
    (s t : Bytes) → has_odd_sign s ≡ false → has_odd_sign t ≡ false → of_str s ≡ of_str t → s ≡ t
of_str_injective s t odd_s odd_t e = cc (to_text-of_str s odd_s, to_text-of_str t odd_t)

format-from_str : (n : ℕ) → n < 2 ^ 63 → of_str (format n) ≡ ArrayKey.long (pos n)
format-from_str n h = unfold to_string in of_str-to_string (pos n) h

of_str-plus : (n : ℕ) → n < 2 ^ 63 → of_str (plus ∷ format n) ≡ ArrayKey.long (pos n)
unfolding of_str from_str to_pos
of_str-plus n h = ground (arith, digits?-format n)

of_str-minus_zero : (n : ℕ) → n < 2 ^ 63 → of_str (minus ∷ b'0' ∷ format n) ≡ ArrayKey.long (neg n)
unfolding of_str from_str to_neg
of_str-minus_zero n h =
    ground (arith, digits?-zero (format n) (format-StartsWithDigit n), digits?-format n)

-- Below 2 ^ 63, the print of `n` with a plus sign, and with a minus sign and a zero, become the
-- numeric keys of `n` and of `-n`, which are also the keys of the plain prints: the leading zero is
-- looked for in front of the sign only.
pub of_str-odd_sign :
    (n : ℕ)
    → n < 2 ^ 63
    → (of_str (plus ∷ format n) ≡ of_str (format n))
      × (of_str (minus ∷ b'0' ∷ format n) ≡ of_str (to_string (neg n)))
of_str-odd_sign n h = (
  of_str-plus n h ∙ sym (format-from_str n h),
  of_str-minus_zero n h ∙ sym (of_str-to_string (neg n) (neg-IsI64 n h)),
)
  where
    neg-IsI64 : (n : ℕ) → n < 2 ^ 63 → IsI64 (neg n)
    neg-IsI64 zero h = omega arith
    neg-IsI64 (suc n) h = omega arith

-- An owned `String` becomes a numeric key for exactly the texts for which a `&str` does, and of the
-- same number.
pub of_string-of_str :
    (s : Bytes) (z : ℤ) → (of_string s ≡ ArrayKey.long z) ↔ (of_str s ≡ ArrayKey.long z)
unfolding of_string of_str
of_string-of_str s z = (λ e. ground arith, λ e. ground arith)

-- A `ZendStr` whose flag is sound becomes the numeric key of a number exactly where its bytes are
-- UTF-8 and become the key of that number as a `&str`.
pub of_zend_str-of_str :
    (zs : ZendStr) (z : ℤ)
    → IsSound zs
    → (of_zend_str zs ≡ ArrayKey.long z)
      ↔ ((is_utf8 zs.bytes ≡ true) × (of_str zs.bytes ≡ ArrayKey.long z))
unfolding of_zend_str of_str
of_zend_str-of_str zs z h =
    (λ e. ground (arith, as_str_lem zs h), λ e. ground (arith, as_str_lem zs h))

-- Every `u64` becomes a key whose text is its decimal print; the key is numeric below 2 ^ 63.
pub to_text-of_u64 :
    (n : ℕ) → (to_text (of_u64 n) ≡ ok (format n)) × (is_long (of_u64 n) ≡ ltb n (2 ^ 63))
unfolding to_text of_u64 to_string is_long
to_text-of_u64 n = ground arith
