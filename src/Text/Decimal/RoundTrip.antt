-- ===== src/Text/Decimal/RoundTrip.antt =====
-- Every `i64` is read back from its decimal print, and a number without a leading zero is printed
-- as it was read.
use ext_php_rs.Prelude.{
  ℕ, zero, suc, ◌+◌, ◌-◌, ◌*◌, ◌/◌, ◌%◌, ◌<◌, ◌≤◌, ◌≡◌, ◌≢◌, ◌⊎◌, refl, some, [], ◌∷◌, ◌++◌, ◌∙◌,
  append_assoc, append-nil, Bytes, arith, Bool-cases, inl, inr, ltb,
}
use ext_php_rs.Prelude.Int.{ℤ, pos, negsuc, IsI64}
use ext_php_rs.Text.Decimal.{from_str, to_string, magnitude, emit, format, digits?, to_pos}

-- What a print starts with.
pub record StartsWithDigit (s : Bytes) : Type 0 where
  pub first : ℕ
  pub others : Bytes
  pub shape : s ≡ first ∷ others
  pub ge_zero : b'0' ≤ first
  pub le_nine : first ≤ b'9'

magnitude-emit : (f n : ℕ) (out : Bytes) → n < f → magnitude 0 (emit f n out) ≡ magnitude n out
unfolding magnitude emit
magnitude-emit zero n out h = elim h [ ]
magnitude-emit (suc f) n out h = ground (arith, magnitude-emit f (n / 10) ((b'0' + n % 10) ∷ out))

emit-StartsWithDigit : (f n : ℕ) (out : Bytes) → n < f → StartsWithDigit (emit f n out)
unfolding emit
emit-StartsWithDigit zero n out h = elim h [ ]
emit-StartsWithDigit (suc f) n out h = elim (Bool-cases (ltb n 10)) [
  | inl small ↦ record {
    first = b'0' + n % 10;
    others = out;
    shape = rw small;
    ge_zero = omega arith;
    le_nine = omega arith;
  }
  | inr large ↦ rw large (emit-StartsWithDigit f (n / 10) ((b'0' + n % 10) ∷ out) (ground arith))
]

-- Behind one more digit, `digits?` is `magnitude`.
digits?-starts : (s : Bytes) → StartsWithDigit s → digits? s ≡ magnitude 0 s
unfolding digits?
digits?-starts [] d = cc d.shape
digits?-starts (c ∷ s) d = refl

-- A zero in front changes nothing.
pub digits?-zero : (s : Bytes) → StartsWithDigit s → digits? (b'0' ∷ s) ≡ digits? s
unfolding digits? magnitude
digits?-zero [] d = cc d.shape
digits?-zero (c ∷ s) d = refl

pub format-StartsWithDigit : (n : ℕ) → StartsWithDigit (format n)
unfolding format
format-StartsWithDigit n = emit-StartsWithDigit (suc n) n [] (omega arith)

pub digits?-format : (n : ℕ) → digits? (format n) ≡ some n
digits?-format n =
    digits?-starts (format n) (format-StartsWithDigit n)
    ∙ unfold format magnitude in magnitude-emit (suc n) n [] (omega arith)

-- A text that starts with a digit has no sign.
from_str-starts : (s : Bytes) → StartsWithDigit s → from_str s ≡ to_pos (digits? s)
unfolding from_str
from_str-starts [] d = refl
from_str-starts (c ∷ s) d = ground (arith, d.shape, d.ge_zero, d.le_nine)

-- Every `i64` is read back from its decimal print.
pub from_str-to_string : (z : ℤ) → IsI64 z → from_str (to_string z) ≡ some z
unfolding to_string to_pos
from_str-to_string (pos n) h =
    from_str-starts (format n) (format-StartsWithDigit n) ∙ rw digits?-format (ground arith)
from_str-to_string (negsuc n) h = unfold from_str in rw digits?-format (ground arith)

-- Enough fuel is as good as more.
emit_fuel : (f g n : ℕ) (out : Bytes) → n < f → n < g → emit f n out ≡ emit g n out
unfolding emit
emit_fuel zero g n out h k = elim h [ ]
emit_fuel (suc f) zero n out h k = elim k [ ]
emit_fuel (suc f) (suc g) n out h k = ground (arith, emit_fuel f g (n / 10) ((b'0' + n % 10) ∷ out))

emit-append : (f n : ℕ) (out : Bytes) → emit f n out ≡ emit f n [] ++ out
unfolding emit
emit-append zero n out = refl
emit-append (suc f) n out = ground (
  arith,
  emit-append f (n / 10) ((b'0' + n % 10) ∷ out),
  emit-append f (n / 10) ((b'0' + n % 10) ∷ []),
  append_assoc (emit f (n / 10) []) ((b'0' + n % 10) ∷ []) out,
)

-- One more digit at the end.
format_snoc : (n d : ℕ) → 0 < n → d < 10 → format (n * 10 + d) ≡ format n ++ (b'0' + d) ∷ []
unfolding format emit
format_snoc n d h k = ground (
  arith,
  emit_fuel (n * 10 + d) (suc n) n ((b'0' + d) ∷ []),
  emit-append (suc n) n ((b'0' + d) ∷ []),
)

-- What was read behind a positive number is printed behind it.
magnitude_print :
    (s : Bytes) (m : ℕ) {n : ℕ} → 0 < m → magnitude m s ≡ some n → format n ≡ format m ++ s
unfolding magnitude
magnitude_print [] m h e = ground (arith, append-nil (format m))
magnitude_print (c ∷ s) m {n} h e = ground (
  arith,
  magnitude_print s (m * 10 + (c - b'0')) {n = n},
  format_snoc m (c - b'0'),
  append_assoc (format m) (c ∷ []) s,
)

format_digit : (d : ℕ) → d < 10 → format d ≡ (b'0' + d) ∷ []
unfolding format emit
format_digit d h = ground arith

-- A single digit, or digits that do not start with a zero, are printed as they were read.
pub format-digits? :
    (c : ℕ) (s : Bytes) {n : ℕ}
    → (c ≢ b'0') ⊎ (s ≡ [])
    → digits? (c ∷ s) ≡ some n
    → format n ≡ c ∷ s
unfolding digits? magnitude
format-digits? c [] {n} h e = ground (arith, format_digit (c - b'0'))
format-digits? c (d ∷ s) {n} h e =
    ground (arith, format_digit (c - b'0'), magnitude_print (d ∷ s) (c - b'0') {n = n})

emit_head :
    (f n : ℕ) (out : Bytes) {c : ℕ} {s : Bytes} → n < f → 0 < n → emit f n out ≡ c ∷ s → c ≢ b'0'
unfolding emit
emit_head zero n out h p e = elim h [ ]
emit_head (suc f) n out {c} {s} h p e =
    ground (arith, emit_head f (n / 10) ((b'0' + n % 10) ∷ out) {c = c} {s = s})

-- The print of a positive number does not start with a zero.
pub format_head : (n : ℕ) {c : ℕ} {s : Bytes} → 0 < n → format n ≡ c ∷ s → c ≢ b'0'
unfolding format
format_head n p e = emit_head (suc n) n [] (omega arith) p e
