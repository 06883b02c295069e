-- ===== src/Text/Decimal.antt =====
-- `i64::from_str` and `to_string` of Rust's standard library, and that they are inverse.
pub mod RoundTrip
use ext_php_rs.Prelude.{
  ℕ, zero, suc, ◌+◌, ◌-◌, ◌*◌, ◌/◌, ◌%◌, Bool, ◌&&◌, List, [], ◌∷◌, Option, none, some, Bytes, leb,
  ltb, ◌==◌, if◌then◌else◌,
}
use ext_php_rs.Prelude.Int.{ℤ, pos, negsuc, neg, i64_limit}

abbrev pub minus : ℕ
minus = b'-'

abbrev pub plus : ℕ
plus = b'+'

-- `u8::is_ascii_digit`
abbrev pub is_digit : ℕ → Bool
is_digit c = leb b'0' c && leb c b'9'

-- The number that a sequence of digits spells behind the digits of `n`.
unfoldable pub magnitude : ℕ → Bytes → Option ℕ
magnitude n [] = some n
magnitude n (c ∷ s) =
    let rest = magnitude (n * 10 + (c - b'0')) s in if is_digit c then rest else none

-- At least one digit, and nothing but digits.
unfoldable pub digits? : Bytes → Option ℕ
unfolding magnitude
digits? [] = none
digits? (c ∷ s) = magnitude 0 (c ∷ s)

-- What is out of range is an error.
unfoldable pub to_pos : Option ℕ → Option ℤ
to_pos none = none
to_pos (some n) = if ltb n i64_limit then some (pos n) else none

unfoldable pub to_neg : Option ℕ → Option ℤ
to_neg none = none
to_neg (some n) = if leb n i64_limit then some (neg n) else none

-- One sign may stand in front.
unfoldable pub from_str : Bytes → Option ℤ
unfolding digits? to_pos to_neg
from_str [] = none
from_str (c ∷ s) =
    if c == minus
    then to_neg (digits? s)
    else if c == plus
    then to_pos (digits? s)
    else to_pos (digits? (c ∷ s))

-- The digits of `n` in front of `out`. The fuel is at least the number of digits.
unfoldable pub emit : ℕ → ℕ → Bytes → Bytes
emit zero n out = out
emit (suc f) n out =
    let last = (b'0' + n % 10) ∷ out in
    let rest = emit f (n / 10) last in if ltb n 10 then last else rest

unfoldable pub format : ℕ → Bytes
unfolding emit
format n = emit (suc n) n []

unfoldable pub to_string : ℤ → Bytes
unfolding format
to_string (pos n) = format n
to_string (negsuc n) = minus ∷ format (suc n)
