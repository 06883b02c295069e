-- ===== src/Zval/FloatText.antt =====
-- `php_float_to_string` of src/types/zval.rs: how Rust's print of a float in scientific notation
-- becomes PHP's. The two prints of the float are arguments.
pub mod Mantissa
use ext_php_rs.Prelude.{
  ℕ, zero, suc, ◌-◌, ◌^◌, Bool, true, false, ◌&&◌, ◌||◌, not, Option, none, some, [], ◌∷◌, ◌++◌,
  Bytes, codes, ◌==◌, leb, ltb, if◌then◌else◌, take, drop,
}
use ext_php_rs.Prelude.Int.{ℤ, pos, negsuc}
use ext_php_rs.Text.Decimal.{from_str, to_string}

-- `find('E')`
unfoldable pub find_e : Bytes → Option ℕ
find_e [] = none
find_e (c ∷ s) = elim (c == b'E') [
  | true ↦ some 0
  | false ↦ elim (find_e s) [ none ↦ none | some i ↦ some (suc i) ]
]

abbrev is_nil : Bytes → Bool
is_nil [] = true
is_nil (c ∷ s) = false

-- `trim_end_matches(c)`
unfoldable pub trim_end : ℕ → Bytes → Bytes
trim_end c [] = []
trim_end c (d ∷ s) = let rest = trim_end c s in if is_nil rest && d == c then [] else d ∷ rest

-- `contains(c)`
unfoldable pub contains : ℕ → Bytes → Bool
contains c [] = false
contains c (d ∷ s) = d == c || contains c s

-- `ends_with(c)`
unfoldable pub ends_with : ℕ → Bytes → Bool
ends_with c [] = false
ends_with c (d ∷ s) = let rest = ends_with c s in if is_nil s then d == c else rest

-- `parse().unwrap_or(0)` at `i32`
abbrev or_zero : Option ℤ → ℤ
or_zero (some (pos n)) = if ltb n (2 ^ 31) then pos n else pos 0
or_zero (some (negsuc n)) = if ltb n (2 ^ 31) then negsuc n else pos 0
or_zero none = pos 0

-- `exp >= 14 || exp <= -5`
unfoldable pub is_scientific : ℤ → Bool
is_scientific (pos n) = leb 14 n
is_scientific (negsuc n) = leb 4 n

unfoldable pub mantissa : Bytes → Bytes
unfolding trim_end contains ends_with
mantissa part =
    let m = trim_end b'.' (trim_end b'0' part) in
    if contains b'.' m && ends_with b'.' m
    then m ++ codes "0"
    else if not (contains b'.' m)
    then m ++ codes ".0"
    else m

-- `{mantissa}E+{exp}` and `{mantissa}E{exp}`
unfoldable pub scientific : Bytes → ℤ → Bytes
unfolding mantissa to_string
scientific part (pos n) = mantissa part ++ codes "E+" ++ to_string (pos n)
scientific part (negsuc n) = mantissa part ++ codes "E" ++ to_string (negsuc n)

unfoldable pub decimal : Bytes → Bytes
unfolding trim_end contains
decimal s = if contains b'.' s then trim_end b'.' (trim_end b'0' s) else s

-- `formatted` is `format!("{d:.14E}")`, and `printed` is `d.to_string()`.
unfoldable pub php_float_to_string : Bytes → Bytes → Bytes
unfolding find_e scientific decimal is_scientific from_str
php_float_to_string formatted printed = elim (find_e formatted) [
  | some e_pos ↦
      let exp = or_zero (from_str (drop (suc e_pos) formatted)) in
      if is_scientific exp then scientific (take e_pos formatted) exp else decimal printed
  | none ↦ formatted
]
