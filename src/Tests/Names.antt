-- ===== src/Tests/Names.antt =====
-- The theorems on crates/macros/src/parsing.rs at concrete inputs; lower case is that of ASCII.
use ext_php_rs.Prelude.{ℕ, ◌+◌, Bytes, codes, map, leb, ◌&&◌, ◌≡◌, ◌↔◌, if◌then◌else◌}
use ext_php_rs.PhpName.{function, fine, validate_php_name, Case}
use ext_php_rs.PhpName.Validate.{IsForbidden, validate_php_name-fine_iff}

abbrev lower : ℕ → ℕ
lower c = if leb b'A' c && leb c b'Z' then c + 32 else c

abbrev to_lowercase : Bytes → Bytes
to_lowercase s = map lower s

validate_php_name-fine_iff_example :
    (validate_php_name to_lowercase (codes "readonly") function ≡ fine)
    ↔ (¬ IsForbidden to_lowercase (codes "readonly") function)
validate_php_name-fine_iff_example =
    validate_php_name-fine_iff to_lowercase (codes "readonly") function

-- A conversion that only lowers.
abbrev lower_case : Bytes → Case → Bytes
lower_case s case = to_lowercase s
