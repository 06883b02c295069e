-- ===== src/Tests/Keys.antt =====
-- The theorems on src/types/array/array_key.rs and src/types/string/mod.rs at concrete inputs.
use ext_php_rs.Prelude.{false, codes, ◌≡◌, refl}
use ext_php_rs.Error.{ok}
use ext_php_rs.ZendStr.{ZendStr}
use ext_php_rs.ArrayKey.{of_str, to_text}
use ext_php_rs.ArrayKey.Numeric.{to_text-of_str}

to_text-of_str_example : to_text (of_str (codes "-42")) ≡ ok (codes "-42")
to_text-of_str_example = to_text-of_str (codes "-42") refl

abbrev seven : ZendStr
seven = record { bytes = codes "7"; interned = false; known_valid_utf8 = false }
