-- ===== src/Tests/Values.antt =====
-- The theorems on the literals of src/constant.rs and src/convert.rs at concrete inputs.
use ext_php_rs.Prelude.{none, some, [], ◌∷◌, codes, ◌≡◌, refl, arith}
use ext_php_rs.Stub.Value.{text_stub, key_stub, escape_value, escape_key, replace_char}
use ext_php_rs.Stub.Value.Literal.{
  read_literal, read_body, read_literal-key_stub, read_literal-text_stub,
}
use ext_php_rs.Registration.{string}
use ext_php_rs.Registration.Describe.{discriminant_text}

read_literal-key_stub_example : read_literal (key_stub (codes "it's")) ≡ some (codes "it's")
read_literal-key_stub_example = read_literal-key_stub (codes "it's")

read_literal-text_stub_example : read_literal (text_stub (codes "a'b")) ≡ some (codes "a'b")
read_literal-text_stub_example = read_literal-text_stub (codes "a'b") (
  (omega arith, omega arith, omega arith),
  ((omega arith, omega arith, omega arith), ((omega arith, omega arith, omega arith), tt)),
)

-- A line feed in a text becomes a backslash and an `n` in the literal.
line_feed_lost : read_literal (text_stub (10 ∷ [])) ≡ some (92 ∷ 110 ∷ [])
unfolding read_literal text_stub escape_value escape_key replace_char read_body
line_feed_lost = refl

-- A quote in the discriminant of an enum ends the literal.
enum_quote_lost : discriminant_text (some (string (codes "it's"))) ≡ some (codes "'it's'")
unfolding discriminant_text
enum_quote_lost = refl

enum_quote_unread : read_literal (codes "'it's'") ≡ none
unfolding read_literal read_body
enum_quote_unread = refl
