-- ===== src/Stub/Value.antt =====
-- The texts of values in stubs: `stub_value` of a text in src/constant.rs, which `zval_to_stub` in
-- src/convert.rs repeats for strings, and the keys of arrays there.
pub mod Literal
use ext_php_rs.Prelude.{ℕ, [], ◌∷◌, ◌++◌, Bytes, ◌==◌, if◌then◌else◌}

-- `str::replace` of one ASCII character by a text.
unfoldable pub replace_char : ℕ → Bytes → Bytes → Bytes
replace_char p t [] = []
replace_char p t (c ∷ s) = let rest = replace_char p t s in if c == p then t ++ rest else c ∷ rest

-- The escapes of a key: `\` and `'`.
unfoldable pub escape_key : Bytes → Bytes
unfolding replace_char
escape_key s = replace_char 39 (92 ∷ 39 ∷ []) (replace_char 92 (92 ∷ 92 ∷ []) s)

-- The escapes of a value: those of a key, then line feed, carriage return and tab.
unfoldable pub escape_value : Bytes → Bytes
unfolding replace_char escape_key
escape_value s =
    replace_char 9 (92 ∷ 116 ∷ [])
      (replace_char 13 (92 ∷ 114 ∷ []) (replace_char 10 (92 ∷ 110 ∷ []) (escape_key s)))

-- `format!("'{escaped}'")`
abbrev pub quoted : Bytes → Bytes
quoted escaped = 39 ∷ escaped ++ 39 ∷ []

unfoldable pub text_stub : Bytes → Bytes
unfolding escape_value
text_stub s = quoted (escape_value s)

unfoldable pub key_stub : Bytes → Bytes
unfolding escape_key
key_stub s = quoted (escape_key s)
