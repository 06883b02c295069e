-- ===== src/ZendStr/Utf8.antt =====
-- The flag `IS_STR_VALID_UTF8` as a cache of the test for UTF-8.
use ext_php_rs.Prelude.{◌≡◌, arith, if◌then◌else◌, ◌&&◌}
use ext_php_rs.Error.{Error, ok, err}
use ext_php_rs.Text.Utf8.{is_utf8}
use ext_php_rs.ZendStr.{ZendStr, as_str}

-- The flag is set only on valid text.
abbrev pub IsSound : ZendStr → Type 0
IsSound zs = zs.known_valid_utf8 ≡ zs.known_valid_utf8 && is_utf8 zs.bytes

-- On a string whose flag is sound, `as_str` returns the bytes exactly where they are UTF-8, whatever
-- the flag says; it leaves the bytes alone, and the flag sound.
pub as_str_lem :
    (zs : ZendStr)
    → IsSound zs
    → ((as_str zs).0 ≡ (if is_utf8 zs.bytes then ok zs.bytes else err Error.invalid_utf8))
      × ((as_str zs).1.bytes ≡ zs.bytes)
      × IsSound (as_str zs).1
unfolding as_str
as_str_lem zs sound = ground arith

-- On a string whose flag is sound, a second call returns what the first returned; the first call has
-- set the flag exactly where the bytes are UTF-8, unless the string is interned.
pub as_str-as_str :
    (zs : ZendStr)
    → IsSound zs
    → ((as_str (as_str zs).1).0 ≡ (as_str zs).0)
      × ((as_str zs).1.known_valid_utf8
          ≡ (if zs.interned then zs.known_valid_utf8 else is_utf8 zs.bytes))
unfolding as_str
as_str-as_str zs sound = ground arith
