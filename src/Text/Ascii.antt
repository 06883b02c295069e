-- ===== src/Text/Ascii.antt =====
-- Methods of Rust's `u8` and `[u8]` on ASCII that the source calls; they follow the documentation of
-- Rust. No code of the repository is modelled here.
use ext_php_rs.Prelude.{
  ℕ, ◌+◌, Bool, true, false, ◌&&◌, ◌||◌, [], ◌∷◌, Bytes, leb, ◌==◌, ◌≡◌, if◌then◌else◌,
}

-- Space, tab, line feed, form feed and carriage return.
abbrev pub is_ascii_whitespace : ℕ → Bool
is_ascii_whitespace c = c == 32 || c == 9 || c == 10 || c == 12 || c == 13

abbrev pub to_ascii_lowercase : ℕ → ℕ
to_ascii_lowercase c = if leb 65 c && leb c 90 then c + 32 else c

abbrev pub eq_ignore_ascii_case : Bytes → Bytes → Bool
eq_ignore_ascii_case [] [] = true
eq_ignore_ascii_case [] (d ∷ t) = false
eq_ignore_ascii_case (c ∷ s) [] = false
eq_ignore_ascii_case (c ∷ s) (d ∷ t) =
    (to_ascii_lowercase c == to_ascii_lowercase d) && eq_ignore_ascii_case s t

unfoldable pub trim_ascii_start : Bytes → Bytes
trim_ascii_start [] = []
trim_ascii_start (c ∷ s) =
    let rest = trim_ascii_start s in if is_ascii_whitespace c then rest else c ∷ s

-- White space alone.
abbrev pub AllSpace : Bytes → Type 0
AllSpace [] = Unit
AllSpace (c ∷ s) = (is_ascii_whitespace c ≡ true) × AllSpace s
