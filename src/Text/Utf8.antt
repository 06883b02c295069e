-- ===== src/Text/Utf8.antt =====
-- `str::from_utf8` as the table of well-formed byte sequences of the Unicode standard, and
-- `str::trim_start` over the UTF-8 forms of the characters with the property White_Space.
use ext_php_rs.Prelude.{
  ℕ, Bool, true, false, ◌&&◌, ◌||◌, [], ◌∷◌, Bytes, leb, ltb, ◌==◌, if◌then◌else◌,
}

abbrev between : ℕ → ℕ → ℕ → Bool
between lo hi c = leb lo c && leb c hi

-- A continuation byte.
abbrev is_tail : ℕ → Bool
is_tail c = between 0x80 0xbf c

-- The bytes that may stand second in a sequence of three, by its first byte.
second_of_three : ℕ → ℕ → Bool
second_of_three a b =
    if a == 0xe0 then between 0xa0 0xbf b else if a == 0xed then between 0x80 0x9f b else is_tail b

-- The same for a sequence of four.
second_of_four : ℕ → ℕ → Bool
second_of_four a b =
    if a == 0xf0 then between 0x90 0xbf b else if a == 0xf4 then between 0x80 0x8f b else is_tail b

unfoldable pub is_utf8 : Bytes → Bool
unfolding second_of_three second_of_four
is_utf8 [] = true
is_utf8 (a ∷ []) = ltb a 0x80
is_utf8 (a ∷ b ∷ []) =
    let one = ltb a 0x80 && is_utf8 (b ∷ []) in
    let two = is_tail b in if ltb a 0x80 then one else if between 0xc2 0xdf a then two else false
is_utf8 (a ∷ b ∷ c ∷ []) =
    let one = is_utf8 (b ∷ c ∷ []) in
    let two = is_tail b && is_utf8 (c ∷ []) in
    let three = second_of_three a b && is_tail c in
    if ltb a 0x80
    then one
    else if between 0xc2 0xdf a
    then two
    else if between 0xe0 0xef a
    then three
    else false
is_utf8 (a ∷ b ∷ c ∷ d ∷ s) =
    let one = is_utf8 (b ∷ c ∷ d ∷ s) in
    let two = is_tail b && is_utf8 (c ∷ d ∷ s) in
    let three = second_of_three a b && is_tail c && is_utf8 (d ∷ s) in
    let four = second_of_four a b && is_tail c && is_tail d && is_utf8 s in
    if ltb a 0x80
    then one
    else if between 0xc2 0xdf a
    then two
    else if between 0xe0 0xef a
    then three
    else if between 0xf0 0xf4 a
    then four
    else false

-- White space of one, two or three bytes.
abbrev pub is_space : ℕ → Bool
is_space a = between 9 13 a || a == 32

abbrev is_space2 : ℕ → ℕ → Bool
is_space2 a b = a == 0xc2 && (b == 0x85 || b == 0xa0)

abbrev is_space3 : ℕ → ℕ → ℕ → Bool
is_space3 a b c =
    (a == 0xe1 && b == 0x9a && c == 0x80)
    || (a == 0xe2 && b == 0x80 && (between 0x80 0x8a c || c == 0xa8 || c == 0xa9 || c == 0xaf))
    || (a == 0xe2 && b == 0x81 && c == 0x9f)
    || (a == 0xe3 && b == 0x80 && c == 0x80)

unfoldable pub trim_start : Bytes → Bytes
trim_start [] = []
trim_start (a ∷ []) = if is_space a then [] else a ∷ []
trim_start (a ∷ b ∷ []) =
    let one = trim_start (b ∷ []) in
    if is_space a then one else if is_space2 a b then [] else a ∷ b ∷ []
trim_start (a ∷ b ∷ c ∷ s) =
    let one = trim_start (b ∷ c ∷ s) in
    let two = trim_start (c ∷ s) in
    let three = trim_start s in
    if is_space a
    then one
    else if is_space2 a b
    then two
    else if is_space3 a b c
    then three
    else a ∷ b ∷ c ∷ s
