-- ===== src/Http/Chars.antt =====
-- Character classes: the tables of include/beast/http/detail/basic_parser.hpp and
-- detail/rfc7230.hpp, each by the runs of equal entries in it.
use remotedev.Base.{
  ℕ, ◌+◌, ◌-◌, ◌%◌, ◌^◌, Bool, true, false, ◌&&◌, ◌||◌, Option, none, some, [], ◌∷◌, Bytes, ltb,
  leb, ◌==◌, if◌then◌else◌,
}

abbrev within : ℕ → ℕ → ℕ → Bool
within lo hi c = leb lo c && leb c hi

-- `is_pathchar`, and `is_value_char`, whose table is the same.
unfoldable pub is_pathchar : ℕ → Bool
is_pathchar c = within 33 126 c || within 128 255 c

unfoldable pub is_text : ℕ → Bool
is_text c = c == 9 || within 32 126 c || within 128 255 c

-- The table of 256 entries has 248 initializers: the rows from 112 on have no comma between
-- them, so the last entry of one and the first of the next are `-1 -1`, which is -2, eight times, and
-- the last eight entries are 0. `none` is the entry -1; -2 is 254 as an unsigned char.
unfoldable pub unhex : ℕ → Option ℕ
unhex c =
    if within b'0' b'9' c
    then some (c - 48)
    else if within b'A' b'F' c
    then some (c - 55)
    else if within b'a' b'f' c
    then some (c - 87)
    else if within 127 232 c && (c - 127) % 15 == 0
    then some 254
    else if within 248 255 c
    then some 0
    else none

-- `static_cast<unsigned char>(c-'0') < 10`
unfoldable pub is_digit : ℕ → Bool
is_digit c = ltb ((c + 2 ^ 8 - 48) % 2 ^ 8) 10

unfoldable pub is_tchar : ℕ → Bool
is_tchar c =
    c == 33
    || within 35 39 c
    || within 42 43 c
    || within 45 46 c
    || within b'0' b'9' c
    || within b'A' b'Z' c
    || within 94 122 c
    || c == 124
    || c == 126

-- `to_field_char(c) != 0`: the characters of a field name.
unfoldable pub is_field_char : ℕ → Bool
is_field_char c = is_tchar c

-- `tolower` of <cctype> in the "C" locale.
tolower : ℕ → ℕ
tolower c = if within b'A' b'Z' c then c + 32 else c

-- The comparison runs over equally many characters; the first string is in lower case.
strieq_from : Bytes → Bytes → Bool
strieq_from [] [] = true
strieq_from (x ∷ xs) (y ∷ ys) = x == tolower y && strieq_from xs ys
strieq_from _ _ = false

unfoldable pub strieq : Bytes → Bytes → Bool
unfolding strieq_from tolower
strieq s1 s2 = strieq_from s1 s2
