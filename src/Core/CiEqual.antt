-- ===== src/Core/CiEqual.antt =====
-- include/beast/core/detail/ci_char_traits.hpp: equality without regard to case.
use remotedev.Base.{ℕ, ◌+◌, Bool, true, false, ◌&&◌, [], ◌∷◌, Bytes, leb, ◌==◌, if◌then◌else◌}

-- The table of `tolower`, which differs from the identity at the capital letters only.
abbrev tolower : ℕ → ℕ
tolower c = if leb b'A' c && leb c b'Z' then c + 32 else c

unfoldable pub ci_equal : Bytes → Bytes → Bool
ci_equal [] [] = true
ci_equal (x ∷ xs) (y ∷ ys) = tolower x == tolower y && ci_equal xs ys
ci_equal _ _ = false
