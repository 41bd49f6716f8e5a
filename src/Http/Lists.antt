-- ===== src/Http/Lists.antt =====
-- include/beast/http/detail/rfc7230.hpp and impl/rfc7230.ipp: optional white space, and the lists
-- of tokens that fields hold. A view is the list of its characters.
use remotedev.Base.{
  ℕ, zero, suc, Bool, true, false, ◌||◌, ◌≤◌, List, [], ◌∷◌, Bytes, length, ◌==◌, if◌then◌else◌,
  arith,
}
use remotedev.Http.Chars.{is_tchar}

abbrev pub is_ws : ℕ → Bool
is_ws c = c == b' ' || c == b'\t'

-- `skip_ows(it, end)`, with `n` characters up to `end`.
unfoldable pub skip_ows : ℕ → Bytes → Bytes
skip_ows zero r = r
skip_ows (suc n) [] = []
skip_ows (suc n) (c ∷ r) = let rest = skip_ows n r in if is_ws c then rest else c ∷ r

-- A character before what is left of those behind it.
unfoldable pub trim : ℕ → Bytes → Bytes
trim c [] = if is_ws c then [] else c ∷ []
trim c (x ∷ xs) = c ∷ x ∷ xs

-- What `skip_ows_rev` leaves of the characters before a pointer.
unfoldable pub skip_ows_rev : Bytes → Bytes
unfolding trim
skip_ows_rev [] = []
skip_ows_rev (c ∷ r) = trim c (skip_ows_rev r)

-- A token and what is behind it.
unfoldable pub take_token : Bytes → Bytes × Bytes
take_token [] = ([], [])
take_token (c ∷ r) =
    let (t, rest) = take_token r in if is_tchar c then (c ∷ t, rest) else ([], c ∷ r)

-- A step of an iterator: a token and what is behind it, the end of the list, or an error.
pub data Next : Type 0 where
  token : Bytes → Bytes → Next
  finished broken : Next

-- `token_list::const_iterator::increment`. White space that the loop skips does not change what
-- it waits for.
increment : Bool → Bytes → Next
unfolding take_token
increment need_comma [] = finished
increment need_comma (c ∷ r) =
    let skipped = increment need_comma r in
    let comma = increment false r in
    let (t, rest) = take_token r in
    if is_ws c
    then skipped
    else if is_tchar c
    then (if need_comma then broken else token (c ∷ t) rest)
    else if c == b','
    then comma
    else broken

-- `opt_token_list_policy`, whose loop is the same.
opt_token : Bool → Bytes → Next
unfolding increment
opt_token need_comma s = increment need_comma s

-- The tokens of an iteration, and whether it ends without an error. A step takes a character at
-- least, so as much fuel as there are characters is enough.
tokens_from : ℕ → Next → List Bytes × Bool
unfolding increment
tokens_from zero _ = ([], true)
tokens_from (suc fuel) finished = ([], true)
tokens_from (suc fuel) broken = ([], false)
tokens_from (suc fuel) (token t rest) =
    let (ts, sound) = tokens_from fuel (increment true rest) in (t ∷ ts, sound)

-- `token_list`: an error is the end.
unfoldable pub token_list : Bytes → List Bytes
unfolding tokens_from
token_list s = (tokens_from (suc (length s)) (increment false s)).0

unfoldable pub opt_token_list : Bytes → List Bytes
unfolding tokens_from opt_token
opt_token_list s = (tokens_from (suc (length s)) (opt_token false s)).0

unfoldable pub validate_list : Bytes → Bool
unfolding tokens_from opt_token
validate_list s = (tokens_from (suc (length s)) (opt_token false s)).1

pub length-skip_ows : (n : ℕ) (xs : Bytes) → length (skip_ows n xs) ≤ length xs
unfolding skip_ows
length-skip_ows zero xs = omega arith
length-skip_ows (suc n) [] = omega arith
length-skip_ows (suc n) (x ∷ xs) = ground (arith, length-skip_ows n xs)
