-- ===== src/Websocket/Utf8/Overlong.antt =====
-- Overlong forms: what the checker makes of them depends on what is behind them.
use remotedev.Base.{
  ℕ, ◌≤◌, ◌<◌, ◌≡◌, refl, ap, ◌∙◌, ◌>>=◌, Bool, Option, length, true, false, some, none, [], ◌∷◌,
  Bytes, arith,
}
use remotedev.Websocket.Utf8.{
  Utf8Checker, valid, needed, loop8, loop4, loop1, write_rest, write, check_utf8, finish, reset,
}
use remotedev.Websocket.Utf8.CodePoint.{IsTail, masks, valid_overlong}

ascii : (x : ℕ) (r : Bytes) → x < 128 → (valid (x ∷ r) ≡ some r) × (needed x ≡ 1)
unfolding valid needed
ascii x r h = ground (arith, masks x (omega arith))

-- Two octets that begin with 0xc0 or 0xc1, an overlong form of one of the first 128 code points, are
-- accepted with two octets behind them, below 128, and refused at the end of a text.
pub check_utf8_overlong :
    (a b x y : ℕ)
    → 192 ≤ a
    → a ≤ 193
    → IsTail b
    → x < 128
    → y < 128
    → (check_utf8 (a ∷ b ∷ x ∷ y ∷ []) ≡ true) × (check_utf8 (a ∷ b ∷ []) ≡ false)
unfolding check_utf8 write write_rest loop8 loop4 loop1 finish reset
check_utf8_overlong a b x y l h t p q =
    let (v, n) = valid_overlong a b [] l h t in
    let (v', _) = valid_overlong a b (x ∷ y ∷ []) l h t in
    let (vx, nx) = ascii x (y ∷ []) p in
    let (vy, ny) = ascii y [] q in
    let first : loop4 4 (a ∷ b ∷ x ∷ y ∷ []) ≡ some (x ∷ y ∷ []) =
      ap (λ (m : Option Bytes). m >>= loop4 3) v' in
    let third : loop1 2 (x ∷ y ∷ []) ≡ loop1 1 (y ∷ []) = rw (loop1, nx, vx) refl in
    let last : loop1 1 (y ∷ []) ≡ some reset = rw (loop1, ny, vy) refl in
    let refused : loop1 2 (a ∷ b ∷ []) ≡ none = rw (loop1, n) refl in
    (
      ap (λ (m : Option Bytes). checked (m >>= λ r. loop1 (length r) r)) first
          ∙ ap checked (third ∙ last),
      ap checked refused,
    )
  where
    checked : Option Utf8Checker → Bool
    checked none = false
    checked (some c) = (finish c).0
