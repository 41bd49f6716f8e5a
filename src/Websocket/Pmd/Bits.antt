-- ===== src/Websocket/Pmd/Bits.antt =====
-- Window bits in decimal.
use remotedev.Base.{
  ℕ, zero, suc, ◌+◌, ◌/◌, ◌%◌, ◌≤◌, ◌<◌, ◌≡◌, refl, true, false, [], ◌∷◌, ltb, Bool-cases, inl, inr,
  arith,
}
use remotedev.Base.Int.{pos, to_string}
use remotedev.Http.Chars.{is_tchar}
use remotedev.Http.Params.Print.{IsToken}
use remotedev.Websocket.Pmd.{parse_bits}

one_digit : (n : ℕ) → n < 10 → to_string (pos n) ≡ (b'0' + n) ∷ []
unfolding to_string
one_digit n h = let e : ltb n 10 ≡ true = ground arith in rw e refl

two_digits : (n : ℕ) → 10 ≤ n → n < 100 → to_string (pos n) ≡ (b'0' + n / 10) ∷ (b'0' + n % 10) ∷ []
unfolding to_string
two_digits zero h k = absurd (omega arith)
two_digits (suc n) h k =
    let e : ltb (suc n) 10 ≡ false = ground arith in
    let f : ltb (suc n / 10) 10 ≡ true = ground arith in rw (e, f) refl

-- Bits of one digit or two, but 0, are printed as a token and parsed.
pub parse_bits-to_string :
    (n : ℕ)
    → 1 ≤ n
    → n < 100
    → (parse_bits (to_string (pos n)) ≡ pos n) × IsToken (to_string (pos n))
unfolding parse_bits is_tchar
parse_bits-to_string n h k = elim (Bool-cases (ltb n 10)) [
  | inl small ↦ rw (one_digit n (ground arith)) (ground arith, (ground arith, tt))
  | inr large ↦
      rw (two_digits n (ground arith) k) (ground arith, (ground arith, (ground arith, tt)))
]
