-- ===== src/Http/ChunkEncode/Digits.antt =====
-- The size of a chunk in hexadecimal digits.
use remotedev.Base.{
  ℕ, zero, suc, ◌+◌, ◌*◌, ◌/◌, ◌%◌, ◌^◌, ◌≤◌, ◌<◌, ◌≡◌, refl, sym, ap, ◌∙◌, ◌⊎◌, inl, inr,
  bit_and_0f, some, List, [], ◌∷◌, ◌++◌, Bytes, arith,
}
use remotedev.Http.Chars.{unhex}
use remotedev.Http.Scan.Hex.{HexDigit, chars, hex_value}
use remotedev.Http.ChunkEncode.{hex_char, hex_digits}

digit : (n : ℕ) → n < 16 → HexDigit
unfolding unhex hex_char
digit n h = record { char = hex_char n; value = n; is_hex = ground arith }

-- A number in hexadecimal digits, the first of which is none of value 0.
pub record Hex (n : ℕ) : Type 0 where
  pub first : HexDigit
  pub others : List HexDigit
  pub is_positive : 0 < first.value
  pub stands_for : hex_value 0 (first ∷ others) ≡ n

hex_value-append :
    (ds : List HexDigit) (d : HexDigit) (v : ℕ)
    → hex_value v (ds ++ d ∷ []) ≡ 16 * hex_value v ds + d.value
hex_value-append [] d v = refl
hex_value-append (x ∷ ds) d v = hex_value-append ds d (16 * v + x.value)

chars-append :
    (ds : List HexDigit) (d : HexDigit) (r : Bytes)
    → chars (ds ++ d ∷ []) ++ r ≡ chars ds ++ (d.char ∷ r)
chars-append [] d r = refl
chars-append (x ∷ ds) d r = ap (◌∷◌ x.char) (chars-append ds d r)

hex_digits_step :
    (room n : ℕ) (last : Bytes)
    → 0 < n
    → hex_digits (suc room) n last ≡ hex_digits room (n / 16) (hex_char (n % 16) ∷ last)
unfolding hex_digits
hex_digits_step room zero last h = absurd (omega arith)
hex_digits_step room (suc n) last h = rw (hex_digits, bit_and_0f (suc n)) refl

hex_digits_end : (room : ℕ) (last : Bytes) → hex_digits room 0 last ≡ some last
unfolding hex_digits
hex_digits_end room last = refl

-- A number that has room enough is written in digits that stand for it.
pub hex_digits-Hex :
    (room n : ℕ)
    → 0 < n
    → n < 16 ^ room
    → (x : Hex n) × ((last : Bytes)
        → hex_digits room n last ≡ some (chars (x.first ∷ x.others) ++ last))
unfolding digit
hex_digits-Hex zero n p h = absurd (omega arith)
hex_digits-Hex (suc room) n p h =
    let l = digit (n % 16) (omega arith) in
    let power : 16 ^ suc room ≡ 16 * 16 ^ room = omega arith in
    elim (small n) [
      | inl s ↦
          let z : n / 16 ≡ 0 = omega arith in
          let e : n % 16 ≡ n = omega arith in
          (
            record { first = l; others = []; is_positive = omega arith; stands_for = omega arith },
            λ last.
                hex_digits_step room n last p
                ∙ rw z (hex_digits_end room (hex_char (n % 16) ∷ last)),
          )
      | inr s ↦
          let (x, w) = hex_digits-Hex room (n / 16) (omega arith) (omega (arith, power)) in
          (
            record {
              first = x.first;
              others = x.others ++ l ∷ [];
              is_positive = x.is_positive;
              stands_for = hex_value-append (x.first ∷ x.others) l 0 ∙ omega (arith, x.stands_for);
            },
            λ last.
                hex_digits_step room n last p
                ∙ w (hex_char (n % 16) ∷ last)
                ∙ ap some (sym (chars-append (x.first ∷ x.others) l last)),
          )
    ]
  where
    small : (n : ℕ) → (n < 16) ⊎ (16 ≤ n)
    small n = omega arith
