-- ===== src/Core/Base64/RoundTrip.antt =====
-- What base64 decoding gives back, and where it stops.
use remotedev.Base.{
  ℕ, ◌+◌, ◌*◌, ◌/◌, ◌%◌, ◌<◌, ◌≡◌, ◌≢◌, refl, ap, ◌∙◌, bit_and, bit_and_03, bit_and_0f, bit_and_3f,
  holds_below, holds_below_at, true, false, not, ◌&&◌, ◌||◌, [], ◌∷◌, ◌++◌, Bytes, length, All,
  AreOctets, ◌==◌, arith,
}
use remotedev.Core.Base64.{
  encoded_size, tab, inverse, stops, encode, decode, decode_loop, leftover, c3_0, c3_1, c3_2,
}

-- `'A'`
abbrev pub letter_A : ℕ
letter_A = 65

letters : holds_below 64 (λ v. (v == 0) || ((inverse (tab v) == v) && not (stops (tab v)))) ≡ true
unfolding holds_below tab inverse
letters = refl

tab_first : tab 0 ≡ letter_A
unfolding tab
tab_first = refl

-- The letters but the first are decoded.
letter : (v : ℕ) → v < 64 → tab v ≢ letter_A → (inverse (tab v) ≡ v) × (stops (tab v) ≡ false)
letter v h ne =
    let t = holds_below_at 64 _ v letters h in
    let z : v ≢ 0 = λ e. ne (ap tab e ∙ tab_first) in ground (arith, t, z)

high_table :
    holds_below 256 (λ a.
      (bit_and a 252 / 4 == a / 4)
      && (bit_and a 240 / 16 == a / 16)
      && (bit_and a 192 / 64 == a / 64))
    ≡ true
unfolding holds_below
high_table = refl

high_bits :
    (a : ℕ)
    → a < 256
    → (bit_and a 252 / 4 ≡ a / 4) × (bit_and a 240 / 16 ≡ a / 16) × (bit_and a 192 / 64 ≡ a / 64)
high_bits a h = let t = holds_below_at 256 _ a high_table h in ground (arith, t)

mid_table :
    holds_below 64 (λ v. (bit_and v 48 / 16 == v / 16) && (bit_and v 60 / 4 == v / 4)) ≡ true
unfolding holds_below
mid_table = refl

mid_bits : (v : ℕ) → v < 64 → (bit_and v 48 / 16 ≡ v / 16) × (bit_and v 60 / 4 ≡ v / 4)
mid_bits v h = let t = holds_below_at 64 _ v mid_table h in ground (arith, t)

-- The four sextets of three octets.
abbrev s0 : ℕ → ℕ
s0 a = bit_and a 252 / 4

abbrev s1 : ℕ → ℕ → ℕ
s1 a b = bit_and a 3 * 16 + bit_and b 240 / 16

abbrev s2 : ℕ → ℕ → ℕ
s2 b c = bit_and c 192 / 64 + bit_and b 15 * 4

sextets :
    (a b c : ℕ)
    → a < 256
    → b < 256
    → c < 256
    → (s0 a ≡ a / 4)
      × (s1 a b ≡ a % 4 * 16 + b / 16)
      × (s2 b c ≡ c / 64 + b % 16 * 4)
      × (bit_and c 63 ≡ c % 64)
sextets a b c ha hb hc = omega (
  arith,
  high_bits a ha,
  high_bits b hb,
  high_bits c hc,
  bit_and_03 a,
  bit_and_0f b,
  bit_and_3f c,
)

octets_back :
    (a b c : ℕ)
    → a < 256
    → b < 256
    → c < 256
    → (c3_0 (s0 a) (s1 a b) ≡ a) × (c3_1 (s1 a b) (s2 b c) ≡ b) × (c3_2 (s2 b c) (bit_and c 63) ≡ c)
octets_back a b c ha hb hc =
    let s = sextets a b c ha hb hc in
    let m1 = mid_bits (s1 a b) (omega (arith, s)) in
    let m2 = mid_bits (s2 b c) (omega (arith, s)) in
    omega (arith, s, m1, m2, bit_and_0f (s1 a b), bit_and_03 (s2 b c))

abbrev pub HasNoA : Bytes → Type 0
HasNoA = All (λ ch. ch ≢ letter_A)

-- Octets are decoded from their encoding, if it has no `A`.
pub decode-encode : (bs : Bytes) → AreOctets bs → HasNoA (encode bs) → (decode (encode bs)).0 ≡ bs
unfolding decode decode_loop encode leftover
decode-encode [] h n = refl
decode-encode (a ∷ []) h n =
    let s = sextets a 0 0 h.0 (omega arith) (omega arith) in
    let e : s1 a 0 ≡ bit_and a 3 * 16 = omega arith in
    let o : c3_0 (s0 a) (bit_and a 3 * 16) ≡ a =
      rw e at (octets_back a 0 0 h.0 (omega arith) (omega arith)).0 in
    let l0 = letter (s0 a) (omega (arith, s)) n.0 in
    let l1 = letter (bit_and a 3 * 16) (omega (arith, s, e)) n.1.0 in rw (l0.1, l1.1, l0.0, l1.0, o)
decode-encode (a ∷ b ∷ []) h n =
    let s = sextets a b 0 h.0 h.1.0 (omega arith) in
    let e : s2 b 0 ≡ bit_and b 15 * 4 = omega arith in
    let o = octets_back a b 0 h.0 h.1.0 (omega arith) in
    let o1 : c3_1 (s1 a b) (bit_and b 15 * 4) ≡ b = rw e at o.1 in
    let l0 = letter (s0 a) (omega (arith, s)) n.0 in
    let l1 = letter (s1 a b) (omega (arith, s)) n.1.0 in
    let l2 = letter (bit_and b 15 * 4) (omega (arith, s, e)) n.1.1.0 in
    rw (l0.1, l1.1, l2.1, l0.0, l1.0, l2.0, o.0, o1)
decode-encode (a ∷ b ∷ c ∷ rest) h n =
    let s = sextets a b c h.0 h.1.0 h.1.1.0 in
    let o = octets_back a b c h.0 h.1.0 h.1.1.0 in
    let l0 = letter (s0 a) (omega (arith, s)) n.0 in
    let l1 = letter (s1 a b) (omega (arith, s)) n.1.0 in
    let l2 = letter (s2 b c) (omega (arith, s)) n.1.1.0 in
    let l3 = letter (bit_and c 63) (omega (arith, s)) n.1.1.1.0 in
    let ih = decode-encode rest h.1.1.1 n.1.1.1.1 in
    rw (l0.1, l1.1, l2.1, l3.1, l0.0, l1.0, l2.0, l3.0, o.0, o.1, o.2, ih)

decode_loop-stops : (xs ys c4 : Bytes) → decode_loop (xs ++ (letter_A ∷ ys)) c4 ≡ decode_loop xs c4
unfolding decode_loop leftover inverse
decode_loop-stops [] ys [] = refl
decode_loop-stops [] ys (_ ∷ []) = refl
decode_loop-stops [] ys (_ ∷ _ ∷ []) = refl
decode_loop-stops [] ys (_ ∷ _ ∷ _ ∷ []) = refl
decode_loop-stops [] ys (_ ∷ _ ∷ _ ∷ _ ∷ _) = refl
decode_loop-stops (x ∷ xs) ys [] = rw (decode_loop-stops xs ys (inverse x ∷ []))
decode_loop-stops (x ∷ xs) ys (c0 ∷ []) = rw (decode_loop-stops xs ys (c0 ∷ inverse x ∷ []))
decode_loop-stops (x ∷ xs) ys (c0 ∷ c1 ∷ []) =
    rw (decode_loop-stops xs ys (c0 ∷ c1 ∷ inverse x ∷ []))
decode_loop-stops (x ∷ xs) ys (c0 ∷ c1 ∷ c2 ∷ []) = rw (decode_loop-stops xs ys [])
decode_loop-stops (x ∷ xs) ys (c0 ∷ c1 ∷ c2 ∷ c3 ∷ more) =
    rw (decode_loop-stops xs ys (c0 ∷ c1 ∷ c2 ∷ c3 ∷ (more ++ (inverse x ∷ []))))

-- Decoding reads nothing from an `A` on: with it and anything behind it, the octets and the
-- count of characters are those of what stands before it.
pub decode-stops_at_A : (xs ys : Bytes) → decode (xs ++ (letter_A ∷ ys)) ≡ decode xs
unfolding decode
decode-stops_at_A xs ys = decode_loop-stops xs ys []

-- An encoding has the size that `encoded_size` gives.
length-encode : (bs : Bytes) → length (encode bs) ≡ encoded_size (length bs)
unfolding encode encoded_size
length-encode [] = refl
length-encode (a ∷ []) = refl
length-encode (a ∷ b ∷ []) = refl
length-encode (a ∷ b ∷ c ∷ rest) = omega (arith, length-encode rest)
