-- ===== src/Websocket/Utf8/CodePoint.antt =====
-- Code points as RFC 3629 writes them, and which of them `valid` takes.
use remotedev.Base.{
  ℕ, ◌≤◌, ◌<◌, ◌≡◌, refl, sym, ap, ◌∙◌, bit_and, Bool, true, false, not, ◌&&◌, ◌||◌, inl, inr, none,
  some, [], ◌∷◌, ◌++◌, Bytes, AreOctets, length, ltb, leb, ◌==◌, if◌then◌else◌, holds_below,
  holds_below_at, arith, Bool-cases,
}
use remotedev.Websocket.Utf8.{is_tail, valid, valid4, needed}

abbrev same : Bool → Bool → Bool
same true b = b
same false b = not b

abbrev pub IsTail : ℕ → Type 0
IsTail b = (128 ≤ b) × (b ≤ 191)

-- UTF8-char of RFC 3629, section 4.
abbrev pub IsCodePoint : Bytes → Type 0
IsCodePoint (a ∷ []) = a < 128
IsCodePoint (a ∷ b ∷ []) = (194 ≤ a) × (a ≤ 223) × IsTail b
IsCodePoint (a ∷ b ∷ c ∷ []) =
    (224 ≤ a) × (a ≤ 239) × IsTail b × IsTail c × ((a ≡ 224) → 160 ≤ b) × ((a ≡ 237) → b ≤ 159)
IsCodePoint (a ∷ b ∷ c ∷ d ∷ []) =
    (240 ≤ a)
    × (a ≤ 244)
    × IsTail b
    × IsTail c
    × IsTail d
    × ((a ≡ 240) → 144 ≤ b)
    × ((a ≡ 244) → b ≤ 143)
IsCodePoint _ = ⊥

-- The masks of `valid`, as ranges.
mask_table :
    holds_below 256 (λ a.
      same (bit_and a 0xc0 == 0x80) (leb 128 a && leb a 191)
      && same (bit_and a 0x60 == 0x40) (leb 64 a && leb a 95 || leb 192 a && leb a 223)
      && same (bit_and a 0xf0 == 0xe0) (leb 224 a && leb a 239)
      && same (bit_and a 0xf8 == 0xf0) (leb 240 a && leb a 247)
      && same (bit_and a 0x80 == 0) (ltb a 128))
    ≡ true
unfolding holds_below
mask_table = refl

same_equal : (x y : Bool) → same x y ≡ true → x ≡ y
same_equal true true h = refl
same_equal true false h = ground arith
same_equal false true h = ground arith
same_equal false false h = refl

pub masks :
    (a : ℕ)
    → a < 256
    → ((bit_and a 0xc0 == 0x80) ≡ (leb 128 a && leb a 191))
      × ((bit_and a 0x60 == 0x40) ≡ (leb 64 a && leb a 95 || leb 192 a && leb a 223))
      × ((bit_and a 0xf0 == 0xe0) ≡ (leb 224 a && leb a 239))
      × ((bit_and a 0xf8 == 0xf0) ≡ (leb 240 a && leb a 247))
      × ((bit_and a 0x80 == 0) ≡ ltb a 128)
masks a h = let t = holds_below_at 256 _ a mask_table h in ground (arith, t)

-- A code point of RFC 3629, whatever is behind it, is taken, and nothing of what is behind it.
pub valid-IsCodePoint :
    (cp rest : Bytes) → AreOctets cp → IsCodePoint cp → valid (cp ++ rest) ≡ some rest
unfolding valid
valid-IsCodePoint (a ∷ []) rest o p = ground (arith, masks a)
valid-IsCodePoint (a ∷ b ∷ []) rest o p = ground (arith, masks a o.0, masks b o.1.0)
valid-IsCodePoint (a ∷ b ∷ c ∷ []) rest o p =
    ground (arith, masks a o.0, masks b o.1.0, masks c o.1.1.0)
valid-IsCodePoint (a ∷ b ∷ c ∷ d ∷ []) rest o p =
    ground (arith, masks a o.0, masks b o.1.0, masks c o.1.1.0, masks d o.1.1.1.0)
valid-IsCodePoint [] rest o p = absurd p
valid-IsCodePoint (a ∷ b ∷ c ∷ d ∷ e ∷ more) rest o p = absurd p

-- What is taken is a code point of the announced length, with `rest` behind it.
pub record Taken (a : ℕ) (r rest : Bytes) : Type 0 where
  pub cp : Bytes
  pub is_code_point : IsCodePoint cp
  pub splits : a ∷ r ≡ cp ++ rest
  pub announced : length cp ≡ needed a

two_octets :
    (a : ℕ) (r : Bytes) {rest : Bytes}
    → 194 ≤ a
    → a ≤ 223
    → AreOctets r
    → valid (a ∷ r) ≡ some rest
    → Taken a r rest
unfolding valid needed
two_octets a [] l h o e = absurd (ground (arith, masks a (omega arith)))
two_octets a (b ∷ r) l h o e =
    let m = masks a (omega arith) in
    let n = masks b o.0 in
    record {
      cp = a ∷ b ∷ [];
      is_code_point = ground (arith, m, n);
      splits = ground (arith, m, n);
      announced = ground arith;
    }

three_octets :
    (a : ℕ) (r : Bytes) {rest : Bytes}
    → 224 ≤ a
    → a ≤ 239
    → AreOctets r
    → valid (a ∷ r) ≡ some rest
    → Taken a r rest
unfolding valid needed
three_octets a [] l h o e = absurd (ground (arith, masks a (omega arith)))
three_octets a (b ∷ []) l h o e = absurd (ground (arith, masks a (omega arith)))
three_octets a (b ∷ c ∷ r) l h o e =
    let m = masks a (omega arith) in
    let n = masks b o.0 in
    let k = masks c o.1.0 in
    record {
      cp = a ∷ b ∷ c ∷ [];
      is_code_point = ground (arith, m, n, k);
      splits = ground (arith, m, n, k);
      announced = ground arith;
    }

IsTail-is_tail : (b : ℕ) → b < 256 → is_tail b ≡ true → IsTail b
IsTail-is_tail b h t = ground (arith, masks b h)

-- What the tests of `valid4` say, whatever the three masks are.
four_tests :
    (a b : ℕ) (x y z : Bool) (r : Bytes) {rest : Bytes}
    → (if ltb 244 a || not x || not y || not z || a == 240 && ltb b 144 || a == 244 && ltb 143 b
        then none
        else some r)
      ≡ some rest
    → (x ≡ true)
      × (y ≡ true)
      × (z ≡ true)
      × (r ≡ rest)
      × ((a ≡ 240) → 144 ≤ b)
      × ((a ≡ 244) → b ≤ 143)
four_tests a b x y z r e = ground arith

four_branch : (a : ℕ) (r : Bytes) → 240 ≤ a → a ≤ 244 → valid (a ∷ r) ≡ valid4 a r
unfolding valid
four_branch a r l h = ground (arith, masks a (omega arith))

four_octets :
    (a : ℕ) (r : Bytes) {rest : Bytes}
    → 240 ≤ a
    → a ≤ 244
    → AreOctets r
    → valid (a ∷ r) ≡ some rest
    → Taken a r rest
unfolding valid valid4 needed
four_octets a [] l h o e = absurd (ground (arith, masks a (omega arith)))
four_octets a (b ∷ []) l h o e = absurd (ground (arith, masks a (omega arith)))
four_octets a (b ∷ c ∷ []) l h o e = absurd (ground (arith, masks a (omega arith)))
four_octets a (b ∷ c ∷ d ∷ r) l h o e =
    let t =
      four_tests a b (is_tail b) (is_tail c) (is_tail d) r
        (sym (four_branch a (b ∷ c ∷ d ∷ r) l h) ∙ e) in
    record {
      cp = a ∷ b ∷ c ∷ d ∷ [];
      is_code_point = (
        l,
        h,
        IsTail-is_tail b o.0 t.0,
        IsTail-is_tail c o.1.0 t.1,
        IsTail-is_tail d o.1.1.0 t.2,
        t.4,
        t.5,
      );
      splits = ap (λ (q : Bytes). a ∷ b ∷ c ∷ d ∷ q) t.3;
      announced = ground arith;
    }

-- Where the first octet announces a code point, what `valid` takes is a code point of RFC 3629 of
-- the announced length.
valid-Taken :
    (a : ℕ) (r : Bytes) {rest : Bytes}
    → AreOctets (a ∷ r)
    → 0 < needed a
    → valid (a ∷ r) ≡ some rest
    → Taken a r rest
unfolding valid needed
valid-Taken a r o n e = elim (Bool-cases (ltb a 128)) [
  | inl t ↦ record {
    cp = a ∷ [];
    is_code_point = ground arith;
    splits = ground arith;
    announced = ground arith;
  }
  | inr t ↦ elim (Bool-cases (ltb a 224)) [
    | inl u ↦ two_octets a r (ground arith) (ground arith) o.1 e
    | inr u ↦ elim (Bool-cases (ltb a 240)) [
      | inl w ↦ three_octets a r (ground arith) (ground arith) o.1 e
      | inr w ↦ four_octets a r (ground arith) (ground arith) o.1 e
    ]
  ]
]

-- `valid` takes two octets that begin with 0xc0 or 0xc1, the overlong forms of the first 128 code
-- points, though no code point is announced by such an octet.
pub valid_overlong :
    (a b : ℕ) (r : Bytes)
    → 192 ≤ a
    → a ≤ 193
    → IsTail b
    → (valid (a ∷ b ∷ r) ≡ some r) × (needed a ≡ 0)
unfolding valid needed
valid_overlong a b r l h t = ground (arith, masks a (omega arith), masks b (omega arith))
