-- ===== src/Websocket/Utf8/Begun.antt =====
-- The front of a code point, which the checker keeps for the next buffer.
use remotedev.Base.{
  ℕ, ◌≤◌, ◌<◌, ◌≡◌, refl, bit_and, true, false, [], ◌∷◌, ◌++◌, Bytes, AreOctets, length,
  length-append, ◌==◌, arith,
}
use remotedev.Websocket.Utf8.{needed, three_begun, four_begun, valid_have}
use remotedev.Websocket.Utf8.CodePoint.{IsCodePoint, masks}

pub needed-length : (a : ℕ) (r : Bytes) → IsCodePoint (a ∷ r) → needed a ≡ length (a ∷ r)
unfolding needed
needed-length a [] h = ground arith
needed-length a (b ∷ []) h = ground arith
needed-length a (b ∷ c ∷ []) h = ground arith
needed-length a (b ∷ c ∷ d ∷ []) h = ground arith
needed-length a (b ∷ c ∷ d ∷ e ∷ r) h = absurd h

-- Nothing, or octets that some more make a code point.
abbrev pub IsBegun : Bytes → Type 0
IsBegun [] = Unit
IsBegun (a ∷ r) =
    (more : Bytes) × (0 < length more) × IsCodePoint (a ∷ (r ++ more)) × AreOctets (a ∷ (r ++ more))

pub begun_short :
    (a : ℕ) (r : Bytes) → IsBegun (a ∷ r) → (length (a ∷ r) < needed a) × (needed a ≤ 4)
unfolding needed
begun_short a r (more, p, c, o) =
    (omega (arith, needed-length a (r ++ more) c, length-append r more, p), ground arith)

-- The first octet is none of ASCII.
pub begun_first : (a : ℕ) (r : Bytes) → IsBegun (a ∷ r) → (bit_and a 0x80 == 0) ≡ false
unfolding needed
begun_first a r (more, p, c, o) =
    ground (arith, masks a o.0, needed-length a (r ++ more) c, length-append r more, p)

pub valid_have-IsBegun : (tail : Bytes) → IsBegun tail → valid_have tail ≡ true
unfolding valid_have three_begun four_begun
valid_have-IsBegun [] h = refl
valid_have-IsBegun (a ∷ []) (b ∷ [], p, c, o) = ground (arith, masks a o.0)
valid_have-IsBegun (a ∷ []) (b ∷ d ∷ [], p, c, o) = ground (arith, masks a o.0)
valid_have-IsBegun (a ∷ []) (b ∷ d ∷ e ∷ [], p, c, o) = ground (arith, masks a o.0)
valid_have-IsBegun (a ∷ b ∷ []) (d ∷ [], p, c, o) = ground (arith, masks a o.0, masks b o.1.0)
valid_have-IsBegun (a ∷ b ∷ []) (d ∷ e ∷ [], p, c, o) = ground (arith, masks a o.0, masks b o.1.0)
valid_have-IsBegun (a ∷ b ∷ d ∷ []) (e ∷ [], p, c, o) =
    ground (arith, masks a o.0, masks b o.1.0, masks d o.1.1.0)
valid_have-IsBegun (a ∷ r) ([], p, c, o) = absurd (omega arith)
valid_have-IsBegun (a ∷ []) (b ∷ d ∷ e ∷ f ∷ more, p, c, o) = absurd c
valid_have-IsBegun (a ∷ b ∷ []) (d ∷ e ∷ f ∷ more, p, c, o) = absurd c
valid_have-IsBegun (a ∷ b ∷ d ∷ []) (e ∷ f ∷ more, p, c, o) = absurd c
valid_have-IsBegun (a ∷ b ∷ d ∷ e ∷ r) (f ∷ more, p, c, o) = absurd (long r c)
  where
    long : (r : Bytes) → IsCodePoint (a ∷ b ∷ d ∷ e ∷ (r ++ f ∷ more)) → ⊥
    long [] c = c
    long (x ∷ r) c = c
