-- ===== src/Websocket/Endian.antt =====
-- include/beast/websocket/detail/endian.hpp: integers from and to octets.
use remotedev.Base.{
  ℕ, ◌+◌, ◌*◌, ◌/◌, ◌%◌, ◌^◌, ◌<◌, ◌≡◌, [], ◌∷◌, Bytes, arith, bit_and, low_digits,
}

unfoldable pub big_uint16_to_native : ℕ → ℕ → ℕ
big_uint16_to_native p0 p1 = (p0 * 2 ^ 8 + p1) % 2 ^ 16

pub big_uint64_to_native : ℕ → ℕ → ℕ → ℕ → ℕ → ℕ → ℕ → ℕ → ℕ
big_uint64_to_native p0 p1 p2 p3 p4 p5 p6 p7 =
    (p0 * 2 ^ 56
      + p1 * 2 ^ 48
      + p2 * 2 ^ 40
      + p3 * 2 ^ 32
      + p4 * 2 ^ 24
      + p5 * 2 ^ 16
      + p6 * 2 ^ 8
      + p7)
    % 2 ^ 64

unfoldable pub little_uint32_to_native : ℕ → ℕ → ℕ → ℕ → ℕ
little_uint32_to_native p0 p1 p2 p3 = (p0 + p1 * 2 ^ 8 + p2 * 2 ^ 16 + p3 * 2 ^ 24) % 2 ^ 32

pub native_to_little_uint32 : ℕ → Bytes
native_to_little_uint32 v =
    bit_and v 0xff
    ∷ bit_and (v / 2 ^ 8) 0xff
    ∷ bit_and (v / 2 ^ 16) 0xff
    ∷ bit_and (v / 2 ^ 24) 0xff
    ∷ []

-- `big_uint16_buf_t` and `big_uint64_buf_t` of Boost.Endian: the octets stored, most
-- significant first.
pub record BigEndian : Type 0 where
  pub put16 : ℕ → Bytes
  pub put64 : ℕ → Bytes
  pub put16_lem : (v : ℕ) → v < 2 ^ 16 → put16 v ≡ v / 2 ^ 8 ∷ (v % 2 ^ 8) ∷ []
  pub put64_lem :
      (v : ℕ)
      → v < 2 ^ 64
      → put64 v
        ≡ (v / 2 ^ 56)
          ∷ (v / 2 ^ 48 % 2 ^ 8)
          ∷ (v / 2 ^ 40 % 2 ^ 8)
          ∷ (v / 2 ^ 32 % 2 ^ 8)
          ∷ (v / 2 ^ 24 % 2 ^ 8)
          ∷ (v / 2 ^ 16 % 2 ^ 8)
          ∷ (v / 2 ^ 8 % 2 ^ 8)
          ∷ (v % 2 ^ 8)
          ∷ []

pub big16_put : (v : ℕ) → v < 2 ^ 16 → big_uint16_to_native (v / 2 ^ 8) (v % 2 ^ 8) ≡ v
unfolding big_uint16_to_native
big16_put v h = omega arith

pub big16-lt : (a b : ℕ) → big_uint16_to_native a b < 2 ^ 16
unfolding big_uint16_to_native
big16-lt a b = omega arith

-- Two octets are those of the integer read from them.
pub put16_big :
    (a b : ℕ)
    → a < 256
    → b < 256
    → (big_uint16_to_native a b / 2 ^ 8 ≡ a) × (big_uint16_to_native a b % 2 ^ 8 ≡ b)
unfolding big_uint16_to_native
put16_big a b h k = (omega arith, omega arith)

pub big64_put :
    (v : ℕ)
    → v < 2 ^ 64
    → big_uint64_to_native
        (v / 2 ^ 56)
        (v / 2 ^ 48 % 2 ^ 8)
        (v / 2 ^ 40 % 2 ^ 8)
        (v / 2 ^ 32 % 2 ^ 8)
        (v / 2 ^ 24 % 2 ^ 8)
        (v / 2 ^ 16 % 2 ^ 8)
        (v / 2 ^ 8 % 2 ^ 8)
        (v % 2 ^ 8)
      ≡ v
unfolding big_uint64_to_native
big64_put v h = omega arith

pub big64-lt : (a b c d e f g h : ℕ) → big_uint64_to_native a b c d e f g h < 2 ^ 64
unfolding big_uint64_to_native
big64-lt a b c d e f g h = omega arith

pub little_put :
    (v : ℕ)
    → v < 2 ^ 32
    → little_uint32_to_native
        (v % 2 ^ 8)
        (v / 2 ^ 8 % 2 ^ 8)
        (v / 2 ^ 16 % 2 ^ 8)
        (v / 2 ^ 24 % 2 ^ 8)
      ≡ v
unfolding little_uint32_to_native
little_put v h = omega arith

-- The octets of a key, by arithmetic.
pub native_to_little_bytes :
    (v : ℕ)
    → native_to_little_uint32 v
      ≡ (v % 2 ^ 8) ∷ (v / 2 ^ 8 % 2 ^ 8) ∷ (v / 2 ^ 16 % 2 ^ 8) ∷ (v / 2 ^ 24 % 2 ^ 8) ∷ []
unfolding native_to_little_uint32
native_to_little_bytes v = simp low_digits

-- The octets of an integer read from eight octets are those octets.
pub put64_big :
    (a b c d e f g h : ℕ)
    → a < 256
    → b < 256
    → c < 256
    → d < 256
    → e < 256
    → f < 256
    → g < 256
    → h < 256
    → let v = big_uint64_to_native a b c d e f g h in
      (v / 2 ^ 56 ≡ a)
      × (v / 2 ^ 48 % 2 ^ 8 ≡ b)
      × (v / 2 ^ 40 % 2 ^ 8 ≡ c)
      × (v / 2 ^ 32 % 2 ^ 8 ≡ d)
      × (v / 2 ^ 24 % 2 ^ 8 ≡ e)
      × (v / 2 ^ 16 % 2 ^ 8 ≡ f)
      × (v / 2 ^ 8 % 2 ^ 8 ≡ g)
      × (v % 2 ^ 8 ≡ h)
unfolding big_uint64_to_native
put64_big a b c d e f g h ha hb hc hd he hf hg hh = (
  omega arith,
  omega arith,
  omega arith,
  omega arith,
  omega arith,
  omega arith,
  omega arith,
  omega arith,
)

pub native_to_little-little :
    (a b c d : ℕ)
    → a < 256
    → b < 256
    → c < 256
    → d < 256
    → native_to_little_uint32 (little_uint32_to_native a b c d) ≡ a ∷ b ∷ c ∷ d ∷ []
unfolding little_uint32_to_native
native_to_little-little a b c d ha hb hc hd =
    rw (native_to_little_bytes ((a + b * 2 ^ 8 + c * 2 ^ 16 + d * 2 ^ 24) % 2 ^ 32)) (ground arith)

pub little-lt : (a b c d : ℕ) → little_uint32_to_native a b c d < 2 ^ 32
unfolding little_uint32_to_native
little-lt a b c d = omega arith
