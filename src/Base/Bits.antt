-- ===== src/Base/Bits.antt =====
-- Facts about `bit_and`, `bit_or` and `bit_xor`: a byte is checked at every value, and for wider
-- words the native operations are reduced to their lowest binary digit.
use Prim.Native.Nat.{
  ℕ, zero, suc, ◌+◌, ◌*◌, ◌/◌, ◌%◌, ◌^◌, ◌≤◌, ◌<◌, min, max, bit_and, bit_or, bit_xor, digits,
  differ, bitwise, bit_and-bitwise, bit_or-bitwise, bit_xor-bitwise,
}
use mathlib.Core.Path.{◌≡◌, refl, ap}
use mathlib.Core.Bool.{Bool, true, ◌&&◌}
use native.Mathlib.Nat.{pow-suc}
use native.Mathlib.Omega.{arith}

-- A test that every number below a bound passes, which evaluation decides for a byte.
unfoldable pub holds_below : ℕ → (ℕ → Bool) → Bool
holds_below zero test = true
holds_below (suc bound) test = holds_below bound test && test bound

pub holds_below_at :
    (bound : ℕ) (test : ℕ → Bool) (i : ℕ)
    → holds_below bound test ≡ true
    → i < bound
    → test i ≡ true
unfolding holds_below
holds_below_at zero test i all low = absurd (omega arith)
holds_below_at (suc bound) test i all low = ground (arith, holds_below_at bound test i)

-- The recursion behind the native operations takes one unit of fuel for a digit.
module _ (base : ℕ → ℕ) (op : ℕ → ℕ → ℕ) where
  more_fuel : (j k x y : ℕ) → x ≤ j → x ≤ k → digits base op j x y ≡ digits base op k x y
  more_fuel zero zero x y _ _ = refl
  more_fuel zero (suc k) zero y _ _ = refl
  more_fuel zero (suc k) (suc x) y low _ = absurd (omega arith)
  more_fuel (suc j) zero zero y _ _ = refl
  more_fuel (suc j) zero (suc x) y _ low = absurd (omega arith)
  more_fuel (suc j) (suc k) zero y _ _ = refl
  more_fuel (suc j) (suc k) (suc x) y low low' =
      rw (more_fuel j k (suc x / 2) (y / 2) (omega arith) (omega arith))

  lowest_digit :
      (x y : ℕ)
      → bitwise base op (suc x) y ≡ bitwise base op (suc x / 2) (y / 2) * 2 + op (suc x % 2) (y % 2)
  lowest_digit x y =
      omega (arith, more_fuel x (suc x / 2) (suc x / 2) (y / 2) (omega arith) (omega arith))

bit_and_digit : (x y : ℕ) → bit_and x y ≡ bit_and (x / 2) (y / 2) * 2 + min (x % 2) (y % 2)
bit_and_digit zero y = simp bit_and-bitwise (omega arith)
bit_and_digit (suc x) y = simp bit_and-bitwise (lowest_digit (λ b. 0) min x y)

and_zero_fuel : (n x : ℕ) → x ≤ n → bit_and x 0 ≡ 0
and_zero_fuel n zero h = refl
and_zero_fuel zero (suc x) h = absurd (omega arith)
and_zero_fuel (suc n) (suc x) h =
    omega (arith, bit_and_digit (suc x) 0, and_zero_fuel n (suc x / 2) (omega arith))

bit_and-zero : (x : ℕ) → bit_and x 0 ≡ 0
bit_and-zero x = and_zero_fuel x x (omega arith)

-- `x & 1`, `x & 3`, … cut off all but the lowest digits.
bit_and_01 : (x : ℕ) → bit_and x 0x01 ≡ x % 2
bit_and_01 x = omega (arith, bit_and_digit x 1, bit_and-zero (x / 2))

pub bit_and_03 : (x : ℕ) → bit_and x 0x03 ≡ x % 4
bit_and_03 x = omega (arith, bit_and_digit x 3, bit_and_01 (x / 2))

pub bit_and_07 : (x : ℕ) → bit_and x 0x07 ≡ x % 8
bit_and_07 x = omega (arith, bit_and_digit x 7, bit_and_03 (x / 2))

pub bit_and_0f : (x : ℕ) → bit_and x 0x0f ≡ x % 16
bit_and_0f x = omega (arith, bit_and_digit x 15, bit_and_07 (x / 2))

bit_and_1f : (x : ℕ) → bit_and x 0x1f ≡ x % 32
bit_and_1f x = omega (arith, bit_and_digit x 31, bit_and_0f (x / 2))

pub bit_and_3f : (x : ℕ) → bit_and x 0x3f ≡ x % 64
bit_and_3f x = omega (arith, bit_and_digit x 63, bit_and_1f (x / 2))

pub bit_and_7f : (x : ℕ) → bit_and x 0x7f ≡ x % 128
bit_and_7f x = omega (arith, bit_and_digit x 127, bit_and_3f (x / 2))

pub bit_and_ff : (x : ℕ) → bit_and x 0xff ≡ x % 256
bit_and_ff x = omega (arith, bit_and_digit x 255, bit_and_7f (x / 2))

-- Masks of low digits, as remainders.
pub ruleset low_digits = (bit_and_03, bit_and_07, bit_and_0f, bit_and_3f, bit_and_7f, bit_and_ff)

bit_or_digit : (x y : ℕ) → bit_or x y ≡ bit_or (x / 2) (y / 2) * 2 + max (x % 2) (y % 2)
bit_or_digit zero y = simp bit_or-bitwise (omega arith)
bit_or_digit (suc x) y = simp bit_or-bitwise (lowest_digit (λ b. b) max x y)

or_zero_fuel : (n x : ℕ) → x ≤ n → bit_or x 0 ≡ x
or_zero_fuel n zero h = refl
or_zero_fuel zero (suc x) h = absurd (omega arith)
or_zero_fuel (suc n) (suc x) h =
    omega (arith, bit_or_digit (suc x) 0, or_zero_fuel n (suc x / 2) (omega arith))

-- `(q << k) | r` is a sum when `r` has at most `k` digits.
pub bit_or_shifted : (k q r : ℕ) → r < 2 ^ k → bit_or (q * 2 ^ k) r ≡ q * 2 ^ k + r
bit_or_shifted zero q r h = ground (arith, or_zero_fuel q q (omega arith))
bit_or_shifted (suc k) q r h = ground (
  arith,
  bit_or_digit (q * 2 ^ suc k) r,
  twice q k,
  bit_or_shifted k q (r / 2) (omega (arith, pow-suc 2 k)),
)
  where
    twice : (a b : ℕ) → a * 2 ^ suc b ≡ 2 * (a * 2 ^ b)
    twice a b = omega (arith, ap (λ (t : ℕ). a * t) (pow-suc 2 b))

bit_xor_digit : (x y : ℕ) → bit_xor x y ≡ bit_xor (x / 2) (y / 2) * 2 + differ (x % 2) (y % 2)
bit_xor_digit zero y = simp bit_xor-bitwise (omega arith)
bit_xor_digit (suc x) y = simp bit_xor-bitwise (lowest_digit (λ b. b) differ x y)

differ-lt : (x y : ℕ) → differ (x % 2) (y % 2) < 2
differ-lt x y = go (x % 2) (y % 2) (omega arith) (omega arith)
  where
    go : (a b : ℕ) → a < 2 → b < 2 → differ a b < 2
    go zero b ha hb = hb
    go (suc zero) zero ha hb = omega arith
    go (suc zero) (suc zero) ha hb = omega arith
    go (suc zero) (suc (suc b)) ha hb = absurd (omega arith)
    go (suc (suc a)) b ha hb = absurd (omega arith)

-- The low `k` digits and the ones above them do not meet.
pub bit_xor_split :
    (k a b x y : ℕ)
    → x < 2 ^ k
    → y < 2 ^ k
    → bit_xor (a * 2 ^ k + x) (b * 2 ^ k + y) ≡ bit_xor a b * 2 ^ k + bit_xor x y
bit_xor_split zero a b zero zero hx hy =
    let e : a * 2 ^ 0 + 0 ≡ a = omega arith in
    let e' : b * 2 ^ 0 + 0 ≡ b = omega arith in rw (e, e') (omega arith)
bit_xor_split zero a b zero (suc y) hx hy = absurd (omega arith)
bit_xor_split zero a b (suc x) y hx hy = absurd (omega arith)
bit_xor_split (suc k) a b x y hx hy =
    let p = pow-suc 2 k in
    let h : (c z : ℕ) → (c * 2 ^ suc k + z) / 2 ≡ c * 2 ^ k + z / 2 =
      λ c z. omega (arith, ap (λ (t : ℕ). c * t) p) in
    let l : (c z : ℕ) → (c * 2 ^ suc k + z) % 2 ≡ z % 2 =
      λ c z. omega (arith, ap (λ (t : ℕ). c * t) p) in
    rw
      (
        bit_xor_digit (a * 2 ^ suc k + x) (b * 2 ^ suc k + y),
        h a x,
        h b y,
        l a x,
        l b y,
        bit_xor_split k a b (x / 2) (y / 2) (omega arith) (omega arith),
      )
      (omega (arith, bit_xor_digit x y, ap (λ (t : ℕ). bit_xor a b * t) p))

pub bit_xor-lt : (k x y : ℕ) → x < 2 ^ k → y < 2 ^ k → bit_xor x y < 2 ^ k
bit_xor-lt zero zero zero hx hy = omega arith
bit_xor-lt zero zero (suc y) hx hy = absurd (omega arith)
bit_xor-lt zero (suc x) y hx hy = absurd (omega arith)
bit_xor-lt (suc k) x y hx hy = omega (
  arith,
  pow-suc 2 k,
  bit_xor_digit x y,
  differ-lt x y,
  bit_xor-lt k (x / 2) (y / 2) (omega (arith, pow-suc 2 k)) (omega (arith, pow-suc 2 k)),
)

differ_twice : (a b : ℕ) → a < 2 → b < 2 → differ (differ a b) b ≡ a
differ_twice zero zero ha hb = refl
differ_twice zero (suc zero) ha hb = refl
differ_twice zero (suc (suc b)) ha hb = absurd (omega arith)
differ_twice (suc zero) zero ha hb = refl
differ_twice (suc zero) (suc zero) ha hb = refl
differ_twice (suc zero) (suc (suc b)) ha hb = absurd (omega arith)
differ_twice (suc (suc a)) b ha hb = absurd (omega arith)

-- Exclusive or with the same number twice.
pub bit_xor_twice : (k x y : ℕ) → x < 2 ^ k → y < 2 ^ k → bit_xor (bit_xor x y) y ≡ x
bit_xor_twice zero zero zero hx hy = refl
bit_xor_twice zero zero (suc y) hx hy = absurd (omega arith)
bit_xor_twice zero (suc x) y hx hy = absurd (omega arith)
bit_xor_twice (suc k) x y hx hy =
    let d = bit_xor_digit x y in
    let h : bit_xor x y / 2 ≡ bit_xor (x / 2) (y / 2) = omega (arith, d, differ-lt x y) in
    let l : bit_xor x y % 2 ≡ differ (x % 2) (y % 2) = omega (arith, d, differ-lt x y) in
    rw
      (
        bit_xor_digit (bit_xor x y) y,
        h,
        l,
        bit_xor_twice k (x / 2) (y / 2) (omega (arith, pow-suc 2 k)) (omega (arith, pow-suc 2 k)),
        differ_twice (x % 2) (y % 2) (omega arith) (omega arith),
      )
      (omega arith)
