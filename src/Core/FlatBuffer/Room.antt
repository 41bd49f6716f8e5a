-- ===== src/Core/FlatBuffer/Room.antt =====
-- The size of a new block: enough for what is asked and within the limit.
use remotedev.Base.{
  ℕ, zero, suc, ◌+◌, ◌/◌, ◌%◌, ◌^◌, ◌≤◌, ◌<◌, ◌≡◌, ap, false, ltb, inl, inr, Bool-cases, arith,
}
use native.Mathlib.Nat.{pow-le-pow_right, mod-eq_of_lt}
use remotedev.Core.FlatBuffer.{next_pow2_loop, next_pow2, max, min_size, new_size}

-- The loop counts the bits of `x`, at least.
next_pow2_loop_lower :
    (fuel x n : ℕ) → x ≤ fuel → (m : ℕ) × (next_pow2_loop fuel x n ≡ n + m) × (x < 2 ^ m)
unfolding next_pow2_loop
next_pow2_loop_lower zero x n h = (0, omega arith, omega arith)
next_pow2_loop_lower (suc fuel) x n h = elim (Bool-cases (ltb 0 x)) [
  | inl t ↦
      let r = next_pow2_loop_lower fuel (x / 2) (suc n) (ground arith) in
      (suc r.0, rw t (omega (arith, r.1)), omega (arith, r.2))
  | inr t ↦ (0, rw t (omega arith), ground arith)
]

-- The loop counts no more than the bits of `x`.
next_pow2_loop_upper : (fuel x n k : ℕ) → x < 2 ^ k → next_pow2_loop fuel x n ≤ n + k
unfolding next_pow2_loop
next_pow2_loop_upper zero x n k h = omega arith
next_pow2_loop_upper (suc fuel) x n zero h =
    let t : ltb 0 x ≡ false = ground arith in rw t (omega arith)
next_pow2_loop_upper (suc fuel) x n (suc k) h = elim (Bool-cases (ltb 0 x)) [
  | inl t ↦ rw t (omega (arith, next_pow2_loop_upper fuel (x / 2) (suc n) k (omega arith)))
  | inr t ↦ rw t (omega arith)
]

next_pow2_above : (x : ℕ) → x < 2 ^ 63 → x < next_pow2 x
unfolding next_pow2
next_pow2_above x h =
    let b = next_pow2_loop x x 0 in
    let (m, e, above) = next_pow2_loop_lower x x 0 (omega arith) in
    let bounded : 2 ^ b ≤ 2 ^ 63 =
      pow-le-pow_right (omega arith) (next_pow2_loop_upper x x 0 63 h) in
    let small : 2 ^ b % 2 ^ 64 ≡ 2 ^ b = mod-eq_of_lt (omega (arith, bounded)) in
    let same : 2 ^ b ≡ 2 ^ m = ap (λ (k : ℕ). 2 ^ k) (omega (arith, e)) in
    omega (arith, small, same, above)

pub new_size_fits :
    (limit n : ℕ) → n < 2 ^ 63 → n ≤ limit → (n ≤ new_size limit n) × (new_size limit n ≤ limit)
unfolding new_size max min_size
new_size_fits limit n small h = ground (arith, next_pow2_above n small)
