-- ===== src/Websocket/Mask/Width.antt =====
-- What the word operations of mask.hpp rest on, for keys of four and of eight octets.
use remotedev.Base.{
  ℕ, zero, suc, ◌+◌, ◌-◌, ◌*◌, ◌/◌, ◌%◌, ◌^◌, ◌<◌, ◌≡◌, refl, [], ◌∷◌, bit_and, Bytes, AreOctets,
  length, bit_and_03, bit_and_07, bit_or_shifted, arith,
}
use remotedev.Websocket.Mask.{ror, load}
use remotedev.Websocket.Mask.Rotation.{rotate}

pub record IsWidth (w : ℕ) : Type 0 where
  pub positive : 0 < w
  pub mask_is_mod : (n : ℕ) → bit_and n (w - 1) ≡ n % w
  pub ror-load :
      (d : ℕ) (ks : Bytes)
      → 0 < d
      → d < w
      → length ks ≡ w
      → AreOctets ks
      → ror w (load ks) (8 * d) ≡ load (rotate d ks)

-- A rotation by `n` digits, 0 < n, brings the low `n` digits above the other `k`.
ror_sum :
    (w t n k : ℕ)
    → bit_and n (w * 8 - 1) ≡ n
    → w * 8 - n ≡ k
    → t * 2 ^ k % 2 ^ (w * 8) ≡ t % 2 ^ n * 2 ^ k
    → t / 2 ^ n < 2 ^ k
    → ror w t n ≡ t % 2 ^ n * 2 ^ k + t / 2 ^ n
unfolding ror
ror_sum w t n k h e s l = rw (h, e, s) (bit_or_shifted k (t % 2 ^ n) (t / 2 ^ n) l)

ror4-load :
    (d : ℕ) (a b c e : ℕ)
    → 0 < d
    → d < 4
    → AreOctets (a ∷ b ∷ c ∷ e ∷ [])
    → ror 4 (load (a ∷ b ∷ c ∷ e ∷ [])) (8 * d) ≡ load (rotate d (a ∷ b ∷ c ∷ e ∷ []))
unfolding load
ror4-load zero a b c e p q o = absurd (omega arith)
ror4-load (suc zero) a b c e p q o =
    rw (ror_sum 4 (load (a ∷ b ∷ c ∷ e ∷ [])) 8 24 refl refl (omega arith) (omega arith))
      (omega arith)
ror4-load (suc (suc zero)) a b c e p q o =
    rw (ror_sum 4 (load (a ∷ b ∷ c ∷ e ∷ [])) 16 16 refl refl (omega arith) (omega arith))
      (omega arith)
ror4-load (suc (suc (suc zero))) a b c e p q o =
    rw (ror_sum 4 (load (a ∷ b ∷ c ∷ e ∷ [])) 24 8 refl refl (omega arith) (omega arith))
      (omega arith)
ror4-load (suc (suc (suc (suc d)))) a b c e p q o = absurd (omega arith)

ror8-load :
    (d : ℕ) (a b c e f g h i : ℕ)
    → 0 < d
    → d < 8
    → AreOctets (a ∷ b ∷ c ∷ e ∷ f ∷ g ∷ h ∷ i ∷ [])
    → ror 8 (load (a ∷ b ∷ c ∷ e ∷ f ∷ g ∷ h ∷ i ∷ [])) (8 * d)
      ≡ load (rotate d (a ∷ b ∷ c ∷ e ∷ f ∷ g ∷ h ∷ i ∷ []))
unfolding load
ror8-load zero a b c e f g h i p q o = absurd (omega arith)
ror8-load (suc zero) a b c e f g h i p q o =
    rw
      (ror_sum 8 (load (a ∷ b ∷ c ∷ e ∷ f ∷ g ∷ h ∷ i ∷ [])) 8 56 refl refl (omega arith)
        (omega arith))
      (omega arith)
ror8-load (suc (suc zero)) a b c e f g h i p q o =
    rw
      (ror_sum 8 (load (a ∷ b ∷ c ∷ e ∷ f ∷ g ∷ h ∷ i ∷ [])) 16 48 refl refl (omega arith)
        (omega arith))
      (omega arith)
ror8-load (suc (suc (suc zero))) a b c e f g h i p q o =
    rw
      (ror_sum 8 (load (a ∷ b ∷ c ∷ e ∷ f ∷ g ∷ h ∷ i ∷ [])) 24 40 refl refl (omega arith)
        (omega arith))
      (omega arith)
ror8-load (suc (suc (suc (suc zero)))) a b c e f g h i p q o =
    rw
      (ror_sum 8 (load (a ∷ b ∷ c ∷ e ∷ f ∷ g ∷ h ∷ i ∷ [])) 32 32 refl refl (omega arith)
        (omega arith))
      (omega arith)
ror8-load (suc (suc (suc (suc (suc zero))))) a b c e f g h i p q o =
    rw
      (ror_sum 8 (load (a ∷ b ∷ c ∷ e ∷ f ∷ g ∷ h ∷ i ∷ [])) 40 24 refl refl (omega arith)
        (omega arith))
      (omega arith)
ror8-load (suc (suc (suc (suc (suc (suc zero)))))) a b c e f g h i p q o =
    rw
      (ror_sum 8 (load (a ∷ b ∷ c ∷ e ∷ f ∷ g ∷ h ∷ i ∷ [])) 48 16 refl refl (omega arith)
        (omega arith))
      (omega arith)
ror8-load (suc (suc (suc (suc (suc (suc (suc zero))))))) a b c e f g h i p q o =
    rw
      (ror_sum 8 (load (a ∷ b ∷ c ∷ e ∷ f ∷ g ∷ h ∷ i ∷ [])) 56 8 refl refl (omega arith)
        (omega arith))
      (omega arith)
ror8-load (suc (suc (suc (suc (suc (suc (suc (suc d)))))))) a b c e f g h i p q o =
    absurd (omega arith)

ror4 :
    (d : ℕ) (ks : Bytes)
    → 0 < d
    → d < 4
    → length ks ≡ 4
    → AreOctets ks
    → ror 4 (load ks) (8 * d) ≡ load (rotate d ks)
ror4 d [] p q l o = absurd (omega arith)
ror4 d (a ∷ []) p q l o = absurd (omega arith)
ror4 d (a ∷ b ∷ []) p q l o = absurd (omega arith)
ror4 d (a ∷ b ∷ c ∷ []) p q l o = absurd (omega arith)
ror4 d (a ∷ b ∷ c ∷ e ∷ []) p q l o = ror4-load d a b c e p q o
ror4 d (a ∷ b ∷ c ∷ e ∷ j ∷ r) p q l o = absurd (omega arith)

ror8 :
    (d : ℕ) (ks : Bytes)
    → 0 < d
    → d < 8
    → length ks ≡ 8
    → AreOctets ks
    → ror 8 (load ks) (8 * d) ≡ load (rotate d ks)
ror8 d [] p q l o = absurd (omega arith)
ror8 d (a ∷ []) p q l o = absurd (omega arith)
ror8 d (a ∷ b ∷ []) p q l o = absurd (omega arith)
ror8 d (a ∷ b ∷ c ∷ []) p q l o = absurd (omega arith)
ror8 d (a ∷ b ∷ c ∷ e ∷ []) p q l o = absurd (omega arith)
ror8 d (a ∷ b ∷ c ∷ e ∷ f ∷ []) p q l o = absurd (omega arith)
ror8 d (a ∷ b ∷ c ∷ e ∷ f ∷ g ∷ []) p q l o = absurd (omega arith)
ror8 d (a ∷ b ∷ c ∷ e ∷ f ∷ g ∷ h ∷ []) p q l o = absurd (omega arith)
ror8 d (a ∷ b ∷ c ∷ e ∷ f ∷ g ∷ h ∷ i ∷ []) p q l o = ror8-load d a b c e f g h i p q o
ror8 d (a ∷ b ∷ c ∷ e ∷ f ∷ g ∷ h ∷ i ∷ j ∷ r) p q l o = absurd (omega arith)

-- 32-bit keys.
pub width4 : IsWidth 4
width4 = record { positive = omega arith; mask_is_mod = bit_and_03; ror-load = ror4 }

-- 64-bit keys.
pub width8 : IsWidth 8
width8 = record { positive = omega arith; mask_is_mod = bit_and_07; ror-load = ror8 }
