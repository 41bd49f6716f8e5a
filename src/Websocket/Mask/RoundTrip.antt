-- ===== src/Websocket/Mask/RoundTrip.antt =====
-- A masked message is unmasked by either width of prepared key.
use mathlib.Core.List.{append_assoc}
use remotedev.Base.{
  ℕ, ◌/◌, ◌%◌, ◌^◌, ◌<◌, ◌≡◌, refl, sym, ap, ◌∙◌, [], ◌∷◌, ◌++◌, List, bit_xor, Bytes, AreOctets,
  All, All-append, length, bit_or_shifted, arith,
}
use remotedev.Websocket.Mask.{load, prepare_key32, prepare_key64, mask_inplace}
use remotedev.Websocket.Mask.Rotation.{octets, mask_octets, mask_octets_twice}
use remotedev.Websocket.Mask.Width.{width4, width8}
use remotedev.Websocket.Mask.Fast.{mask_inplace-mask_octets}

-- A key written twice over masks as the key does.
mask_octets_doubled : (ks xs : Bytes) → mask_octets (ks ++ ks) xs ≡ mask_octets ks xs
unfolding mask_octets
mask_octets_doubled ks [] = refl
mask_octets_doubled [] (x ∷ xs) = refl
mask_octets_doubled (k ∷ ks) (x ∷ xs) = ap (◌∷◌ (bit_xor x k)) (
    ap (λ (l : Bytes). mask_octets l xs)
      (append_assoc ks (k ∷ ks) (k ∷ []) ∙ sym (append_assoc ks (k ∷ []) (ks ++ k ∷ [])))
    ∙ mask_octets_doubled (ks ++ k ∷ []) xs)

-- The four octets of a key.
unfoldable pub key_octets : ℕ → Bytes
key_octets key =
    (key % 2 ^ 8) ∷ (key / 2 ^ 8 % 2 ^ 8) ∷ (key / 2 ^ 16 % 2 ^ 8) ∷ (key / 2 ^ 24 % 2 ^ 8) ∷ []

key_octets_lem :
    (key : ℕ)
    → key < 2 ^ 32
    → (load (key_octets key) ≡ prepare_key32 key)
      × (load (key_octets key ++ key_octets key) ≡ prepare_key64 key)
unfolding load key_octets prepare_key32 prepare_key64
key_octets_lem key h = (omega arith, rw (bit_or_shifted 32 key key h) (omega arith))

key_octets-AreOctets : (key : ℕ) → AreOctets (key_octets key)
unfolding key_octets
key_octets-AreOctets key = omega arith

length-key_octets :
    (key : ℕ) → (length (key_octets key) ≡ 4) × (length (key_octets key ++ key_octets key) ≡ 8)
unfolding key_octets
length-key_octets key = (refl, refl)

octets-AreOctets :
    (bs : List (ℕ × Bytes)) → All (λ (b : ℕ × Bytes). AreOctets b.1) bs → AreOctets (octets bs)
octets-AreOctets [] h = tt
octets-AreOctets ((addr, p) ∷ bs) h = All-append (λ b. b < 256) p _ h.0 (octets-AreOctets bs h.1)

mask_inplace32 :
    (key : ℕ) (bs : List (ℕ × Bytes))
    → key < 2 ^ 32
    → All (λ (b : ℕ × Bytes). AreOctets b.1) bs
    → (mask_inplace 4 bs (prepare_key32 key)).0 ≡ mask_octets (key_octets key) (octets bs)
mask_inplace32 key bs h o = rw (← (key_octets_lem key h).0) (
    ap (λ (r : Bytes × ℕ). r.0)
      (mask_inplace-mask_octets 4 width4 bs (key_octets key) (length-key_octets key).0
        (key_octets-AreOctets key) o))

pub mask_inplace64 :
    (key : ℕ) (bs : List (ℕ × Bytes))
    → key < 2 ^ 32
    → All (λ (b : ℕ × Bytes). AreOctets b.1) bs
    → (mask_inplace 8 bs (prepare_key64 key)).0 ≡ mask_octets (key_octets key) (octets bs)
mask_inplace64 key bs h o =
    let ks = key_octets key in
    let k = key_octets-AreOctets key in
    rw (← (key_octets_lem key h).1) (
      ap (λ (r : Bytes × ℕ). r.0)
        (mask_inplace-mask_octets 8 width8 bs (ks ++ ks) (length-key_octets key).1
          (All-append (λ b. b < 256) ks ks k k) o))
    ∙ mask_octets_doubled ks (octets bs)

-- For every 32-bit key, octets that are masked with the 64-bit prepared key and unmasked with the
-- 32-bit one are what they were, however the two sides cut them into buffers and wherever the
-- buffers lie.
pub mask_inplace_unmask :
    (key : ℕ) (bs cs : List (ℕ × Bytes))
    → key < 2 ^ 32
    → All (λ (b : ℕ × Bytes). AreOctets b.1) bs
    → All (λ (b : ℕ × Bytes). AreOctets b.1) cs
    → octets cs ≡ (mask_inplace 8 bs (prepare_key64 key)).0
    → (mask_inplace 4 cs (prepare_key32 key)).0 ≡ octets bs
mask_inplace_unmask key bs cs h o o' e =
    mask_inplace32 key cs h o'
    ∙ ap (mask_octets (key_octets key)) (e ∙ mask_inplace64 key bs h o)
    ∙ mask_octets_twice (key_octets key) (octets bs) (key_octets-AreOctets key)
        (octets-AreOctets bs o)
