-- ===== src/Websocket/Mask/Fast.antt =====
-- The word-at-a-time masking of mask.hpp against masking one octet at a time.
use mathlib.Core.List.{append_assoc, append-nil}
use remotedev.Base.{
  ℕ, zero, suc, ◌+◌, ◌-◌, ◌*◌, ◌/◌, ◌%◌, ◌^◌, ◌≤◌, ◌<◌, ◌≡◌, refl, sym, ap, ap₂, ◌∙◌, [], ◌∷◌, ◌++◌,
  List, bit_xor, bit_and, Bytes, AreOctets, All, length, take, drop, length-append, length-take,
  length-drop, take-append-drop, bit_xor_split, bit_xor-lt, ◌==◌, if◌then◌else◌, ==_ne, arith,
}
use remotedev.Websocket.Mask.{
  ror, xor_first, load, store, mask_words, unaligned, mask_inplace_fast, mask_inplace,
}
use remotedev.Websocket.Mask.Rotation.{
  octets, rotate, mask_octets, mask_octets-append, rotate-add, length-rotate, rotate-length,
  rotate-AreOctets,
}
use remotedev.Websocket.Mask.Width.{IsWidth}

xor_first-mask_octets :
    (d : ℕ) (ks js p : Bytes)
    → length p ≤ d
    → d ≤ length ks
    → AreOctets ks
    → xor_first d (load ks) p ≡ mask_octets (ks ++ js) p
unfolding xor_first mask_octets load
xor_first-mask_octets zero ks js [] h k o = refl
xor_first-mask_octets zero ks js (x ∷ p) h k o = absurd (omega arith)
xor_first-mask_octets (suc d) ks js [] h k o = refl
xor_first-mask_octets (suc d) [] js (x ∷ p) h k o = absurd (omega arith)
xor_first-mask_octets (suc d) (k ∷ ks) js (x ∷ p) h l o =
    let low : (k + 2 ^ 8 * load ks) % 2 ^ 8 ≡ k = omega arith in
    let high : (k + 2 ^ 8 * load ks) / 2 ^ 8 ≡ load ks = omega arith in
    rw (low, high, append_assoc ks js (k ∷ []))
      (ap (◌∷◌ (bit_xor x k))
        (xor_first-mask_octets d ks (js ++ k ∷ []) p (omega arith) (omega arith) o.1))

store_word :
    (w : ℕ) (ks js p : Bytes)
    → length p ≡ w
    → length ks ≡ w
    → AreOctets ks
    → AreOctets p
    → store w (bit_xor (load p) (load ks)) ≡ mask_octets (ks ++ js) p
unfolding store load mask_octets
store_word zero ks js [] lp lk o q = refl
store_word zero ks js (x ∷ p) lp lk o q = absurd (omega arith)
store_word (suc w) [] js p lp lk o q = absurd (omega arith)
store_word (suc w) (k ∷ ks) js [] lp lk o q = absurd (omega arith)
store_word (suc w) (k ∷ ks) js (x ∷ p) lp lk o q =
    let a : x + 2 ^ 8 * load p ≡ load p * 2 ^ 8 + x = omega arith in
    let b : k + 2 ^ 8 * load ks ≡ load ks * 2 ^ 8 + k = omega arith in
    let lt = bit_xor-lt 8 x k q.0 o.0 in
    let e = bit_xor_split 8 (load p) (load ks) x k q.0 o.0 in
    let low : (bit_xor (load p) (load ks) * 2 ^ 8 + bit_xor x k) % 2 ^ 8 ≡ bit_xor x k =
      omega arith in
    let high : (bit_xor (load p) (load ks) * 2 ^ 8 + bit_xor x k) / 2 ^ 8
        ≡ bit_xor (load p) (load ks) =
      omega arith in
    rw (a, b, e, low, high, append_assoc ks js (k ∷ []))
      (ap (◌∷◌ (bit_xor x k))
        (store_word w ks (js ++ k ∷ []) p (omega arith) (omega arith) o.1 q.1))

take-AreOctets : (n : ℕ) (p : Bytes) → AreOctets p → AreOctets (take n p)
take-AreOctets zero p h = tt
take-AreOctets (suc n) [] h = tt
take-AreOctets (suc n) (x ∷ p) h = (h.0, take-AreOctets n p h.1)

drop-AreOctets : (n : ℕ) (p : Bytes) → AreOctets p → AreOctets (drop n p)
drop-AreOctets zero p h = h
drop-AreOctets (suc n) [] h = tt
drop-AreOctets (suc n) (x ∷ p) h = drop-AreOctets n p h.1

-- With nothing behind the key.
xor_first_key :
    (d : ℕ) (ks p : Bytes)
    → length p ≤ d
    → d ≤ length ks
    → AreOctets ks
    → xor_first d (load ks) p ≡ mask_octets ks p
xor_first_key d ks p h k o =
    xor_first-mask_octets d ks [] p h k o ∙ ap (λ (l : Bytes). mask_octets l p) (append-nil ks)

-- Masking in two parts, the second with the key moved on.
mask_octets_cut :
    (n : ℕ) (ks p : Bytes)
    → n ≤ length p
    → mask_octets ks p ≡ mask_octets ks (take n p) ++ mask_octets (rotate n ks) (drop n p)
mask_octets_cut n ks p h =
    let l : length (take n p) ≡ n = omega (arith, length-take n p) in
    ap (mask_octets ks) (sym (take-append-drop n p))
    ∙ mask_octets-append ks (take n p) (drop n p)
    ∙ ap (λ (k : ℕ). mask_octets ks (take n p) ++ mask_octets (rotate k ks) (drop n p)) l

rotate_full : (n : ℕ) (ks : Bytes) → length ks ≡ n → rotate n ks ≡ ks
rotate_full n ks e = ap (λ (k : ℕ). rotate k ks) (sym e) ∙ rotate-length ks

module _ (w : ℕ) (ks : Bytes) (size : length ks ≡ w) (o : AreOctets ks) where
  mask_words-mask_octets :
      (i m : ℕ) (p : Bytes)
      → length p ≡ i * w + m
      → m < w
      → AreOctets p
      → mask_words w i m (load ks) p ≡ mask_octets ks p
  unfolding mask_words
  mask_words-mask_octets zero m p e h q = xor_first_key m ks p (omega arith) (omega arith) o
  mask_words-mask_octets (suc i) m p e h q =
      let fits : w ≤ length p = omega arith in
      rw
        (
          store_word w ks [] (take w p) (omega (arith, length-take w p)) size o
              (take-AreOctets w p q),
          mask_words-mask_octets i m (drop w p) (omega (arith, length-drop w p)) h
              (drop-AreOctets w p q),
          append-nil ks,
        )
        (sym (
          mask_octets_cut w ks p fits
          ∙ ap (λ (l : Bytes). mask_octets ks (take w p) ++ mask_octets l (drop w p))
              (rotate_full w ks size)))

unaligned-le : (w addr n : ℕ) → IsWidth w → (unaligned w addr n ≤ n) × (unaligned w addr n < w)
unfolding unaligned
unaligned-le w addr n v = ground (arith, v.positive, v.mask_is_mod addr)

rotate_words : (w i : ℕ) (ks : Bytes) → length ks ≡ w → rotate (i * w) ks ≡ ks
rotate_words w zero ks e = let z : zero * w ≡ 0 = omega arith in rw z
rotate_words w (suc i) ks e =
    rotate-add w (i * w) ks {k = suc i * w} (omega arith)
    ∙ ap (rotate (i * w)) (rotate_full w ks e)
    ∙ rotate_words w i ks e

-- The rotation that is skipped when there is nothing to rotate by.
ror_by :
    (w d : ℕ) (ks : Bytes)
    → IsWidth w
    → d < w
    → length ks ≡ w
    → AreOctets ks
    → (if d == 0 then load ks else ror w (load ks) (8 * d)) ≡ load (rotate d ks)
ror_by w zero ks v h e o = refl
ror_by w (suc d) ks v h e o =
    rw (==_ne (suc d) 0 (omega arith)) (v.ror-load (suc d) ks (omega arith) h e o)

module _ (w : ℕ) (v : IsWidth w) where
  rotate_all :
      (d n m : ℕ) (ks : Bytes)
      → length ks ≡ w
      → m ≡ n % w
      → rotate m (rotate d ks) ≡ rotate (d + n) ks
  rotate_all d n m ks e h =
      let q : n ≡ n / w * w + m = grind arith in
      ap (rotate m) (sym (rotate_words w (n / w) (rotate d ks) (length-rotate d ks ∙ e)))
      ∙ sym (rotate-add (n / w * w) m (rotate d ks) q)
      ∙ sym (rotate-add d n ks refl)

  -- With a key of four or eight octets, a buffer of octets at any address is masked as if one octet
  -- at a time, and the key is left where the next octet goes on.
  pub mask_inplace_fast-mask_octets :
      (addr : ℕ) (ks p : Bytes)
      → length ks ≡ w
      → AreOctets ks
      → AreOctets p
      → mask_inplace_fast w addr p (load ks) ≡ (mask_octets ks p, load (rotate (length p) ks))
  unfolding mask_inplace_fast
  mask_inplace_fast-mask_octets addr ks p e o q =
      let d = unaligned w addr (length p) in
      let b = unaligned-le w addr (length p) v in
      let n = length p - d in
      let m = bit_and n (w - 1) in
      let ks' = rotate d ks in
      let e' = length-rotate d ks ∙ e in
      let o' = rotate-AreOctets d ks o in
      let mm = v.mask_is_mod n in
      let lt : m < w = ground (arith, v.positive) in
      let divided : n ≡ n / w * w + m = grind (arith, mm) in
      let total : d + n ≡ length p = omega arith in
      let k1 = ror_by w d ks v b.1 e o in
      let k2 = ror_by w m ks' v lt e' o' in
      let head = xor_first_key d ks (take d p) (omega (arith, length-take d p)) (omega arith) o in
      let body =
        mask_words-mask_octets w ks' e' o' (n / w) m (drop d p) (length-drop d p ∙ divided) lt
          (drop-AreOctets d p q) in
      rw (k1, k2, head, body)
        (ap₂ (λ (a : Bytes) (b : ℕ). (a, b)) (sym (mask_octets_cut d ks p b.0))
          (ap load (rotate_all d n m ks e mm ∙ ap (λ (k : ℕ). rotate k ks) total)))

  -- With a key of four or eight octets, however a message is cut into buffers, and wherever they
  -- lie, its octets are masked as if one at a time, and the key is left where the next octet goes
  -- on.
  pub mask_inplace-mask_octets :
      (bs : List (ℕ × Bytes)) (ks : Bytes)
      → length ks ≡ w
      → AreOctets ks
      → All (λ (b : ℕ × Bytes). AreOctets b.1) bs
      → mask_inplace w bs (load ks)
        ≡ (mask_octets ks (octets bs), load (rotate (length (octets bs)) ks))
  unfolding mask_inplace mask_octets
  mask_inplace-mask_octets [] ks e o q = refl
  mask_inplace-mask_octets ((addr, p) ∷ bs) ks e o q =
      let ks' = rotate (length p) ks in
      rw (mask_inplace_fast-mask_octets addr ks p e o q.0) (
        rw
          (mask_inplace-mask_octets bs ks' (length-rotate (length p) ks ∙ e)
            (rotate-AreOctets (length p) ks o) q.1)
          (ap₂ (λ (a : Bytes) (b : ℕ). (a, b)) (sym (mask_octets-append ks p (octets bs)))
            (ap load
              (sym (rotate-add (length p) (length (octets bs)) ks (length-append p (octets bs)))))))
