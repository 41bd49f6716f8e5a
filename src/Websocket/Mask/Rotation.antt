-- ===== src/Websocket/Mask/Rotation.antt =====
-- RFC 6455 5.3, one octet at a time: octet i is masked by octet i modulo the length of the key.
use mathlib.Core.List.{append_assoc, append-nil}
use remotedev.Base.{
  List, ℕ, zero, suc, ◌+◌, ◌<◌, ◌≡◌, refl, sym, ap, ◌∙◌, [], ◌∷◌, ◌++◌, bit_xor, Bytes, AreOctets,
  All-append, length, length-append, bit_xor-lt, bit_xor_twice, arith,
}

-- The octets of a buffer sequence, in order.
abbrev pub octets : List (ℕ × Bytes) → Bytes
octets [] = []
octets ((addr, p) ∷ bs) = p ++ octets bs

-- The key, moved on by one octet.
abbrev rotate1 : Bytes → Bytes
rotate1 [] = []
rotate1 (k ∷ ks) = ks ++ k ∷ []

abbrev pub rotate : ℕ → Bytes → Bytes
rotate zero ks = ks
rotate (suc n) ks = rotate n (rotate1 ks)

abbrev pub first : Bytes → ℕ
first [] = 0
first (k ∷ ks) = k

unfoldable pub mask_octets : Bytes → Bytes → Bytes
mask_octets ks [] = []
mask_octets ks (x ∷ xs) = bit_xor x (first ks) ∷ mask_octets (rotate1 ks) xs

pub mask_octets-append :
    (ks xs ys : Bytes)
    → mask_octets ks (xs ++ ys) ≡ mask_octets ks xs ++ mask_octets (rotate (length xs) ks) ys
unfolding mask_octets
mask_octets-append ks [] ys = refl
mask_octets-append ks (x ∷ xs) ys = rw (mask_octets-append (rotate1 ks) xs ys)

pub rotate-add : (m n : ℕ) (ks : Bytes) {k : ℕ} → k ≡ m + n → rotate k ks ≡ rotate n (rotate m ks)
rotate-add zero n ks {k} e = let e' : k ≡ n = omega arith in rw e'
rotate-add (suc m) n ks {k} e =
    let e' : k ≡ suc (m + n) = omega arith in rw e' (rotate-add m n (rotate1 ks) refl)

length-rotate1 : (ks : Bytes) → length (rotate1 ks) ≡ length ks
length-rotate1 [] = refl
length-rotate1 (k ∷ ks) = omega (arith, length-append ks (k ∷ []))

pub length-rotate : (n : ℕ) (ks : Bytes) → length (rotate n ks) ≡ length ks
length-rotate zero ks = refl
length-rotate (suc n) ks = length-rotate n (rotate1 ks) ∙ length-rotate1 ks

rotate1-AreOctets : (ks : Bytes) → AreOctets ks → AreOctets (rotate1 ks)
rotate1-AreOctets [] h = tt
rotate1-AreOctets (k ∷ ks) h = All-append (λ b. b < 256) ks (k ∷ []) h.1 (h.0, tt)

pub rotate-AreOctets : (n : ℕ) (ks : Bytes) → AreOctets ks → AreOctets (rotate n ks)
rotate-AreOctets zero ks h = h
rotate-AreOctets (suc n) ks h = rotate-AreOctets n (rotate1 ks) (rotate1-AreOctets ks h)

-- A rotation by some octets brings them behind the others; by all, it changes nothing.
rotate-length_append : (xs ys : Bytes) → rotate (length xs) (xs ++ ys) ≡ ys ++ xs
rotate-length_append [] ys = sym (append-nil ys)
rotate-length_append (x ∷ xs) ys =
    ap (rotate (length xs)) (append_assoc xs ys (x ∷ []))
    ∙ rotate-length_append xs (ys ++ x ∷ [])
    ∙ append_assoc ys (x ∷ []) xs

pub rotate-length : (ks : Bytes) → rotate (length ks) ks ≡ ks
rotate-length ks = ap (rotate (length ks)) (sym (append-nil ks)) ∙ rotate-length_append ks []

first-lt : (ks : Bytes) → AreOctets ks → first ks < 256
first-lt [] h = omega arith
first-lt (k ∷ ks) h = h.0

mask_octets-AreOctets :
    (ks xs : Bytes) → AreOctets ks → AreOctets xs → AreOctets (mask_octets ks xs)
unfolding mask_octets
mask_octets-AreOctets ks [] h o = tt
mask_octets-AreOctets ks (x ∷ xs) h o = (
  bit_xor-lt 8 x (first ks) o.0 (first-lt ks h),
  mask_octets-AreOctets (rotate1 ks) xs (rotate1-AreOctets ks h) o.1,
)

-- Masking with the same key a second time gives the octets back.
pub mask_octets_twice :
    (ks xs : Bytes) → AreOctets ks → AreOctets xs → mask_octets ks (mask_octets ks xs) ≡ xs
unfolding mask_octets
mask_octets_twice ks [] h o = refl
mask_octets_twice ks (x ∷ xs) h o = rw (
  bit_xor_twice 8 x (first ks) o.0 (first-lt ks h),
  mask_octets_twice (rotate1 ks) xs (rotate1-AreOctets ks h) o.1,
)

length-mask_octets : (ks xs : Bytes) → length (mask_octets ks xs) ≡ length xs
unfolding mask_octets
length-mask_octets ks [] = refl
length-mask_octets ks (x ∷ xs) = ap suc (length-mask_octets (rotate1 ks) xs)
