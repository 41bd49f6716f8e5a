-- ===== src/Websocket/Mask.antt =====
-- include/beast/websocket/detail/mask.hpp: prepare_key, ror, mask_inplace_fast and mask_inplace.
-- Both overloads of `mask_inplace_fast` are one function over the key's octet count `w`, 4 or 8;
-- a key is a number below `2 ^ (8 * w)`. A buffer is its address and its octets. A word is read
-- and written lowest octet first, as on the little-endian machines for which the code is written.
pub mod Rotation
pub mod Width
pub mod Fast
pub mod RoundTrip
mod Tests
use remotedev.Base.{
  ◌≡◌, refl, ℕ, zero, suc, ◌+◌, ◌-◌, ◌*◌, ◌/◌, ◌%◌, ◌^◌, [], ◌∷◌, ◌++◌, List, bit_and, bit_or,
  bit_xor, Bytes, length, take, drop, leb, ◌==◌, if◌then◌else◌,
}

-- `std::uint32_t` and `std::uint64_t` prepared keys.
pub prepare_key32 : ℕ → ℕ
prepare_key32 key = key

pub prepare_key64 : ℕ → ℕ
prepare_key64 key = bit_or (key * 2 ^ 32) key

-- Shifts of a `w`-octet word. Shifting by the whole width, which C++ leaves undefined, does not
-- occur: `n` is not a multiple of the width where this is called.
pub ror : ℕ → ℕ → ℕ → ℕ
ror w t n =
    let bits = w * 8 in
    let n' = bit_and n (bits - 1) in bit_or (t * 2 ^ (bits - n') % 2 ^ bits) (t / 2 ^ n')

-- The cases of a switch fall through to the ones below: the first `d` octets, each with its
-- octet of the key.
pub xor_first : ℕ → ℕ → Bytes → Bytes
xor_first zero key p = p
xor_first (suc d) key [] = []
xor_first (suc d) key (x ∷ p) = bit_xor x (key % 2 ^ 8) ∷ xor_first d (key / 2 ^ 8) p

-- A word in memory.
pub load : Bytes → ℕ
load [] = 0
load (b ∷ bs) = b + 2 ^ 8 * load bs

pub store : ℕ → ℕ → Bytes
store zero v = []
store (suc w) v = (v % 2 ^ 8) ∷ store w (v / 2 ^ 8)

-- `for(auto i = n / sizeof(key); i; --i) *p ^= key, p += sizeof(key)`, and then the leftovers
-- of a switch on `m`.
pub mask_words : ℕ → ℕ → ℕ → ℕ → Bytes → Bytes
mask_words w zero m key p = xor_first m key p
mask_words w (suc i) m key p =
    store w (bit_xor (load (take w p)) key) ++ mask_words w i m key (drop w p)

-- The octets before the first aligned address; none if the buffer is shorter than a key.
pub unaligned : ℕ → ℕ → ℕ → ℕ
unaligned w addr n =
    if leb w n then (let i = bit_and addr (w - 1) in if i == 0 then 0 else w - i) else 0

-- The octets masked, and the key for what follows them.
pub mask_inplace_fast : ℕ → ℕ → Bytes → ℕ → Bytes × ℕ
mask_inplace_fast w addr p key =
    let d = unaligned w addr (length p) in
    let key1 = if d == 0 then key else ror w key (8 * d) in
    let n = length p - d in
    let m = bit_and n (w - 1) in
    let head = xor_first d key (take d p) in
    let rest = mask_words w (n / w) m key1 (drop d p) in
    (head ++ rest, if m == 0 then key1 else ror w key1 (8 * m))

-- `mask_inplace` over a buffer sequence: each buffer's octets, and the key that is left.
pub mask_inplace : ℕ → List (ℕ × Bytes) → ℕ → Bytes × ℕ
mask_inplace w [] key = ([], key)
mask_inplace w ((addr, p) ∷ bs) key =
    let (out, key') = mask_inplace_fast w addr p key in
    let (rest, last) = mask_inplace w bs key' in (out ++ rest, last)

pub mask_inplace_nil : (w key : ℕ) → mask_inplace w [] key ≡ ([], key)
mask_inplace_nil w key = unfold mask_inplace in refl
