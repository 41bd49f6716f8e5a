-- ===== src/Core/Base64.antt =====
-- include/beast/core/detail/base64.hpp: octets as a padded string of the base64 alphabet and back.
pub mod RoundTrip
use remotedev.Base.{
  ℕ, zero, suc, ◌+◌, ◌*◌, ◌/◌, ◌%◌, bit_and, Bool, true, false, ◌||◌, Option, none, some, List, [],
  ◌∷◌, ◌++◌, Bytes, get_elem?, ◌==◌, if◌then◌else◌,
}

-- The element of a table, which the code reads in range.
entry : ℕ → List ℕ → ℕ
entry i table = elim (get_elem? table i) [ none ↦ 0 | some x ↦ x ]

abbrev get_alphabet : List ℕ
get_alphabet =
    65 ∷ 66 ∷ 67 ∷ 68 ∷ 69 ∷ 70 ∷ 71 ∷ 72 ∷ 73 ∷ 74 ∷ 75 ∷ 76 ∷ 77 ∷ 78 ∷ 79 ∷ 80 ∷ 81 ∷ 82 ∷ 83
    ∷ 84 ∷ 85 ∷ 86 ∷ 87 ∷ 88 ∷ 89 ∷ 90 ∷ 97 ∷ 98 ∷ 99 ∷ 100 ∷ 101 ∷ 102 ∷ 103 ∷ 104 ∷ 105 ∷ 106
    ∷ 107 ∷ 108 ∷ 109 ∷ 110 ∷ 111 ∷ 112 ∷ 113 ∷ 114 ∷ 115 ∷ 116 ∷ 117 ∷ 118 ∷ 119 ∷ 120 ∷ 121 ∷ 122
    ∷ 48 ∷ 49 ∷ 50 ∷ 51 ∷ 52 ∷ 53 ∷ 54 ∷ 55 ∷ 56 ∷ 57 ∷ 43 ∷ 47 ∷ []

-- A signed char of -1 is 255 here.
abbrev minus_one : ℕ
minus_one = 255

abbrev get_inverse : List ℕ
get_inverse =
    255 ∷ 255 ∷ 255 ∷ 255 ∷ 255 ∷ 255 ∷ 255 ∷ 255 ∷ 255 ∷ 255 ∷ 255 ∷ 255 ∷ 255 ∷ 255 ∷ 255 ∷ 255
    ∷ 255 ∷ 255 ∷ 255 ∷ 255 ∷ 255 ∷ 255 ∷ 255 ∷ 255 ∷ 255 ∷ 255 ∷ 255 ∷ 255 ∷ 255 ∷ 255 ∷ 255 ∷ 255
    ∷ 255 ∷ 255 ∷ 255 ∷ 255 ∷ 255 ∷ 255 ∷ 255 ∷ 255 ∷ 255 ∷ 255 ∷ 255 ∷ 62 ∷ 255 ∷ 255 ∷ 255 ∷ 63
    ∷ 52 ∷ 53 ∷ 54 ∷ 55 ∷ 56 ∷ 57 ∷ 58 ∷ 59 ∷ 60 ∷ 61 ∷ 255 ∷ 255 ∷ 255 ∷ 255 ∷ 255 ∷ 255 ∷ 255
    ∷ 255 ∷ 1 ∷ 2 ∷ 3 ∷ 4 ∷ 5 ∷ 6 ∷ 7 ∷ 8 ∷ 9 ∷ 10 ∷ 11 ∷ 12 ∷ 13 ∷ 14 ∷ 15 ∷ 16 ∷ 17 ∷ 18 ∷ 19 ∷ 20
    ∷ 21 ∷ 22 ∷ 23 ∷ 24 ∷ 25 ∷ 255 ∷ 255 ∷ 255 ∷ 255 ∷ 255 ∷ 255 ∷ 26 ∷ 27 ∷ 28 ∷ 29 ∷ 30 ∷ 31 ∷ 32
    ∷ 33 ∷ 34 ∷ 35 ∷ 36 ∷ 37 ∷ 38 ∷ 39 ∷ 40 ∷ 41 ∷ 42 ∷ 43 ∷ 44 ∷ 45 ∷ 46 ∷ 47 ∷ 48 ∷ 49 ∷ 50 ∷ 51
    ∷ 255 ∷ 255 ∷ 255 ∷ 255 ∷ 255 ∷ 255 ∷ 255 ∷ 255 ∷ 255 ∷ 255 ∷ 255 ∷ 255 ∷ 255 ∷ 255 ∷ 255 ∷ 255
    ∷ 255 ∷ 255 ∷ 255 ∷ 255 ∷ 255 ∷ 255 ∷ 255 ∷ 255 ∷ 255 ∷ 255 ∷ 255 ∷ 255 ∷ 255 ∷ 255 ∷ 255 ∷ 255
    ∷ 255 ∷ 255 ∷ 255 ∷ 255 ∷ 255 ∷ 255 ∷ 255 ∷ 255 ∷ 255 ∷ 255 ∷ 255 ∷ 255 ∷ 255 ∷ 255 ∷ 255 ∷ 255
    ∷ 255 ∷ 255 ∷ 255 ∷ 255 ∷ 255 ∷ 255 ∷ 255 ∷ 255 ∷ 255 ∷ 255 ∷ 255 ∷ 255 ∷ 255 ∷ 255 ∷ 255 ∷ 255
    ∷ 255 ∷ 255 ∷ 255 ∷ 255 ∷ 255 ∷ 255 ∷ 255 ∷ 255 ∷ 255 ∷ 255 ∷ 255 ∷ 255 ∷ 255 ∷ 255 ∷ 255 ∷ 255
    ∷ 255 ∷ 255 ∷ 255 ∷ 255 ∷ 255 ∷ 255 ∷ 255 ∷ 255 ∷ 255 ∷ 255 ∷ 255 ∷ 255 ∷ 255 ∷ 255 ∷ 255 ∷ 255
    ∷ 255 ∷ 255 ∷ 255 ∷ 255 ∷ 255 ∷ 255 ∷ 255 ∷ 255 ∷ 255 ∷ 255 ∷ 255 ∷ 255 ∷ 255 ∷ 255 ∷ 255 ∷ 255
    ∷ 255 ∷ 255 ∷ 255 ∷ 255 ∷ 255 ∷ 255 ∷ 255 ∷ 255 ∷ 255 ∷ 255 ∷ 255 ∷ 255 ∷ 255 ∷ 255 ∷ 255 ∷ 255
    ∷ 255 ∷ 255 ∷ 255 ∷ 255 ∷ 255 ∷ []

unfoldable pub tab : ℕ → ℕ
unfolding entry
tab i = entry i get_alphabet

pub inverse : ℕ → ℕ
unfolding entry
inverse c = entry c get_inverse

-- `'='`
abbrev pad : ℕ
pad = 61

pub encoded_size : ℕ → ℕ
encoded_size n = 4 * ((n + 2) / 3)

unfoldable decoded_size : ℕ → ℕ
decoded_size n = n / 4 * 3

unfoldable pub encode : Bytes → Bytes
unfolding tab
encode [] = []
encode (a ∷ []) = tab (bit_and a 252 / 4) ∷ tab (bit_and a 3 * 16) ∷ pad ∷ pad ∷ []
encode (a ∷ b ∷ []) =
    tab (bit_and a 252 / 4)
    ∷ tab (bit_and a 3 * 16 + bit_and b 240 / 16)
    ∷ tab (bit_and b 15 * 4)
    ∷ pad
    ∷ []
encode (a ∷ b ∷ c ∷ rest) =
    tab (bit_and a 252 / 4)
    ∷ tab (bit_and a 3 * 16 + bit_and b 240 / 16)
    ∷ tab (bit_and c 192 / 64 + bit_and b 15 * 4)
    ∷ tab (bit_and c 63)
    ∷ encode rest

-- The octets `c3` of the sextets `c4`, as `unsigned char`.
abbrev pub c3_0 : ℕ → ℕ → ℕ
c3_0 c0 c1 = (c0 * 4 + bit_and c1 48 / 16) % 256

abbrev pub c3_1 : ℕ → ℕ → ℕ
c3_1 c1 c2 = (bit_and c1 15 * 16 + bit_and c2 60 / 4) % 256

abbrev pub c3_2 : ℕ → ℕ → ℕ
c3_2 c2 c3 = (bit_and c2 3 * 64 + c3) % 256

-- What is written when the loop ends. Only the sextets read so far, `i` of them, reach an octet
-- that is written.
pub leftover : List ℕ → Bytes
leftover (c0 ∷ c1 ∷ []) = c3_0 c0 c1 ∷ []
leftover (c0 ∷ c1 ∷ c2 ∷ []) = c3_0 c0 c1 ∷ c3_1 c1 c2 ∷ []
leftover _ = []

abbrev pub stops : ℕ → Bool
stops ch = (ch == pad) || (inverse ch == minus_one)

-- `decode`, with the sextets read since the last group: the octets written and the characters read.
pub decode_loop : Bytes → List ℕ → Bytes × ℕ
unfolding leftover inverse
decode_loop [] c4 = (leftover c4, 0)
decode_loop (ch ∷ rest) (c0 ∷ c1 ∷ c2 ∷ []) =
    let v = inverse ch in
    let (out, n) = decode_loop rest [] in
    if stops ch
    then (leftover (c0 ∷ c1 ∷ c2 ∷ []), 0)
    else (c3_0 c0 c1 ∷ c3_1 c1 c2 ∷ c3_2 c2 v ∷ out, suc n)
decode_loop (ch ∷ rest) c4 =
    let (out, n) = decode_loop rest (c4 ++ (inverse ch ∷ [])) in
    if stops ch then (leftover c4, 0) else (out, suc n)

unfoldable pub decode : Bytes → Bytes × ℕ
decode src = decode_loop src []
