-- ===== src/Websocket/Utf8/Tests.antt =====
-- The theorems on code points, at the euro sign, nine letters and an overlong null.
use remotedev.Base.{◌<◌, ◌≡◌, refl, some, true, false, List, flatten, Bytes, [], ◌∷◌, arith}
use remotedev.Websocket.Utf8.{valid, needed, write_buffers, finish, reset, check_utf8}
use remotedev.Websocket.Utf8.Buffers.{write_buffers-ArePoints}
use remotedev.Websocket.Utf8.Overlong.{check_utf8_overlong}

abbrev euro : Bytes
euro = 0xe2 ∷ 0x82 ∷ 0xac ∷ []

euro_valid : valid (0xe2 ∷ (0x82 ∷ 0xac ∷ 65 ∷ [])) ≡ some (65 ∷ [])
unfolding valid
euro_valid = refl

euro_announced : 0 < needed 0xe2
unfolding needed
euro_announced = omega arith

-- The euro sign, and nine letters.
abbrev points : List Bytes
points =
    euro
    ∷ (65 ∷ [])
    ∷ (66 ∷ [])
    ∷ (67 ∷ [])
    ∷ (68 ∷ [])
    ∷ (69 ∷ [])
    ∷ (70 ∷ [])
    ∷ (71 ∷ [])
    ∷ (72 ∷ [])
    ∷ (73 ∷ [])
    ∷ []

-- The same octets, cut within the euro sign and within the letters.
abbrev cut : List Bytes
cut =
    (0xe2 ∷ [])
    ∷ (0x82 ∷ [])
    ∷ []
    ∷ (0xac ∷ 65 ∷ 66 ∷ 67 ∷ 68 ∷ [])
    ∷ (69 ∷ 70 ∷ 71 ∷ 72 ∷ 73 ∷ [])
    ∷ []

write_buffers-ArePoints_example :
    (write_buffers cut reset ≡ some reset)
    × ((finish reset).0 ≡ true)
    × (check_utf8 (flatten cut) ≡ true)
write_buffers-ArePoints_example = write_buffers-ArePoints cut points (ground arith) refl

-- 0xc0 0x80, an overlong form of U+0000, with two letters behind it and at the end.
check_utf8_overlong_example :
    (check_utf8 (0xc0 ∷ 0x80 ∷ 65 ∷ 66 ∷ []) ≡ true) × (check_utf8 (0xc0 ∷ 0x80 ∷ []) ≡ false)
check_utf8_overlong_example =
    check_utf8_overlong 0xc0 0x80 65 66 (omega arith) (omega arith) (omega arith, omega arith)
      (omega arith) (omega arith)
