-- ===== src/Websocket/Utf8.antt =====
-- include/beast/websocket/detail/utf8_checker.hpp: the test of one code point, `valid`, the number
-- of octets that its first one announces, `needed`, and the checker, which keeps the front of a code
-- point that is cut. The code never calls `valid` with fewer octets than the code point has. `none`
-- is `false`, after which a stream fails. Octets are read in eights where they lie, as the code does
-- if BEAST_WEBSOCKET_NO_UNALIGNED_READ is not set.
pub mod CodePoint
pub mod Overlong
pub mod Text
pub mod Begun
pub mod Buffers
mod Tests
use remotedev.Base.{
  ℕ, zero, suc, ◌-◌, min, bit_and, Bool, true, false, not, ◌&&◌, ◌||◌, Option, none, some, ◌>>=◌,
  List, [], ◌∷◌, ◌++◌, Bytes, length, take, drop, ltb, leb, ◌==◌, if◌then◌else◌,
}

abbrev pub is_tail : ℕ → Bool
is_tail b = bit_and b 0xc0 == 0x80

valid2 : Bytes → Option Bytes
valid2 (b ∷ r) = if not (is_tail b) then none else some r
valid2 [] = none

valid3 : ℕ → Bytes → Option Bytes
valid3 a (b ∷ c ∷ r) =
    if not (is_tail b) || not (is_tail c) || a == 224 && ltb b 160 || a == 237 && ltb 159 b
    then none
    else some r
valid3 a _ = none

pub valid4 : ℕ → Bytes → Option Bytes
valid4 a (b ∷ c ∷ d ∷ r) =
    if ltb 244 a
      || not (is_tail b)
      || not (is_tail c)
      || not (is_tail d)
      || a == 240 && ltb b 144
      || a == 244 && ltb 143 b
    then none
    else some r
valid4 a _ = none

pub valid : Bytes → Option Bytes
unfolding valid2 valid3 valid4
valid [] = none
valid (a ∷ r) =
    if ltb a 128
    then some r
    else if bit_and a 0x60 == 0x40
    then valid2 r
    else if bit_and a 0xf0 == 0xe0
    then valid3 a r
    else if bit_and a 0xf8 == 0xf0
    then valid4 a r
    else none

pub needed : ℕ → ℕ
needed a =
    if ltb a 128
    then 1
    else if ltb a 194
    then 0
    else if ltb a 224
    then 2
    else if ltb a 240
    then 3
    else if ltb a 245
    then 4
    else 0

-- `need_`, and the octets of `have_` up to `p_`.
pub record Utf8Checker : Type 0 where
  pub need : ℕ
  pub have : Bytes

pub reset : Utf8Checker
reset = record { need = 0; have = [] }

pub finish : Utf8Checker → Bool × Utf8Checker
unfolding reset
finish c = (c.need == 0, reset)

-- The cases of `valid_have`, with the octets behind the first.
pub three_begun : ℕ → Bytes → Bool
three_begun a [] = true
three_begun a (b ∷ _) = is_tail b && not (a == 224 && ltb b 160) && not (a == 237 && ltb 159 b)

abbrev second_of_four : ℕ → ℕ → Bool
second_of_four a b = is_tail b && not (a == 240 && ltb b 144) && not (a == 244 && ltb 143 b)

pub four_begun : ℕ → Bytes → Bool
four_begun a [] = true
four_begun a (b ∷ []) = second_of_four a b
four_begun a (b ∷ c ∷ _) = is_tail c && second_of_four a b

-- `valid_have`, where `have_` has an octet.
pub valid_have : Bytes → Bool
unfolding three_begun four_begun
valid_have [] = true
valid_have (a ∷ r) =
    if bit_and a 0x60 == 0x40
    then leb a 223
    else if bit_and a 0xf0 == 0xe0
    then three_begun a r
    else if bit_and a 0xf8 == 0xf0
    then four_begun a r
    else true

-- `(*reinterpret_cast<std::size_t const*>(in) & mask) == 0`
abbrev pub all_ascii : Bytes → Bool
all_ascii [] = true
all_ascii (a ∷ r) = bit_and a 0x80 == 0 && all_ascii r

-- The three loops, on fuel: a step takes an octet at least. The first goes on while more than seven
-- octets are left, the second while more than three are.
pub loop8 : ℕ → Bytes → Option Bytes
unfolding valid
loop8 zero [] = some []
loop8 zero (_ ∷ _) = none
loop8 (suc fuel) inp =
    if ltb 7 (length inp)
    then (if all_ascii (take 8 inp)
        then loop8 fuel (drop 8 inp)
        else (do r ← valid inp; loop8 fuel r))
    else some inp

pub loop4 : ℕ → Bytes → Option Bytes
unfolding valid
loop4 zero [] = some []
loop4 zero (_ ∷ _) = none
loop4 (suc fuel) inp = if ltb 3 (length inp) then (do r ← valid inp; loop4 fuel r) else some inp

pub loop1 : ℕ → Bytes → Option Utf8Checker
unfolding valid needed valid_have reset
loop1 zero [] = some reset
loop1 zero (_ ∷ _) = none
loop1 (suc fuel) [] = some reset
loop1 (suc fuel) (a ∷ r) =
    let n = length (a ∷ r) in
    let need = needed a in
    if need == 0
    then none
    else if leb need n
    then (do rest ← valid (a ∷ r); loop1 fuel rest)
    else if valid_have (a ∷ r)
    then some (record { need = need - n; have = a ∷ r })
    else none

-- What follows the front of a code point from the call before.
pub write_rest : Bytes → Option Utf8Checker
unfolding loop8 loop4 loop1
write_rest inp = do
  inp4 ← loop8 (length inp) inp
  inp1 ← loop4 (length inp4) inp4
  loop1 (length inp1) inp1

-- `write` of one buffer.
pub write : Bytes → Utf8Checker → Option Utf8Checker
unfolding valid valid_have write_rest
write inp c =
    let n = min (length inp) c.need in
    let have = c.have ++ take n inp in
    if ltb 0 c.need
    then (if ltb 0 (c.need - n)
        then (if valid_have have then some (record { need = c.need - n; have = have }) else none)
        else (do _ ← valid have; write_rest (drop n inp)))
    else write_rest inp

-- `write` of a sequence of buffers.
pub write_buffers : List Bytes → Utf8Checker → Option Utf8Checker
unfolding write
write_buffers [] c = some c
write_buffers (b ∷ bs) c = do c' ← write b c; write_buffers bs c'

pub check_utf8 : Bytes → Bool
unfolding write finish reset
check_utf8 p = elim (write p reset) [ none ↦ false | some c ↦ (finish c).0 ]
