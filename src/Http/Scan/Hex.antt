-- ===== src/Http/Scan/Hex.antt =====
-- Chunk sizes: `parse_hex`.
use remotedev.Base.{
  ℕ, ◌+◌, ◌-◌, ◌*◌, ◌%◌, ◌^◌, ◌≤◌, ◌<◌, ◌≡◌, refl, ◌∙◌, List, [], ◌∷◌, ◌++◌, Bytes, none, some, leb,
  if◌then◌else◌, arith,
}
use remotedev.Http.Chars.{unhex}
use remotedev.Http.Scan.{ok, no, hex_loop, parse_hex}

-- The octets that the table takes for digits, with their values: hexadecimal digits, and the octets
-- that it has wrong.
pub record HexDigit : Type 0 where
  pub char : ℕ
  pub value : ℕ
  pub is_hex : unhex char ≡ some value

abbrev pub chars : List HexDigit → Bytes
chars [] = []
chars (d ∷ ds) = d.char ∷ chars ds

-- The number that digits stand for, behind others of value `v`.
abbrev pub hex_value : ℕ → List HexDigit → ℕ
hex_value v [] = v
hex_value v (d ∷ ds) = hex_value (16 * v + d.value) ds

-- The memory behind a number does not begin with a digit.
pub record StopsHex (rest : Bytes) : Type 0 where
  pub head : ℕ
  pub tail : Bytes
  pub begins : rest ≡ head ∷ tail
  pub no_digit : unhex head ≡ none

pub hex_value-le : (ds : List HexDigit) (v : ℕ) → v ≤ hex_value v ds
hex_value-le [] v = omega arith
hex_value-le (d ∷ ds) v = omega (arith, hex_value-le ds (16 * v + d.value))

hex_loop_digit :
    (v : ℕ) (d : HexDigit) (r : Bytes)
    → hex_loop v (d.char ∷ r) ≡ (
        if leb ((16 * v + d.value) % 2 ^ 64) v
        then no
        else hex_loop ((16 * v + d.value) % 2 ^ 64) r)
unfolding hex_loop
hex_loop_digit v d r = rw (d.is_hex, hex_loop)

hex_loop_stop : (v : ℕ) (rest : Bytes) → StopsHex rest → hex_loop v rest ≡ ok v rest
unfolding hex_loop
hex_loop_stop v rest s = ground (arith, s.begins, s.no_digit)

hex_loop_digits :
    (ds : List HexDigit) (v : ℕ) (r : Bytes)
    → 0 < v
    → hex_value v ds < 2 ^ 64
    → hex_loop v (chars ds ++ r) ≡ hex_loop (hex_value v ds) r
hex_loop_digits [] v r p h = refl
hex_loop_digits (d ∷ ds) v r p h =
    let le = hex_value-le ds (16 * v + d.value) in
    rw (hex_loop_digit v d (chars ds ++ r))
      (ground (arith, hex_loop_digits ds (16 * v + d.value) r))

parse_hex_first : (d : HexDigit) (r : Bytes) → parse_hex (d.char ∷ r) ≡ hex_loop d.value r
unfolding parse_hex
parse_hex_first d r = rw (d.is_hex, parse_hex)

-- The digits up to one that may not fit any more.
parse_hex_digits :
    (d : HexDigit) (ds : List HexDigit) (r : Bytes)
    → 0 < d.value
    → hex_value 0 (d ∷ ds) < 2 ^ 64
    → parse_hex (chars (d ∷ ds) ++ r) ≡ hex_loop (hex_value 0 (d ∷ ds)) r
parse_hex_digits d ds r p h =
    let e : 16 * 0 + d.value ≡ d.value = omega arith in
    rw (parse_hex_first d (chars ds ++ r)) (rw e (hex_loop_digits ds d.value r p (rw e at h)))

-- Octets that the table takes for digits, the first of a value other than 0, which stand for a number
-- below 2 ^ 64 by the values in the table, and are followed by an octet that it does not take for one,
-- are read as that number.
pub parse_hex-hex_value :
    (d : HexDigit) (ds : List HexDigit) (rest : Bytes)
    → StopsHex rest
    → 0 < d.value
    → hex_value 0 (d ∷ ds) < 2 ^ 64
    → parse_hex (chars (d ∷ ds) ++ rest) ≡ ok (hex_value 0 (d ∷ ds)) rest
parse_hex-hex_value d ds rest s p h =
    parse_hex_digits d ds rest p h ∙ hex_loop_stop (hex_value 0 (d ∷ ds)) rest s

-- Octets that the table takes for digits, the first of a value other than 0, which stand for a number
-- below 2 ^ 64, with one more behind them that takes the number above 2 ^ 64 plus the one before, and
-- below 2 ^ 65, and an octet that is none behind that, are read as the number less 2 ^ 64.
pub parse_hex_wraps :
    (d : HexDigit) (ds : List HexDigit) (l : HexDigit) (rest : Bytes)
    → StopsHex rest
    → 0 < d.value
    → hex_value 0 (d ∷ ds) < 2 ^ 64
    → 2 ^ 64 + hex_value 0 (d ∷ ds) < 16 * hex_value 0 (d ∷ ds) + l.value
    → 16 * hex_value 0 (d ∷ ds) + l.value < 2 * 2 ^ 64
    → parse_hex (chars (d ∷ ds) ++ (l.char ∷ rest))
      ≡ ok (16 * hex_value 0 (d ∷ ds) + l.value - 2 ^ 64) rest
parse_hex_wraps d ds l rest s p h w w' =
    let v = hex_value 0 (d ∷ ds) in
    let e : (16 * v + l.value) % 2 ^ 64 ≡ 16 * v + l.value - 2 ^ 64 = omega arith in
    parse_hex_digits d ds (l.char ∷ rest) p h
    ∙ hex_loop_digit v l rest
    ∙ rw e (ground (arith, hex_loop_stop (16 * v + l.value - 2 ^ 64) rest s))

-- A chunk size that begins with two digits of value 0 is refused.
parse_hex_zeros :
    (d e : HexDigit) (r : Bytes) → d.value ≡ 0 → e.value ≡ 0 → parse_hex (d.char ∷ e.char ∷ r) ≡ no
parse_hex_zeros d e r p q = parse_hex_first d (e.char ∷ r) ∙ hex_loop_digit d.value e r ∙ rw (p, q)

-- One digit.
pub parse_hex_one :
    (d : HexDigit) (rest : Bytes) → StopsHex rest → parse_hex (d.char ∷ rest) ≡ ok d.value rest
parse_hex_one d rest s = parse_hex_first d rest ∙ hex_loop_stop d.value rest s
