-- ===== src/Http/Scan/Numbers.antt =====
-- The integers that the parser reads: Content-Length by `parse_dec`, chunk sizes by `parse_hex`.
use remotedev.Base.{
  ℕ, suc, ◌+◌, ◌-◌, ◌*◌, ◌/◌, ◌^◌, ◌≤◌, ◌<◌, ◌≡◌, ◌≢◌, sym, ap, subst, inl, inr, true, false, [],
  ◌∷◌, ◌++◌, Bytes, length, length-append, All, ◌==◌, ltb, if◌then◌else◌, arith, Bool-cases,
  append_cut,
}
use remotedev.Http.Chars.{is_digit}
use remotedev.Http.Scan.{ok, no, dec_loop, parse_dec}

-- RFC 7230: DIGIT.
abbrev IsDigit : ℕ → Type 0
IsDigit c = (b'0' ≤ c) × (c ≤ b'9')

is_digit-IsDigit : (c : ℕ) → c < 256 → is_digit c ≡ true → IsDigit c
unfolding is_digit
is_digit-IsDigit c o h = ground arith

IsDigit-is_digit : (c : ℕ) → IsDigit c → is_digit c ≡ true
unfolding is_digit
IsDigit-is_digit c h = ground arith

-- The number that decimal digits stand for, behind others of value `v`.
abbrev pub dec_value : ℕ → Bytes → ℕ
dec_value v [] = v
dec_value v (c ∷ ds) = dec_value (10 * v + (c - b'0')) ds

dec_value-le : (ds : Bytes) (v : ℕ) → v ≤ dec_value v ds
dec_value-le [] v = omega arith
dec_value-le (c ∷ ds) v = omega (arith, dec_value-le ds (10 * v + (c - b'0')))

-- The largest value that is not taken for an overflow.
abbrev dec_max : ℕ
dec_max = 2 ^ 64 - 7

-- The first octet behind a number, which is no digit.
pub record Stops (rest : Bytes) : Type 0 where
  pub head : ℕ
  pub tail : Bytes
  pub begins : rest ≡ head ∷ tail
  pub no_digit : is_digit head ≡ false

dec_stop :
    (c : ℕ) (r : Bytes) (v : ℕ)
    → is_digit c ≡ false
    → dec_loop (length (c ∷ r)) v (c ∷ r) ≡ ok v (c ∷ r)
unfolding dec_loop
dec_stop c r v n = ground arith

dec_loop_ok :
    (ds rest : Bytes) (v : ℕ)
    → All IsDigit ds
    → Stops rest
    → dec_value v ds ≤ dec_max
    → dec_loop (length rest) v (ds ++ rest) ≡ ok (dec_value v ds) rest
unfolding dec_loop
dec_loop_ok [] rest v d s h =
    subst (λ l. dec_loop (length l) v l ≡ ok v l) (sym s.begins)
      (dec_stop s.head s.tail v s.no_digit)
dec_loop_ok (x ∷ ds) rest v d s h =
    let small = dec_value-le ds (10 * v + (x - b'0')) in
    rw (IsDigit-is_digit x d.0) (ground (arith, dec_loop_ok ds rest (10 * v + (x - b'0')) d.1 s h))

-- What the loop returns, from the digits already read.
record DecRead (v : ℕ) (mem : Bytes) (last u : ℕ) (rest : Bytes) : Type 0 where
  digits : Bytes
  splits : mem ≡ digits ++ rest
  reaches : length rest ≡ last
  are_digits : All IsDigit digits
  value_is : u ≡ dec_value v digits
  fits : u ≤ dec_max

dec_loop_sound :
    (mem : Bytes) (last v : ℕ) {u : ℕ} {rest : Bytes}
    → All (λ b. b < 256) mem
    → v ≤ dec_max
    → dec_loop last v mem ≡ ok u rest
    → DecRead v mem last u rest
unfolding dec_loop
dec_loop_sound [] last v o h e = cc
dec_loop_sound (c ∷ r) last v {u} {rest} o h e = elim (Bool-cases (is_digit c)) [
  | inr n ↦
      let e' : (if suc (length r) == last then ok v (c ∷ r) else no) ≡ ok u rest = rw n at e in
      record {
        digits = [];
        splits = ground arith;
        reaches = ground arith;
        are_digits = tt;
        value_is = ground arith;
        fits = ground arith;
      }
  | inl d ↦
      let small : ltb ((2 ^ 64 - 1 - 10) / 10) v ≡ false = ground arith in
      let e' = rw small at (rw d at e) in
      let k = is_digit-IsDigit c o.0 d in
      let q =
        dec_loop_sound r last (10 * v + (c - 48)) {u = u} {rest = rest} o.1 (ground arith) e' in
      record {
        digits = c ∷ q.digits;
        splits = ap (◌∷◌ c) q.splits;
        reaches = q.reaches;
        are_digits = (k, q.are_digits);
        value_is = q.value_is;
        fits = q.fits;
      }
]

-- One decimal digit or more that stand for a number up to 2 ^ 64 - 7, with memory behind them that
-- does not begin with a digit, are read as that number.
pub parse_dec-dec_value :
    (c : ℕ) (ds rest : Bytes)
    → All IsDigit (c ∷ ds)
    → Stops rest
    → dec_value 0 (c ∷ ds) ≤ dec_max
    → parse_dec (length rest) (c ∷ (ds ++ rest)) ≡ ok (dec_value 0 (c ∷ ds)) rest
unfolding parse_dec
parse_dec-dec_value c ds rest d s h =
    let e : 10 * 0 + (c - b'0') ≡ c - b'0' = omega arith in
    rw (IsDigit-is_digit c d.0) (rw e (dec_loop_ok ds rest (c - b'0') d.1 s (rw e at h)))

-- The octets `value` in front of `rest` are the number `u` in decimal.
pub record IsDecimal (value : Bytes) (u : ℕ) : Type 0 where
  pub nonempty : value ≢ []
  pub are_digits : All IsDigit value
  pub value_is : u ≡ dec_value 0 value
  pub fits : u ≤ dec_max

-- Octets that are read as a number are one decimal digit or more, all of the value and nothing
-- behind it, and the number is theirs and at most 2 ^ 64 - 7, so it has not wrapped around.
parse_dec-IsDecimal :
    (value behind : Bytes) {u : ℕ} {rest : Bytes}
    → All (λ b. b < 256) (value ++ behind)
    → parse_dec (length behind) (value ++ behind) ≡ ok u rest
    → IsDecimal value u × (rest ≡ behind)
unfolding parse_dec
parse_dec-IsDecimal [] [] o h = cc
parse_dec-IsDecimal [] (c ∷ r) {u} {rest} o h = elim (Bool-cases (is_digit c)) [
  | inr n ↦ absurd (ground arith)
  | inl d ↦
      let k = is_digit-IsDigit c o.0 d in
      let q =
        dec_loop_sound r (length (c ∷ r)) (c - 48) {u = u} {rest = rest} o.1 (omega arith)
          (rw d at h) in
      absurd (omega (arith, ap length q.splits, length-append q.digits rest, q.reaches))
]
parse_dec-IsDecimal (c ∷ ds) behind {u} {rest} o h = elim (Bool-cases (is_digit c)) [
  | inr n ↦ absurd (ground arith)
  | inl d ↦
      let k = is_digit-IsDigit c o.0 d in
      let q =
        dec_loop_sound (ds ++ behind) (length behind) (c - 48) {u = u} {rest = rest} o.1
          (omega arith) (rw d at h) in
      let (same, end) = append_cut ds q.digits behind rest q.splits (sym q.reaches) in
      let e : 10 * 0 + (c - b'0') ≡ c - 48 = omega arith in
      (
        record {
          nonempty = λ p. cc;
          are_digits = (k, subst (All IsDigit) (sym same) q.are_digits);
          value_is = rw e (rw same q.value_is);
          fits = q.fits;
        },
        sym end,
      )
]
