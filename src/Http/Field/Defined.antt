-- ===== src/Http/Field/Defined.antt =====
-- No field of a header is undefined where the memory behind its value stops a number.
use remotedev.Base.{
  ℕ, ◌-◌, ◌*◌, ◌+◌, ◌≡◌, ◌≢◌, ◌⊎◌, inl, inr, false, [], ◌∷◌, ◌++◌, Bytes, length, Bool-cases, arith,
}
use remotedev.Http.Chars.{is_digit}
use remotedev.Http.Scan.{fault, dec_loop, parse_dec}
use remotedev.Http.Parser.{Parser}
use remotedev.Http.Outcome.{undefined}
use remotedev.Http.Field.{
  do_field, do_connection, store_length, do_content_length, do_transfer_encoding,
}

-- A character among the octets that is no digit.
abbrev pub HasStop : Bytes → Type 0
HasStop [] = ⊥
HasStop (c ∷ r) = (is_digit c ≡ false) ⊎ HasStop r

pub HasStop-append : (xs ys : Bytes) → HasStop ys → HasStop (xs ++ ys)
HasStop-append [] ys h = h
HasStop-append (x ∷ xs) ys h = inr (HasStop-append xs ys h)

-- A number is read only up to the first character that is no digit.
dec_loop-HasStop : (end v : ℕ) (xs : Bytes) → HasStop xs → dec_loop end v xs ≢ fault
unfolding dec_loop
dec_loop-HasStop end v [] h e = absurd h
dec_loop-HasStop end v (x ∷ xs) h e = elim (Bool-cases (is_digit x)) [
  | inr n ↦ ground (arith, rw n at e)
  | inl d ↦ elim h [
    | inl n ↦ absurd cc
    | inr s ↦ ground (arith, rw d at e, dec_loop-HasStop end (10 * v + (x - 48)) xs s)
  ]
]

parse_dec-HasStop : (end : ℕ) (xs : Bytes) → HasStop xs → parse_dec end xs ≢ fault
unfolding parse_dec
parse_dec-HasStop end [] h e = absurd h
parse_dec-HasStop end (x ∷ xs) h e = elim (Bool-cases (is_digit x)) [
  | inr n ↦ ground (arith, rw n at e)
  | inl d ↦ elim h [ inl n ↦ absurd cc | inr s ↦ dec_loop-HasStop end (x - 48) xs s (rw d at e) ]
]

-- A field is defined where the memory behind its value stops a number.
pub do_field-defined :
    (name value mem : Bytes) (p : Parser) → HasStop mem → do_field name value mem p ≢ undefined
unfolding do_field do_connection do_content_length store_length do_transfer_encoding
do_field-defined name value mem p s e =
    ground (arith, parse_dec-HasStop (length mem) (value ++ mem) (HasStop-append value mem s))
