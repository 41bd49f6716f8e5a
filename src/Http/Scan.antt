-- ===== src/Http/Scan.antt =====
-- include/beast/http/detail/basic_parser.hpp: the scanning functions. A pointer is the memory from
-- there on, as a list; `fault` is a read past it.
pub mod Eom
pub mod Numbers
pub mod Hex
use remotedev.Base.{
  ℕ, zero, suc, ◌+◌, ◌-◌, ◌*◌, ◌/◌, ◌%◌, ◌^◌, Bool, true, false, not, ◌&&◌, ◌||◌, Option, none,
  some, [], ◌∷◌, Bytes, length, ltb, leb, ◌==◌, if◌then◌else◌,
}
use remotedev.Http.Chars.{is_digit, is_tchar, is_field_char, is_pathchar, is_text, unhex}

-- What a scan returns, with the pointer that it leaves; or its error value.
pub data Scan {ℓ} (A : Type ℓ) : Type ℓ where
  ok : A → Bytes → Scan A
  no : Scan A
  fault : Scan A

infixl 5 ◌>>=◌
abbrev pub ◌>>=◌ {ℓ κ} : {A : Type ℓ} {B : Type κ} → Scan A → (A × Bytes → Scan B) → Scan B
ok a r >>= f = f (a, r)
no >>= f = no
fault >>= f = fault

-- The character at a pointer, which is then moved on if it passes the test.
abbrev pub expect : (ℕ → Bool) → Bytes → Scan ℕ
expect p [] = fault
expect p (c ∷ r) = if p c then ok c r else no

-- `while(p(*it)) ++it;`
unfoldable pub span : (ℕ → Bool) → Bytes → Scan Bytes
span p [] = fault
span p (c ∷ r) =
    let rest = span p r in if p c then (do (s, r') ← rest; ok (c ∷ s) r') else ok [] (c ∷ r)

-- The rest of `parse_dec`: the digits behind the first. `last` is the memory behind the value,
-- by its length.
unfoldable pub dec_loop : ℕ → ℕ → Bytes → Scan ℕ
dec_loop last v [] = fault
dec_loop last v (c ∷ r) =
    let rest = dec_loop last (10 * v + (c - 48)) r in
    if not (is_digit c)
    then (if length (c ∷ r) == last then ok v (c ∷ r) else no)
    else if ltb ((2 ^ 64 - 1 - 10) / 10) v
    then no
    else rest

unfoldable pub parse_dec : ℕ → Bytes → Scan ℕ
unfolding dec_loop
parse_dec last [] = fault
parse_dec last (c ∷ r) = if not (is_digit c) then no else dec_loop last (c - 48) r

pub hex_loop : ℕ → Bytes → Scan ℕ
hex_loop v [] = fault
hex_loop v (c ∷ r) = elim (unhex c) [
  | none ↦ ok v (c ∷ r)
  | some d ↦ if leb ((16 * v + d) % 2 ^ 64) v then no else hex_loop ((16 * v + d) % 2 ^ 64) r
]

pub parse_hex : Bytes → Scan ℕ
unfolding hex_loop
parse_hex [] = fault
parse_hex (c ∷ r) = elim (unhex c) [ none ↦ no | some d ↦ hex_loop d r ]

unfoldable pub parse_crlf : Bytes → Scan ℕ
parse_crlf p = do (_, r) ← expect (λ c. c == b'\r') p; expect (λ c. c == b'\n') r

unfoldable pub parse_method : Bytes → Scan Bytes
unfolding span
parse_method = span is_tchar

unfoldable pub parse_name : Bytes → Scan Bytes
unfolding span
parse_name = span is_field_char

-- The empty string if no space follows.
unfoldable pub parse_target : Bytes → Scan Bytes
unfolding span
parse_target p = do (s, r) ← span is_pathchar p; (_, _) ← expect (λ c. c == b' ') r; ok s r

-- `no` is the value -1.
unfoldable pub parse_version : Bytes → Scan ℕ
parse_version p = do
  (_, p) ← expect (λ c. c == b'H') p
  (_, p) ← expect (λ c. c == b'T') p
  (_, p) ← expect (λ c. c == b'T') p
  (_, p) ← expect (λ c. c == b'P') p
  (_, p) ← expect (λ c. c == b'/') p
  (a, p) ← expect is_digit p
  (_, p) ← expect (λ c. c == b'.') p
  (b, p) ← expect is_digit p
  ok (10 * (a - 48) + (b - 48)) p

unfoldable pub parse_status : Bytes → Scan ℕ
parse_status p = do
  (a, p) ← expect is_digit p
  (b, p) ← expect is_digit p
  (c, p) ← expect is_digit p
  ok (100 * (a - 48) + 10 * (b - 48) + (c - 48)) p

-- `no` is the empty string returned at a character that is not text, where the pointer stays.
unfoldable pub parse_reason : Bytes → Scan Bytes
parse_reason [] = fault
parse_reason (c ∷ r) =
    let rest = parse_reason r in
    if c == b'\r'
    then ok [] (c ∷ r)
    else if not (is_text c)
    then no
    else (do (s, r') ← rest; ok (c ∷ s) r')

-- A line or a message searched for its end: the count of octets up to behind it; not there;
-- or `bad_line_ending`.
pub data Found : Type 0 where
  found : ℕ → Found
  missing bad : Found

abbrev pub behind : ℕ → Found → Found
behind n (found k) = found (n + k)
behind n missing = missing
behind n bad = bad

unfoldable pub find_eol : Bytes → Found
find_eol [] = missing
find_eol (x ∷ []) = missing
find_eol (x ∷ y ∷ r) =
    let rest = find_eol (y ∷ r) in
    if x == b'\r' then (if not (y == b'\n') then bad else found 2) else behind 1 rest

-- The program points of the loop in `find_eom`: behind ordinary text, behind CR, behind CR LF, and
-- behind CR LF CR.
pub data At : Type 0 where
  text cr crlf crlfcr : At

-- The octets from a program point on. The loop returns where it meets `last`.
unfoldable pub find_eom_at : At → Bytes → Found
find_eom_at a [] = missing
find_eom_at text (x ∷ r) = behind 1 (find_eom_at (if x == b'\r' then cr else text) r)
find_eom_at cr (x ∷ r) =
    let rest = find_eom_at crlf r in if not (x == b'\n') then bad else behind 1 rest
find_eom_at crlf (x ∷ r) = behind 1 (find_eom_at (if not (x == b'\r') then text else crlfcr) r)
find_eom_at crlfcr (x ∷ r) = if not (x == b'\n') then bad else found 1

unfoldable pub find_eom : Bytes → Found
unfolding find_eom_at
find_eom = find_eom_at text
