-- ===== src/Http/Outcome.antt =====
-- Results, errors and undefined behaviour of include/beast/http/impl/basic_parser.ipp, and the
-- functions of the derived class that a parser calls.
use remotedev.Base.{ℕ, Bool, true, false, Option, none, some, [], ◌∷◌, Bytes, ◌==◌, if◌then◌else◌}
use remotedev.Http.Scan.{Scan, ok, no, fault, found, missing, bad, find_eol}
use remotedev.Http.Parser.{Error, bad_line_ending, Parser, Derived}

-- What a function that can fail returns: a result, an error code, or nothing, where it would read
-- past the end of the header or an assertion fails.
pub data Outcome {ℓ} (A : Type ℓ) : Type ℓ where
  done : A → Outcome A
  err : Error → Outcome A
  undefined : Outcome A

infixl 5 ◌>>=◌
abbrev pub ◌>>=◌ {ℓ κ} : {A : Type ℓ} {B : Type κ} → Outcome A → (A → Outcome B) → Outcome B
done a >>= f = f a
err e >>= f = err e
undefined >>= f = undefined

-- A scan whose error value becomes an error code.
abbrev pub or_else {ℓ} : {A : Type ℓ} → Error → Scan A → Outcome (A × Bytes)
or_else e (ok a r) = done (a, r)
or_else e no = err e
or_else e fault = undefined

abbrev is_nonempty : Bytes → Bool
is_nonempty [] = false
is_nonempty (_ ∷ _) = true

-- `if(*it++ != c)`
abbrev pub expect_char : ℕ → Error → Bytes → Outcome Bytes
expect_char c e [] = undefined
expect_char c e (x ∷ r) = if x == c then done r else err e

abbrev pub nonempty : Error → Bytes → Outcome (Unit {0})
nonempty e s = if is_nonempty s then done tt else err e

-- The end of the line at `it`, by the count of octets up to behind it. A line without an end is a
-- failed assertion.
unfoldable pub line_end : Bytes → Outcome ℕ
line_end it = elim (find_eol it) [
  | found k ↦ done k
  | missing ↦ undefined
  | bad ↦ err bad_line_ending
]

-- The functions of the derived class that a header uses, and that for a chunk.
pub record Receiver (D : Type 0) : Type 0 where
  pub on_request : Bytes → Bytes → ℕ → D → D × Option Error
  pub on_response : ℕ → Bytes → ℕ → D → D × Option Error
  pub on_field : Bytes → Bytes → D → D × Option Error
  pub on_header : D → D × Option Error
  pub on_chunk : ℕ → Bytes → D → D × Option Error
  pub events : Derived D

-- An outcome with the parser and the derived class that it leaves.
pub record After {ℓ} (D : Type 0) (A : Type ℓ) : Type ℓ where
  pub outcome : Outcome A
  pub parser : Parser
  pub derived_state : D

abbrev pub leave {ℓ} : {D : Type 0} {A : Type ℓ} → Outcome A → Parser → D → After D A
leave o p d = record { outcome = o; parser = p; derived_state = d }

-- The derived class is called, and the rest follows unless it fails.
abbrev pub call {ℓ} :
    {D : Type 0} {A : Type ℓ} → D × Option Error → Parser → (D → After D A) → After D A
call (d, none) p rest = rest d
call (d, some e) p rest = leave (err e) p d

-- An outcome that is defined, and whose result has a property.
abbrev pub Ensures {ℓ} : {A : Type ℓ} → (A → Type 0) → Outcome A → Type 0
Ensures P (done a) = P a
Ensures P (err _) = Unit
Ensures P undefined = ⊥

pub Ensures-bind {ℓ κ} :
    {A : Type ℓ} {B : Type κ} (P : A → Type 0) (Q : B → Type 0) (m : Outcome A) (f : A → Outcome B)
    → Ensures P m
    → ((a : A) → P a → Ensures Q (f a))
    → Ensures Q (m >>= f)
Ensures-bind P Q (done a) f h k = k a h
Ensures-bind P Q (err e) f h k = tt
Ensures-bind P Q undefined f h k = h

pub Ensures-mono {ℓ} :
    {A : Type ℓ} (P Q : A → Type 0) (m : Outcome A)
    → ((a : A) → P a → Q a)
    → Ensures P m
    → Ensures Q m
Ensures-mono P Q (done a) f h = f a h
Ensures-mono P Q (err e) f h = tt
Ensures-mono P Q undefined f h = h
