-- ===== src/Base/Int.antt =====
-- Signed integers over the native numbers, as far as the code compares and prints them.
use Prim.Native.Nat.{ℕ, zero, suc, ◌+◌, ◌/◌, ◌%◌}
use Prim.Native.Char.{code}
use Prim.Native.String.{String}
use mathlib.Core.Bool.{Bool, true, false}
use mathlib.Core.List.{[], ◌∷◌, ◌++◌}
use remotedev.Base.Tests.{ltb, ◌==◌, if◌then◌else◌}
use remotedev.Base.Lists.{Bytes}

-- `negsuc n` is -(n + 1).
pub data ℤ : Type 0 where
  pos negsuc : ℕ → ℤ

abbrev pub int_lt : ℤ → ℤ → Bool
int_lt (pos a) (pos b) = ltb a b
int_lt (pos a) (negsuc b) = false
int_lt (negsuc a) (pos b) = true
int_lt (negsuc a) (negsuc b) = ltb b a

abbrev pub int_eq : ℤ → ℤ → Bool
int_eq (pos a) (pos b) = a == b
int_eq (negsuc a) (negsuc b) = a == b
int_eq _ _ = false

-- `std::min`
abbrev pub int_min : ℤ → ℤ → ℤ
int_min a b = if int_lt b a then b else a

-- The characters of a text in ASCII.
abbrev pub codes : String → Bytes
codes String.[] = []
codes (String.◌∷◌ c s) = code c ∷ codes s

-- Decimal digits; a number has at most as many digits as it is.
decimal : ℕ → ℕ → Bytes
decimal zero n = []
decimal (suc fuel) n =
    let front = decimal fuel (n / 10) in
    if ltb n 10 then (b'0' + n) ∷ [] else front ++ ((b'0' + n % 10) ∷ [])

-- `std::to_string`
unfoldable pub to_string : ℤ → Bytes
unfolding decimal
to_string (pos n) = decimal (suc n) n
to_string (negsuc n) = b'-' ∷ decimal (suc (suc n)) (suc n)
