-- ===== src/Http/ChunkEncode.antt =====
-- include/beast/http/chunk_encode.hpp and detail/chunk_encode.hpp: the chunks of a body.
pub mod Digits
pub mod RoundTrip
use remotedev.Base.{
  flatten, ℕ, zero, suc, ◌+◌, ◌-◌, ◌/◌, ◌^◌, Bool, true, false, bit_and, Option, none, some, List,
  [], ◌∷◌, ◌++◌, Bytes, length, ltb, if◌then◌else◌, ◌>>=◌,
}

-- `"0123456789abcdef"[d]`, by its two runs.
pub hex_char : ℕ → ℕ
hex_char d = if ltb d 10 then b'0' + d else b'a' + (d - 10)

-- The loop of `to_hex`, which writes before `last`, where there are `room` characters: none is a
-- write before the buffer.
pub hex_digits : ℕ → ℕ → Bytes → Option Bytes
unfolding hex_char
hex_digits room zero last = some last
hex_digits zero (suc n) last = none
hex_digits (suc room) (suc n) last =
    hex_digits room (suc n / 2 ^ 4) (hex_char (bit_and (suc n) 0x0f) ∷ last)

pub to_hex : ℕ → Bytes → ℕ → Option Bytes
unfolding hex_digits
to_hex room last zero = some (b'0' ∷ last)
to_hex room last (suc n) = hex_digits room (suc n) last

-- `chunk_encode_delim(n)`: `buf_` has 2 * sizeof(std::size_t) characters before the CR LF.
pub chunk_encode_delim : ℕ → Option Bytes
unfolding to_hex
chunk_encode_delim n = to_hex 16 (b'\r' ∷ b'\n' ∷ []) n

-- The buffers of the result, one behind the other.
pub chunk_encode : Bool → List Bytes → Option Bytes
unfolding chunk_encode_delim
chunk_encode fin buffers = do
  delim ← chunk_encode_delim (length (flatten buffers))
  some (
      delim
      ++ (flatten buffers
          ++ (if fin
              then b'\r' ∷ b'\n' ∷ b'0' ∷ b'\r' ∷ b'\n' ∷ b'\r' ∷ b'\n' ∷ []
              else b'\r' ∷ b'\n' ∷ [])))

abbrev pub chunk_encode_final : Bytes
chunk_encode_final = b'0' ∷ b'\r' ∷ b'\n' ∷ b'\r' ∷ b'\n' ∷ []
