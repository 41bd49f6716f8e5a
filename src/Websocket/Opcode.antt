-- ===== src/Websocket/Opcode.antt =====
-- include/beast/websocket/rfc6455.hpp and detail/frame.hpp: opcodes and close codes.
use remotedev.Base.{
  ℕ, ◌≤◌, ◌≡◌, Bool, true, false, ◌&&◌, ◌||◌, ◌↔◌, ◌⊎◌, leb, ◌==◌, if◌then◌else◌, arith,
}

pub data Opcode : Type 0 where
  cont text binary rsv3 rsv4 rsv5 rsv6 rsv7 : Opcode
  close ping pong crsvb crsvc crsvd crsve crsvf : Opcode

-- The number of an enumerator.
abbrev pub code : Opcode → ℕ
code cont = 0
code text = 1
code binary = 2
code rsv3 = 3
code rsv4 = 4
code rsv5 = 5
code rsv6 = 6
code rsv7 = 7
code close = 8
code ping = 9
code pong = 10
code crsvb = 11
code crsvc = 12
code crsvd = 13
code crsve = 14
code crsvf = 15

-- The cast from an octet's low four bits.
unfoldable pub of_nibble : ℕ → Opcode
of_nibble n =
    if n == 0
    then cont
    else if n == 1
    then text
    else if n == 2
    then binary
    else if n == 3
    then rsv3
    else if n == 4
    then rsv4
    else if n == 5
    then rsv5
    else if n == 6
    then rsv6
    else if n == 7
    then rsv7
    else if n == 8
    then close
    else if n == 9
    then ping
    else if n == 10
    then pong
    else if n == 11
    then crsvb
    else if n == 12
    then crsvc
    else if n == 13
    then crsvd
    else if n == 14
    then crsve
    else crsvf

unfoldable pub is_reserved : Opcode → Bool
is_reserved op =
    leb (code rsv3) (code op) && leb (code op) (code rsv7)
    || leb (code crsvb) (code op) && leb (code op) (code crsvf)

unfoldable pub is_control : Opcode → Bool
is_control op = leb (code close) (code op)

-- `close_code`, an enumeration over `std::uint16_t`.
abbrev pub no_code : ℕ
no_code = 0

abbrev pub protocol_error : ℕ
protocol_error = 1002

abbrev pub too_big : ℕ
too_big = 1009

pub is_valid_close_code : ℕ → Bool
is_valid_close_code v =
    if v == 1000
      || v == 1001
      || v == 1002
      || v == 1003
      || v == 1007
      || v == 1008
      || v == 1009
      || v == 1010
      || v == 1011
      || v == 1012
      || v == 1013
    then true
    else if v == 1004 || v == 1005 || v == 1006 || v == 1014 || v == 1015
    then false
    else if leb 1016 v && leb v 2999
    then false
    else if leb v 999
    then false
    else true

-- The codes an endpoint may send: RFC 6455 7.4.1 and 7.4.2 with the IANA registry.
abbrev pub IsSendable : ℕ → Type 0
IsSendable v = ((1000 ≤ v) × (v ≤ 1003)) ⊎ (((1007 ≤ v) × (v ≤ 1013)) ⊎ (3000 ≤ v))

-- A close code is accepted exactly when it is 1000 to 1003, 1007 to 1013, or at least 3000.
pub is_valid_close_code_iff : (v : ℕ) → (is_valid_close_code v ≡ true) ↔ IsSendable v
unfolding is_valid_close_code
is_valid_close_code_iff v = (λ h. ground arith, λ h. ground arith)
