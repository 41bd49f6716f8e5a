-- ===== src/Websocket/Pmd.antt =====
-- include/beast/websocket/detail/pmd_extension.hpp: the negotiation of permessage-deflate, and
-- option.hpp (permessage_deflate) with set_option of impl/stream.ipp. `fields` is the value of
-- Sec-WebSocket-Extensions in it, and `replace` gives the value that is written.
pub mod Bits
pub mod Text
pub mod Written
pub mod RoundTrip
pub mod Valid
pub mod Agree
mod Tests
use remotedev.Base.{
  ℕ, ◌+◌, ◌*◌, ◌-◌, Bool, true, false, not, ◌&&◌, ◌||◌, Option, none, some, ◌>>=◌, List, [], ◌∷◌,
  ◌++◌, Bytes, length, ltb, ◌==◌, if◌then◌else◌,
}
use remotedev.Base.Int.{ℤ, pos, negsuc, int_lt, int_eq, int_min, codes, to_string}
use remotedev.Core.CiEqual.{ci_equal}
use remotedev.Http.Params.{ext_list, param_list}

pub record PmdOffer : Type 0 where
  pub accept : Bool
  pub server_max_window_bits : ℤ
  pub client_max_window_bits : ℤ
  pub server_no_context_takeover : Bool
  pub client_no_context_takeover : Bool

pub record PermessageDeflate : Type 0 where
  pub server_enable : Bool
  pub client_enable : Bool
  pub server_max_window_bits : ℤ
  pub client_max_window_bits : ℤ
  pub server_no_context_takeover : Bool
  pub client_no_context_takeover : Bool
  pub comp_level : ℤ
  pub mem_level : ℤ

-- `set_option`, which throws where there is none.
pub set_option : PermessageDeflate → Option PermessageDeflate
set_option o =
    if int_lt (pos 15) o.server_max_window_bits || int_lt o.server_max_window_bits (pos 9)
    then none
    else if int_lt (pos 15) o.client_max_window_bits || int_lt o.client_max_window_bits (pos 9)
    then none
    else if int_lt o.comp_level (pos 0) || int_lt (pos 9) o.comp_level
    then none
    else if int_lt o.mem_level (pos 1) || int_lt (pos 9) o.mem_level
    then none
    else some o

-- The loop of `parse_bits`.
bits_loop : ℕ → Bytes → ℤ
bits_loop i [] = pos i
bits_loop i (c ∷ r) =
    let rest = bits_loop (10 * i + (c - b'0')) r in
    if ltb c b'0' || ltb b'9' c then negsuc 0 else rest

pub parse_bits : Bytes → ℤ
unfolding bits_loop
parse_bits [] = negsuc 0
parse_bits (c ∷ r) =
    if ltb 2 (length (c ∷ r))
    then negsuc 0
    else if ltb c b'1' || ltb b'9' c
    then negsuc 0
    else bits_loop 0 (c ∷ r)

abbrev pub is_empty : Bytes → Bool
is_empty [] = true
is_empty (_ ∷ _) = false

-- What a parameter leaves of the offer, and whether the loop goes on.
pub read_param : PmdOffer → Bytes → Bytes → PmdOffer × Bool
unfolding parse_bits
read_param offer name value =
    if ci_equal name (codes "server_max_window_bits")
    then (if not (int_eq offer.server_max_window_bits (pos 0))
        then (offer, false)
        else if is_empty value
        then (offer, false)
        else (let bits = parse_bits value in
            (
              record offer { server_max_window_bits = bits },
              not (int_lt bits (pos 8) || int_lt (pos 15) bits),
            )))
    else if ci_equal name (codes "client_max_window_bits")
    then (if not (int_eq offer.client_max_window_bits (pos 0))
        then (offer, false)
        else if not (is_empty value)
        then (let bits = parse_bits value in
            (
              record offer { client_max_window_bits = bits },
              not (int_lt bits (pos 8) || int_lt (pos 15) bits),
            ))
        else (record offer { client_max_window_bits = negsuc 0 }, true))
    else if ci_equal name (codes "server_no_context_takeover")
    then (if offer.server_no_context_takeover
        then (offer, false)
        else if not (is_empty value)
        then (offer, false)
        else (record offer { server_no_context_takeover = true }, true))
    else if ci_equal name (codes "client_no_context_takeover")
    then (if offer.client_no_context_takeover
        then (offer, false)
        else if not (is_empty value)
        then (offer, false)
        else (record offer { client_no_context_takeover = true }, true))
    else (offer, false)

pub read_params : PmdOffer → List (Bytes × Bytes) → PmdOffer
unfolding read_param
read_params offer [] = record offer { accept = true }
read_params offer ((name, value) ∷ ps) =
    let (next, go_on) = read_param offer name value in if go_on then read_params next ps else next

-- What `pmd_read` sets first.
abbrev pub no_offer : PmdOffer
no_offer = record {
  accept = false;
  server_max_window_bits = pos 0;
  client_max_window_bits = pos 0;
  server_no_context_takeover = false;
  client_no_context_takeover = false;
}

pub read_exts : List (Bytes × Bytes) → Option PmdOffer
unfolding read_params
read_exts [] = some no_offer
read_exts ((name, params) ∷ es) =
    if ci_equal name (codes "permessage-deflate")
    then (do ps ← param_list params; some (read_params no_offer ps))
    else read_exts es

-- `pmd_read`; none is a read past the end in `param_list`.
pub pmd_read : Bytes → Option PmdOffer
unfolding read_exts
pmd_read fields = read_exts (ext_list fields)

-- `if(cond) s += text;`
abbrev append_if : Bool → Bytes → Bytes → Bytes
append_if cond text s = if cond then s ++ text else s

pub pmd_write : PmdOffer → Bytes
pmd_write offer =
    let s0 = codes "permessage-deflate" in
    let s1 =
      if not (int_eq offer.server_max_window_bits (pos 0))
      then (if not (int_eq offer.server_max_window_bits (negsuc 0))
          then (s0 ++ codes "; server_max_window_bits=") ++ to_string offer.server_max_window_bits
          else s0 ++ codes "; server_max_window_bits")
      else s0 in
    let s2 =
      if not (int_eq offer.client_max_window_bits (pos 0))
      then (if not (int_eq offer.client_max_window_bits (negsuc 0))
          then (s1 ++ codes "; client_max_window_bits=") ++ to_string offer.client_max_window_bits
          else s1 ++ codes "; client_max_window_bits")
      else s1 in
    let s3 = append_if offer.server_no_context_takeover (codes "; server_no_context_takeover") s2 in
    append_if offer.client_no_context_takeover (codes "; client_no_context_takeover") s3

-- The switch on the client's window bits of the offer: the bits, the text, and whether the
-- extension is accepted. `bits` is what they were.
negotiate_client : ℤ → ℤ → ℤ → Bytes → ℤ × Bytes × Bool
negotiate_client offered wanted bits s =
    if int_eq offered (negsuc 0)
    then (
      wanted,
      (if int_lt wanted (pos 15)
          then (s ++ codes "; client_max_window_bits=") ++ to_string wanted
          else s),
      true,
    )
    else if int_eq offered (pos 0)
    then (if int_eq wanted (pos 15) then (pos 15, s, true) else (bits, s, false))
    else (let least = int_min wanted offered in
        (least, (s ++ codes "; client_max_window_bits=") ++ to_string least, true))

-- What is left of `config`, and the value that `replace` writes.
pub pmd_negotiate : PmdOffer → PmdOffer → PermessageDeflate → PmdOffer × Option Bytes
unfolding negotiate_client
pmd_negotiate config offer o =
    if not (offer.accept && o.server_enable)
    then (record config { accept = false }, none)
    else (let server_takeover = offer.server_no_context_takeover || o.server_no_context_takeover in
        let client_takeover = o.client_no_context_takeover || offer.client_no_context_takeover in
        let s0 = codes "permessage-deflate" in
        let s1 = append_if server_takeover (codes "; server_no_context_takeover") s0 in
        let s2 = append_if client_takeover (codes "; client_no_context_takeover") s1 in
        let least =
          if not (int_eq offer.server_max_window_bits (pos 0))
          then int_min offer.server_max_window_bits o.server_max_window_bits
          else o.server_max_window_bits in
        let server_bits =
          if int_lt least (pos 15)
          then (if int_lt least (pos 9) then pos 9 else least)
          else least in
        let s3 =
          if int_lt least (pos 15)
          then (s2 ++ codes "; server_max_window_bits=") ++ to_string server_bits
          else s2 in
        let (client_bits, s4, accept) =
          negotiate_client offer.client_max_window_bits o.client_max_window_bits
            config.client_max_window_bits s3 in
        (
          record {
            accept = accept;
            server_max_window_bits = server_bits;
            client_max_window_bits = client_bits;
            server_no_context_takeover = server_takeover;
            client_no_context_takeover = client_takeover;
          },
          if accept then some s4 else none,
        ))

pub pmd_normalize : PmdOffer → PmdOffer
pmd_normalize offer =
    if offer.accept
    then (let next =
          if int_eq offer.server_max_window_bits (pos 0)
          then record offer { server_max_window_bits = pos 15 }
          else offer in
        if int_eq next.client_max_window_bits (pos 0)
          || int_eq next.client_max_window_bits (negsuc 0)
        then record next { client_max_window_bits = pos 15 }
        else next)
    else offer
