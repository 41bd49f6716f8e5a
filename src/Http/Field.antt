-- ===== src/Http/Field.antt =====
-- include/beast/http/impl/basic_parser.ipp: do_field.
pub mod Defined
pub mod Valid
pub mod Length
use remotedev.Base.{
  ℕ, Bool, true, false, not, ◌&&◌, ◌||◌, List, [], ◌∷◌, ◌++◌, Bytes, length, if◌then◌else◌,
}
use remotedev.Http.Chars.{is_text, strieq}
use remotedev.Http.Scan.{Scan, ok, no, fault, parse_dec}
use remotedev.Http.Parser.{bad_value, bad_content_length, bad_transfer_encoding, Parser, Flags}
use remotedev.Http.Outcome.{Outcome, done, err, undefined}
use remotedev.Http.Lists.{token_list, opt_token_list, validate_list}

abbrev pub close_token : Bytes
close_token = b'c' ∷ b'l' ∷ b'o' ∷ b's' ∷ b'e' ∷ []

abbrev pub keep_alive_token : Bytes
keep_alive_token = b'k' ∷ b'e' ∷ b'e' ∷ b'p' ∷ b'-' ∷ b'a' ∷ b'l' ∷ b'i' ∷ b'v' ∷ b'e' ∷ []

abbrev pub upgrade_token : Bytes
upgrade_token = b'u' ∷ b'p' ∷ b'g' ∷ b'r' ∷ b'a' ∷ b'd' ∷ b'e' ∷ []

abbrev chunked_token : Bytes
chunked_token = b'c' ∷ b'h' ∷ b'u' ∷ b'n' ∷ b'k' ∷ b'e' ∷ b'd' ∷ []

abbrev pub connection_name : Bytes
connection_name = b'c' ∷ b'o' ∷ b'n' ∷ b'n' ∷ b'e' ∷ b'c' ∷ b't' ∷ b'i' ∷ b'o' ∷ b'n' ∷ []

abbrev pub proxy_connection_name : Bytes
proxy_connection_name = b'p' ∷ b'r' ∷ b'o' ∷ b'x' ∷ b'y' ∷ b'-' ∷ connection_name

abbrev pub content_length_name : Bytes
content_length_name =
    b'c' ∷ b'o' ∷ b'n' ∷ b't' ∷ b'e' ∷ b'n' ∷ b't' ∷ b'-' ∷ b'l' ∷ b'e' ∷ b'n' ∷ b'g' ∷ b't' ∷ b'h'
    ∷ []

abbrev pub transfer_encoding_name : Bytes
transfer_encoding_name =
    b't' ∷ b'r' ∷ b'a' ∷ b'n' ∷ b's' ∷ b'f' ∷ b'e' ∷ b'r' ∷ b'-' ∷ b'e' ∷ b'n' ∷ b'c' ∷ b'o' ∷ b'd'
    ∷ b'i' ∷ b'n' ∷ b'g' ∷ []

-- The flags that the tokens of a Connection field set.
pub connection_options : List Bytes → Flags → Flags
connection_options [] f = f
connection_options (s ∷ ss) f = connection_options ss (
    if strieq close_token s
    then record f { connection_close = true }
    else if strieq keep_alive_token s
    then record f { connection_keep_alive = true }
    else if strieq upgrade_token s
    then record f { connection_upgrade = true }
    else f)

pub all_text : Bytes → Bool
all_text [] = true
all_text (c ∷ r) = is_text c && all_text r

-- Whether the first `chunked` of a list is its last token.
pub ends_in_chunked : List Bytes → Bool
ends_in_chunked [] = false
ends_in_chunked (s ∷ ss) =
    let rest = ends_in_chunked ss in
    if strieq chunked_token s then (elim ss [ [] ↦ true | _ ↦ false ]) else rest

pub do_connection : Bytes → Parser → Outcome Parser
unfolding connection_options
do_connection value p =
    if not (validate_list value)
    then err bad_value
    else done (record p { f = connection_options (opt_token_list value) p.f })

-- What follows `parse_dec`.
pub store_length : Scan ℕ → Parser → Outcome Parser
store_length (ok v _) p = done (record p { len = v; f = record (p.f) { content_length = true } })
store_length no p = err bad_content_length
store_length fault p = undefined

pub do_content_length : Bytes → Bytes → Parser → Outcome Parser
unfolding store_length
do_content_length value behind p =
    if p.f.content_length
    then err bad_content_length
    else if p.f.chunked
    then err bad_content_length
    else store_length (parse_dec (length behind) (value ++ behind)) p

pub do_transfer_encoding : Bytes → Parser → Outcome Parser
unfolding ends_in_chunked
do_transfer_encoding value p =
    if p.f.chunked
    then err bad_transfer_encoding
    else if p.f.content_length
    then err bad_transfer_encoding
    else if ends_in_chunked (token_list value)
    then done (record p { len = 0; f = record (p.f) { chunked = true } })
    else done p

-- `do_field`, with the memory behind the value.
pub do_field : Bytes → Bytes → Bytes → Parser → Outcome Parser
unfolding do_connection do_content_length do_transfer_encoding all_text
do_field name value behind p =
    if strieq connection_name name || strieq proxy_connection_name name
    then do_connection value p
    else if not (all_text value)
    then err bad_value
    else if strieq content_length_name name
    then do_content_length value behind p
    else if strieq transfer_encoding_name name
    then do_transfer_encoding value p
    else if strieq upgrade_token name
    then done (record p { f = record (p.f) { upgrade = true } })
    else done p
