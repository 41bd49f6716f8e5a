-- ===== src/Http/Field/Length.antt =====
-- RFC 7230 3.3.3: what the fields of a header say about the length of the body, and the body that is
-- expected then.
mod Tests
use remotedev.Base.{
  ℕ, ◌≡◌, Bool, true, not, ◌&&◌, ◌||◌, ◌++◌, Bytes, length, ltb, leb, ◌==◌, if◌then◌else◌, inl, inr,
  Bool-cases, both_branches,
}
use remotedev.Http.Scan.{Scan, ok, parse_dec}
use remotedev.Http.Parser.{Parser, do_header_request}
use remotedev.Http.Parser.Framing.{Framing, no_body, chunks, until_close, octets, Expects}
use remotedev.Http.Outcome.{Outcome, done}
use remotedev.Http.Lists.{token_list}
use remotedev.Http.Field.{do_transfer_encoding, do_content_length, ends_in_chunked}

-- The field of a header that says how long the body is, if there is one: a Transfer-Encoding, or a
-- Content-Length with the memory behind its value.
pub data LengthField : Type 0 where
  no_field : LengthField
  coded : Bytes → LengthField
  counted : Bytes → Bytes → LengthField

-- What `do_field` does on it.
abbrev pub read_length : LengthField → Parser → Outcome Parser
read_length no_field p = done p
read_length (coded value) p = do_transfer_encoding value p
read_length (counted value behind) p = do_content_length value behind p

abbrev of_length : Scan ℕ → Framing
of_length (ok n _) = if n == 0 then no_body else octets n
of_length _ = no_body

-- The body that RFC 7230 3.3.3 gives a message with this field: chunks where the transfer codings, as
-- `token_list` reads them, have `chunked` at their end and nowhere before, up to the close of the
-- connection where they do not, the length that is stated, or what a message has that says nothing.
abbrev framing : Framing → LengthField → Framing
framing otherwise no_field = otherwise
framing otherwise (coded value) = if ends_in_chunked (token_list value) then chunks else until_close
framing otherwise (counted value behind) = of_length (parse_dec (length behind) (value ++ behind))

-- What holds where the field was accepted.
abbrev Read : (Parser → Type 0) → Outcome Parser → Type 0
Read P (done q) = P q
Read P _ = Unit

-- 1xx, 204 and 304 responses never have a body, nor has one that answers HEAD.
abbrev response_body : Bool → ℕ → LengthField → Framing
response_body skipped status field =
    if skipped || leb 100 status && ltb status 200 || status == 204 || status == 304
    then no_body
    else framing until_close field

-- A request whose transfer codings do not end with `chunked` has no length, and is bad.
abbrev HasLength : LengthField → Type 0
HasLength (coded value) = ends_in_chunked (token_list value) ≡ true
HasLength _ = Unit

abbrev request_body : Bool → LengthField → Framing
request_body skipped field = if skipped then no_body else framing no_body field

abbrev ExpectsRequest : LengthField → Parser → Parser → Type 0
ExpectsRequest field p q =
    Expects (request_body p.f.skip_body field) (do_header_request q)
    × ((do_header_request q).f.need_eof ≡ p.f.need_eof)
