-- ===== src/Http/Parser/Framing.antt =====
-- RFC 7230 3.3.3: how the length of a message body is determined.
use remotedev.Base.{
  ℕ, ◌≡◌, true, false, some, not, ◌&&◌, ◌||◌, ltb, leb, ◌==◌, if◌then◌else◌, arith,
}
use remotedev.Http.Parser.{
  Parser, body, body_to_eof, chunk_header, complete, do_header_response, is_keep_alive,
}

-- The body that a header announces.
pub data Framing : Type 0 where
  no_body chunks until_close : Framing
  octets : ℕ → Framing

-- By Content-Length, which the parser never accepts beside a chunked Transfer-Encoding.
abbrev announced : Parser → Framing → Framing
announced p otherwise =
    if p.f.content_length
    then (if p.len == 0 then no_body else octets p.len)
    else if p.f.chunked
    then chunks
    else otherwise

-- 1xx, 204 and 304 responses never have a body, nor has one that answers HEAD.
abbrev pub response_framing : ℕ → Parser → Framing
response_framing status p =
    if p.f.skip_body || leb 100 status && ltb status 200 || status == 204 || status == 304
    then no_body
    else announced p until_close

-- The state in which a parser expects a body.
abbrev pub Expects : Framing → Parser → Type 0
Expects no_body q = q.state ≡ complete
Expects chunks q = (q.state ≡ chunk_header) × (q.f.has_body ≡ true)
Expects until_close q = (q.state ≡ body_to_eof) × (q.f.has_body ≡ true) × (q.f.need_eof ≡ true)
Expects (octets n) q = (q.state ≡ body) × (q.len ≡ n) × (q.f.has_body ≡ true)

-- After the header of a response, if no end of stream was needed before, `is_keep_alive` may be asked,
-- and the connection is kept alive exactly when HTTP/1.1 does not say `close`, or HTTP/1.0 says `keep-alive`, and the body
-- does not run to the end of the stream.
pub is_keep_alive-response :
    (status : ℕ) (p : Parser)
    → p.f.need_eof ≡ false
    → is_keep_alive (do_header_response status p)
      ≡ some (
          (if p.f.http11 then not p.f.connection_close else p.f.connection_keep_alive)
          && (elim (response_framing status p) [ until_close ↦ false | _ ↦ true ]))
unfolding do_header_response is_keep_alive
is_keep_alive-response status p h = ground arith
