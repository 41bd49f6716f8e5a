-- ===== src/Http/Tests.antt =====
-- The theorems on scanning, framing and bodies, at concrete messages.
use remotedev.Base.{
  some, ◌+◌, ◌-◌, ◌*◌, ◌^◌, ◌≡◌, refl, true, false, not, ◌&&◌, none, List, Bytes, [], ◌∷◌, ◌++◌,
  length, take, flatten, leb, if◌then◌else◌, arith,
}
use remotedev.Http.Chars.{unhex, is_digit}
use remotedev.Http.Scan.{ok, found, missing, find_eom, find_eom_at, parse_dec, dec_loop, parse_hex}
use remotedev.Http.Scan.Eom.{IsEnd, find_eom-IsEnd}
use remotedev.Http.Scan.Numbers.{Stops, dec_value, parse_dec-dec_value}
use remotedev.Http.Scan.Hex.{
  HexDigit, StopsHex, chars, hex_value, parse_hex-hex_value, parse_hex_wraps,
}
use remotedev.Http.Parser.{
  Parser, Flags, header, body, complete, Derived, do_header_response, is_keep_alive,
}
use remotedev.Http.Parser.Framing.{until_close, response_framing, is_keep_alive-response}
use remotedev.Http.Parser.Body.{IsRecording, feed_body, feed_body_lem}

-- `a: b`, in a buffer that ends within the end of the header.
abbrev partial : Bytes
partial = b'a' ∷ b':' ∷ b' ' ∷ b'b' ∷ b'\r' ∷ b'\n' ∷ []

abbrev whole : Bytes
whole = partial ++ (b'\r' ∷ b'\n' ∷ b'x' ∷ [])

partial_missing : find_eom partial ≡ missing
unfolding find_eom find_eom_at
partial_missing = refl

whole_found : find_eom whole ≡ found 8
unfolding find_eom find_eom_at
whole_found = refl

find_eom-IsEnd_example : IsEnd whole 8
find_eom-IsEnd_example = find_eom-IsEnd whole {n = 8} whole_found

abbrev line_end : Bytes
line_end = b'\r' ∷ b'\n' ∷ []

line_end-Stops : Stops line_end
unfolding is_digit
line_end-Stops = record { head = b'\r'; tail = b'\n' ∷ []; begins = refl; no_digit = refl }

parse_dec-dec_value_example :
    parse_dec 2 (b'4' ∷ ((b'2' ∷ []) ++ line_end)) ≡ ok (dec_value 0 (b'4' ∷ b'2' ∷ [])) line_end
parse_dec-dec_value_example =
    parse_dec-dec_value b'4' (b'2' ∷ []) line_end (ground arith) line_end-Stops (omega arith)

abbrev forty_two : Bytes
forty_two = b'4' ∷ b'2' ∷ []

parses : parse_dec 2 (forty_two ++ line_end) ≡ ok 42 line_end
unfolding parse_dec dec_loop is_digit
parses = refl

line_end-StopsHex : StopsHex line_end
unfolding unhex
line_end-StopsHex = record { head = b'\r'; tail = b'\n' ∷ []; begins = refl; no_digit = refl }

digit_0 : HexDigit
unfolding unhex
digit_0 = record { char = b'0'; value = 0; is_hex = refl }

digit_1 : HexDigit
unfolding unhex
digit_1 = record { char = b'1'; value = 1; is_hex = refl }

digit_f : HexDigit
unfolding unhex
digit_f = record { char = b'f'; value = 15; is_hex = refl }

parse_hex-hex_value_example :
    parse_hex (chars (digit_1 ∷ digit_f ∷ []) ++ line_end)
    ≡ ok (hex_value 0 (digit_1 ∷ digit_f ∷ [])) line_end
unfolding digit_1 digit_f
parse_hex-hex_value_example =
    parse_hex-hex_value digit_1 (digit_f ∷ []) line_end line_end-StopsHex (omega arith)
      (omega arith)

-- `1fffffffffffffff`, with an `f` behind it.
abbrev long_size : List HexDigit
long_size =
    digit_f ∷ digit_f ∷ digit_f ∷ digit_f ∷ digit_f ∷ digit_f ∷ digit_f ∷ digit_f ∷ digit_f
    ∷ digit_f ∷ digit_f ∷ digit_f ∷ digit_f ∷ digit_f ∷ digit_f ∷ []

parse_hex_wraps_example :
    parse_hex (chars (digit_1 ∷ long_size) ++ (digit_f.char ∷ line_end))
    ≡ ok (16 * hex_value 0 (digit_1 ∷ long_size) + digit_f.value - 2 ^ 64) line_end
unfolding digit_1 digit_f
parse_hex_wraps_example =
    parse_hex_wraps digit_1 long_size digit_f line_end line_end-StopsHex (omega arith) (omega arith)
      (omega arith) (omega arith)

-- A message with a Content-Length of 5, in HTTP/1.1.
abbrev flags : Flags
flags = record {
  skip_body = false;
  on_body = false;
  got_some = true;
  has_body = false;
  http11 = true;
  need_eof = false;
  expect_crlf = false;
  final_chunk = false;
  connection_close = false;
  connection_upgrade = false;
  connection_keep_alive = false;
  content_length = true;
  chunked = false;
  upgrade = false;
}

abbrev parser : Parser
parser = record {
  len = 5;
  buf = 7 ∷ 7 ∷ 7 ∷ 7 ∷ [];
  buf_len = 4;
  skip = 0;
  x = 0;
  f = flags;
  state = header;
  ext = [];
  body_view = [];
}

is_keep_alive-response_example :
    is_keep_alive (do_header_response 200 parser)
    ≡ some (
        (if parser.f.http11 then not parser.f.connection_close else parser.f.connection_keep_alive)
        && (elim (response_framing 200 parser) [ until_close ↦ false | _ ↦ true ]))
is_keep_alive-response_example = is_keep_alive-response 200 parser refl

-- A derived class that keeps the body.
abbrev keeping : Derived Bytes
keeping = record {
  on_body_length = λ n d. (d, none);
  on_body = λ d. (d, none);
  on_data = λ b d. (d ++ b, none);
  on_complete = λ d. (d, none);
}

keeping_records : IsRecording keeping (λ d. d)
keeping_records = record {
  data_taken = λ b d. refl;
  data_logged = λ b d. refl;
  complete_taken = λ d. refl;
  complete_logged = λ d. refl;
}

abbrev in_body : Parser
in_body = record parser { state = body }

abbrev pieces : List Bytes
pieces = (1 ∷ 2 ∷ 3 ∷ []) ∷ (4 ∷ 5 ∷ []) ∷ (6 ∷ []) ∷ []

feed_body_lem_example :
    ((feed_body keeping pieces in_body []).0.state
      ≡ (if leb 5 (length (flatten pieces)) then complete else body))
    × ((feed_body keeping pieces in_body []).0.len ≡ 5 - length (flatten pieces))
    × ((feed_body keeping pieces in_body []).1 ≡ [] ++ take 5 (flatten pieces))
feed_body_lem_example =
    feed_body_lem keeping (λ d. d) keeping_records pieces in_body [] refl (omega arith)
