-- ===== src/Http/Field/Length/Tests.antt =====
-- A message with `Content-Length: 42`.
use remotedev.Base.{true, false, ◌∷◌, [], Bytes}
use remotedev.Http.Parser.{Parser, Flags, header}

abbrev blank : Flags
blank = record {
  skip_body = false;
  on_body = false;
  got_some = false;
  has_body = false;
  http11 = false;
  need_eof = false;
  expect_crlf = false;
  final_chunk = false;
  connection_close = false;
  connection_upgrade = false;
  connection_keep_alive = false;
  content_length = false;
  chunked = false;
  upgrade = false;
}

abbrev at_field : Parser
at_field = record {
  len = 0;
  buf = [];
  buf_len = 0;
  skip = 0;
  x = 0;
  f = blank;
  state = header;
  ext = [];
  body_view = [];
}

abbrev behind_field : Parser
behind_field = record at_field { len = 42; f = record (blank) { content_length = true } }

abbrev line_end : Bytes
line_end = b'\r' ∷ b'\n' ∷ []
