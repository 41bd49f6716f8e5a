-- ===== src/Http/WriteTests.antt =====
-- The theorems on headers and chunks, at concrete messages.
use remotedev.Base.{◌≡◌, refl, inl, true, false, none, List, Bytes, [], ◌∷◌, ◌++◌, drop, arith}
use remotedev.Http.Scan.{behind, find_eom, find_eom_at}
use remotedev.Http.Parser.{Parser, Flags, header, chunk_header}
use remotedev.Http.Parser.Valid.{IsValid}
use remotedev.Http.Outcome.{Receiver, Ensures}
use remotedev.Http.Header.{request, response, parse_header}
use remotedev.Http.Header.Defined.{Uses, parse_header-Ensures}
use remotedev.Http.Header.Resume.{Resumes-start}
use remotedev.Http.Write.{do_write}
use remotedev.Http.Write.Resume.{WritesPart, do_write-WritesPart}
use remotedev.Http.Write.Valid.{do_write-IsValid}
use remotedev.Http.Write.Data.{Ready}
use remotedev.Http.ChunkEncode.RoundTrip.{Completes, chunks-Completes}

-- A derived class that keeps the pieces of the body.
abbrev keeping : Receiver (List Bytes)
keeping = record {
  on_request = λ m t v d. (d, none);
  on_response = λ s r v d. (d, none);
  on_field = λ n v d. (d, none);
  on_header = λ d. (d, none);
  on_chunk = λ n e d. (d, none);
  events = record {
    on_body_length = λ n d. (d, none);
    on_body = λ d. (d, none);
    on_data = λ b d. (d ++ b ∷ [], none);
    on_complete = λ d. (d, none);
  };
}

abbrev no_flags : Flags
no_flags = record {
  skip_body = false;
  on_body = false;
  got_some = false;
  has_body = false;
  http11 = false;
  need_eof = false;
  expect_crlf = false;
  final_chunk = false;
  connection_close = false;
  connection_upgrade = false;
  connection_keep_alive = false;
  content_length = false;
  chunked = false;
  upgrade = false;
}

abbrev fresh : Parser
fresh = record {
  len = 0;
  buf = [];
  buf_len = 0;
  skip = 0;
  x = 0;
  f = no_flags;
  state = header;
  ext = [];
  body_view = [];
}

abbrev http_1_1 : Bytes
http_1_1 = b'H' ∷ b'T' ∷ b'T' ∷ b'P' ∷ b'/' ∷ b'1' ∷ b'.' ∷ b'1' ∷ []

-- `GET / HTTP/1.1`, with a field `a: b`, and the start of a body.
abbrev get : Bytes
get =
    b'G'
    ∷ b'E'
    ∷ b'T'
    ∷ b' '
    ∷ b'/'
    ∷ b' '
    ∷ (http_1_1
        ++ (b'\r' ∷ b'\n' ∷ b'a' ∷ b':' ∷ b' ' ∷ b'b' ∷ b'\r' ∷ b'\n' ∷ b'\r' ∷ b'\n' ∷ b'x' ∷ []))

get_found : find_eom get ≡ behind 0 (find_eom (drop 0 get))
unfolding find_eom find_eom_at
get_found = refl

parse_header-Ensures_example :
    Ensures (Uses get) (parse_header keeping request get fresh []).outcome
parse_header-Ensures_example =
    parse_header-Ensures keeping request get fresh [] (omega arith) get_found

abbrev start : Bytes
start = b'G' ∷ b'E' ∷ b'T' ∷ []

do_write-WritesPart_example : WritesPart keeping request start fresh []
do_write-WritesPart_example =
    do_write-WritesPart keeping request start fresh [] refl (Resumes-start start fresh refl)
      (inl (omega arith))

do_write-IsValid_example : IsValid (do_write keeping response get fresh []).parser
do_write-IsValid_example = do_write-IsValid keeping response get fresh [] (refl, tt)

abbrev before_chunk : Parser
before_chunk = record fresh { f = record (no_flags) { chunked = true }; state = chunk_header }

abbrev blocks : List Bytes
blocks = (1 ∷ 2 ∷ 3 ∷ []) ∷ (4 ∷ []) ∷ []

before_chunk-Ready : Ready false before_chunk
before_chunk-Ready = record {
  at_chunk = refl;
  end_expected = refl;
  not_final = refl;
  not_skipped = refl;
}

chunks-Completes_example : Completes keeping request false blocks before_chunk []
chunks-Completes_example =
    chunks-Completes keeping request false blocks before_chunk [] (λ n d. refl) (λ d. refl)
      (λ block d. refl) (λ d. refl) (ground arith) before_chunk-Ready
