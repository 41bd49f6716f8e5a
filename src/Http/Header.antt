-- ===== src/Http/Header.antt =====
-- include/beast/http/impl/basic_parser.ipp: parse_header. `undefined` is a read past the end of the
-- header, or a failed assertion.
pub mod Defined
pub mod Resume
pub mod Valid
use remotedev.Base.{
  ℕ, ◌+◌, ◌-◌, Bool, true, false, [], ◌∷◌, Bytes, length, take, drop, ltb, leb, if◌then◌else◌,
}
use remotedev.Http.Scan.{Found, found, missing, bad, find_eom}
use remotedev.Http.Parser.{
  bad_line_ending, Parser, ParseState, complete, do_header_request, do_header_response,
}
use remotedev.Http.Outcome.{Outcome, done, err, undefined, Receiver, After, leave, call}
use remotedev.Http.StartLine.{RequestLine, StatusLine, parse_request_line, parse_status_line}
use remotedev.Http.Fields.{parse_fields}

pub data Side : Type 0 where
  request response : Side

-- `isRequest`, which chooses `do_header`; a request has no status.
pub do_header : Side → ℕ → Parser → Parser
do_header request status p = do_header_request p
do_header response status p = do_header_response status p

abbrev pub is_complete : ParseState → Bool
is_complete complete = true
is_complete _ = false

module _ {D : Type 0} (impl : Receiver D) where
  pub on_complete_if : Bool → ℕ → Parser → D → After D ℕ
  on_complete_if false n p d = leave (done n) p d
  on_complete_if true n p d = call (impl.events.on_complete d) p λ d'. leave (done n) p d'

  -- What follows the last field, with what is left of the header.
  pub header_end : Side → ℕ → ℕ → Bytes → Parser → D → After D ℕ
  unfolding on_complete_if do_header
  header_end side status n [] p d =
      let p' = do_header side status p in
      call (impl.on_header d) p' λ d'. on_complete_if (is_complete p'.state) n p' d'
  header_end side status n (_ ∷ _) p d = leave undefined p d

  pub after_fields : Side → ℕ → ℕ → Outcome Bytes → Parser → D → After D ℕ
  unfolding header_end
  after_fields side status n (done rest) p d = header_end side status n rest p d
  after_fields side status n (err e) p d = leave (err e) p d
  after_fields side status n undefined p d = leave undefined p d

  -- What follows the start line.
  pub header_fields : Side → ℕ → ℕ → ℕ → Bytes → Parser → D → After D ℕ
  unfolding after_fields
  header_fields side version status n it p d =
      let p1 = if leb 11 version then record p { f = record (p.f) { http11 = true } } else p in
      let r = parse_fields impl it p1 d in
      after_fields side status n r.outcome r.parser r.derived_state

  pub after_request_line : ℕ → Outcome (RequestLine × Bytes) → Parser → D → After D ℕ
  unfolding header_fields
  after_request_line n undefined p d = leave undefined p d
  after_request_line n (err e) p d = leave (err e) p d
  after_request_line n (done (l, it)) p d =
      call (impl.on_request l.method l.target l.version d) p
        (header_fields request l.version 0 n it p)

  pub after_status_line : ℕ → Outcome (StatusLine × Bytes) → Parser → D → After D ℕ
  unfolding header_fields
  after_status_line n undefined p d = leave undefined p d
  after_status_line n (err e) p d = leave (err e) p d
  after_status_line n (done (l, it)) p d =
      call (impl.on_response l.status l.reason l.version d) p
        (header_fields response l.version l.status n it p)

  -- A header in full: `parse_startline` and what follows.
  pub parse_message : Side → Bytes → Parser → D → After D ℕ
  unfolding after_request_line after_status_line
  parse_message request m p d = after_request_line (length m) (parse_request_line m) p d
  parse_message response m p d = after_status_line (length m) (parse_status_line m) p d

  -- What follows the search for the end of the header.
  pub after_search : Side → Bytes → Found → Parser → D → After D ℕ
  unfolding parse_message
  after_search side input bad p d = leave (err bad_line_ending) p d
  after_search side input missing p d = leave (done 0) (record p { skip = length input - 3 }) d
  after_search side input (found k) p d =
      parse_message side (take (p.skip + k) input) (record p { skip = 0 }) d

  -- A search that goes on behind the input reads past it. The octets used are none where the header does not end in the input, or fails.
  pub parse_header : Side → Bytes → Parser → D → After D ℕ
  unfolding after_search
  parse_header side input p d =
      if ltb (length input) 4
      then leave (done 0) p d
      else if ltb (length input) p.skip
      then leave undefined p d
      else after_search side input (find_eom (drop p.skip input)) p d
