-- ===== src/Http/Write.antt =====
-- include/beast/http/impl/basic_parser.ipp: parse_chunk_header and do_write, which drives the parser.
pub mod Resume
pub mod Valid
pub mod Chunk
pub mod Data
pub mod Last
use remotedev.Base.{
  ℕ, ◌+◌, ◌-◌, Bool, true, false, not, ◌&&◌, Option, none, some, [], ◌∷◌, Bytes, length, take, drop,
  ltb, leb, ◌==◌, if◌then◌else◌,
}
use remotedev.Http.Scan.{
  Scan, Found, ok, no, fault, found, missing, bad, find_eol, find_eom, parse_crlf, parse_hex,
}
use remotedev.Http.Parser.{
  Error, bad_line_ending, bad_chunk, Parser, ParseState, header, body, body_to_eof, chunk_header,
  chunk_body, complete, Step, do_complete, maybe_do_body_indirect, parse_body, parse_body_to_eof,
  parse_chunk_body,
}
use remotedev.Http.Outcome.{Outcome, done, err, undefined, Receiver, After, leave, call}
use remotedev.Http.Fields.{parse_fields}
use remotedev.Http.Header.{Side, parse_header}

-- A step of the body, whose error says that no octets are used.
pub of_ec : {D : Type 0} → Option Error → Step D → After D ℕ
of_ec none s = leave (done s.used) s.parser s.derived_state
of_ec (some e) s = leave (err e) s.parser s.derived_state

abbrev of_step : {D : Type 0} → Step D → After D ℕ
of_step s = of_ec s.ec s

-- `*p == ';'`; a pointer at the end of memory is not read, since a CR is before it.
abbrev pub at_extension : Bytes → Bool
at_extension [] = false
at_extension (c ∷ _) = c == b';'

pub got_some_if : Bool → Parser → Parser
got_some_if false p = p
got_some_if true p = record p { f = record (p.f) { got_some = true } }

module _ {D : Type 0} (impl : Receiver D) where
  -- The data of a chunk follow: `used` octets up to them.
  pub chunk_follows : ℕ → ℕ → Parser → D → After D ℕ
  chunk_follows v used p d =
      leave (done used)
        (record p {
          len = v;
          skip = 0;
          f = record (p.f) { expect_crlf = true };
          state = chunk_body;
        })
        d

  -- A size other than zero, with the pointer behind it and the count of octets from there to the end
  -- of the line. `used` octets are up to behind the line.
  pub data_chunk : ℕ → Bytes → ℕ → ℕ → Parser → D → After D ℕ
  unfolding chunk_follows
  data_chunk v q k used p d =
      let ext = take (k - 2) q in
      let p' = record p { ext = ext } in
      if at_extension q
      then (call (impl.on_chunk v ext d) p' λ d'. chunk_follows v used p' d')
      else if not (k == 2)
      then leave (err bad_chunk) p d
      else chunk_follows v used p d

  -- What follows the fields of the trailer: the end of the message.
  pub after_trailer : ℕ → Outcome Bytes → Parser → D → After D ℕ
  unfolding of_ec
  after_trailer used undefined p d = leave undefined p d
  after_trailer used (err e) p d = leave (err e) p d
  after_trailer used (done []) p d =
      of_step (let s = do_complete impl.events p d in record s { used = used })
  after_trailer used (done (_ ∷ _)) p d = leave undefined p d

  pub trailer : Bytes → ℕ → Parser → D → After D ℕ
  unfolding after_trailer
  trailer it used p d =
      let r = parse_fields impl it p d in after_trailer used r.outcome r.parser r.derived_state

  -- What follows `parse_crlf` at the end of the last chunk's line.
  pub after_last_line : Scan ℕ → ℕ → Parser → D → After D ℕ
  unfolding trailer
  after_last_line fault used p d = leave undefined p d
  after_last_line no used p d = leave (err bad_chunk) p d
  after_last_line (ok _ it) used p d = trailer it used p d

  -- What follows the search for the end of the message; an extension that does not end within the
  -- input is read past it.
  pub after_last_search : Bytes → ℕ → ℕ → Found → Parser → D → After D ℕ
  unfolding after_last_line
  after_last_search input n at bad p d = leave (err bad_line_ending) p d
  after_last_search input n at missing p d =
      leave (done 0) (if ltb 3 n then record p { skip = length input - 3 } else p) d
  after_last_search input n at (found k) p d =
      let used = p.skip + k in
      let message = take used input in
      let ext = take (p.x - at) (drop at input) in
      let p' = record p { ext = ext } in
      if at_extension (drop at input)
      then (if leb at p.x && leb p.x (length input)
          then (call (impl.on_chunk 0 ext d) p'
              λ d'. after_last_line (parse_crlf (drop p.x message)) used p' d')
          else leave undefined p d)
      else after_last_line (parse_crlf (drop at message)) used p d

  -- A size of zero, with the pointer behind it, by its distance from the start of the input.
  pub last_chunk : Bytes → ℕ → ℕ → Parser → D → After D ℕ
  unfolding after_last_search
  last_chunk input n at p d =
      if ltb (length input) p.skip
      then leave undefined p d
      else after_last_search input n at (find_eom (drop p.skip input)) p d

  -- What follows the size of a chunk, on a line of `k` octets at `r`.
  pub after_size : Bytes → Bytes → ℕ → ℕ → Scan ℕ → Parser → D → After D ℕ
  unfolding data_chunk last_chunk
  after_size input r n k fault p d = leave undefined p d
  after_size input r n k no p d = leave (err bad_chunk) p d
  after_size input r n k (ok v q) p d =
      let start = length input - n in
      let x = start + k - 2 in
      let final = record p { x = x; skip = x; f = record (p.f) { final_chunk = true } } in
      if not (v == 0)
      then data_chunk v q (k - (length r - length q)) (start + k) p d
      else last_chunk input n (length input - length q) final d

  -- What follows the search for the end of the line.
  pub after_eol : Bytes → Bytes → ℕ → Found → Parser → D → After D ℕ
  unfolding after_size
  after_eol input r n bad p d = leave (err bad_line_ending) p d
  after_eol input r n missing p d = leave (done 0) (record p { skip = n - 1 }) d
  after_eol input r n (found j) p d = after_size input r n (p.skip + j) (parse_hex r) p d

  -- What follows the size of the last chunk, where the message ends later than what was read; another
  -- size is the failed BOOST_ASSERT.
  pub last_size : Bytes → ℕ → Scan ℕ → Parser → D → After D ℕ
  unfolding last_chunk
  last_size input n (ok v q) p d =
      if v == 0 then last_chunk input n (length input - length q) p d else leave undefined p d
  last_size input n _ p d = leave undefined p d

  -- A chunk's size is at `r`, `n` octets before the end of the input. A search that goes on behind the
  -- input reads past it.
  pub chunk_size : Bytes → Bytes → ℕ → Parser → D → After D ℕ
  unfolding after_eol last_size
  chunk_size input r n p d =
      if p.f.final_chunk
      then last_size input n (parse_hex r) p d
      else if ltb n 2
      then leave (done 0) p d
      else if ltb n p.skip
      then leave undefined p d
      else after_eol input r n (find_eol (drop p.skip r)) p d

  pub after_expected : Bytes → ℕ → Scan ℕ → Parser → D → After D ℕ
  unfolding chunk_size
  after_expected input n fault p d = leave undefined p d
  after_expected input n no p d = leave (err bad_chunk) p d
  after_expected input n (ok _ r) p d = chunk_size input r (n - 2) p d

  pub parse_chunk_header : Bytes → Parser → D → After D ℕ
  unfolding after_expected
  parse_chunk_header input p d =
      let n = length input in
      if p.f.expect_crlf
      then (if ltb n 2 then leave (done 0) p d else after_expected input n (parse_crlf input) p d)
      else chunk_size input input n p d

  -- The rest of `do_write`, unless `maybe_do_body_indirect` fails.
  pub after_body : Option Error → Parser → D → (Parser → D → After D ℕ) → After D ℕ
  after_body none p d rest = rest p d
  after_body (some e) p d rest = leave (err e) p d

  pub with_body : Parser → D → (Parser → D → After D ℕ) → After D ℕ
  unfolding after_body
  with_body p d rest =
      let s = maybe_do_body_indirect impl.events p d in
      after_body s.ec s.parser s.derived_state rest

  -- `do_write` where the parser is not direct, by the state.
  pub write_in : ParseState → Side → Bytes → Parser → D → After D ℕ
  unfolding with_body got_some_if
  write_in header side input p d =
      parse_header impl side input (got_some_if (ltb 0 (length input)) p) d
  write_in body side input p d = with_body p d λ p' d'. of_step (parse_body impl.events input p' d')
  write_in body_to_eof side input p d =
      with_body p d λ p' d'. of_step (parse_body_to_eof impl.events input p' d')
  write_in chunk_header side input p d = with_body p d λ p' d'. parse_chunk_header input p' d'
  write_in chunk_body side input p d = of_step (parse_chunk_body impl.events input p d)
  write_in complete side input p d = leave undefined p d

  pub do_write : Side → Bytes → Parser → D → After D ℕ
  unfolding write_in
  do_write side input p d = write_in p.state side input p d
