-- ===== src/Http/Write/Valid.antt =====
-- Every call of `do_write` leaves a valid parser valid.
use remotedev.Base.{
  ◌&&◌, leb, ℕ, ◌+◌, ◌-◌, ◌≡◌, refl, Bool, true, false, not, Option, none, some, [], ◌∷◌, Bytes,
  length, take, drop, ltb, ◌==◌, both_branches,
}
use remotedev.Http.Scan.{
  Scan, ok, no, fault, Found, found, missing, bad, find_eol, find_eom, parse_crlf, parse_hex,
}
use remotedev.Http.Parser.{
  Error, bad_chunk, Parser, ParseState, header, body, body_to_eof, chunk_header, chunk_body,
  complete, Step, do_complete, maybe_do_body_indirect, parse_body, parse_body_to_eof,
  parse_chunk_body,
}
use remotedev.Http.Parser.Valid.{
  IsValid, IsValid-keep, do_complete-IsValid, maybe_do_body_indirect-IsValid, parse_body-IsValid,
  parse_body_to_eof-IsValid, parse_chunk_body-IsValid,
}
use remotedev.Http.Outcome.{Outcome, done, err, undefined, Receiver, After, leave}
use remotedev.Http.Fields.{parse_fields}
use remotedev.Http.Fields.Valid.{call-IsValid, parse_fields-IsValid}
use remotedev.Http.Header.{Side}
use remotedev.Http.Header.Valid.{parse_header-IsValid}
use remotedev.Http.Write.{
  of_ec, at_extension, got_some_if, chunk_follows, data_chunk, after_trailer, trailer,
  after_last_line, after_last_search, last_chunk, after_size, after_eol, last_size, chunk_size,
  after_expected, parse_chunk_header, after_body, with_body, write_in, do_write,
}

-- A parser that expects chunks.
abbrev IsChunked : Parser → Type 0
IsChunked p = IsValid p × (p.f.chunked ≡ true)

of_ec-IsValid :
    {D : Type 0} (e : Option Error) (s : Step D) → IsValid s.parser → IsValid (of_ec e s).parser
unfolding of_ec
of_ec-IsValid none s h = h
of_ec-IsValid (some e) s h = h

got_some_if-IsValid : (b : Bool) (p : Parser) → IsValid p → IsValid (got_some_if b p)
unfolding got_some_if
got_some_if-IsValid false p h = h
got_some_if-IsValid true p h = IsValid-keep p (got_some_if true p) refl refl refl refl h

module _ {D : Type 0} (impl : Receiver D) where
  chunk_follows-IsValid :
      (v used : ℕ) (p : Parser) (d : D)
      → IsChunked p
      → IsValid (chunk_follows impl v used p d).parser
  unfolding chunk_follows
  chunk_follows-IsValid v used p d h = (h.0.0, h.1)

  data_chunk-IsValid :
      (v : ℕ) (q : Bytes) (k used : ℕ) (p : Parser) (d : D)
      → IsChunked p
      → IsValid (data_chunk impl v q k used p d).parser
  unfolding data_chunk
  data_chunk-IsValid v q k used p d h =
      let p' : Parser = record p { ext = take (k - 2) q } in
      let h' : IsValid p' = IsValid-keep p p' refl refl refl refl h.0 in
      let V = λ (a : After D ℕ). IsValid a.parser in
      both_branches V (at_extension q) _ _
        (λ _.
          call-IsValid impl (impl.on_chunk v (take (k - 2) q) d) p' (chunk_follows impl v used p')
            h' (λ d'. chunk_follows-IsValid v used p' d' (h', h.1)))
        (λ _.
          both_branches V (not (k == 2)) (leave (err bad_chunk) p d) (chunk_follows impl v used p d)
            (λ _. h.0) (λ _. chunk_follows-IsValid v used p d h))

  after_trailer-IsValid :
      (used : ℕ) (o : Outcome Bytes) (p : Parser) (d : D)
      → IsValid p
      → IsValid (after_trailer impl used o p d).parser
  unfolding after_trailer
  after_trailer-IsValid used undefined p d h = h
  after_trailer-IsValid used (err e) p d h = h
  after_trailer-IsValid used (done []) p d h =
      let s = do_complete impl.events p d in
      of_ec-IsValid s.ec (record s { used = used }) (do_complete-IsValid impl.events p d h)
  after_trailer-IsValid used (done (x ∷ r)) p d h = h

  after_last_line-IsValid :
      (m : Scan ℕ) (used : ℕ) (p : Parser) (d : D)
      → IsValid p
      → IsValid (after_last_line impl m used p d).parser
  unfolding after_last_line trailer
  after_last_line-IsValid fault used p d h = h
  after_last_line-IsValid no used p d h = h
  after_last_line-IsValid (ok _ it) used p d h =
      let r = parse_fields impl it p d in
      after_trailer-IsValid used r.outcome r.parser r.derived_state
        (parse_fields-IsValid impl it p d h)

  after_last_search-IsValid :
      (input : Bytes) (n at : ℕ) (f : Found) (p : Parser) (d : D)
      → IsValid p
      → IsValid (after_last_search impl input n at f p d).parser
  unfolding after_last_search
  after_last_search-IsValid input n at bad p d h = h
  after_last_search-IsValid input n at missing p d h =
      both_branches IsValid (ltb 3 n) (record p { skip = length input - 3 }) p
        (λ _. IsValid-keep p (record p { skip = length input - 3 }) refl refl refl refl h) (λ _. h)
  after_last_search-IsValid input n at (found k) p d h =
      let ext = take (p.x - at) (drop at input) in
      let p' : Parser = record p { ext = ext } in
      let h' : IsValid p' = IsValid-keep p p' refl refl refl refl h in
      let used = p.skip + k in
      let m = take used input in
      both_branches (λ (a : After D ℕ). IsValid a.parser) (at_extension (drop at input)) _ _
        (λ _.
          both_branches (λ (a : After D ℕ). IsValid a.parser) (leb at p.x && leb p.x (length input))
            _ (leave undefined p d)
            (λ _.
              call-IsValid impl (impl.on_chunk 0 ext d) p'
                (after_last_line impl (parse_crlf (drop p.x m)) used p') h'
                (λ d'. after_last_line-IsValid (parse_crlf (drop p.x m)) used p' d' h'))
            (λ _. h))
        (λ _. after_last_line-IsValid (parse_crlf (drop at m)) used p d h)

  last_chunk-IsValid :
      (input : Bytes) (n at : ℕ) (p : Parser) (d : D)
      → IsValid p
      → IsValid (last_chunk impl input n at p d).parser
  unfolding last_chunk
  last_chunk-IsValid input n at p d h =
      both_branches (λ (a : After D ℕ). IsValid a.parser) (ltb (length input) p.skip)
        (leave undefined p d) (after_last_search impl input n at (find_eom (drop p.skip input)) p d)
        (λ _. h) (λ _. after_last_search-IsValid input n at (find_eom (drop p.skip input)) p d h)

  after_size-IsValid :
      (input r : Bytes) (n k : ℕ) (m : Scan ℕ) (p : Parser) (d : D)
      → IsChunked p
      → IsValid (after_size impl input r n k m p d).parser
  unfolding after_size
  after_size-IsValid input r n k fault p d h = h.0
  after_size-IsValid input r n k no p d h = h.0
  after_size-IsValid input r n k (ok v q) p d h =
      let start = length input - n in
      let x = start + k - 2 in
      let final : Parser = record p { x = x; skip = x; f = record (p.f) { final_chunk = true } } in
      both_branches (λ (a : After D ℕ). IsValid a.parser) (not (v == 0)) _ _
        (λ _. data_chunk-IsValid v q (k - (length r - length q)) (start + k) p d h)
        (λ _.
          last_chunk-IsValid input n (length input - length q) final d
            (IsValid-keep p final refl refl refl refl h.0))

  after_eol-IsValid :
      (input r : Bytes) (n : ℕ) (f : Found) (p : Parser) (d : D)
      → IsChunked p
      → IsValid (after_eol impl input r n f p d).parser
  unfolding after_eol
  after_eol-IsValid input r n bad p d h = h.0
  after_eol-IsValid input r n missing p d h =
      IsValid-keep p (record p { skip = n - 1 }) refl refl refl refl h.0
  after_eol-IsValid input r n (found j) p d h =
      after_size-IsValid input r n (p.skip + j) (parse_hex r) p d h

  last_size-IsValid :
      (input : Bytes) (n : ℕ) (m : Scan ℕ) (p : Parser) (d : D)
      → IsValid p
      → IsValid (last_size impl input n m p d).parser
  unfolding last_size
  last_size-IsValid input n (ok v q) p d h =
      both_branches (λ (a : After D ℕ). IsValid a.parser) (v == 0)
        (last_chunk impl input n (length input - length q) p d) (leave undefined p d)
        (λ _. last_chunk-IsValid input n (length input - length q) p d h) (λ _. h)
  last_size-IsValid input n no p d h = h
  last_size-IsValid input n fault p d h = h

  chunk_size-IsValid :
      (input r : Bytes) (n : ℕ) (p : Parser) (d : D)
      → IsChunked p
      → IsValid (chunk_size impl input r n p d).parser
  unfolding chunk_size
  chunk_size-IsValid input r n p d h =
      let V = λ (a : After D ℕ). IsValid a.parser in
      both_branches V p.f.final_chunk _ _ (λ _. last_size-IsValid input n (parse_hex r) p d h.0)
        λ _.
          both_branches V (ltb n 2) (leave (done 0) p d) _ (λ _. h.0)
            (λ _.
              both_branches V (ltb n p.skip) (leave undefined p d)
                (after_eol impl input r n (find_eol (drop p.skip r)) p d) (λ _. h.0)
                (λ _. after_eol-IsValid input r n (find_eol (drop p.skip r)) p d h))

  after_expected-IsValid :
      (input : Bytes) (n : ℕ) (m : Scan ℕ) (p : Parser) (d : D)
      → IsChunked p
      → IsValid (after_expected impl input n m p d).parser
  unfolding after_expected
  after_expected-IsValid input n fault p d h = h.0
  after_expected-IsValid input n no p d h = h.0
  after_expected-IsValid input n (ok _ r) p d h = chunk_size-IsValid input r (n - 2) p d h

  parse_chunk_header-IsValid :
      (input : Bytes) (p : Parser) (d : D)
      → IsChunked p
      → IsValid (parse_chunk_header impl input p d).parser
  unfolding parse_chunk_header
  parse_chunk_header-IsValid input p d h =
      let V = λ (a : After D ℕ). IsValid a.parser in
      let n = length input in
      both_branches V p.f.expect_crlf _ _
        (λ _.
          both_branches V (ltb n 2) (leave (done 0) p d)
            (after_expected impl input n (parse_crlf input) p d) (λ _. h.0)
            (λ _. after_expected-IsValid input n (parse_crlf input) p d h))
        (λ _. chunk_size-IsValid input input n p d h)

  after_body-IsValid :
      (e : Option Error) (p : Parser) (d : D) (rest : Parser → D → After D ℕ)
      → IsValid p
      → IsValid (rest p d).parser
      → IsValid (after_body impl e p d rest).parser
  unfolding after_body
  after_body-IsValid none p d rest h k = k
  after_body-IsValid (some e) p d rest h k = h

  -- The step before a body does not change the flags of the framing.
  maybe_do_body_chunked :
      (p : Parser) (d : D)
      → p.f.chunked ≡ true
      → (maybe_do_body_indirect impl.events p d).parser.f.chunked ≡ true
  unfolding maybe_do_body_indirect
  maybe_do_body_chunked p d h =
      both_branches (λ (s : Step D). s.parser.f.chunked ≡ true) p.f.on_body _ _ (λ _. h) (λ _. h)

  write_in-IsValid :
      (s : ParseState) (side : Side) (input : Bytes) (p : Parser) (d : D)
      → p.state ≡ s
      → IsValid p
      → IsValid (write_in impl s side input p d).parser
  unfolding write_in with_body got_some_if
  write_in-IsValid header side input p d e h =
      parse_header-IsValid impl side input (got_some_if (ltb 0 (length input)) p) d
        (got_some_if-IsValid (ltb 0 (length input)) p h)
  write_in-IsValid body side input p d e h =
      let s = maybe_do_body_indirect impl.events p d in
      let v = maybe_do_body_indirect-IsValid impl.events p d h in
      after_body-IsValid s.ec s.parser s.derived_state _ v (
        let t = parse_body impl.events input s.parser s.derived_state in
        of_ec-IsValid t.ec t (parse_body-IsValid impl.events input s.parser s.derived_state v))
  write_in-IsValid body_to_eof side input p d e h =
      let s = maybe_do_body_indirect impl.events p d in
      let v = maybe_do_body_indirect-IsValid impl.events p d h in
      after_body-IsValid s.ec s.parser s.derived_state _ v (
        let t = parse_body_to_eof impl.events input s.parser s.derived_state in
        of_ec-IsValid t.ec t
          (parse_body_to_eof-IsValid impl.events input s.parser s.derived_state v))
  write_in-IsValid chunk_header side input p d e h =
      let s = maybe_do_body_indirect impl.events p d in
      let v = maybe_do_body_indirect-IsValid impl.events p d h in
      let c = maybe_do_body_chunked p d (rw e at h.1) in
      after_body-IsValid s.ec s.parser s.derived_state (parse_chunk_header impl input) v
        (parse_chunk_header-IsValid input s.parser s.derived_state (v, c))
  write_in-IsValid chunk_body side input p d e h =
      let t = parse_chunk_body impl.events input p d in
      of_ec-IsValid t.ec t (parse_chunk_body-IsValid impl.events input p d e h)
  write_in-IsValid complete side input p d e h = h

  -- Whatever it is given, each call of `do_write` leaves a parser that has not both a length and chunks
  -- for a body valid: where its state is that of a body, the flag of that kind of body is set.
  pub do_write-IsValid :
      (side : Side) (input : Bytes) (p : Parser) (d : D)
      → IsValid p
      → IsValid (do_write impl side input p d).parser
  unfolding do_write
  do_write-IsValid side input p d h = write_in-IsValid p.state side input p d refl h
