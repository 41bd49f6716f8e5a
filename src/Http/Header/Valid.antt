-- ===== src/Http/Header/Valid.antt =====
-- A header leaves a valid parser valid.
use remotedev.Base.{
  ℕ, ◌+◌, ◌-◌, refl, Bool, true, false, [], ◌∷◌, Bytes, length, take, drop, ltb, leb, if◌then◌else◌,
  both_branches,
}
use remotedev.Http.Scan.{Found, found, missing, bad, find_eom}
use remotedev.Http.Parser.{Parser}
use remotedev.Http.Parser.Valid.{
  IsValid, IsValid-keep, do_header_request-IsValid, do_header_response-IsValid,
}
use remotedev.Http.Outcome.{Outcome, done, err, undefined, Receiver, After, leave}
use remotedev.Http.StartLine.{RequestLine, StatusLine, parse_request_line, parse_status_line}
use remotedev.Http.Fields.{parse_fields}
use remotedev.Http.Fields.Valid.{call-IsValid, parse_fields-IsValid}
use remotedev.Http.Header.{
  Side, request, response, do_header, on_complete_if, is_complete, header_end, after_fields,
  header_fields, after_request_line, after_status_line, parse_message, after_search, parse_header,
}

do_header-IsValid :
    (side : Side) (status : ℕ) (p : Parser) → IsValid p → IsValid (do_header side status p)
unfolding do_header
do_header-IsValid request status p h = do_header_request-IsValid p h.0
do_header-IsValid response status p h = do_header_response-IsValid status p h.0

module _ {D : Type 0} (impl : Receiver D) where
  on_complete_if-IsValid :
      (b : Bool) (n : ℕ) (p : Parser) (d : D)
      → IsValid p
      → IsValid (on_complete_if impl b n p d).parser
  unfolding on_complete_if
  on_complete_if-IsValid false n p d h = h
  on_complete_if-IsValid true n p d h =
      call-IsValid impl (impl.events.on_complete d) p (λ d'. leave (done n) p d') h (λ _. h)

  after_fields-IsValid :
      (side : Side) (status n : ℕ) (o : Outcome Bytes) (p : Parser) (d : D)
      → IsValid p
      → IsValid (after_fields impl side status n o p d).parser
  unfolding after_fields header_end
  after_fields-IsValid side status n undefined p d h = h
  after_fields-IsValid side status n (err e) p d h = h
  after_fields-IsValid side status n (done []) p d h =
      let q = do_header side status p in
      let v = do_header-IsValid side status p h in
      call-IsValid impl (impl.on_header d) q (on_complete_if impl (is_complete q.state) n q) v
        (λ d'. on_complete_if-IsValid (is_complete q.state) n q d' v)
  after_fields-IsValid side status n (done (x ∷ r)) p d h = h

  header_fields-IsValid :
      (side : Side) (version status n : ℕ) (it : Bytes) (p : Parser) (d : D)
      → IsValid p
      → IsValid (header_fields impl side version status n it p d).parser
  unfolding header_fields
  header_fields-IsValid side version status n it p d h =
      let q : Parser =
        if leb 11 version then record p { f = record (p.f) { http11 = true } } else p in
      let v : IsValid q =
        both_branches IsValid (leb 11 version) (record p { f = record (p.f) { http11 = true } }) p
          (λ _.
            IsValid-keep p (record p { f = record (p.f) { http11 = true } }) refl refl refl refl h)
          (λ _. h) in
      let r = parse_fields impl it q d in
      after_fields-IsValid side status n r.outcome r.parser r.derived_state
        (parse_fields-IsValid impl it q d v)

  parse_message-IsValid :
      (side : Side) (m : Bytes) (p : Parser) (d : D)
      → IsValid p
      → IsValid (parse_message impl side m p d).parser
  unfolding parse_message after_request_line after_status_line
  parse_message-IsValid request m p d h = go (parse_request_line m)
    where
      go :
          (o : Outcome (RequestLine × Bytes))
          → IsValid (after_request_line impl (length m) o p d).parser
      go undefined = h
      go (err e) = h
      go (done (l, it)) =
          call-IsValid impl (impl.on_request l.method l.target l.version d) p
            (header_fields impl request l.version 0 (length m) it p) h
            (λ d'. header_fields-IsValid request l.version 0 (length m) it p d' h)
  parse_message-IsValid response m p d h = go (parse_status_line m)
    where
      go :
          (o : Outcome (StatusLine × Bytes))
          → IsValid (after_status_line impl (length m) o p d).parser
      go undefined = h
      go (err e) = h
      go (done (l, it)) =
          call-IsValid impl (impl.on_response l.status l.reason l.version d) p
            (header_fields impl response l.version l.status (length m) it p) h
            (λ d'. header_fields-IsValid response l.version l.status (length m) it p d' h)

  after_search-IsValid :
      (side : Side) (input : Bytes) (f : Found) (p : Parser) (d : D)
      → IsValid p
      → IsValid (after_search impl side input f p d).parser
  unfolding after_search
  after_search-IsValid side input bad p d h = h
  after_search-IsValid side input missing p d h =
      IsValid-keep p (record p { skip = length input - 3 }) refl refl refl refl h
  after_search-IsValid side input (found k) p d h =
      parse_message-IsValid side (take (p.skip + k) input) (record p { skip = 0 }) d
        (IsValid-keep p (record p { skip = 0 }) refl refl refl refl h)

  pub parse_header-IsValid :
      (side : Side) (input : Bytes) (p : Parser) (d : D)
      → IsValid p
      → IsValid (parse_header impl side input p d).parser
  unfolding parse_header
  parse_header-IsValid side input p d h =
      both_branches (λ (a : After D ℕ). IsValid a.parser) (ltb (length input) 4)
        (leave (done 0) p d) _ (λ _. h)
        λ _.
          both_branches (λ (a : After D ℕ). IsValid a.parser) (ltb (length input) p.skip)
            (leave undefined p d) (after_search impl side input (find_eom (drop p.skip input)) p d)
            (λ _. h) (λ _. after_search-IsValid side input (find_eom (drop p.skip input)) p d h)
