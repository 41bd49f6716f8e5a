-- ===== src/Http/Header/Defined.antt =====
-- A header is read within it, to its end.
use remotedev.Base.{
  ℕ, ◌+◌, ◌≤◌, ◌≡◌, refl, sym, ap, subst, ◌∙◌, ◌⊎◌, inl, inr, Bool, true, false, [], ◌∷◌, Bytes,
  length, take, drop, length-take, ltb, Bool-cases, arith,
}
use remotedev.Http.Scan.{Found, found, missing, bad, behind, find_eom}
use remotedev.Http.Scan.Eom.Prefix.{IsPart, find_eom-take, find_eom-le}
use remotedev.Http.Parser.{Parser}
use remotedev.Http.Outcome.{Outcome, done, err, undefined, Receiver, Ensures, Ensures-mono}
use remotedev.Http.StartLine.{RequestLine, StatusLine, parse_request_line, parse_status_line}
use remotedev.Http.StartLine.Defined.{EndsAt, parse_request_line-EndsAt, parse_status_line-EndsAt}
use remotedev.Http.Fields.Lines.{Lines, find_eom-HasLine}
use remotedev.Http.Fields.Loop.{call-Ensures, parse_fields-Ensures}
use remotedev.Http.Header.{
  Side, request, response, do_header, on_complete_if, is_complete, header_end, after_fields,
  header_fields, after_request_line, after_status_line, parse_message, after_search, parse_header,
}

-- The used octets are the header, or none where it does not end.
abbrev pub Uses : Bytes → ℕ → Type 0
Uses input n = (find_eom input ≡ found n) ⊎ ((n ≡ 0) × IsPart input)

module _ {D : Type 0} (impl : Receiver D) where
  on_complete_if-Ensures :
      (b : Bool) (n : ℕ) (p : Parser) (d : D)
      → Ensures (λ k. k ≡ n) (on_complete_if impl b n p d).outcome
  unfolding on_complete_if
  on_complete_if-Ensures false n p d = refl
  on_complete_if-Ensures true n p d =
      call-Ensures impl (λ k. k ≡ n) (impl.events.on_complete d) p _ (λ _. refl)

  after_fields-Ensures :
      (side : Side) (status n : ℕ) (o : Outcome Bytes) (p : Parser) (d : D)
      → Ensures (λ r. r ≡ []) o
      → Ensures (λ k. k ≡ n) (after_fields impl side status n o p d).outcome
  unfolding after_fields header_end
  after_fields-Ensures side status n undefined p d h = h
  after_fields-Ensures side status n (err e) p d h = tt
  after_fields-Ensures side status n (done []) p d h =
      call-Ensures impl (λ k. k ≡ n) (impl.on_header d) (do_header side status p) _
        (λ d'.
          on_complete_if-Ensures (is_complete (do_header side status p).state) n
            (do_header side status p) d')
  after_fields-Ensures side status n (done (x ∷ r)) p d h = absurd cc

  header_fields-Ensures :
      (side : Side) (version status n : ℕ) (it : Bytes) (p : Parser) (d : D)
      → Lines it
      → Ensures (λ k. k ≡ n) (header_fields impl side version status n it p d).outcome
  unfolding header_fields
  header_fields-Ensures side version status n it p d ls =
      after_fields-Ensures side status n _ _ _ (parse_fields-Ensures impl it _ d ls)

  after_request_line-Ensures :
      (others : Bytes) (n : ℕ) (o : Outcome (RequestLine × Bytes)) (p : Parser) (d : D)
      → Lines others
      → Ensures (EndsAt others) o
      → Ensures (λ k. k ≡ n) (after_request_line impl n o p d).outcome
  unfolding after_request_line
  after_request_line-Ensures others n undefined p d ls h = h
  after_request_line-Ensures others n (err e) p d ls h = tt
  after_request_line-Ensures others n (done (l, it)) p d ls h =
      call-Ensures impl (λ k. k ≡ n) (impl.on_request l.method l.target l.version d) p _
        (λ d'. header_fields-Ensures request l.version 0 n it p d' (subst Lines (sym h) ls))

  after_status_line-Ensures :
      (others : Bytes) (n : ℕ) (o : Outcome (StatusLine × Bytes)) (p : Parser) (d : D)
      → Lines others
      → Ensures (EndsAt others) o
      → Ensures (λ k. k ≡ n) (after_status_line impl n o p d).outcome
  unfolding after_status_line
  after_status_line-Ensures others n undefined p d ls h = h
  after_status_line-Ensures others n (err e) p d ls h = tt
  after_status_line-Ensures others n (done (l, it)) p d ls h =
      call-Ensures impl (λ k. k ≡ n) (impl.on_response l.status l.reason l.version d) p _
        (λ d'. header_fields-Ensures response l.version l.status n it p d' (subst Lines (sym h) ls))

  parse_message-Ensures :
      (side : Side) (m : Bytes) (p : Parser) (d : D)
      → find_eom m ≡ found (length m)
      → Ensures (λ k. k ≡ length m) (parse_message impl side m p d).outcome
  unfolding parse_message
  parse_message-Ensures request m p d h =
      let s = find_eom-HasLine m h in
      after_request_line-Ensures s.others (length m) (parse_request_line m) p d s.are_lines
        (parse_request_line-EndsAt s.others m s.in_line)
  parse_message-Ensures response m p d h =
      let s = find_eom-HasLine m h in
      after_status_line-Ensures s.others (length m) (parse_status_line m) p d s.are_lines
        (parse_status_line-EndsAt s.others m s.in_line)

  after_search-Ensures :
      (side : Side) (input : Bytes) (f : Found) (p : Parser) (d : D)
      → find_eom input ≡ behind p.skip f
      → Ensures (Uses input) (after_search impl side input f p d).outcome
  unfolding after_search
  after_search-Ensures side input bad p d h = tt
  after_search-Ensures side input missing p d h = inr (refl, inr h)
  after_search-Ensures side input (found k) p d h =
      let e = find_eom-take input h in
      let l : length (take (p.skip + k) input) ≡ p.skip + k =
        omega (arith, length-take (p.skip + k) input, find_eom-le input h) in
      Ensures-mono (λ n. n ≡ length (take (p.skip + k) input)) (Uses input) _
        (λ n e. inl (h ∙ ap found (sym (e ∙ l))))
        (parse_message-Ensures side (take (p.skip + k) input) (record p { skip = 0 }) d
          (e ∙ ap found (sym l)))

  -- Where the search for the end of the header goes on from a place `skip` within the input, or at its
  -- end, from which it finds what it finds from the start, `parse_header` is defined: it reads nothing behind the end of the
  -- header, each line that it waits for is there, its fuel is enough, and the fields end where the
  -- header does. Unless it fails, the octets used are those up to the end of the header, or none
  -- where the search has not found it or there are fewer than four octets.
  pub parse_header-Ensures :
      (side : Side) (input : Bytes) (p : Parser) (d : D)
      → p.skip ≤ length input
      → find_eom input ≡ behind p.skip (find_eom (drop p.skip input))
      → Ensures (Uses input) (parse_header impl side input p d).outcome
  unfolding parse_header
  parse_header-Ensures side input p d w h = elim (Bool-cases (ltb (length input) 4)) [
    | inl t ↦ rw t (inr (refl, inl (ground arith)))
    | inr t ↦
        let u : ltb (length input) p.skip ≡ false = ground arith in
        rw (t, u) (after_search-Ensures side input (find_eom (drop p.skip input)) p d h)
  ]
