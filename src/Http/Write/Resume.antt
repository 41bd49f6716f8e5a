-- ===== src/Http/Write/Resume.antt =====
-- A header that is written in pieces.
use remotedev.Base.{
  ℕ, ◌≡◌, refl, sym, ap, ◌∙◌, Bool, true, [], ◌∷◌, ◌++◌, Bytes, length, ltb, arith,
}
use remotedev.Http.Scan.Eom.Prefix.{IsPart}
use remotedev.Http.Parser.{Parser, header}
use remotedev.Http.Outcome.{done, Receiver, leave}
use remotedev.Http.Header.{Side, parse_header}
use remotedev.Http.Header.Resume.{
  Resumes, Same, Same-refl, parse_header_short, Waits, parse_header-Waits,
}
use remotedev.Http.Write.{do_write, write_in, got_some_if}

module _ {D : Type 0} (impl : Receiver D) where
  -- What `do_write` leaves where the header goes on behind the octets.
  pub record WritesPart (side : Side) (xs : Bytes) (p : Parser) (d : D) : Type 0 where
    pub waits : (do_write impl side xs p d).outcome ≡ done 0
    pub unchanged : (do_write impl side xs p d).derived_state ≡ d
    pub in_header : (do_write impl side xs p d).parser.state ≡ header
    pub resumes : Resumes xs (do_write impl side xs p d).parser
    pub same :
        (ys : Bytes)
        → Same
            (do_write impl side (xs ++ ys) (do_write impl side xs p d).parser d)
            (do_write impl side (xs ++ ys) p d)

  do_write-header :
      (side : Side) (xs : Bytes) (p : Parser) (d : D)
      → p.state ≡ header
      → do_write impl side xs p d ≡ parse_header impl side xs (got_some_if (ltb 0 (length xs)) p) d
  unfolding do_write write_in
  do_write-header side xs p d h = rw h refl

  do_write_empty :
      (side : Side) (p : Parser) (d : D)
      → p.state ≡ header
      → do_write impl side [] p d ≡ leave (done 0) p d
  unfolding got_some_if
  do_write_empty side p d h =
      do_write-header side [] p d h ∙ parse_header_short impl side [] p d (omega arith)

  do_write_some :
      (side : Side) (x : ℕ) (xs : Bytes) (p : Parser) (d : D)
      → p.state ≡ header
      → do_write impl side (x ∷ xs) p d ≡ parse_header impl side (x ∷ xs) (got_some_if true p) d
  do_write_some side x xs p d h =
      let t : ltb 0 (length (x ∷ xs)) ≡ true = ground arith in
      do_write-header side (x ∷ xs) p d h
      ∙ ap (λ (b : Bool). parse_header impl side (x ∷ xs) (got_some_if b p) d) t

  got_some_again :
      (p q : Parser) → q ≡ record (got_some_if true p) { skip = q.skip } → got_some_if true q ≡ q
  unfolding got_some_if
  got_some_again p q e = ap (got_some_if true) e ∙ sym e

  -- In the state of a header, with a search that goes on from a place from which it finds what a search
  -- from the start finds: `do_write` on octets in which the header does not end returns none used,
  -- calls no function of the derived class, and leaves the parser in a header with such a place for
  -- the search; a call on the same octets with more behind them then has the same outcome and the
  -- same calls as from the parser before, and leaves the same parser but for that place.
  pub do_write-WritesPart :
      (side : Side) (xs : Bytes) (p : Parser) (d : D)
      → p.state ≡ header
      → Resumes xs p
      → IsPart xs
      → WritesPart side xs p d
  do_write-WritesPart side [] p d h r i =
      let e = do_write_empty side p d h in
      record {
        waits = rw e refl;
        unchanged = rw e refl;
        in_header = rw e h;
        resumes = rw e r;
        same = λ ys. rw e (Same-refl _);
      }
  do_write-WritesPart side (x ∷ xs) p d h r i =
      let q : Parser = got_some_if true p in
      let e = do_write_some side x xs p d h in
      let w : Waits impl side (x ∷ xs) q d =
        parse_header-Waits impl side (x ∷ xs) q d (unfold got_some_if in r) i in
      let k : (parse_header impl side (x ∷ xs) q d).parser.state ≡ header =
        ap (λ (q : Parser). q.state) w.keeps ∙ (unfold got_some_if in h) in
      record {
        waits = rw e w.waits;
        unchanged = rw e w.unchanged;
        in_header = rw e k;
        resumes = rw e w.resumes;
        same = λ ys.
            rw
              (
                e,
                do_write_some side x (xs ++ ys) (parse_header impl side (x ∷ xs) q d).parser d k,
                do_write_some side x (xs ++ ys) p d h,
                got_some_again p _ w.keeps,
              )
              (w.same ys);
      }
