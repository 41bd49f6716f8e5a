-- ===== src/Http/Header/Resume.antt =====
-- A header that arrives in pieces is parsed as one that arrives at once.
use mathlib.Core.List.{append-nil}
use remotedev.Base.{
  ℕ, ◌+◌, ◌-◌, ◌≤◌, ◌<◌, ◌≡◌, refl, sym, ap, ◌∙◌, inl, inr, true, false, [], ◌++◌, Bytes, length,
  zero, suc, ◌∷◌, true, not, ◌==◌, if◌then◌else◌, leb, drop-all, drop-append_long, length-append,
  drop, ltb, Bool-cases, arith,
}
use remotedev.Http.Scan.{
  Found, found, missing, bad, behind, find_eom, At, text, cr, crlf, crlfcr, find_eom_at,
}
use remotedev.Http.Scan.Eom.{behind_missing, find_eom_resume}
use remotedev.Http.Scan.Eom.Prefix.{IsPart}
use remotedev.Http.Parser.{Parser}
use remotedev.Http.Outcome.{done, Receiver, After, leave}
use remotedev.Http.Header.{Side, after_search, parse_header}

abbrev blank_line : Bytes
blank_line = b'\r' ∷ b'\n' ∷ b'\r' ∷ b'\n' ∷ []

-- The search from `skip` on finds what a search from the start finds, whatever follows.
abbrev pub Resumes : Bytes → Parser → Type 0
Resumes xs p =
    (ys : Bytes) → find_eom (xs ++ ys) ≡ behind p.skip (find_eom (drop p.skip (xs ++ ys)))

behind_zero : (f : Found) → f ≡ behind 0 f
behind_zero (found k) = ap found (omega arith)
behind_zero missing = refl
behind_zero bad = refl

-- A search from the start.
pub Resumes-start : (xs : Bytes) (p : Parser) → p.skip ≡ 0 → Resumes xs p
Resumes-start xs p e = λ ys. rw e (behind_zero (find_eom (xs ++ ys)))

-- The end of a header, as the end of what is searched: the search returns before it is through.
ends_header : (a : At) (xs : Bytes) → find_eom_at a (xs ++ blank_line) ≡ missing → ⊥
unfolding find_eom_at
ends_header text [] h = absurd cc
ends_header cr [] h = absurd cc
ends_header crlf [] h = absurd cc
ends_header crlfcr [] h = absurd cc
ends_header text (x ∷ xs) h =
    ends_header (if x == b'\r' then cr else text) xs (behind_missing 1 _ h)
ends_header cr (x ∷ xs) h = elim (Bool-cases (x == b'\n')) [
  | inl t ↦ ends_header crlf xs (behind_missing 1 _ (rw t at h))
  | inr t ↦ absurd (let z : bad ≡ missing = rw t at h in cc)
]
ends_header crlf (x ∷ xs) h =
    ends_header (if not (x == b'\r') then text else crlfcr) xs (behind_missing 1 _ h)
ends_header crlfcr (x ∷ xs) h = elim (Bool-cases (x == b'\n')) [
  | inl t ↦ absurd (let z : found 1 ≡ missing = rw t at h in cc)
  | inr t ↦ absurd (let z : bad ≡ missing = rw t at h in cc)
]

short_missing : (k : ℕ) → 0 < k → find_eom (drop k blank_line) ≡ missing
unfolding find_eom find_eom_at
short_missing zero h = absurd (omega arith)
short_missing (suc zero) h = refl
short_missing (suc (suc zero)) h = refl
short_missing (suc (suc (suc zero))) h = refl
short_missing (suc (suc (suc (suc k)))) h = ap (find_eom_at text) (drop-all k [] (omega arith))

-- A place from which the search resumes is not behind the octets: with an end of a header behind
-- them, the search from such a place would find none.
Resumes-within : (xs : Bytes) (p : Parser) → Resumes xs p → p.skip ≤ length xs
unfolding find_eom
Resumes-within xs p r = elim (Bool-cases (leb p.skip (length xs))) [
  | inl t ↦ ground arith
  | inr t ↦
      let k = p.skip - length xs in
      let past : drop p.skip (xs ++ blank_line) ≡ drop k blank_line =
        drop-append_long p.skip k xs blank_line (ground arith) in
      let none_there : find_eom (xs ++ blank_line) ≡ missing =
        r blank_line
        ∙ ap (λ (l : Bytes). behind p.skip (find_eom l)) past
        ∙ ap (behind p.skip) (short_missing k (ground arith)) in
      absurd (ends_header text xs none_there)
]

-- The same outcome, calls of the derived class and parser, but for where a search goes on.
pub record Same {D : Type 0} (a b : After D ℕ) : Type 0 where
  pub outcomes : a.outcome ≡ b.outcome
  pub parsers : record (a.parser) { skip = 0 } ≡ record (b.parser) { skip = 0 }
  pub derived_states : a.derived_state ≡ b.derived_state

pub Same-refl : {D : Type 0} (a : After D ℕ) → Same a a
Same-refl a = record { outcomes = refl; parsers = refl; derived_states = refl }

module _ {D : Type 0} (impl : Receiver D) where
  after_search-Same :
      (side : Side) (input : Bytes) (f g : Found) (p : Parser) (s : ℕ) (d : D)
      → behind p.skip f ≡ behind s g
      → Same
          (after_search impl side input g (record p { skip = s }) d)
          (after_search impl side input f p d)
  unfolding after_search
  after_search-Same side input (found j) (found k) p s d h =
      let e : s + k ≡ p.skip + j = ground arith in rw e (Same-refl _)
  after_search-Same side input missing missing p s d h = Same-refl _
  after_search-Same side input bad bad p s d h = record {
    outcomes = refl;
    parsers = refl;
    derived_states = refl;
  }
  after_search-Same side input (found j) missing p s d h = absurd cc
  after_search-Same side input (found j) bad p s d h = absurd cc
  after_search-Same side input missing (found k) p s d h = absurd cc
  after_search-Same side input missing bad p s d h = absurd cc
  after_search-Same side input bad (found k) p s d h = absurd cc
  after_search-Same side input bad missing p s d h = absurd cc

  -- What a call on a part of the header leaves.
  pub record Waits (side : Side) (xs : Bytes) (p : Parser) (d : D) : Type 0 where
    pub waits : (parse_header impl side xs p d).outcome ≡ done 0
    pub unchanged : (parse_header impl side xs p d).derived_state ≡ d
    pub keeps :
        (parse_header impl side xs p d).parser
        ≡ record p { skip = (parse_header impl side xs p d).parser.skip }
    pub resumes : Resumes xs (parse_header impl side xs p d).parser
    pub same :
        (ys : Bytes)
        → Same
            (parse_header impl side (xs ++ ys) (parse_header impl side xs p d).parser d)
            (parse_header impl side (xs ++ ys) p d)

  pub parse_header_short :
      (side : Side) (xs : Bytes) (p : Parser) (d : D)
      → length xs < 4
      → parse_header impl side xs p d ≡ leave (done 0) p d
  unfolding parse_header
  parse_header_short side xs p d h = let t : ltb (length xs) 4 ≡ true = ground arith in rw t refl

  short-Waits :
      (side : Side) (xs : Bytes) (p : Parser) (d : D)
      → Resumes xs p
      → length xs < 4
      → Waits side xs p d
  short-Waits side xs p d r h =
      let t = parse_header_short side xs p d h in
      record {
        waits = rw t refl;
        unchanged = rw t refl;
        keeps = rw t refl;
        resumes = rw t r;
        same = λ ys. rw t (Same-refl _);
      }

  missing-Waits :
      (side : Side) (xs : Bytes) (p : Parser) (d : D)
      → Resumes xs p
      → 4 ≤ length xs
      → find_eom xs ≡ missing
      → Waits side xs p d
  unfolding parse_header after_search
  missing-Waits side xs p d r h m =
      let t : ltb (length xs) 4 ≡ false = ground arith in
      let within = Resumes-within xs p r in
      let w : ltb (length xs) p.skip ≡ false = ground arith in
      let e : find_eom (drop p.skip xs) ≡ missing =
        behind_missing p.skip _ (sym (rw (append-nil xs) at (r [])) ∙ m) in
      let q : Resumes xs (record p { skip = length xs - 3 }) =
        λ ys. find_eom_resume xs ys (omega arith) m in
      record {
        waits = rw (t, w, e) refl;
        unchanged = rw (t, w, e) refl;
        keeps = rw (t, w, e) refl;
        resumes = rw (t, w, e) q;
        same = λ ys.
            let u : ltb (length (xs ++ ys)) 4 ≡ false = ground (arith, length-append xs ys) in
            let v : ltb (length (xs ++ ys)) p.skip ≡ false = ground (arith, length-append xs ys) in
            let z : ltb (length (xs ++ ys)) (length xs - 3) ≡ false =
              ground (arith, length-append xs ys) in
            rw (t, w, e, u, v, z)
              (after_search-Same side (xs ++ ys) _ _ p (length xs - 3) d (sym (r ys) ∙ q ys));
      }

  pub parse_header-Waits :
      (side : Side) (xs : Bytes) (p : Parser) (d : D) → Resumes xs p → IsPart xs → Waits side xs p d
  parse_header-Waits side xs p d r (inl h) = short-Waits side xs p d r h
  parse_header-Waits side xs p d r (inr m) = elim (Bool-cases (ltb (length xs) 4)) [
    | inl t ↦ short-Waits side xs p d r (ground arith)
    | inr t ↦ missing-Waits side xs p d r (ground arith) m
  ]
