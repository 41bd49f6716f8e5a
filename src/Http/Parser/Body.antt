-- ===== src/Http/Parser/Body.antt =====
-- A body delimited by Content-Length, however the input is cut.
use mathlib.Core.List.{append_assoc, append-nil}
use remotedev.Base.{
  flatten, ℕ, ◌-◌, ◌<◌, ◌≡◌, refl, sym, ap, ◌∙◌, inl, inr, Bool, true, false, none, List, [], ◌∷◌,
  ◌++◌, Bytes, length, length-append, take, take-all, take-append_short, take-append_long, leb,
  if◌then◌else◌, Bool-cases, arith,
}
use remotedev.Http.Parser.{
  Parser, ParseState, body, complete, Derived, clamp, do_complete, deliver, parse_body,
}

-- A derived class that takes everything, and whose state has the octets that it was given.
pub record IsRecording {D : Type 0} (impl : Derived D) (log : D → Bytes) : Type 0 where
  pub data_taken : (b : Bytes) (d : D) → (impl.on_data b d).1 ≡ none
  pub data_logged : (b : Bytes) (d : D) → log (impl.on_data b d).0 ≡ log d ++ b
  pub complete_taken : (d : D) → (impl.on_complete d).1 ≡ none
  pub complete_logged : (d : D) → log (impl.on_complete d).0 ≡ log d

take-clamp : (n : ℕ) (xs : Bytes) → take (clamp n (length xs)) xs ≡ take n xs
unfolding clamp
take-clamp n xs = elim (Bool-cases (leb (length xs) n)) [
  | inl t ↦ rw t (take-all (length xs) xs (omega arith) ∙ sym (take-all n xs (ground arith)))
  | inr t ↦ rw t
]

abbrev expects_body : ParseState → Bool
expects_body body = true
expects_body _ = false

module _ {D : Type 0} (impl : Derived D) where
  -- Inputs given to `parse_body` one after the other, as long as a body is expected.
  pub feed_body : List Bytes → Parser → D → Parser × D
  feed_body [] p d = (p, d)
  feed_body (i ∷ is) p d =
      let s = parse_body impl i p d in
      let rest = feed_body is s.parser s.derived_state in
      if expects_body p.state then rest else (p, d)

  module _ (log : D → Bytes) (v : IsRecording impl log) where
    -- One call takes what it can.
    parse_body_step :
        (i : Bytes) (p : Parser) (d : D)
        → p.state ≡ body
        → let s = parse_body impl i p d in
          (s.ec ≡ none)
          × (s.used ≡ (if leb p.len (length i) then p.len else length i))
          × (s.parser.state ≡ (if leb p.len (length i) then complete else body))
          × (s.parser.len ≡ p.len - length i)
          × (log s.derived_state ≡ log d ++ take p.len i)
    unfolding parse_body deliver clamp do_complete
    parse_body_step i p d e =
        let view = take (clamp p.len (length i)) i in
        let d1 = (impl.on_data view d).0 in
        ground (
          arith,
          take-clamp p.len i,
          v.data_taken view d,
          v.data_logged view d,
          v.complete_taken d1,
          v.complete_logged d1,
        )

    feed_body_done :
        (is : List Bytes) (p : Parser) (d : D) → p.state ≡ complete → feed_body is p d ≡ (p, d)
    unfolding feed_body
    feed_body_done [] p d e = refl
    feed_body_done (i ∷ is) p d e = let b : expects_body p.state ≡ false = ap expects_body e in rw b

    feed_body_more :
        (i : Bytes) (is : List Bytes) (p : Parser) (d : D)
        → p.state ≡ body
        → feed_body (i ∷ is) p d
          ≡ feed_body is (parse_body impl i p d).parser (parse_body impl i p d).derived_state
    unfolding feed_body
    feed_body_more i is p d e = let b : expects_body p.state ≡ true = ap expects_body e in rw b

    -- While a body of `len` octets, not none, is expected: however the inputs are cut, a derived class
    -- that takes everything is given their first `len` octets, in order and no others, `len` counts
    -- what is missing, and the message is complete exactly when nothing is.
    pub feed_body_lem :
        (is : List Bytes) (p : Parser) (d : D)
        → p.state ≡ body
        → 0 < p.len
        → let total = flatten is in
          let r = feed_body is p d in
          (r.0.state ≡ (if leb p.len (length total) then complete else body))
          × (r.0.len ≡ p.len - length total)
          × (log r.1 ≡ log d ++ take p.len total)
    feed_body_lem [] p d e h =
        unfold feed_body in
        ground (arith, take-all {A = ℕ} p.len [] (omega arith), append-nil (log d))
    feed_body_lem (i ∷ is) p d e h =
        let s = parse_body impl i p d in
        let q = parse_body_step i p d e in
        rw (feed_body_more i is p d e) (elim (Bool-cases (leb p.len (length i))) [
          | inl t ↦
              rw (feed_body_done is s.parser s.derived_state (rw t at q.2)) (
                ground
                  (arith, length-append i (flatten is), take-append_short p.len i (flatten is)))
          | inr t ↦
              let k = p.len - length i in
              let ih = feed_body_lem is s.parser s.derived_state (rw t at q.2) (ground arith) in
              ground (
                arith,
                ih,
                length-append i (flatten is),
                take-all p.len i,
                take-append_long p.len k i (flatten is),
                append_assoc (log d) i (take k (flatten is)),
              )
        ])
