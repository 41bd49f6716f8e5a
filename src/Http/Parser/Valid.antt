-- ===== src/Http/Parser/Valid.antt =====
-- What holds of a parser between two calls, and the steps of the body that keep it.
use remotedev.Base.{
  ℕ, ◌-◌, ◌/◌, ◌≡◌, refl, sym, ◌∙◌, inl, inr, true, false, ◌&&◌, ◌||◌, none, some, [], Bytes,
  length, take, ltb, ◌==◌, if◌then◌else◌, both_branches, Option-cases,
}
use remotedev.Http.Parser.{
  Parser, Flags, ParseState, header, body, body_to_eof, chunk_header, chunk_body, complete, Derived,
  Step, clamp, do_header_request, do_header_response, do_complete, maybe_do_body_indirect, deliver,
  parse_body, parse_body_to_eof, parse_chunk_body,
}

-- The flags that a state stands for.
abbrev Fits : ParseState → Flags → Type 0
Fits header f = Unit
Fits body f = f.content_length ≡ true
Fits body_to_eof f = f.need_eof ≡ true
Fits chunk_header f = f.chunked ≡ true
Fits chunk_body f = f.chunked ≡ true
Fits complete f = Unit

-- Not both a length and chunks, and the state is one that the flags lead to.
abbrev pub IsValid : Parser → Type 0
IsValid p = ((p.f.content_length && p.f.chunked) ≡ false) × Fits p.state p.f

-- Flags that are set remain so.
pub Fits-mono :
    (s : ParseState) (f g : Flags)
    → (f.content_length ≡ true → g.content_length ≡ true)
    → (f.chunked ≡ true → g.chunked ≡ true)
    → f.need_eof ≡ g.need_eof
    → Fits s f
    → Fits s g
Fits-mono header f g l c n h = tt
Fits-mono body f g l c n h = l h
Fits-mono body_to_eof f g l c n h = sym n ∙ h
Fits-mono chunk_header f g l c n h = c h
Fits-mono chunk_body f g l c n h = c h
Fits-mono complete f g l c n h = tt

-- A change of anything but what the predicate reads.
pub IsValid-keep :
    (p q : Parser)
    → p.state ≡ q.state
    → p.f.content_length ≡ q.f.content_length
    → p.f.chunked ≡ q.f.chunked
    → p.f.need_eof ≡ q.f.need_eof
    → IsValid p
    → IsValid q
IsValid-keep p q s l c n h = (
  rw (sym l, sym c) h.0,
  rw (sym s) (Fits-mono p.state p.f q.f (λ e. sym l ∙ e) (λ e. sym c ∙ e) n h.1),
)

-- What `do_header` leaves, where the body does not end it: `q` is the state for a message that says
-- nothing.
announced-IsValid :
    (p q : Parser)
    → (p.f.content_length && p.f.chunked) ≡ false
    → IsValid q
    → IsValid (
        if p.f.content_length
        then (if ltb 0 p.len
            then record p { f = record (p.f) { has_body = true }; state = body }
            else record p { state = complete })
        else if p.f.chunked
        then record p { f = record (p.f) { has_body = true }; state = chunk_header }
        else q)
announced-IsValid p q h v =
    both_branches IsValid p.f.content_length _ _
      (λ l. both_branches IsValid (ltb 0 p.len) _ _ (λ _. (h, l)) (λ _. (h, tt)))
      (λ _. both_branches IsValid p.f.chunked _ _ (λ c. (h, c)) (λ _. v))

pub do_header_request-IsValid :
    (p : Parser) → (p.f.content_length && p.f.chunked) ≡ false → IsValid (do_header_request p)
unfolding do_header_request
do_header_request-IsValid p h =
    both_branches IsValid p.f.skip_body _ _ (λ _. (h, tt)) (λ _. announced-IsValid p _ h (h, tt))

pub do_header_response-IsValid :
    (status : ℕ) (p : Parser)
    → (p.f.content_length && p.f.chunked) ≡ false
    → IsValid (do_header_response status p)
unfolding do_header_response
do_header_response-IsValid status p h =
    both_branches IsValid (p.f.skip_body || status / 100 == 1 || status == 204 || status == 304) _ _
      (λ _. (h, tt)) (λ _. announced-IsValid p _ h (h, refl))

module _ {D : Type 0} (impl : Derived D) where
  pub do_complete-IsValid : (p : Parser) (d : D) → IsValid p → IsValid (do_complete impl p d).parser
  unfolding do_complete
  do_complete-IsValid p d h = elim (Option-cases (impl.on_complete d).1) [
    | inl t ↦ rw (do_complete, t) (h.0, tt)
    | inr (e, t) ↦ rw (do_complete, t) h
  ]

  pub maybe_do_body_indirect-IsValid :
      (p : Parser) (d : D) → IsValid p → IsValid (maybe_do_body_indirect impl p d).parser
  unfolding maybe_do_body_indirect
  maybe_do_body_indirect-IsValid p d h =
      let q : Parser = record p { f = record (p.f) { on_body = true } } in
      both_branches (λ (s : Step D). IsValid s.parser) p.f.on_body _ _ (λ _. h)
        (λ _. IsValid-keep p q refl refl refl refl h)

  deliver-IsValid :
      (view : Bytes) (p : Parser) (d : D) (rest : D → Step D)
      → IsValid p
      → ((d : D) → IsValid (rest d).parser)
      → IsValid (deliver impl view p d rest).parser
  unfolding deliver
  deliver-IsValid view p d rest h k = elim (Option-cases (impl.on_data view d).1) [
    | inl t ↦ rw (deliver, t) (k (impl.on_data view d).0)
    | inr (e, t) ↦
        rw (deliver, t) (IsValid-keep p (record p { body_view = view }) refl refl refl refl h)
  ]

  pub parse_body-IsValid :
      (input : Bytes) (p : Parser) (d : D) → IsValid p → IsValid (parse_body impl input p d).parser
  unfolding parse_body
  parse_body-IsValid input p d h =
      let n = clamp p.len (length input) in
      let q : Parser = record p { body_view = take n input; len = p.len - n } in
      let v : IsValid q = IsValid-keep p q refl refl refl refl h in
      let completed : D → Step D = λ d'.
        let s = do_complete impl q d' in record s { used = elim s.ec [ none ↦ n | some _ ↦ 0 ] } in
      let goes_on : D → Step D =
        λ d'. record { used = n; ec = none; parser = q; derived_state = d' } in
      deliver-IsValid (take n input) p d (λ d'. if p.len - n == 0 then completed d' else goes_on d')
        h
        λ d'.
          both_branches (λ (s : Step D). IsValid s.parser) (p.len - n == 0) (completed d')
            (goes_on d') (λ _. do_complete-IsValid q d' v) (λ _. v)

  pub parse_body_to_eof-IsValid :
      (input : Bytes) (p : Parser) (d : D)
      → IsValid p
      → IsValid (parse_body_to_eof impl input p d).parser
  unfolding parse_body_to_eof
  parse_body_to_eof-IsValid input p d h =
      let q : Parser = record p { body_view = input } in
      deliver-IsValid input p d
        (λ d'. record { used = length input; ec = none; parser = q; derived_state = d' }) h
        λ _. IsValid-keep p q refl refl refl refl h

  pub parse_chunk_body-IsValid :
      (input : Bytes) (p : Parser) (d : D)
      → p.state ≡ chunk_body
      → IsValid p
      → IsValid (parse_chunk_body impl input p d).parser
  unfolding parse_chunk_body
  parse_chunk_body-IsValid input p d s h =
      let n = clamp p.len (length input) in
      let q : Parser = record p { body_view = take n input; len = p.len - n } in
      let ends : Parser = record q { body_view = []; state = chunk_header } in
      let c : p.f.chunked ≡ true = rw s at h.1 in
      deliver-IsValid (take n input) p d
        (λ d'. record {
          used = n;
          ec = none;
          parser = if p.len - n == 0 then ends else q;
          derived_state = d';
        })
        h
        λ _.
          both_branches IsValid (p.len - n == 0) ends q (λ _. (h.0, c))
            (λ _. IsValid-keep p q refl refl refl refl h)
