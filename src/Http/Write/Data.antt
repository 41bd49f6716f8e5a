-- ===== src/Http/Write/Data.antt =====
-- The states of `do_write` for a chunk.
use remotedev.Base.{
  ℕ, ◌-◌, ◌<◌, ◌≡◌, refl, sym, ap, ◌∙◌, Bool, true, false, none, [], ◌++◌, Bytes, length,
  length-append, take, take-length_append, ◌==◌, if◌then◌else◌, if_true, Bool-cases, inl, inr,
  arith,
}
use remotedev.Http.Parser.{
  Parser, ParseState, chunk_header, chunk_body, Step, clamp, deliver, maybe_do_body_indirect,
  parse_chunk_body,
}
use remotedev.Http.Outcome.{done, Receiver, leave}
use remotedev.Http.Header.{Side}
use remotedev.Http.Write.{of_ec, after_body, with_body, parse_chunk_header, write_in, do_write}

-- A parser before a chunk, and whether it expects the CR LF of the chunk before.
pub record Ready (b : Bool) (p : Parser) : Type 0 where
  pub at_chunk : p.state ≡ chunk_header
  pub end_expected : p.f.expect_crlf ≡ b
  pub not_final : p.f.final_chunk ≡ false
  pub not_skipped : p.skip ≡ 0

-- The body has been announced to the derived class as well.
pub record IsAnnounced (b : Bool) (p : Parser) : Type 0 where
  pub at_chunk : p.state ≡ chunk_header
  pub end_expected : p.f.expect_crlf ≡ b
  pub not_final : p.f.final_chunk ≡ false
  pub not_skipped : p.skip ≡ 0
  pub announced : p.f.on_body ≡ true

-- A parser behind the data of a chunk.
abbrev pub after_data : Parser → Parser
after_data p = record p { len = 0; body_view = []; state = chunk_header }

module _ {D : Type 0} (impl : Receiver D) where
  pub do_write_chunk_header :
      (side : Side) (input : Bytes) (p : Parser) (d : D)
      → p.state ≡ chunk_header
      → p.f.on_body ≡ true
      → do_write impl side input p d ≡ parse_chunk_header impl input p d
  unfolding do_write write_in with_body maybe_do_body_indirect after_body
  do_write_chunk_header side input p d s b =
      ap (λ (s : ParseState). write_in impl s side input p d) s
      ∙ ap
          (λ (s : Step D).
            after_body impl s.ec s.parser s.derived_state (parse_chunk_header impl input))
          (if_true _ _ b)

  -- The derived class after the body has been announced, at the first chunk if not before.
  pub announce : Parser → D → D
  announce p d =
      if p.f.on_body
      then d
      else if p.f.content_length
      then (impl.events.on_body_length p.len d).0
      else (impl.events.on_body d).0

  abbrev pub announced_by : Parser → Parser
  announced_by p = record p { f = record (p.f) { on_body = true } }

  maybe_do_body_announces :
      (p : Parser) (d : D)
      → ((n : ℕ) (d : D) → (impl.events.on_body_length n d).1 ≡ none)
      → ((d : D) → (impl.events.on_body d).1 ≡ none)
      → maybe_do_body_indirect impl.events p d
        ≡ record { used = 0; ec = none; parser = announced_by p; derived_state = announce p d }
  unfolding maybe_do_body_indirect announce
  maybe_do_body_announces p d l o = elim (Bool-cases p.f.on_body) [
    | inl t ↦
        let after : Parser → D → Step D =
          λ q d'. record { used = 0; ec = none; parser = q; derived_state = d' } in
        if_true _ _ t
        ∙ ap (λ (b : Bool). after (record p { f = record (p.f) { on_body = b } }) d) t
        ∙ ap (after (announced_by p)) (sym (if_true _ _ t))
    | inr t ↦ elim (Bool-cases p.f.content_length) [
      | inl u ↦ rw (t, u, l p.len d) refl
      | inr u ↦ rw (t, u, o d) refl
    ]
  ]

  -- A call before a chunk announces the body, and goes on as if that had been done.
  pub do_write-announced_by :
      (side : Side) (input : Bytes) (p : Parser) (d : D)
      → p.state ≡ chunk_header
      → ((n : ℕ) (d : D) → (impl.events.on_body_length n d).1 ≡ none)
      → ((d : D) → (impl.events.on_body d).1 ≡ none)
      → do_write impl side input p d ≡ do_write impl side input (announced_by p) (announce p d)
  unfolding do_write write_in with_body after_body
  do_write-announced_by side input p d s l n =
      ap (λ (s : ParseState). write_in impl s side input p d) s
      ∙ ap
          (λ (s : Step D).
            after_body impl s.ec s.parser s.derived_state (parse_chunk_header impl input))
          (maybe_do_body_announces p d l n)
      ∙ sym (do_write_chunk_header side input (announced_by p) (announce p d) s refl)

  deliver_taken :
      (view : Bytes) (p : Parser) (d : D) (rest : D → Step D)
      → (impl.events.on_data view d).1 ≡ none
      → deliver impl.events view p d rest ≡ rest (impl.events.on_data view d).0
  unfolding deliver
  deliver_taken view p d rest t = rw (deliver, t) refl

  parse_chunk_body_all :
      (block ys : Bytes) (p : Parser) (d : D)
      → p.len ≡ length block
      → 0 < length ys
      → (impl.events.on_data block d).1 ≡ none
      → parse_chunk_body impl.events (block ++ ys) p d ≡ record {
        used = length block;
        ec = none;
        parser = after_data p;
        derived_state = (impl.events.on_data block d).0;
      }
  unfolding parse_chunk_body clamp
  parse_chunk_body_all block ys p d l y t =
      let c : clamp p.len (length (block ++ ys)) ≡ length block =
        ground (arith, length-append block ys) in
      let input = block ++ ys in
      let z : p.len - length block ≡ 0 = omega arith in
      let left : ℕ → Bytes → Parser = λ m view.
        if m == 0
        then record p { len = m; body_view = []; state = chunk_header }
        else record p { len = m; body_view = view } in
      let step : ℕ → Bytes → D → Step D = λ n view d'. record {
        used = n;
        ec = none;
        parser = left (p.len - n) view;
        derived_state = d';
      } in
      ap (λ (n : ℕ). deliver impl.events (take n input) p d (step n (take n input))) c
      ∙ ap (λ (view : Bytes). deliver impl.events view p d (step (length block) view))
          (take-length_append block ys)
      ∙ deliver_taken block p d (step (length block) block) t
      ∙ ap
          (λ (m : ℕ). record {
            used = length block;
            ec = none;
            parser = left m block;
            derived_state = (impl.events.on_data block d).0;
          })
          z

  pub do_write_chunk_body :
      (side : Side) (block ys : Bytes) (p : Parser) (d : D)
      → p.state ≡ chunk_body
      → p.len ≡ length block
      → 0 < length ys
      → (impl.events.on_data block d).1 ≡ none
      → do_write impl side (block ++ ys) p d
        ≡ leave (done (length block)) (after_data p) (impl.events.on_data block d).0
  unfolding do_write write_in of_ec
  do_write_chunk_body side block ys p d s l y t =
      ap (λ (s : ParseState). write_in impl s side (block ++ ys) p d) s
      ∙ ap (λ (s : Step D). of_ec s.ec s) (parse_chunk_body_all block ys p d l y t)
