-- ===== src/Http/Write/Last.antt =====
-- The last chunk of a body, as `parse_chunk_header` reads it.
use remotedev.Base.{
  ℕ, ◌+◌, ◌-◌, ◌≡◌, refl, ap, ◌∙◌, Bool, true, false, none, ◌∷◌, ◌++◌, Bytes, length, drop, if_true,
  ltb, arith, if_false,
}
use remotedev.Http.Scan.{Scan, ok, find_eol, find_eom, parse_crlf, parse_hex}
use remotedev.Http.Scan.Hex.{parse_hex_one}
use remotedev.Http.Chars.{unhex}
use remotedev.Http.Parser.{Parser, complete, Step, do_complete}
use remotedev.Http.Outcome.{done, undefined, Receiver, After, leave}
use remotedev.Http.Fields.Loop.{parse_fields_blank}
use remotedev.Http.ChunkEncode.{chunk_encode_final}
use remotedev.Http.Write.{
  of_ec, after_trailer, after_last_line, trailer, after_last_search, last_chunk, last_size,
  after_size, after_eol, chunk_size, after_expected, parse_chunk_header,
}
use remotedev.Http.Write.Chunk.{chunk_end}

-- The parser that looks for the end of the message.
abbrev pub final : ℕ → Parser → Parser
final x p = record p { x = x; skip = x; f = record (p.f) { final_chunk = true } }

zero_read : parse_hex chunk_encode_final ≡ ok 0 (drop 1 chunk_encode_final)
unfolding unhex
zero_read =
    parse_hex_one (record { char = b'0'; value = 0; is_hex = refl }) (drop 1 chunk_encode_final)
      (record { head = b'\r'; tail = drop 2 chunk_encode_final; begins = refl; no_digit = refl })

module _ {D : Type 0} (impl : Receiver D) where
  chunk_size-final :
      (input : Bytes) (p : Parser) (d : D)
      → p.f.final_chunk ≡ false
      → p.skip ≡ 0
      → chunk_size impl input chunk_encode_final 5 p d
        ≡ last_chunk impl input 5 (length input - 4) (final (length input - 5 + 3 - 2) p) d
  unfolding chunk_size after_eol after_size find_eol
  chunk_size-final input p d f s =
      let within : ltb 5 p.skip ≡ false = ground (arith, s) in
      if_false (last_size impl input 5 (parse_hex chunk_encode_final) p d) _ f
      ∙ if_false (leave undefined p d) _ within
      ∙ ap
          (λ (k : ℕ).
            after_eol impl input chunk_encode_final 5 (find_eol (drop k chunk_encode_final)) p d)
          s
      ∙ ap
          (λ (k : ℕ).
            after_size impl input chunk_encode_final 5 (k + 3) (parse_hex chunk_encode_final) p d)
          s
      ∙ ap (λ (m : Scan ℕ). after_size impl input chunk_encode_final 5 3 m p d) zero_read

  completed :
      (p : Parser) (d : D)
      → (impl.events.on_complete d).1 ≡ none
      → do_complete impl.events p d ≡ record {
        used = 0;
        ec = none;
        parser = record p { state = complete };
        derived_state = (impl.events.on_complete d).0;
      }
  unfolding do_complete
  completed p d t = rw (do_complete, t) refl

  -- The trailer that has no field, and the end of the message.
  last_line_final :
      (used : ℕ) (p : Parser) (d : D)
      → (impl.events.on_complete d).1 ≡ none
      → after_last_line impl (parse_crlf (drop 1 chunk_encode_final)) used p d
        ≡ leave (done used) (record p { state = complete }) (impl.events.on_complete d).0
  unfolding after_last_line trailer parse_crlf after_trailer of_ec
  last_line_final used p d t =
      ap (λ (r : After D Bytes). after_trailer impl used r.outcome r.parser r.derived_state)
        (parse_fields_blank impl p d)
      ∙ ap (λ (s : Step D). of_ec s.ec (record s { used = used })) (completed p d t)

  -- The end of the chunk before, where it is expected, and the last chunk without a trailer are used,
  -- the derived class is told, and the message is complete.
  pub parse_chunk_header-final :
      (b : Bool) (p : Parser) (d : D)
      → p.f.expect_crlf ≡ b
      → p.f.final_chunk ≡ false
      → p.skip ≡ 0
      → (impl.events.on_complete d).1 ≡ none
      → parse_chunk_header impl (chunk_end b ++ chunk_encode_final) p d
        ≡ leave
            (done (length (chunk_end b ++ chunk_encode_final)))
            (record (final (length (chunk_end b) + 1) p) { state = complete })
            (impl.events.on_complete d).0
  unfolding parse_chunk_header after_expected parse_crlf last_chunk after_last_search find_eom
  parse_chunk_header-final false p d e f s t =
      if_false _ (chunk_size impl chunk_encode_final chunk_encode_final 5 p d) e
      ∙ chunk_size-final chunk_encode_final p d f s
      ∙ last_line_final 5 (final 1 p) d t
  parse_chunk_header-final true p d e f s t =
      let input : Bytes = b'\r' ∷ b'\n' ∷ chunk_encode_final in
      if_true _ (chunk_size impl input input 7 p d) e
      ∙ chunk_size-final input p d f s
      ∙ last_line_final 7 (final 3 p) d t
