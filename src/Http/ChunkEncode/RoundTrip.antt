-- ===== src/Http/ChunkEncode/RoundTrip.antt =====
-- What `chunk_encode` writes is what `do_write` reads.
use mathlib.Core.List.{append_assoc, append-nil}
use remotedev.Base.{
  ℕ, zero, suc, ◌+◌, ◌^◌, ◌<◌, ◌≡◌, refl, sym, ap, subst, ◌∙◌, Bool, true, false, Option, none,
  some, ◌>>=◌, List, [], ◌∷◌, ◌++◌, Bytes, All, length, length-append, drop, drop-length_append,
  arith,
}
use remotedev.Http.Parser.{Parser, complete}
use remotedev.Http.Outcome.{done, Receiver, leave}
use remotedev.Http.Header.{Side}
use remotedev.Http.Fields.Lines.{cr_lf}
use remotedev.Http.Write.{do_write}
use remotedev.Http.Write.Chunk.{chunk_end, before_data, hex_line, parse_chunk_header_read}
use remotedev.Http.Write.Data.{
  Ready, IsAnnounced, announce, announced_by, do_write-announced_by, after_data,
  do_write_chunk_header, do_write_chunk_body,
}
use remotedev.Http.Write.Last.{final, parse_chunk_header-final}
use remotedev.Http.ChunkEncode.{chunk_encode, chunk_encode_delim, chunk_encode_final, to_hex}
use remotedev.Http.ChunkEncode.Digits.{Hex, hex_digits-Hex}

-- The chunks of some blocks of data, one behind the other.
abbrev encode_chunks : List Bytes → Option Bytes
encode_chunks [] = some []
encode_chunks (block ∷ blocks) = do
  chunk ← chunk_encode false (block ∷ [])
  chunks ← encode_chunks blocks
  some (chunk ++ chunks)

-- A size that is not zero is written on a line of its own.
chunk_encode_delim-Hex :
    (n : ℕ)
    → 0 < n
    → n < 2 ^ 64
    → (x : Hex n) × (chunk_encode_delim n ≡ some (hex_line x ++ cr_lf []))
unfolding chunk_encode_delim to_hex
chunk_encode_delim-Hex zero p h = absurd (omega arith)
chunk_encode_delim-Hex (suc n) p h =
    let (x, e) = hex_digits-Hex 16 (suc n) p (omega arith) in (x, e (cr_lf []))

chunk_encode_block :
    (block : Bytes)
    → 0 < length block
    → length block < 2 ^ 64
    → (x : Hex (length block)) × (chunk_encode false (block ∷ [])
        ≡ some (hex_line x ++ cr_lf (block ++ cr_lf [])))
unfolding chunk_encode
chunk_encode_block block p h =
    let (x, e) = chunk_encode_delim-Hex (length block) p h in
    (
      x,
      rw (append-nil block, e) (ap some (append_assoc (hex_line x) (cr_lf []) (block ++ cr_lf []))),
    )

module _ {D : Type 0} (impl : Receiver D) (side : Side) where
  -- Calls of `do_write`, each on what the one before has not used.
  pub data Calls : Bytes → Parser → D → Bytes → Parser → D → Type 0 where
    none_left : (xs : Bytes) (p : Parser) (d : D) → Calls xs p d xs p d
    one_more :
        (xs : Bytes) (p : Parser) (d : D) (used : ℕ) (q : Parser) (e : D) (ys : Bytes) (r : Parser)
        (f : D)
        → do_write impl side xs p d ≡ leave (done used) q e
        → Calls (drop used xs) q e ys r f
        → Calls xs p d ys r f

  Calls-trans :
      (xs : Bytes) (p : Parser) (d : D) (ys : Bytes) (q : Parser) (e : D) (zs : Bytes) (r : Parser)
      (f : D)
      → Calls xs p d ys q e
      → Calls ys q e zs r f
      → Calls xs p d zs r f
  Calls-trans _ _ _ _ _ _ zs r f (none_left xs p d) c = c
  Calls-trans _ _ _ _ _ _ zs r f (one_more xs p d used q e ys r' f' w a) c =
      one_more xs p d used q e zs r f w (Calls-trans (drop used xs) q e ys r' f' zs r f a c)

  -- A call that uses what is in front of the rest.
  one-Calls :
      (front ys : Bytes) (p : Parser) (d : D) (q : Parser) (e : D)
      → do_write impl side (front ++ ys) p d ≡ leave (done (length front)) q e
      → Calls (front ++ ys) p d ys q e
  one-Calls front ys p d q e w = one_more (front ++ ys) p d (length front) q e ys q e w (
      subst (λ (xs : Bytes). Calls xs q e ys q e) (sym (drop-length_append front ys))
        (none_left ys q e))

  IsAnnounced-after :
      (b : Bool) (n : ℕ) (p : Parser)
      → IsAnnounced b p
      → IsAnnounced true (after_data (before_data n p))
  IsAnnounced-after b n p r = record {
    at_chunk = refl;
    end_expected = refl;
    not_final = r.not_final;
    not_skipped = refl;
    announced = r.announced;
  }

  header-Calls :
      (b : Bool) (n : ℕ) (x : Hex n) (xs : Bytes) (p : Parser) (d : D)
      → n < 2 ^ 64
      → IsAnnounced b p
      → Calls (chunk_end b ++ (hex_line x ++ cr_lf xs)) p d xs (before_data n p) d
  header-Calls b n x xs p d h r =
      let front = chunk_end b ++ (hex_line x ++ cr_lf []) in
      let e : front ++ xs ≡ chunk_end b ++ (hex_line x ++ cr_lf xs) =
        append_assoc (chunk_end b) (hex_line x ++ cr_lf []) xs
        ∙ ap (λ (l : Bytes). chunk_end b ++ l) (append_assoc (hex_line x) (cr_lf []) xs) in
      let l : length (chunk_end b) + (length (hex_line x) + 2) ≡ length front = omega (
        arith,
        length-append (chunk_end b) (hex_line x ++ cr_lf []),
        length-append (hex_line x) (cr_lf []),
      ) in
      subst (λ (i : Bytes). Calls i p d xs (before_data n p) d) e
        (one-Calls front xs p d (before_data n p) d (
          ap (λ (i : Bytes). do_write impl side i p d) e
          ∙ do_write_chunk_header impl side (chunk_end b ++ (hex_line x ++ cr_lf xs)) p d r.at_chunk
              r.announced
          ∙ parse_chunk_header_read impl x h xs b p d r.end_expected r.not_final r.not_skipped
          ∙ ap (λ (k : ℕ). leave (done k) (before_data n p) d) l))

  block-Calls :
      (block more : Bytes) (b : Bool) (x : Hex (length block)) (p : Parser) (d : D)
      → length block < 2 ^ 64
      → (impl.events.on_data block d).1 ≡ none
      → IsAnnounced b p
      → Calls
          (chunk_end b ++ ((hex_line x ++ cr_lf (block ++ cr_lf [])) ++ more))
          p
          d
          (cr_lf more)
          (after_data (before_data (length block) p))
          (impl.events.on_data block d).0
  block-Calls block more b x p d h t r =
      let n = length block in
      let e : (hex_line x ++ cr_lf (block ++ cr_lf [])) ++ more
          ≡ hex_line x ++ cr_lf (block ++ cr_lf more) =
        append_assoc (hex_line x) (cr_lf (block ++ cr_lf [])) more
        ∙ ap (λ (l : Bytes). hex_line x ++ cr_lf l) (append_assoc block (cr_lf []) more) in
      let q = before_data n p in
      let d' = (impl.events.on_data block d).0 in
      let start = chunk_end b ++ ((hex_line x ++ cr_lf (block ++ cr_lf [])) ++ more) in
      let one : Calls start p d (block ++ cr_lf more) q d =
        subst (λ (l : Bytes). Calls (chunk_end b ++ l) p d (block ++ cr_lf more) q d) (sym e)
          (header-Calls b n x (block ++ cr_lf more) p d h r) in
      let two : Calls (block ++ cr_lf more) q d (cr_lf more) (after_data q) d' =
        one-Calls block (cr_lf more) q d (after_data q) d'
          (do_write_chunk_body impl side block (cr_lf more) q d refl refl (omega arith) t) in
      Calls-trans start p d (block ++ cr_lf more) q d (cr_lf more) (after_data q) d' one two

  -- The data given to the derived class, block by block.
  abbrev on_blocks : List Bytes → D → D
  on_blocks [] d = d
  on_blocks (block ∷ blocks) d = on_blocks blocks (impl.events.on_data block d).0

  -- What the calls on the chunks of some blocks leave.
  record Reads (b : Bool) (blocks : List Bytes) (more : Bytes) (p : Parser) (d : D) : Type 0 where
    text : Bytes
    is_encoded : encode_chunks blocks ≡ some text
    end_left : Bool
    parser : Parser
    is_ready : IsAnnounced end_left parser
    calls :
        Calls
          (chunk_end b ++ (text ++ more))
          p
          d
          (chunk_end end_left ++ more)
          parser
          (on_blocks blocks d)

  -- The chunks of some blocks are used up, and the derived class has the blocks.
  chunks-Reads :
      (b : Bool) (blocks : List Bytes) (more : Bytes) (p : Parser) (d : D)
      → ((block : Bytes) (d : D) → (impl.events.on_data block d).1 ≡ none)
      → All (λ block. (0 < length block) × (length block < 2 ^ 64)) blocks
      → IsAnnounced b p
      → Reads b blocks more p d
  chunks-Reads b [] more p d t h r = record {
    text = [];
    is_encoded = refl;
    end_left = b;
    parser = p;
    is_ready = r;
    calls = none_left (chunk_end b ++ more) p d;
  }
  chunks-Reads b (block ∷ blocks) more p d t h r =
      let (x, e) = chunk_encode_block block h.0.0 h.0.1 in
      let chunk : Bytes = hex_line x ++ cr_lf (block ++ cr_lf []) in
      let q = after_data (before_data (length block) p) in
      let d' = (impl.events.on_data block d).0 in
      let s = chunks-Reads true blocks more q d' t h.1 (IsAnnounced-after b (length block) p r) in
      record {
        text = chunk ++ s.text;
        is_encoded = rw (e, s.is_encoded) refl;
        end_left = s.end_left;
        parser = s.parser;
        is_ready = s.is_ready;
        calls =
            subst
              (λ (l : Bytes).
                Calls (chunk_end b ++ l) p d (chunk_end s.end_left ++ more) s.parser
                  (on_blocks (block ∷ blocks) d))
              (sym (append_assoc chunk s.text more))
              (Calls-trans (chunk_end b ++ (chunk ++ (s.text ++ more))) p d (cr_lf (s.text ++ more))
                q d' (chunk_end s.end_left ++ more) s.parser (on_blocks blocks d')
                (block-Calls block (s.text ++ more) b x p d h.0.1 (t block d) r) s.calls);
      }

  -- The calls on a body in chunks that has been announced.
  record Finished (b : Bool) (blocks : List Bytes) (p : Parser) (d : D) : Type 0 where
    text : Bytes
    is_encoded : encode_chunks blocks ≡ some text
    parser : Parser
    is_complete : parser.state ≡ complete
    calls :
        Calls
          (chunk_end b ++ (text ++ chunk_encode_final))
          p
          d
          []
          parser
          (impl.events.on_complete (on_blocks blocks d)).0

  announced-Completes :
      (b : Bool) (blocks : List Bytes) (p : Parser) (d : D)
      → ((block : Bytes) (d : D) → (impl.events.on_data block d).1 ≡ none)
      → ((d : D) → (impl.events.on_complete d).1 ≡ none)
      → All (λ block. (0 < length block) × (length block < 2 ^ 64)) blocks
      → IsAnnounced b p
      → Finished b blocks p d
  announced-Completes b blocks p d t c h r =
      let s = chunks-Reads b blocks chunk_encode_final p d t h r in
      let k = s.is_ready in
      let e = on_blocks blocks d in
      let last = chunk_end s.end_left ++ chunk_encode_final in
      let q : Parser = record (final (length (chunk_end s.end_left) + 1) s.parser) {
        state = complete;
      } in
      let w : do_write impl side last s.parser e
          ≡ leave (done (length last)) q (impl.events.on_complete e).0 =
        do_write_chunk_header impl side last s.parser e k.at_chunk k.announced
        ∙ parse_chunk_header-final impl s.end_left s.parser e k.end_expected k.not_final
            k.not_skipped (c e) in
      let one : Calls last s.parser e [] q (impl.events.on_complete e).0 =
        subst (λ (l : Bytes). Calls l s.parser e [] q (impl.events.on_complete e).0)
          (append-nil last)
          (one-Calls last [] s.parser e q (impl.events.on_complete e).0
            (ap (λ (l : Bytes). do_write impl side l s.parser e) (append-nil last) ∙ w)) in
      record {
        text = s.text;
        is_encoded = s.is_encoded;
        parser = q;
        is_complete = refl;
        calls =
            Calls-trans (chunk_end b ++ (s.text ++ chunk_encode_final)) p d last s.parser e [] q
              (impl.events.on_complete e).0 s.calls one;
      }

  -- The calls on a body in chunks.
  pub record Completes (b : Bool) (blocks : List Bytes) (p : Parser) (d : D) : Type 0 where
    pub text : Bytes
    pub is_encoded : encode_chunks blocks ≡ some text
    pub parser : Parser
    pub is_complete : parser.state ≡ complete
    pub calls :
        Calls
          (chunk_end b ++ (text ++ chunk_encode_final))
          p
          d
          []
          parser
          (impl.events.on_complete (on_blocks blocks (announce impl p d))).0

  -- Calls that use something, from a parser whose first call is that of another.
  Calls-as :
      (xs : Bytes) (p p' : Parser) (d d' : D) (ys : Bytes) (r : Parser) (f : D)
      → do_write impl side xs p d ≡ do_write impl side xs p' d'
      → ¬ (xs ≡ ys)
      → Calls xs p' d' ys r f
      → Calls xs p d ys r f
  Calls-as _ p _ d _ _ _ _ e n (none_left xs p' d') = absurd (n refl)
  Calls-as _ p _ d _ _ _ _ e n (one_more xs p' d' used q e' ys r f w c) =
      one_more xs p d used q e' ys r f (e ∙ w) c

  not_empty : (xs ys : Bytes) → 0 < length ys → ¬ (xs ++ ys ≡ [])
  not_empty xs ys h e = absurd (omega (arith, length-append xs ys, ap length e))

  -- Where the derived class reports no error and the parser is before a chunk, the first one or a
  -- later one: some blocks of data, each of at least one octet and fewer than 2 ^ 64, are encoded in
  -- chunks, and calls of `do_write` on these and the final chunk, each on what the call before has not
  -- used, use all of it, announce the body to the derived class if that was not done before, give it
  -- exactly the blocks, in order, then tell it that the message is complete, and leave the parser
  -- complete.
  pub chunks-Completes :
      (b : Bool) (blocks : List Bytes) (p : Parser) (d : D)
      → ((n : ℕ) (d : D) → (impl.events.on_body_length n d).1 ≡ none)
      → ((d : D) → (impl.events.on_body d).1 ≡ none)
      → ((block : Bytes) (d : D) → (impl.events.on_data block d).1 ≡ none)
      → ((d : D) → (impl.events.on_complete d).1 ≡ none)
      → All (λ block. (0 < length block) × (length block < 2 ^ 64)) blocks
      → Ready b p
      → Completes b blocks p d
  chunks-Completes b blocks p d l o t c h r =
      let a : IsAnnounced b (announced_by impl p) = record {
        at_chunk = r.at_chunk;
        end_expected = r.end_expected;
        not_final = r.not_final;
        not_skipped = r.not_skipped;
        announced = refl;
      } in
      let s = announced-Completes b blocks (announced_by impl p) (announce impl p d) t c h a in
      let all = chunk_end b ++ (s.text ++ chunk_encode_final) in
      let some_left : ¬ (all ≡ []) =
        not_empty (chunk_end b) (s.text ++ chunk_encode_final)
          (omega (arith, length-append s.text chunk_encode_final)) in
      record {
        text = s.text;
        is_encoded = s.is_encoded;
        parser = s.parser;
        is_complete = s.is_complete;
        calls =
            Calls-as all p (announced_by impl p) d (announce impl p d) [] s.parser _
              (do_write-announced_by impl side all p d r.at_chunk l o) some_left s.calls;
      }
