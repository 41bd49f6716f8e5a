-- ===== src/Http/Write/Chunk.antt =====
-- The line before the data of a chunk, as `parse_chunk_header` reads it.
use remotedev.Base.{
  ℕ, ◌+◌, ◌-◌, ◌^◌, ◌≤◌, ◌<◌, ◌≡◌, refl, ap, ap₂, ◌∙◌, ◌*◌, drop, Bool, true, false, not, List, [],
  ◌∷◌, ◌++◌, Bytes, length, ltb, ◌==◌, if_true, if_false, arith,
}
use remotedev.Http.Chars.{unhex}
use remotedev.Http.Scan.{Scan, ok, Found, found, find_eol, parse_crlf, parse_hex}
use remotedev.Http.Scan.Hex.{HexDigit, chars, StopsHex, hex_value-le, parse_hex-hex_value}
use remotedev.Http.ChunkEncode.Digits.{Hex}
use remotedev.Http.Fields.Lines.{cr_lf, IsInline, find_eol_line, length_line}
use remotedev.Http.Parser.{Parser, chunk_body}
use remotedev.Http.Outcome.{done, undefined, Receiver, leave}
use remotedev.Http.Write.{
  chunk_follows, data_chunk, last_size, after_size, after_eol, chunk_size, after_expected,
  parse_chunk_header,
}

-- No digit is a CR.
chars-IsInline : (ds : List HexDigit) → IsInline (chars ds)
unfolding unhex
chars-IsInline [] = tt
chars-IsInline (d ∷ ds) = (λ e. absurd cc, chars-IsInline ds)

-- A parser before the data of a chunk of `n` octets.
abbrev pub before_data : ℕ → Parser → Parser
before_data n p = record p {
  len = n;
  skip = 0;
  f = record (p.f) { expect_crlf = true };
  state = chunk_body;
}

-- The line of a chunk of `n` octets.
abbrev pub hex_line : {n : ℕ} → Hex n → Bytes
hex_line x = chars (x.first ∷ x.others)

-- The CR LF that ends the chunk before, where it is expected.
abbrev pub chunk_end : Bool → Bytes
chunk_end false = []
chunk_end true = b'\r' ∷ b'\n' ∷ []

Hex-positive : {n : ℕ} (x : Hex n) → 0 < n
Hex-positive x =
    omega (arith, x.stands_for, x.is_positive, hex_value-le x.others (16 * 0 + x.first.value))

module _ {D : Type 0} (impl : Receiver D) {n : ℕ} (x : Hex n) (fits : n < 2 ^ 64) (xs : Bytes) where
  abbrev rest : Bytes
  rest = hex_line x ++ cr_lf xs

  size_read : parse_hex rest ≡ ok n (cr_lf xs)
  unfolding unhex
  size_read =
      let s : StopsHex (cr_lf xs) = record {
        head = b'\r';
        tail = b'\n' ∷ xs;
        begins = refl;
        no_digit = refl;
      } in
      parse_hex-hex_value x.first x.others (cr_lf xs) s x.is_positive
        (omega (arith, x.stands_for, fits))
      ∙ ap (λ (m : ℕ). ok m (cr_lf xs)) x.stands_for

  data_chunk_follows :
      (used : ℕ) (p : Parser) (d : D)
      → data_chunk impl n (cr_lf xs) 2 used p d ≡ leave (done used) (before_data n p) d
  unfolding data_chunk chunk_follows
  data_chunk_follows used p d = refl

  after_size_read :
      (input : Bytes) (k : ℕ) (p : Parser) (d : D)
      → k ≡ length (hex_line x) + 2
      → length rest ≤ length input
      → after_size impl input rest (length rest) k (ok n (cr_lf xs)) p d
        ≡ leave (done (length input - length xs)) (before_data n p) d
  unfolding after_size
  after_size_read input k p d e l =
      let len = length_line (hex_line x) xs in
      let some_data : not (n == 0) ≡ true = ground (arith, Hex-positive x) in
      let two : k - (length rest - length (cr_lf xs)) ≡ 2 = omega (arith, len, e) in
      let used : length input - length rest + k ≡ length input - length xs =
        omega (arith, len, e, l) in
      if_true
        (data_chunk impl n (cr_lf xs) (k - (length rest - length (cr_lf xs)))
          (length input - length rest + k) p d)
        _ some_data
      ∙ ap₂ (λ (j m : ℕ). data_chunk impl n (cr_lf xs) j m p d) two used
      ∙ data_chunk_follows (length input - length xs) p d

  chunk_size_read :
      (input : Bytes) (p : Parser) (d : D)
      → p.f.final_chunk ≡ false
      → p.skip ≡ 0
      → length rest ≤ length input
      → chunk_size impl input rest (length rest) p d
        ≡ leave (done (length input - length xs)) (before_data n p) d
  unfolding chunk_size after_eol
  chunk_size_read input p d f s l =
      let h : Bytes = hex_line x in
      let two : ltb (length rest) 2 ≡ false = ground (arith, length_line h xs) in
      let within : ltb (length rest) p.skip ≡ false = ground (arith, s) in
      let line : find_eol (drop p.skip rest) ≡ found (length h + 2) =
        ap (λ (k : ℕ). find_eol (drop k rest)) s
        ∙ find_eol_line h xs (chars-IsInline (x.first ∷ x.others)) in
      if_false (last_size impl input (length rest) (parse_hex rest) p d) _ f
      ∙ if_false (leave (done 0) p d) _ two
      ∙ if_false (leave undefined p d) _ within
      ∙ ap (λ (f : Found). after_eol impl input rest (length rest) f p d) line
      ∙ ap
          (λ (m : Scan ℕ). after_size impl input rest (length rest) (p.skip + (length h + 2)) m p d)
          size_read
      ∙ after_size_read input (p.skip + (length h + 2)) p d (omega (arith, s)) l

  -- The end of the chunk before, where it is expected, and the size of a chunk that is not empty, in
  -- hexadecimal digits on a line, are used, and the data of the chunk follow.
  pub parse_chunk_header_read :
      (b : Bool) (p : Parser) (d : D)
      → p.f.expect_crlf ≡ b
      → p.f.final_chunk ≡ false
      → p.skip ≡ 0
      → parse_chunk_header impl (chunk_end b ++ (hex_line x ++ cr_lf xs)) p d
        ≡ leave (done (length (chunk_end b) + (length (hex_line x) + 2))) (before_data n p) d
  unfolding parse_chunk_header after_expected parse_crlf
  parse_chunk_header_read false p d e f s =
      let l : length rest - length xs ≡ 0 + (length (hex_line x) + 2) =
        omega (arith, length_line (hex_line x) xs) in
      if_false _ (chunk_size impl rest rest (length rest) p d) e
      ∙ chunk_size_read rest p d f s (omega arith)
      ∙ ap (λ (k : ℕ). leave (done k) (before_data n p) d) l
  parse_chunk_header_read true p d e f s =
      let input : Bytes = b'\r' ∷ b'\n' ∷ rest in
      let long : ltb (length input) 2 ≡ false = ground arith in
      let l : length input - length xs ≡ 2 + (length (hex_line x) + 2) =
        omega (arith, length_line (hex_line x) xs) in
      let k : length input - 2 ≡ length rest = omega arith in
      if_true _ (chunk_size impl input input (length input) p d) e
      ∙ if_false (leave (done 0) p d)
          (after_expected impl input (length input) (parse_crlf input) p d) long
      ∙ ap (λ (k : ℕ). chunk_size impl input rest k p d) k
      ∙ chunk_size_read input p d f s (omega arith)
      ∙ ap (λ (k : ℕ). leave (done k) (before_data n p) d) l
