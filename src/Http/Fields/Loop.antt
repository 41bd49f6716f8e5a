-- ===== src/Http/Fields/Loop.antt =====
-- The fields of a header that the search ends are read within it, and nothing of it is left.
use remotedev.Base.{
  ℕ, zero, suc, ◌≤◌, ◌<◌, ◌≡◌, ◌≢◌, refl, Option, none, some, [], Bytes, length, arith,
}
use remotedev.Http.Scan.{find_eol}
use remotedev.Http.Parser.{Parser, Error}
use remotedev.Http.Outcome.{
  Outcome, done, err, undefined, Receiver, After, leave, call, line_end, Ensures,
}
use remotedev.Http.Field.{do_field}
use remotedev.Http.Field.Defined.{do_field-defined}
use remotedev.Http.Fields.{
  Line, blank, field, parse_line, after_field, after_line, fields_loop, parse_fields,
}
use remotedev.Http.Fields.Lines.{cr_lf, Lines, length-Lines}
use remotedev.Http.Fields.Defined.{GoodLine, parse_line-Good}

module _ {D : Type 0} (impl : Receiver D) where
  -- The derived class is called before what is defined.
  pub call-Ensures {ℓ} :
      {A : Type ℓ} (P : A → Type 0) (q : D × Option Error) (p : Parser) (rest : D → After D A)
      → ((d : D) → Ensures P (rest d).outcome)
      → Ensures P (call q p rest).outcome
  call-Ensures P (d, none) p rest h = h d
  call-Ensures P (d, some e) p rest h = tt

  after_field-Ensures :
      (o : Outcome Parser) (name value : Bytes) (p : Parser) (d : D)
      (again : Parser → D → After D Bytes)
      → o ≢ undefined
      → ((p : Parser) (d : D) → Ensures (λ r. r ≡ []) (again p d).outcome)
      → Ensures (λ r. r ≡ []) (after_field impl o name value p d again).outcome
  unfolding after_field
  after_field-Ensures undefined name value p d again n h = absurd (n refl)
  after_field-Ensures (err e) name value p d again n h = tt
  after_field-Ensures (done p') name value p d again n h =
      call-Ensures (λ r. r ≡ []) (impl.on_field name value d) p' (again p') (h p')

  after_line-Ensures :
      (start : Bytes) (o : Outcome Line) (p : Parser) (d : D)
      (again : Bytes → Parser → D → After D Bytes)
      → Ensures (GoodLine start) o
      → ((it : Bytes) (p : Parser) (d : D)
          → Lines it
          → length it < length start
          → Ensures (λ r. r ≡ []) (again it p d).outcome)
      → Ensures (λ r. r ≡ []) (after_line impl o p d again).outcome
  unfolding after_line
  after_line-Ensures start undefined p d again g h = g
  after_line-Ensures start (err e) p d again g h = tt
  after_line-Ensures start (done (blank it)) p d again g h = g
  after_line-Ensures start (done (field name value mem it)) p d again g h =
      after_field-Ensures (do_field name value mem p) name value p d (again it)
        (do_field-defined name value mem p g.2) (λ p d. h it p d g.0 g.1)

  fields_loop-Ensures :
      (fuel : ℕ) (it : Bytes) (p : Parser) (d : D)
      → Lines it
      → length it ≤ fuel
      → Ensures (λ r. r ≡ []) (fields_loop impl fuel it p d).outcome
  unfolding fields_loop
  fields_loop-Ensures zero it p d ls h = absurd (omega (arith, length-Lines it ls, h))
  fields_loop-Ensures (suc fuel) it p d ls h =
      after_line-Ensures it (parse_line it) p d (fields_loop impl fuel) (parse_line-Good it ls)
        (λ it' p d ls' lt. fields_loop-Ensures fuel it' p d ls' (omega (arith, lt, h)))

  -- All of the lines is used, or an error is returned.
  pub parse_fields-Ensures :
      (it : Bytes) (p : Parser) (d : D)
      → Lines it
      → Ensures (λ r. r ≡ []) (parse_fields impl it p d).outcome
  unfolding parse_fields
  parse_fields-Ensures it p d ls = fields_loop-Ensures (length it) it p d ls (omega arith)

  -- The empty line is the end.
  pub parse_fields_blank :
      (p : Parser) (d : D) → parse_fields impl (cr_lf []) p d ≡ leave (done []) p d
  unfolding parse_fields fields_loop after_line parse_line line_end find_eol
  parse_fields_blank p d = refl
