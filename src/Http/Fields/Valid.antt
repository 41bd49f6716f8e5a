-- ===== src/Http/Fields/Valid.antt =====
-- The fields of a header leave a valid parser valid, whatever they are.
use remotedev.Base.{ℕ, zero, suc, Option, none, some, Bytes, length}
use remotedev.Http.Parser.{Parser, Error}
use remotedev.Http.Parser.Valid.{IsValid}
use remotedev.Http.Outcome.{Outcome, done, err, undefined, Receiver, After, call}
use remotedev.Http.Field.{do_field}
use remotedev.Http.Field.Valid.{Yields, do_field-IsValid}
use remotedev.Http.Fields.{
  Line, blank, field, parse_line, after_field, after_line, fields_loop, parse_fields,
}

module _ {D : Type 0} (impl : Receiver D) where
  pub call-IsValid {ℓ} :
      {A : Type ℓ} (q : D × Option Error) (p : Parser) (rest : D → After D A)
      → IsValid p
      → ((d : D) → IsValid (rest d).parser)
      → IsValid (call q p rest).parser
  call-IsValid (d, none) p rest h k = k d
  call-IsValid (d, some e) p rest h k = h

  after_field-IsValid :
      (o : Outcome Parser) (name value : Bytes) (p : Parser) (d : D)
      (again : Parser → D → After D Bytes)
      → Yields o
      → IsValid p
      → ((p : Parser) (d : D) → IsValid p → IsValid (again p d).parser)
      → IsValid (after_field impl o name value p d again).parser
  unfolding after_field
  after_field-IsValid undefined name value p d again y h k = h
  after_field-IsValid (err e) name value p d again y h k = h
  after_field-IsValid (done p') name value p d again y h k =
      call-IsValid (impl.on_field name value d) p' (again p') y (λ d'. k p' d' y)

  after_line-IsValid :
      (o : Outcome Line) (p : Parser) (d : D) (again : Bytes → Parser → D → After D Bytes)
      → IsValid p
      → ((it : Bytes) (p : Parser) (d : D) → IsValid p → IsValid (again it p d).parser)
      → IsValid (after_line impl o p d again).parser
  unfolding after_line
  after_line-IsValid undefined p d again h k = h
  after_line-IsValid (err e) p d again h k = h
  after_line-IsValid (done (blank it)) p d again h k = h
  after_line-IsValid (done (field name value mem it)) p d again h k =
      after_field-IsValid (do_field name value mem p) name value p d (again it)
        (do_field-IsValid name value mem p h) h (k it)

  fields_loop-IsValid :
      (fuel : ℕ) (it : Bytes) (p : Parser) (d : D)
      → IsValid p
      → IsValid (fields_loop impl fuel it p d).parser
  unfolding fields_loop
  fields_loop-IsValid zero it p d h = h
  fields_loop-IsValid (suc fuel) it p d h =
      after_line-IsValid (parse_line it) p d (fields_loop impl fuel) h (fields_loop-IsValid fuel)

  pub parse_fields-IsValid :
      (it : Bytes) (p : Parser) (d : D) → IsValid p → IsValid (parse_fields impl it p d).parser
  unfolding parse_fields
  parse_fields-IsValid it p d h = fields_loop-IsValid (length it) it p d h
