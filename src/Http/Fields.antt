-- ===== src/Http/Fields.antt =====
-- include/beast/http/impl/basic_parser.ipp: parse_fields. A pointer is the list of what is left up
-- to the end of the header.
pub mod Lines
pub mod AtLine
pub mod Defined
pub mod Loop
pub mod Valid
use remotedev.Base.{
  ℕ, zero, suc, ◌-◌, Bool, true, false, not, Option, none, some, [], ◌∷◌, ◌++◌, Bytes, length, take,
  drop, ◌==◌, if◌then◌else◌,
}
use remotedev.Http.Scan.{parse_name}
use remotedev.Http.Parser.{bad_field, Parser}
use remotedev.Http.Outcome.{
  Outcome, done, err, undefined, ◌>>=◌, or_else, expect_char, nonempty, line_end, Receiver, After,
  leave, call,
}
use remotedev.Http.Lists.{is_ws, skip_ows, skip_ows_rev}
use remotedev.Http.Field.{do_field}

-- Whether the line behind the next is a continuation: `*term` is a space or a tab.
pub continues : Bytes → Outcome Bool
continues [] = undefined
continues (c ∷ r) = done (is_ws c)

-- The first loop of a folded value: lines of white space. What is left is the pointer, and the
-- count of octets up to behind the line, or none where no line continues.
pub fold_blank : ℕ → Bytes → ℕ → Outcome (Bytes × Option ℕ)
unfolding line_end continues
fold_blank zero it k = undefined
fold_blank (suc fuel) it k =
    let it' = skip_ows (k - 2) it in
    let term = drop k it in
    let k' = k - (length it - length it') in
    if not (k' == 2) then done (it', some k') else (do
      more ← continues term
      elim more [ false ↦ done (term, none) | true ↦ do n ← line_end term; fold_blank fuel term n ])

-- The second loop: the lines that continue the value, each behind a space. `skip_ows` has no
-- bound in it but the character at which it stops.
pub fold_lines : ℕ → Bytes → Bytes → Outcome (Bytes × Bytes)
unfolding line_end continues
fold_lines zero s it = undefined
fold_lines (suc fuel) s it = do
  more ← continues it
  elim more [
    | false ↦ done (s, it)
    | true ↦ do
      let it' = skip_ows (length it) it
      k ← line_end it'
      fold_lines fuel ((s ++ (b' ' ∷ [])) ++ take (k - 2) it') (drop k it')
  ]

-- A line of the header: the empty one, or a field, with its name, its value, the memory behind
-- the value, and the pointer that is left.
pub data Line : Type 0 where
  blank : Bytes → Line
  field : Bytes → Bytes → Bytes → Bytes → Line

-- A value that no line continues, on a line with `n` octets left of it at `it`.
pub plain_value : Bytes → Bytes → ℕ → Bytes → Line
plain_value name it n term =
    let first = skip_ows (n - 2) it in
    let value = skip_ows_rev (take (n - 2 - (length it - length first)) first) in
    field name value (drop (length value) first) term

-- What follows the first loop. A folded value is a string, behind which its memory has a zero.
pub folded_rest : Bytes → Bytes × Option ℕ → Outcome Line
unfolding fold_lines
folded_rest name (first, none) = done (field name [] (0 ∷ []) first)
folded_rest name (first, some k) = do
  (value, rest) ← fold_lines (length first) (take (k - 2) first) (drop k first)
  done (field name value (0 ∷ []) rest)

pub folded_value : Bytes → Bytes → ℕ → Outcome Line
unfolding fold_blank folded_rest
folded_value name it n = do r ← fold_blank (length it) it n; folded_rest name r

pub parse_field : Bytes → ℕ → Outcome Line
unfolding plain_value folded_value continues
parse_field it k = do
  (name, it1) ← or_else bad_field (parse_name it)
  _ ← nonempty bad_field name
  it2 ← expect_char b':' bad_field it1
  more ← continues (drop k it)
  let n = k - (length it - length it2)
  if more then folded_value name it2 n else done (plain_value name it2 n (drop k it))

pub parse_line : Bytes → Outcome Line
unfolding parse_field line_end
parse_line it = do k ← line_end it; if k == 2 then done (blank (drop k it)) else parse_field it k

module _ {D : Type 0} (impl : Receiver D) where
  -- A field stored, and what the loop goes on with.
  pub after_field :
      Outcome Parser → Bytes → Bytes → Parser → D → (Parser → D → After D Bytes) → After D Bytes
  after_field undefined name value p d again = leave undefined p d
  after_field (err e) name value p d again = leave (err e) p d
  after_field (done p') name value p d again = call (impl.on_field name value d) p' (again p')

  -- A line read, and what the loop goes on with.
  pub after_line : Outcome Line → Parser → D → (Bytes → Parser → D → After D Bytes) → After D Bytes
  unfolding after_field
  after_line undefined p d again = leave undefined p d
  after_line (err e) p d again = leave (err e) p d
  after_line (done (blank it)) p d again = leave (done it) p d
  after_line (done (field name value behind it)) p d again =
      after_field (do_field name value behind p) name value p d (again it)

  -- The loop of `parse_fields`, on fuel: each line takes two octets at least.
  pub fields_loop : ℕ → Bytes → Parser → D → After D Bytes
  unfolding parse_line after_line
  fields_loop zero it p d = leave undefined p d
  fields_loop (suc fuel) it p d = after_line (parse_line it) p d (fields_loop fuel)

  pub parse_fields : Bytes → Parser → D → After D Bytes
  unfolding fields_loop
  parse_fields it p d = fields_loop (length it) it p d
