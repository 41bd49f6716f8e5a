-- ===== src/Http/StartLine/Defined.antt =====
-- The start line of a header that the search ends is read within it, and lines are left.
use remotedev.Base.{ℕ, ◌≡◌, ◌≢◌, Bytes, length, ◌<◌, [], ◌∷◌, arith}
use remotedev.Http.Scan.{
  Scan, parse_method, parse_target, parse_version, parse_status, parse_reason, parse_crlf,
}
use remotedev.Http.Parser.{Error, bad_method, bad_path, bad_version, bad_status, bad_reason}
use remotedev.Http.Outcome.{Outcome, ◌>>=◌, or_else, expect_char, nonempty, Ensures, Ensures-bind}
use remotedev.Http.StartLine.{parse_request_line, parse_status_line}
use remotedev.Http.Fields.Lines.{InLine}
use remotedev.Http.StartLine.Safe.{
  EnsuresAt, or_else-EnsuresAt, parse_method-InLine, parse_target-InLine, parse_version-InLine,
  parse_status-InLine, parse_reason-InLine, parse_crlf-end, expect_char-InLine,
}

-- What is left is `others`.
abbrev pub EndsAt {ℓ} : {A : Type ℓ} → Bytes → A × Bytes → Type 0
EndsAt others q = q.1 ≡ others

-- A scan, and what follows it.
pub scanned {ℓ κ} :
    {A : Type ℓ} {B : Type κ} (P : Bytes → Type 0) (Q : B → Type 0) (e : Error) (m : Scan A)
    (f : A × Bytes → Outcome B)
    → EnsuresAt P m
    → ((a : A) (r : Bytes) → P r → Ensures Q (f (a, r)))
    → Ensures Q (or_else e m >>= f)
scanned {A = A} P Q e m f h k =
    Ensures-bind (λ (q : A × Bytes). P q.1) Q (or_else e m) f (or_else-EnsuresAt P e m h)
      (λ q p. k q.0 q.1 p)

-- A test that does not move the pointer.
pub tested {κ} :
    {B : Type κ} (Q : B → Type 0) (e : Error) (s : Bytes) (f : Unit {0} → Outcome B)
    → Ensures Q (f tt)
    → Ensures Q (nonempty e s >>= f)
tested Q e [] f h = tt
tested Q e (x ∷ s) f h = h

module _ (others : Bytes) where
  pub moved {κ} :
      {B : Type κ} (Q : B → Type 0) (c : ℕ) (e : Error) (xs : Bytes) (f : Bytes → Outcome B)
      → c ≢ b'\r'
      → InLine others xs
      → ((r : Bytes) → InLine others r → length r < length xs → Ensures Q (f r))
      → Ensures Q (expect_char c e xs >>= f)
  moved Q c e xs f n h k =
      Ensures-bind (λ r. InLine others r × (length r < length xs)) Q (expect_char c e xs) f
        (expect_char-InLine others c e xs n h) (λ r p. k r p.0 p.1)

  space-ne-cr : ◌≢◌ {A = ℕ} b' ' b'\r'
  space-ne-cr e = omega (arith, e)

  pub parse_request_line-EndsAt :
      (xs : Bytes) → InLine others xs → Ensures (EndsAt others) (parse_request_line xs)
  unfolding parse_request_line
  parse_request_line-EndsAt xs h =
      scanned (InLine others) (EndsAt others) bad_method (parse_method xs) _
        (parse_method-InLine others xs h)
        λ m r h. tested (EndsAt others) bad_method m _ (
          moved (EndsAt others) b' ' bad_method r _ space-ne-cr h λ r h _.
            scanned (InLine others) (EndsAt others) bad_path (parse_target r) _
              (parse_target-InLine others r h)
              λ t r h. tested (EndsAt others) bad_path t _ (
                moved (EndsAt others) b' ' bad_path r _ space-ne-cr h λ r h _.
                  scanned (InLine others) (EndsAt others) bad_version (parse_version r) _
                    (parse_version-InLine others r h)
                    λ v r h.
                      scanned (λ r. r ≡ others) (EndsAt others) bad_version (parse_crlf r) _
                        (parse_crlf-end others r h) λ c r h. h))

  pub parse_status_line-EndsAt :
      (xs : Bytes) → InLine others xs → Ensures (EndsAt others) (parse_status_line xs)
  unfolding parse_status_line
  parse_status_line-EndsAt xs h =
      scanned (InLine others) (EndsAt others) bad_version (parse_version xs) _
        (parse_version-InLine others xs h)
        λ v r h. moved (EndsAt others) b' ' bad_version r _ space-ne-cr h λ r h _.
          scanned (InLine others) (EndsAt others) bad_status (parse_status r) _
            (parse_status-InLine others r h)
            λ s r h. moved (EndsAt others) b' ' bad_status r _ space-ne-cr h λ r h _.
              scanned (InLine others) (EndsAt others) bad_reason (parse_reason r) _
                (parse_reason-InLine others r h)
                λ t r h.
                  scanned (λ r. r ≡ others) (EndsAt others) bad_reason (parse_crlf r) _
                    (parse_crlf-end others r h) λ c r h. h
