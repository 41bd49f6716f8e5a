-- ===== src/Http/StartLine/Safe.antt =====
-- No scan of a start line reads past the end of a header.
use remotedev.Base.{
  ℕ, suc, ◌≡◌, ◌≢◌, refl, sym, ap, subst, ◌∙◌, Bool, true, false, [], ◌∷◌, ◌++◌, Bytes, length, ◌≤◌,
  ◌<◌, ◌==◌, ==_iff, Bool-cases, inl, inr, arith,
}
use remotedev.Http.Chars.{is_digit, is_tchar, is_field_char, is_pathchar, is_text}
use remotedev.Http.Scan.{
  Scan, ok, no, fault, ◌>>=◌, expect, span, parse_method, parse_target, parse_name, parse_version,
  parse_status, parse_reason, parse_crlf,
}
use remotedev.Http.Parser.{Error}
use remotedev.Http.Outcome.{or_else, expect_char, Ensures}
use remotedev.Http.Fields.Lines.{cr_lf, IsInline, InLine}

-- A scan that reads nothing past the end, and leaves a pointer with a property.
abbrev pub EnsuresAt {ℓ} : {A : Type ℓ} → (Bytes → Type 0) → Scan A → Type 0
EnsuresAt P (ok _ r) = P r
EnsuresAt P no = Unit
EnsuresAt P fault = ⊥

EnsuresAt-bind {ℓ κ} :
    {A : Type ℓ} {B : Type κ} (P : Bytes → Type 0) (Q : Bytes → Type 0) (m : Scan A)
    (f : A × Bytes → Scan B)
    → EnsuresAt P m
    → ((a : A) (r : Bytes) → P r → EnsuresAt Q (f (a, r)))
    → EnsuresAt Q (m >>= f)
EnsuresAt-bind P Q (ok a r) f h k = k a r h
EnsuresAt-bind P Q no f h k = tt
EnsuresAt-bind P Q fault f h k = h

pub or_else-EnsuresAt {ℓ} :
    {A : Type ℓ} (P : Bytes → Type 0) (e : Error) (m : Scan A)
    → EnsuresAt P m
    → Ensures (λ (q : A × Bytes). P q.1) (or_else e m)
or_else-EnsuresAt P e (ok a r) h = h
or_else-EnsuresAt P e no h = tt
or_else-EnsuresAt P e fault h = h

-- In a line there is an octet to read, and unless it is the CR the line goes on behind it.
InLine-nonempty : (others : Bytes) → InLine others [] → ⊥
InLine-nonempty others s = go s.line s.splits
  where
    go : (l : Bytes) → [] ≡ l ++ cr_lf others → ⊥
    go [] e = cc
    go (x ∷ l) e = cc

InLine-tail :
    (others : Bytes) (x : ℕ) (xs : Bytes) → x ≢ b'\r' → InLine others (x ∷ xs) → InLine others xs
InLine-tail others x xs n s = go s.line s.is_inline s.splits
  where
    go : (l : Bytes) → IsInline l → x ∷ xs ≡ l ++ cr_lf others → InLine others xs
    go [] i e = absurd (n cc)
    go (y ∷ l) i e = record { line = l; splits = cc; is_inline = i.1 }

-- Behind the CR there is a LF, and then the other lines.
InLine-end : (others xs : Bytes) → InLine others (b'\r' ∷ xs) → xs ≡ b'\n' ∷ others
InLine-end others xs s = go s.line s.is_inline s.splits
  where
    go : (l : Bytes) → IsInline l → b'\r' ∷ xs ≡ l ++ cr_lf others → xs ≡ b'\n' ∷ others
    go [] i e = cc
    go (y ∷ l) i e = absurd (i.0 cc)

-- A test that the CR does not pass.
abbrev Stops : (ℕ → Bool) → Type 0
Stops p = p b'\r' ≡ false

passes-ne : (p : ℕ → Bool) (x : ℕ) → Stops p → p x ≡ true → x ≢ b'\r'
passes-ne p x s t e = absurd (cc (ap p e))

-- A run of characters is left with the memory behind it.
span-le :
    (P : Bytes → Type 0) (p : ℕ → Bool) (xs : Bytes)
    → EnsuresAt P (span p xs)
    → EnsuresAt (λ r. P r × (length r ≤ length xs)) (span p xs)
unfolding span
span-le P p [] h = h
span-le P p (x ∷ xs) h = elim (Bool-cases (p x)) [
  | inl t ↦ rw t (go (span p xs) (rw t at h) (λ g. span-le P p xs g))
  | inr t ↦ let h' = rw t at h in rw t (h', omega arith)
]
  where
    go :
        (m : Scan Bytes)
        → EnsuresAt P (m >>= λ q. ok (x ∷ q.0) q.1)
        → (EnsuresAt P m → EnsuresAt (λ r. P r × (length r ≤ length xs)) m)
        → EnsuresAt (λ r. P r × (length r ≤ suc (length xs))) (m >>= λ q. ok (x ∷ q.0) q.1)
    go (ok s r) h k = (h, omega (arith, (k h).1))
    go no h k = tt
    go fault h k = h

module _ (others : Bytes) where
  expect-InLine :
      (p : ℕ → Bool) (xs : Bytes)
      → Stops p
      → InLine others xs
      → EnsuresAt (InLine others) (expect p xs)
  expect-InLine p [] s h = InLine-nonempty others h
  expect-InLine p (x ∷ xs) s h = elim (Bool-cases (p x)) [
    | inl t ↦ rw t (InLine-tail others x xs (passes-ne p x s t) h)
    | inr t ↦ rw t tt
  ]

  span-InLine :
      (p : ℕ → Bool) (xs : Bytes)
      → Stops p
      → InLine others xs
      → EnsuresAt (InLine others) (span p xs)
  unfolding span
  span-InLine p [] s h = InLine-nonempty others h
  span-InLine p (x ∷ xs) s h = elim (Bool-cases (p x)) [
    | inl t ↦ rw t (
        EnsuresAt-bind (InLine others) (InLine others) (span p xs) _
          (span-InLine p xs s (InLine-tail others x xs (passes-ne p x s t) h)) (λ a r k. k))
    | inr t ↦ rw t h
  ]

  pub parse_method-InLine :
      (xs : Bytes) → InLine others xs → EnsuresAt (InLine others) (parse_method xs)
  unfolding parse_method is_tchar
  parse_method-InLine xs h = span-InLine is_tchar xs refl h

  pub parse_name-InLine :
      (xs : Bytes)
      → InLine others xs
      → EnsuresAt (λ r. InLine others r × (length r ≤ length xs)) (parse_name xs)
  unfolding parse_name is_field_char is_tchar
  parse_name-InLine xs h =
      span-le (InLine others) is_field_char xs (span-InLine is_field_char xs refl h)

  pub parse_target-InLine :
      (xs : Bytes) → InLine others xs → EnsuresAt (InLine others) (parse_target xs)
  unfolding parse_target is_pathchar
  parse_target-InLine xs h =
      EnsuresAt-bind (InLine others) (InLine others) (span is_pathchar xs) _
        (span-InLine is_pathchar xs refl h)
        λ s r k.
          EnsuresAt-bind (InLine others) (InLine others) (expect (λ c. c == b' ') r) _
            (expect-InLine (λ c. c == b' ') r refl k) λ a q j. k

  -- One octet of a fixed format, and what follows it.
  step {ℓ} :
      {A : Type ℓ} (p : ℕ → Bool) (xs : Bytes) (f : ℕ × Bytes → Scan A)
      → Stops p
      → InLine others xs
      → ((c : ℕ) (r : Bytes) → InLine others r → EnsuresAt (InLine others) (f (c, r)))
      → EnsuresAt (InLine others) (expect p xs >>= f)
  step p xs f s h k =
      EnsuresAt-bind (InLine others) (InLine others) (expect p xs) f (expect-InLine p xs s h) k

  pub parse_version-InLine :
      (xs : Bytes) → InLine others xs → EnsuresAt (InLine others) (parse_version xs)
  unfolding parse_version is_digit
  parse_version-InLine xs h =
      step (λ c. c == b'H') xs _ refl h
        λ _ r h.
          step (λ c. c == b'T') r _ refl h
            λ _ r h.
              step (λ c. c == b'T') r _ refl h
                λ _ r h.
                  step (λ c. c == b'P') r _ refl h
                    λ _ r h.
                      step (λ c. c == b'/') r _ refl h
                        λ _ r h. step is_digit r _ refl h λ _ r h.
                          step (λ c. c == b'.') r _ refl h
                            λ _ r h. step is_digit r _ refl h λ _ r h. h

  pub parse_status-InLine :
      (xs : Bytes) → InLine others xs → EnsuresAt (InLine others) (parse_status xs)
  unfolding parse_status is_digit
  parse_status-InLine xs h =
      step is_digit xs _ refl h
        λ _ r h. step is_digit r _ refl h λ _ r h. step is_digit r _ refl h λ _ r h. h

  pub parse_reason-InLine :
      (xs : Bytes) → InLine others xs → EnsuresAt (InLine others) (parse_reason xs)
  unfolding parse_reason
  parse_reason-InLine [] h = InLine-nonempty others h
  parse_reason-InLine (x ∷ xs) h = elim (Bool-cases (x == b'\r')) [
    | inl t ↦ rw t h
    | inr t ↦ elim (Bool-cases (is_text x)) [
      | inl u ↦
          let n : x ≢ b'\r' = ground (arith, ==_iff x b'\r') in
          rw (t, u)
            (EnsuresAt-bind (InLine others) (InLine others) (parse_reason xs) _
              (parse_reason-InLine xs (InLine-tail others x xs n h)) (λ a r k. k))
      | inr u ↦ rw (t, u) tt
    ]
  ]

  -- Where a CR LF is read, the line ends there.
  pub parse_crlf-end : (xs : Bytes) → InLine others xs → EnsuresAt (λ r. r ≡ others) (parse_crlf xs)
  unfolding parse_crlf
  parse_crlf-end [] h = InLine-nonempty others h
  parse_crlf-end (x ∷ xs) h = elim (Bool-cases (x == b'\r')) [
    | inl t ↦
        let e : x ≡ b'\r' = (==_iff x b'\r').0 t in
        rw (t, InLine-end others xs (subst (λ (c : ℕ). InLine others (c ∷ xs)) e h)) refl
    | inr t ↦ rw t tt
  ]

  pub expect_char-InLine :
      (c : ℕ) (e : Error) (xs : Bytes)
      → c ≢ b'\r'
      → InLine others xs
      → Ensures (λ r. InLine others r × (length r < length xs)) (expect_char c e xs)
  expect_char-InLine c e [] n h = InLine-nonempty others h
  expect_char-InLine c e (x ∷ xs) n h = elim (Bool-cases (x == c)) [
    | inl t ↦ rw t (InLine-tail others x xs (λ q. n (sym ((==_iff x c).0 t) ∙ q)) h, omega arith)
    | inr t ↦ rw t tt
  ]
