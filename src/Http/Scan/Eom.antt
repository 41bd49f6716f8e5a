-- ===== src/Http/Scan/Eom.antt =====
-- The search for the end of a header, `find_eom`, over a buffer that grows.
pub mod Prefix
use mathlib.Core.List.{append_assoc}
use remotedev.Base.{
  ℕ, zero, suc, ◌+◌, ◌-◌, ◌≤◌, ◌<◌, ◌≡◌, ◌≢◌, refl, sym, ap, ◌∙◌, ◌⊎◌, inl, inr, Bool, true, false,
  [], ◌∷◌, ◌++◌, Bytes, length, length-append, take, drop, ==_iff, ◌==◌, if◌then◌else◌, not, arith,
}
use remotedev.Http.Scan.{
  Found, found, missing, bad, behind, At, text, cr, crlf, crlfcr, find_eom_at, find_eom,
}

-- Three octets in which the search goes on lead to the same place from every program point.
three_octets :
    (a : At) (p q s : ℕ) (ys : Bytes)
    → find_eom_at a (p ∷ q ∷ s ∷ []) ≡ missing
    → find_eom_at a (p ∷ q ∷ s ∷ ys) ≡ find_eom_at text (p ∷ q ∷ s ∷ ys)
unfolding find_eom_at
three_octets text p q s ys h = refl
three_octets cr p q s ys h = ground arith
three_octets crlf p q s ys h = ground arith
three_octets crlfcr p q s ys h = ground arith

pub behind_missing : (n : ℕ) (f : Found) → behind n f ≡ missing → f ≡ missing
behind_missing n (found k) h = cc
behind_missing n missing h = refl
behind_missing n bad h = cc

behind-behind : (m n : ℕ) (f : Found) → behind m (behind n f) ≡ behind (m + n) f
behind-behind m n (found k) = ap found (omega arith)
behind-behind m n missing = refl
behind-behind m n bad = refl

-- One octet further, when it is not the last.
abbrev next_at : At → ℕ → At
next_at text x = if x == b'\r' then cr else text
next_at cr x = crlf
next_at crlf x = if not (x == b'\r') then text else crlfcr
next_at crlfcr x = text

step_missing :
    (a : At) (x y : ℕ) (xs : Bytes)
    → find_eom_at a (x ∷ y ∷ xs) ≡ missing
    → (find_eom_at (next_at a x) (y ∷ xs) ≡ missing)
      × ((r : Bytes) → find_eom_at a (x ∷ r) ≡ behind 1 (find_eom_at (next_at a x) r))
unfolding find_eom_at
step_missing text x y xs h = (behind_missing 1 _ h, λ r. refl)
step_missing cr x y xs h = (ground arith, λ r. ground arith)
step_missing crlf x y xs h = (behind_missing 1 _ h, λ r. refl)
step_missing crlfcr x y xs h = (ground arith, λ r. ground arith)

resume_at :
    (k : ℕ) (a : At) (xs ys : Bytes)
    → length xs ≡ k + 3
    → find_eom_at a xs ≡ missing
    → find_eom_at a (xs ++ ys) ≡ behind k (find_eom_at text (drop k (xs ++ ys)))
resume_at zero a (p ∷ q ∷ s ∷ []) ys e h = three_octets a p q s ys h ∙ sym (behind_zero _)
  where
    behind_zero : (f : Found) → behind 0 f ≡ f
    behind_zero (found k) = ap found (omega arith)
    behind_zero missing = refl
    behind_zero bad = refl
resume_at zero a [] ys e h = absurd (omega arith)
resume_at zero a (p ∷ []) ys e h = absurd (omega arith)
resume_at zero a (p ∷ q ∷ []) ys e h = absurd (omega arith)
resume_at zero a (p ∷ q ∷ s ∷ t ∷ xs) ys e h = absurd (omega arith)
resume_at (suc k) a [] ys e h = absurd (omega arith)
resume_at (suc k) a (x ∷ []) ys e h = absurd (omega arith)
resume_at (suc k) a (x ∷ y ∷ xs) ys e h =
    let s = step_missing a x y xs h in
    let n : 1 + k ≡ suc k = omega arith in
    s.1 (y ∷ (xs ++ ys))
    ∙ ap (behind 1) (resume_at k (next_at a x) (y ∷ xs) ys (omega arith) s.0)
    ∙ behind-behind 1 k _
    ∙ ap (λ (j : ℕ). behind j (find_eom_at text (drop k (y ∷ (xs ++ ys))))) n

-- When a buffer of at least three octets holds no end of a header, the search over the buffer with
-- more behind it may start three octets before its end: it finds the same end, and refuses the
-- same line endings, as a search from the start.
pub find_eom_resume :
    (xs ys : Bytes)
    → 3 ≤ length xs
    → find_eom xs ≡ missing
    → find_eom (xs ++ ys) ≡ behind (length xs - 3) (find_eom (drop (length xs - 3) (xs ++ ys)))
unfolding find_eom
find_eom_resume xs ys h e = resume_at (length xs - 3) text xs ys (omega arith) e

-- The octets that a program point has seen of an end.
abbrev seen : At → Bytes
seen text = []
seen cr = b'\r' ∷ []
seen crlf = b'\r' ∷ b'\n' ∷ []
seen crlfcr = b'\r' ∷ b'\n' ∷ b'\r' ∷ []

abbrev end_of_message : Bytes
end_of_message = b'\r' ∷ b'\n' ∷ b'\r' ∷ b'\n' ∷ []

-- What is found ends in CR LF CR LF, counted from what was seen before.
record EndsAt (a : At) (xs : Bytes) (n : ℕ) : Type 0 where
  before : Bytes
  splits : seen a ++ xs ≡ before ++ (end_of_message ++ drop n xs)
  counts : length (seen a) + n ≡ length before + 4

-- `found` one octet on.
behind_found : (f : Found) {n : ℕ} → behind 1 f ≡ found n → (k : ℕ) × (f ≡ found k) × (n ≡ suc k)
behind_found (found k) h = (k, refl, ground arith)
behind_found missing h = cc
behind_found bad h = cc

-- The case that is not an error.
good :
    (c : Bool) (f : Found) {n : ℕ}
    → (if not c then bad else f) ≡ found n
    → (c ≡ true) × (f ≡ found n)
good true f h = (refl, h)
good false f h = cc

-- An octet read on the way from one program point to another.
EndsAt-step :
    (a b : At) (x : ℕ) (r : Bytes) (k : ℕ) (front : Bytes)
    → seen a ++ x ∷ [] ≡ front ++ seen b
    → EndsAt b r k
    → EndsAt a (x ∷ r) (suc k)
EndsAt-step a b x r k front e d = record {
  before = front ++ d.before;
  splits =
      sym (append_assoc (seen a) (x ∷ []) r)
      ∙ ap (λ (l : Bytes). l ++ r) e
      ∙ append_assoc front (seen b) r
      ∙ ap (λ (l : Bytes). front ++ l) d.splits
      ∙ sym (append_assoc front d.before (end_of_message ++ drop k r));
  counts = omega (
    arith,
    length-append (seen a) (x ∷ []),
    ap length e,
    length-append front (seen b),
    length-append front d.before,
    d.counts,
  );
}

step_shorter :
    (a : At) (x : ℕ) (r l : Bytes) {n : ℕ}
    → find_eom_at a (x ∷ r) ≡ found n
    → find_eom_at (next_at a x) l ≡ missing
    → a ≢ crlfcr
    → find_eom_at a (x ∷ l) ≡ missing
unfolding find_eom_at
step_shorter text x r l h e c = rw e
step_shorter cr x r l h e c = ground arith
step_shorter crlf x r l h e c = rw e
step_shorter crlfcr x r l h e c = absurd (c refl)

-- The program point after an octet, when the search goes on.
step_found :
    (a : At) (x : ℕ) (r : Bytes) {n : ℕ}
    → find_eom_at a (x ∷ r) ≡ found n
    → ((k : ℕ) × (front : Bytes) × (find_eom_at (next_at a x) r ≡ found k)
        × (n ≡ suc k)
        × (seen a ++ x ∷ [] ≡ front ++ seen (next_at a x))
        × (a ≢ crlfcr))
      ⊎ ((a ≡ crlfcr) × (x ≡ b'\n') × (n ≡ 1))
unfolding find_eom_at
step_found text x r h =
    let (k, f, e) = behind_found _ h in
    inl (k, (if x == b'\r' then [] else x ∷ []), f, e, ground arith, λ c. cc)
step_found cr x r h =
    let (c, g) = good (x == b'\n') (behind 1 (find_eom_at crlf r)) h in
    let (k, f, e) = behind_found _ g in inl (k, [], f, e, ground arith, λ c. cc)
step_found crlf x r h =
    let (k, f, e) = behind_found _ h in
    inl (k, (if x == b'\r' then [] else b'\r' ∷ b'\n' ∷ x ∷ []), f, e, ground arith, λ c. cc)
step_found crlfcr x r h =
    let (c, g) = good (x == b'\n') (found 1) h in inr (refl, (==_iff x b'\n').0 c, ground arith)

find_eom_at-EndsAt : (a : At) (xs : Bytes) {n : ℕ} → find_eom_at a xs ≡ found n → EndsAt a xs n
find_eom_at-EndsAt a [] h = absurd (unfold find_eom_at in cc)
find_eom_at-EndsAt a (x ∷ r) {n} h = elim (step_found a x r h) [
  | inl (k, front, f, e, s, c) ↦
      rw e (EndsAt-step a (next_at a x) x r k front s (find_eom_at-EndsAt (next_at a x) r f))
  | inr (p, q, e) ↦ rw (p, q, e) (record { before = []; splits = refl; counts = refl })
]

-- What a search finds is behind a CR LF CR LF.
pub record IsEnd (xs : Bytes) (n : ℕ) : Type 0 where
  pub before : Bytes
  pub splits : xs ≡ before ++ (end_of_message ++ drop n xs)
  pub counts : n ≡ length before + 4

-- The end that is found lies directly behind a CR LF CR LF of the buffer.
pub find_eom-IsEnd : (xs : Bytes) {n : ℕ} → find_eom xs ≡ found n → IsEnd xs n
unfolding find_eom
find_eom-IsEnd xs h =
    let d = find_eom_at-EndsAt text xs h in
    record { before = d.before; splits = d.splits; counts = omega (arith, d.counts) }

shorter_at :
    (a : At) (xs : Bytes) (m : ℕ) {n : ℕ}
    → find_eom_at a xs ≡ found n
    → m < n
    → find_eom_at a (take m xs) ≡ missing
shorter_at a xs zero h lt = unfold find_eom_at in refl
shorter_at a [] (suc m) h lt = unfold find_eom_at in refl
shorter_at a (x ∷ r) (suc m) {n} h lt = elim (step_found a x r h) [
  | inl (k, front, f, e, s, c) ↦
      step_shorter a x r (take m r) h (shorter_at (next_at a x) r m f (omega arith)) c
  | inr (p, q, e) ↦ absurd (omega arith)
]

-- If an end is found behind `n` octets, the search over fewer than `n` of them finds none and
-- refuses nothing.
find_eom_first :
    (xs : Bytes) (m : ℕ) {n : ℕ} → find_eom xs ≡ found n → m < n → find_eom (take m xs) ≡ missing
unfolding find_eom
find_eom_first xs m = shorter_at text xs m
