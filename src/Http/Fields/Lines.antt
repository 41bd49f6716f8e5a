-- ===== src/Http/Fields/Lines.antt =====
-- The shape of a header that `find_eom` ends: lines that end in CR LF, the last of them empty.
use remotedev.Base.{
  ℕ, suc, ◌+◌, ◌≤◌, ◌≡◌, ◌≢◌, refl, sym, ap, ap₂, subst, inl, inr, not, [], ◌∷◌, ◌++◌, Bytes, All,
  length, length-append, drop, ◌==◌, ==_iff, if◌then◌else◌, Bool-cases, arith,
}
use remotedev.Http.Scan.{
  Found, found, missing, bad, behind, At, text, cr, crlf, crlfcr, find_eom_at, find_eom, find_eol,
}

abbrev pub cr_lf : Bytes → Bytes
cr_lf r = b'\r' ∷ b'\n' ∷ r

-- No CR among the octets.
abbrev pub IsInline : Bytes → Type 0
IsInline = All (λ c. c ≢ b'\r')

abbrev IsNonempty : Bytes → Type 0
IsNonempty [] = ⊥
IsNonempty (_ ∷ _) = Unit

-- Lines that are not empty, and the empty line.
pub data Lines : Bytes → Type 0 where
  last : Lines (cr_lf [])
  more : (l r : Bytes) → IsInline l → IsNonempty l → Lines r → Lines (l ++ cr_lf r)

-- The rest of a line, with `others` behind its CR LF.
pub record InLine (others : Bytes) (xs : Bytes) : Type 0 where
  pub line : Bytes
  pub splits : xs ≡ line ++ cr_lf others
  pub is_inline : IsInline line

-- A line, with lines behind it.
pub record HasLine (xs : Bytes) : Type 0 where
  pub others : Bytes
  pub in_line : InLine others xs
  pub are_lines : Lines others

behind_found : (f : Found) {n : ℕ} → behind 1 f ≡ found (suc n) → f ≡ found n
behind_found (found k) h = ground arith
behind_found missing h = cc
behind_found bad h = cc

-- What is left at each program point of a search that ends with the memory.
abbrev Shape : At → Bytes → Type 0
Shape text xs = HasLine xs
Shape cr xs = (r : Bytes) × (xs ≡ b'\n' ∷ r) × Lines r
Shape crlf xs = Lines xs
Shape crlfcr xs = xs ≡ b'\n' ∷ []

good :
    (x y : ℕ) (f : Found) {n : ℕ}
    → (if not (x == y) then bad else f) ≡ found n
    → (x ≡ y) × (f ≡ found n)
good x y f h = ground arith

-- A line that an octet begins.
InLine-cons :
    (others : Bytes) (x : ℕ) (xs : Bytes) → x ≢ b'\r' → InLine others xs → InLine others (x ∷ xs)
InLine-cons others x xs n s = record {
  line = x ∷ s.line;
  splits = ap (◌∷◌ x) s.splits;
  is_inline = (n, s.is_inline);
}

find_eom_at-Shape : (a : At) (xs : Bytes) → find_eom_at a xs ≡ found (length xs) → Shape a xs
unfolding find_eom_at
find_eom_at-Shape a [] h = absurd cc
find_eom_at-Shape text (x ∷ xs) h = elim (Bool-cases (x == b'\r')) [
  | inl t ↦
      let (r, e, ls) = find_eom_at-Shape cr xs (behind_found _ (rw t at h)) in
      record {
        others = r;
        in_line = record { line = []; splits = ap₂ ◌∷◌ ((==_iff x b'\r').0 t) e; is_inline = tt };
        are_lines = ls;
      }
  | inr t ↦
      let s = find_eom_at-Shape text xs (behind_found _ (rw t at h)) in
      let n : x ≢ b'\r' = ground (arith, ==_iff x b'\r') in
      record {
        others = s.others;
        in_line = InLine-cons s.others x xs n s.in_line;
        are_lines = s.are_lines;
      }
]
find_eom_at-Shape cr (x ∷ xs) h =
    let (e, g) = good x b'\n' (behind 1 (find_eom_at crlf xs)) h in
    (xs, ap (λ (c : ℕ). c ∷ xs) e, find_eom_at-Shape crlf xs (behind_found _ g))
find_eom_at-Shape crlf (x ∷ xs) h = elim (Bool-cases (x == b'\r')) [
  | inl t ↦
      let e = find_eom_at-Shape crlfcr xs (behind_found _ (rw t at h)) in
      subst Lines (sym (ap₂ ◌∷◌ ((==_iff x b'\r').0 t) e)) last
  | inr t ↦
      let s = find_eom_at-Shape text xs (behind_found _ (rw t at h)) in
      let n : x ≢ b'\r' = ground (arith, ==_iff x b'\r') in
      let q = s.in_line in
      subst Lines (sym (ap (◌∷◌ x) q.splits))
        (more (x ∷ q.line) s.others (n, q.is_inline) tt s.are_lines)
]
find_eom_at-Shape crlfcr (x ∷ []) h =
    let (e, _) = good x b'\n' (found 1) h in ap (λ (c : ℕ). c ∷ []) e
find_eom_at-Shape crlfcr (x ∷ y ∷ xs) h =
    let (_, g) = good x b'\n' (found 1) h in absurd (ground arith)

-- A header that the search ends at its end is a line, with lines behind it.
pub find_eom-HasLine : (xs : Bytes) → find_eom xs ≡ found (length xs) → HasLine xs
unfolding find_eom
find_eom-HasLine xs h = find_eom_at-Shape text xs h

-- The search for the end of a line, in one.
pub find_eol_line : (l r : Bytes) → IsInline l → find_eol (l ++ cr_lf r) ≡ found (length l + 2)
unfolding find_eol
find_eol_line [] r n = refl
find_eol_line (x ∷ []) r n = ground arith
find_eol_line (x ∷ y ∷ l) r n = ground (arith, find_eol_line (y ∷ l) r n.1)

pub drop_line : (l r : Bytes) → drop (length l + 2) (l ++ cr_lf r) ≡ r
drop_line [] r = refl
drop_line (x ∷ l) r =
    let e : suc (length l) + 2 ≡ suc (length l + 2) = omega arith in rw e (drop_line l r)

pub length_line : (l r : Bytes) → length (l ++ cr_lf r) ≡ length l + 2 + length r
length_line l r = omega (arith, length-append l (cr_lf r))

pub length-Lines : (it : Bytes) → Lines it → 2 ≤ length it
length-Lines _ last = omega arith
length-Lines _ (more l r i n ls) = omega (arith, length_line l r)
