-- ===== src/Http/Scan/Eom/Prefix.antt =====
-- The search for the end of a header, over no more than the header.
use remotedev.Base.{
  ℕ, ◌≤◌, ◌<◌, ◌⊎◌, ◌≡◌, ◌≢◌, refl, ap, ◌∙◌, inl, inr, [], ◌∷◌, Bytes, length, length-append,
  length-drop, take, arith,
}
use remotedev.Http.Scan.{found, missing, behind, At, text, cr, crlf, crlfcr, find_eom_at, find_eom}
use remotedev.Http.Scan.Eom.{next_at, step_found, find_eom-IsEnd}

-- The header does not end in the octets.
abbrev pub IsPart : Bytes → Type 0
IsPart xs = (length xs < 4) ⊎ (find_eom xs ≡ missing)

step_same :
    (a : At) (x : ℕ) (r l : Bytes) {n : ℕ}
    → find_eom_at a (x ∷ r) ≡ found n
    → a ≢ crlfcr
    → find_eom_at a (x ∷ l) ≡ behind 1 (find_eom_at (next_at a x) l)
unfolding find_eom_at
step_same text x r l h c = refl
step_same cr x r l h c = ground arith
step_same crlf x r l h c = refl
step_same crlfcr x r l h c = absurd (c refl)

find_eom_at-take :
    (a : At) (xs : Bytes) {n : ℕ} → find_eom_at a xs ≡ found n → find_eom_at a (take n xs) ≡ found n
find_eom_at-take a [] h = absurd (unfold find_eom_at in cc)
find_eom_at-take a (x ∷ r) {n} h = elim (step_found a x r h) [
  | inl (k, front, f, e, s, c) ↦ rw e (
      step_same a x r (take k r) h c
      ∙ ap (behind 1) (find_eom_at-take (next_at a x) r f)
      ∙ ap found (omega arith))
  | inr (p, q, e) ↦ rw (p, q, e) (unfold find_eom_at in refl)
]

pub find_eom-take : (xs : Bytes) {n : ℕ} → find_eom xs ≡ found n → find_eom (take n xs) ≡ found n
unfolding find_eom
find_eom-take xs h = find_eom_at-take text xs h

pub find_eom-le : (xs : Bytes) {n : ℕ} → find_eom xs ≡ found n → n ≤ length xs
find_eom-le xs {n} h =
    let d = find_eom-IsEnd xs h in
    omega (arith, ap length d.splits, length-append d.before _, length-drop n xs, d.counts)
