-- ===== src/Http/Fields/Defined.antt =====
-- The lines of a header that the search ends are read within it.
use remotedev.Base.{
  ℕ, zero, suc, ◌+◌, ◌-◌, ◌≤◌, ◌<◌, ◌≡◌, ◌≢◌, refl, inl, inr, Bool, true, false, Option, none, some,
  [], ◌∷◌, ◌++◌, Bytes, length, take, drop, length-take, drop-append_short, ◌==◌, Bool-cases, arith,
}
use remotedev.Http.Chars.{is_digit}
use remotedev.Http.Scan.{parse_name}
use remotedev.Http.Parser.{bad_field}
use remotedev.Http.Outcome.{Outcome, ◌>>=◌, line_end, Ensures, Ensures-mono, Ensures-bind}
use remotedev.Http.Lists.{skip_ows, trim, skip_ows_rev, length-skip_ows}
use remotedev.Http.Fields.{
  Line, blank, field, continues, fold_blank, fold_lines, folded_rest, plain_value, folded_value,
  parse_field, parse_line,
}
use remotedev.Http.Fields.Lines.{cr_lf, Lines, last, more, InLine, length-Lines}
use remotedev.Http.StartLine.Safe.{parse_name-InLine}
use remotedev.Http.StartLine.Defined.{scanned, tested, moved}
use remotedev.Http.Field.Defined.{HasStop, HasStop-append}
use remotedev.Http.Fields.AtLine.{
  length-InLine, line_end_line, continues-Ensures, skipped, count_left, AtLine, AtLine-drop,
  AtLine-lt, AtLine-line_end, AtLine-skip, next_line,
}

HasStop-cr_lf : (xs r : Bytes) → HasStop (xs ++ cr_lf r)
unfolding is_digit
HasStop-cr_lf xs r = HasStop-append xs (cr_lf r) (inl refl)

-- What `parse_line` leaves of lines `it`: all of them are used, or lines are left, fewer, and the
-- memory behind the value stops a number.
abbrev pub GoodLine : Bytes → Line → Type 0
GoodLine it (blank rest) = rest ≡ []
GoodLine it (field name value behind rest) = Lines rest × (length rest < length it) × HasStop behind

length-trim : (x : ℕ) (xs : Bytes) → length (trim x xs) ≤ suc (length xs)
unfolding trim
length-trim x [] = ground arith
length-trim x (y ∷ r) = omega arith

length-skip_ows_rev : (xs : Bytes) → length (skip_ows_rev xs) ≤ length xs
unfolding skip_ows_rev
length-skip_ows_rev [] = omega arith
length-skip_ows_rev (x ∷ xs) =
    omega (arith, length-trim x (skip_ows_rev xs), length-skip_ows_rev xs)

drop-HasStop :
    (others xs : Bytes) (n : ℕ) (s : InLine others xs) → n ≤ length s.line → HasStop (drop n xs)
drop-HasStop others xs n s h =
    rw (s.splits, drop-append_short n s.line (cr_lf others) h)
      (HasStop-cr_lf (drop n s.line) others)

length-value : (n : ℕ) (xs : Bytes) → length (skip_ows_rev (take n xs)) ≤ n
length-value n xs = omega (arith, length-skip_ows_rev (take n xs), length-take n xs)

plain_value-Good :
    (start others name it : Bytes) (n : ℕ) (s : InLine others it)
    → n ≡ length s.line + 2
    → Lines others
    → length others < length start
    → GoodLine start (plain_value name it n others)
unfolding plain_value
plain_value-Good start others name it n s e ls h =
    let c : n - 2 ≡ length s.line = omega (arith, e) in
    let first = skip_ows (n - 2) it in
    let q = skipped others it (n - 2) s (omega (arith, c)) in
    let m = count_left others it first n s q (length-skip_ows (n - 2) it) e in
    let v = length-value (n - 2 - (length it - length first)) first in
    (
      ls,
      h,
      drop-HasStop others first
          (length (skip_ows_rev (take (n - 2 - (length it - length first)) first))) q
          (omega (arith, m, v, e)),
    )

-- What the first loop of a folded value leaves.
abbrev GoodFold : ℕ → Bytes × Option ℕ → Type 0
GoodFold bound (it, none) = Lines it × (length it < bound)
GoodFold bound (it, some k) = AtLine it k × (length it ≤ bound)

GoodFold-le : (m n : ℕ) (q : Bytes × Option ℕ) → m ≤ n → GoodFold m q → GoodFold n q
GoodFold-le m n (it, none) h g = (g.0, omega (arith, g.1, h))
GoodFold-le m n (it, some k) h g = (g.0, omega (arith, g.1, h))

-- What follows the test for a continuation.
continues-bind {ℓ} :
    {B : Type ℓ} (Q : B → Type 0) (r : Bytes) (f : Bool → Outcome B)
    → Lines r
    → Ensures Q (f false)
    → ((k : ℕ) → AtLine r k → Ensures Q (f true))
    → Ensures Q (continues r >>= f)
continues-bind Q r f ls ends goes =
    Ensures-bind (λ b. b ≡ true → ◌≢◌ {A = Bytes} r (cr_lf [])) Q (continues r) f
      (continues-Ensures r ls) go
  where
    go : (b : Bool) → (b ≡ true → ◌≢◌ {A = Bytes} r (cr_lf [])) → Ensures Q (f b)
    go false h = ends
    go true h = let (k, a) = next_line r ls (h refl) in goes k a

-- What follows the search for the end of a line.
line_end-bind {ℓ} :
    {B : Type ℓ} (Q : B → Type 0) (it : Bytes) (k : ℕ) (f : ℕ → Outcome B)
    → AtLine it k
    → Ensures Q (f k)
    → Ensures Q (line_end it >>= f)
line_end-bind Q it k f a h = rw (AtLine-line_end it k a) h

others-Lines :
    (it : Bytes) (k : ℕ) → AtLine it k → Lines (drop k it) × (length (drop k it) < length it)
others-Lines it k a = rw (AtLine-drop it k a) (a.are_lines, AtLine-lt it k a)

fold_blank-Good :
    (fuel : ℕ) (it : Bytes) (k : ℕ)
    → AtLine it k
    → length it ≤ fuel
    → Ensures (GoodFold (length it)) (fold_blank fuel it k)
unfolding fold_blank
fold_blank-Good zero it k a h = absurd (omega (arith, AtLine-lt it k a, h))
fold_blank-Good (suc fuel) it k a h =
    let it' = skip_ows (k - 2) it in
    let q = AtLine-skip it k (k - 2) a (omega arith) in
    let (ls, lt) = others-Lines it k a in
    elim (Bool-cases (k - (length it - length it') == 2)) [
      | inr t ↦ rw t (q, length-skip_ows (k - 2) it)
      | inl t ↦ rw t (
          continues-bind (GoodFold (length it)) (drop k it) _ ls (ls, lt)
            λ n b. line_end-bind (GoodFold (length it)) (drop k it) n _ b (
              Ensures-mono _ _ (fold_blank fuel (drop k it) n)
                (λ q g. GoodFold-le (length (drop k it)) (length it) q (omega (arith, lt)) g)
                (fold_blank-Good fuel (drop k it) n b (omega (arith, lt, h)))))
    ]

fold_lines-Good :
    (fuel : ℕ) (s it : Bytes)
    → Lines it
    → length it ≤ fuel
    → Ensures (λ (q : Bytes × Bytes). Lines q.1 × (length q.1 ≤ length it)) (fold_lines fuel s it)
unfolding fold_lines
fold_lines-Good zero s it ls h = absurd (omega (arith, length-Lines it ls, h))
fold_lines-Good (suc fuel) s it ls h =
    let Q = λ (q : Bytes × Bytes). Lines q.1 × (length q.1 ≤ length it) in
    continues-bind Q it _ ls (ls, omega arith)
      λ n b.
        let it' = skip_ows (length it) it in
        let a =
          AtLine-skip it n (length it) b
            (omega (arith, b.count, length-InLine b.others it b.in_line)) in
        let k = n - (length it - length it') in
        let (ls', lt) = others-Lines it' k a in
        line_end-bind Q it' k _ a (
          Ensures-mono _ _ (fold_lines fuel ((s ++ (b' ' ∷ [])) ++ take (k - 2) it') (drop k it'))
            (λ q g. (g.0, omega (arith, lt, g.1, length-skip_ows (length it) it)))
            (fold_lines-Good fuel _ (drop k it') ls'
              (omega (arith, lt, h, length-skip_ows (length it) it))))

folded_rest-Good :
    (name start : Bytes) (bound : ℕ) (q : Bytes × Option ℕ)
    → bound ≤ length start
    → GoodFold bound q
    → Ensures (GoodLine start) (folded_rest name q)
unfolding folded_rest is_digit
folded_rest-Good name start bound (first, none) h g = (g.0, omega (arith, g.1, h), inl refl)
folded_rest-Good name start bound (first, some n) h g =
    let (ls, lt) = others-Lines first n g.0 in
    Ensures-bind (λ (q : Bytes × Bytes). Lines q.1 × (length q.1 ≤ length (drop n first)))
      (GoodLine start) (fold_lines (length first) (take (n - 2) first) (drop n first)) _
      (fold_lines-Good (length first) (take (n - 2) first) (drop n first) ls (omega (arith, lt)))
      (λ q p. (p.0, omega (arith, p.1, lt, g.1, h), inl refl))

folded_value-Good :
    (name it start : Bytes) (k : ℕ)
    → AtLine it k
    → length it ≤ length start
    → Ensures (GoodLine start) (folded_value name it k)
unfolding folded_value
folded_value-Good name it start k a h =
    Ensures-bind (GoodFold (length it)) (GoodLine start) (fold_blank (length it) it k)
      (folded_rest name) (fold_blank-Good (length it) it k a (omega arith))
      (λ q g. folded_rest-Good name start (length it) q h g)

parse_field-Good : (it : Bytes) (k : ℕ) → AtLine it k → Ensures (GoodLine it) (parse_field it k)
unfolding parse_field
parse_field-Good it k a =
    let (ls, lt) = others-Lines it k a in
    scanned (λ r. InLine a.others r × (length r ≤ length it)) (GoodLine it) bad_field
      (parse_name it) _ (parse_name-InLine a.others it a.in_line)
      λ name it1 s1. tested (GoodLine it) bad_field name _ (
        moved a.others (GoodLine it) b':' bad_field it1 _ colon-ne-cr s1.0 λ it2 s2 shorter.
          let n = k - (length it - length it2) in
          let le : length it2 ≤ length it = omega (arith, shorter, s1.1) in
          let e : n ≡ length s2.line + 2 = count_left a.others it it2 k a.in_line s2 le a.count in
          let b : AtLine it2 n = record {
            others = a.others;
            in_line = s2;
            count = e;
            are_lines = a.are_lines;
          } in
          continues-bind (GoodLine it) (drop k it) _ ls
            (rw (AtLine-drop it k a)
              (plain_value-Good it a.others name it2 n s2 e a.are_lines (AtLine-lt it k a)))
            (λ _ _. folded_value-Good name it2 it n b le))
  where
    colon-ne-cr : ◌≢◌ {A = ℕ} b':' b'\r'
    colon-ne-cr e = omega (arith, e)

pub parse_line-Good : (it : Bytes) → Lines it → Ensures (GoodLine it) (parse_line it)
unfolding parse_line
parse_line-Good _ last = rw (line_end_line [] [] tt) refl
parse_line-Good _ (more [] r i n ls) = absurd n
parse_line-Good _ (more (x ∷ l) r i n ls) =
    let a : AtLine ((x ∷ l) ++ cr_lf r) (length (x ∷ l) + 2) = record {
      others = r;
      in_line = record { line = x ∷ l; splits = refl; is_inline = i };
      count = refl;
      are_lines = ls;
    } in
    let nz : (length (x ∷ l) + 2 == 2) ≡ false = ground arith in
    line_end-bind (GoodLine ((x ∷ l) ++ cr_lf r)) ((x ∷ l) ++ cr_lf r) (length (x ∷ l) + 2) _ a
      (rw nz (parse_field-Good ((x ∷ l) ++ cr_lf r) (length (x ∷ l) + 2) a))
