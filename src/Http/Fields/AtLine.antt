-- ===== src/Http/Fields/AtLine.antt =====
-- Pointers in the lines of a header: what white space and the end of a line leave of it.
use remotedev.Base.{
  ℕ, zero, suc, ◌+◌, ◌-◌, ◌≤◌, ◌<◌, ◌≡◌, ◌≢◌, refl, sym, ap, subst, ◌∙◌, inl, inr, true, [], ◌∷◌,
  ◌++◌, Bytes, length, drop, Bool-cases, arith,
}
use remotedev.Http.Outcome.{done, line_end, Ensures}
use remotedev.Http.Lists.{is_ws, skip_ows, length-skip_ows}
use remotedev.Http.Fields.{continues}
use remotedev.Http.Fields.Lines.{
  cr_lf, IsInline, Lines, last, more, InLine, find_eol_line, drop_line, length_line,
}

pub length-InLine :
    (others xs : Bytes) (s : InLine others xs) → length xs ≡ length s.line + 2 + length others
length-InLine others xs s = ap length s.splits ∙ length_line s.line others

-- The white space of a line ends before its CR.
skip_ows-InLine :
    (others l : Bytes) (n : ℕ)
    → IsInline l
    → length l ≤ n
    → InLine others (skip_ows n (l ++ cr_lf others))
unfolding skip_ows
skip_ows-InLine others [] zero i h = record { line = []; splits = refl; is_inline = tt }
skip_ows-InLine others [] (suc n) i h = record { line = []; splits = refl; is_inline = tt }
skip_ows-InLine others (x ∷ l) zero i h = absurd (omega arith)
skip_ows-InLine others (x ∷ l) (suc n) i h = elim (Bool-cases (is_ws x)) [
  | inl t ↦ rw t (skip_ows-InLine others l n i.1 (omega arith))
  | inr t ↦ rw t (record { line = x ∷ l; splits = refl; is_inline = i })
]

-- What a search for the end of a line meets.
pub line_end_line : (l r : Bytes) → IsInline l → line_end (l ++ cr_lf r) ≡ done (length l + 2)
unfolding line_end
line_end_line l r i = rw (line_end, find_eol_line l r i) refl

-- Behind lines there is a character.
pub continues-Ensures :
    (r : Bytes) → Lines r → Ensures (λ b. b ≡ true → ◌≢◌ {A = Bytes} r (cr_lf [])) (continues r)
unfolding continues
continues-Ensures _ last = λ e. absurd cc
continues-Ensures _ (more [] r i n ls) = absurd n
continues-Ensures _ (more (x ∷ l) r i n ls) = λ _ e. i.0 cc

pub skipped :
    (others it : Bytes) (n : ℕ) (s : InLine others it)
    → length s.line ≤ n
    → InLine others (skip_ows n it)
skipped others it n s h =
    subst (λ (xs : Bytes). InLine others (skip_ows n xs)) (sym s.splits)
      (skip_ows-InLine others s.line n s.is_inline h)

-- The count of what is left of a line, from the pointers.
pub count_left :
    (others it it' : Bytes) (k : ℕ) (s : InLine others it) (q : InLine others it')
    → length it' ≤ length it
    → k ≡ length s.line + 2
    → k - (length it - length it') ≡ length q.line + 2
count_left others it it' k s q h e =
    omega (arith, length-InLine others it s, length-InLine others it' q, h, e)

-- A pointer in a line with lines behind it, with the count of octets up to those.
pub record AtLine (it : Bytes) (k : ℕ) : Type 0 where
  pub others : Bytes
  pub in_line : InLine others it
  pub count : k ≡ length in_line.line + 2
  pub are_lines : Lines others

pub AtLine-drop : (it : Bytes) (k : ℕ) (a : AtLine it k) → drop k it ≡ a.others
AtLine-drop it k a = let s = a.in_line in rw (a.count, s.splits) (drop_line s.line a.others)

pub AtLine-lt : (it : Bytes) (k : ℕ) (a : AtLine it k) → length a.others < length it
AtLine-lt it k a = omega (arith, length-InLine a.others it a.in_line)

pub AtLine-line_end : (it : Bytes) (k : ℕ) → AtLine it k → line_end it ≡ done k
AtLine-line_end it k a =
    let s = a.in_line in rw (a.count, s.splits) (line_end_line s.line a.others s.is_inline)

pub AtLine-skip :
    (it : Bytes) (k n : ℕ)
    → AtLine it k
    → k - 2 ≤ n
    → AtLine (skip_ows n it) (k - (length it - length (skip_ows n it)))
AtLine-skip it k n a h =
    let q = skipped a.others it n a.in_line (omega (arith, a.count)) in
    record {
      others = a.others;
      in_line = q;
      count = count_left a.others it (skip_ows n it) k a.in_line q (length-skip_ows n it) a.count;
      are_lines = a.are_lines;
    }

-- Lines that do not begin with the empty one.
pub next_line : (it : Bytes) → Lines it → ◌≢◌ {A = Bytes} it (cr_lf []) → (k : ℕ) × AtLine it k
next_line _ last n = absurd (n refl)
next_line _ (more l r i e ls) n = (
  length l + 2,
  record {
    others = r;
    in_line = record { line = l; splits = refl; is_inline = i };
    count = refl;
    are_lines = ls;
  },
)
