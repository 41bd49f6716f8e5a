-- ===== src/Http/Params/Defined.antt =====
-- `unquote` does not run past the quote that ends a quoted string.
use remotedev.Base.{
  ℕ, zero, suc, ◌<◌, ◌≤◌, ◌≡◌, refl, ap, ◌∙◌, Bool, true, false, not, both_branches, Option, none,
  some, ◌>>=◌, List, [], ◌∷◌, Bytes, length, ◌==◌, arith,
}
use remotedev.Http.Chars.{is_tchar}
use remotedev.Http.Lists.{take_token, length-skip_ows}
use remotedev.Http.Params.{
  quoted, is_qdchar, is_qpchar, unquote, value_of, ParamIter, param, no_param, param_next, param_at,
  after_semicolon, after_name, after_equals, params_from, param_list, Parts, param_or, skip_blank,
}

-- A result.
abbrev IsSome {ℓ} : {A : Type ℓ} → Option A → Type 0
IsSome none = ⊥
IsSome (some a) = Unit

bind_some : (c : ℕ) (m : Option Bytes) → IsSome m → IsSome (do s ← m; some (c ∷ s))
bind_some c none h = absurd h
bind_some c (some s) h = tt

-- A quoted string behind its first quote is unquoted, as are those that a backslash begins.
abbrev Unquotes : Bool → Option (Bytes × Bytes) → Type 0
Unquotes escaped none = Unit
Unquotes false (some (q, rest)) = IsSome (unquote q)
Unquotes true (some ([], rest)) = ⊥
Unquotes true (some (c ∷ q, rest)) = IsSome (unquote q)

unquote_plain :
    (x : ℕ) (q : Bytes) → (x == b'\\') ≡ false → IsSome (unquote q) → IsSome (unquote (x ∷ q))
unfolding unquote
unquote_plain x [] e h = absurd h
unquote_plain x (y ∷ q) e h = rw e (bind_some x (unquote (y ∷ q)) h)

unquote_pair :
    (x c : ℕ) (q : Bytes) → (x == b'\\') ≡ true → IsSome (unquote q) → IsSome (unquote (x ∷ c ∷ q))
unfolding unquote
unquote_pair x c q e h = rw e (bind_some c (unquote q) h)

plain-Unquotes :
    (c : ℕ) (m : Option (Bytes × Bytes))
    → (c == b'\\') ≡ false
    → Unquotes false m
    → Unquotes false (do p ← m; some (c ∷ p.0, p.1))
plain-Unquotes c none e u = tt
plain-Unquotes c (some (q, rest)) e u = unquote_plain c q e u

pair-Unquotes :
    (c : ℕ) (m : Option (Bytes × Bytes))
    → (c == b'\\') ≡ true
    → Unquotes true m
    → Unquotes false (do p ← m; some (c ∷ p.0, p.1))
pair-Unquotes c none e u = tt
pair-Unquotes c (some ([], rest)) e u = absurd u
pair-Unquotes c (some (d ∷ q, rest)) e u = unquote_pair c d q e u

escaped-Unquotes :
    (c : ℕ) (m : Option (Bytes × Bytes))
    → Unquotes false m
    → Unquotes true (do p ← m; some (c ∷ p.0, p.1))
escaped-Unquotes c none u = tt
escaped-Unquotes c (some (q, rest)) u = u

quoted-Unquotes : (escaped : Bool) (s : Bytes) → Unquotes escaped (quoted escaped s)
unfolding quoted
quoted-Unquotes true [] = tt
quoted-Unquotes false [] = tt
quoted-Unquotes true (c ∷ r) =
    both_branches (Unquotes true) (is_qpchar c) _ none
      (λ _. escaped-Unquotes c (quoted false r) (quoted-Unquotes false r)) (λ _. tt)
quoted-Unquotes false (c ∷ r) =
    both_branches (Unquotes false) (c == b'"') _ _ (λ _. unfold unquote in tt)
      λ _.
        both_branches (Unquotes false) (is_qdchar c) _ _
          (λ h.
            plain-Unquotes c (quoted false r) (unfold is_qdchar in ground arith)
              (quoted-Unquotes false r))
          λ _.
            both_branches (Unquotes false) (not (c == b'\\')) none _ (λ _. tt)
              λ h. pair-Unquotes c (quoted true r) (ground arith) (quoted-Unquotes true r)

-- A value that is unquoted, and no more than `n` characters behind it.
abbrev AreParts : ℕ → Parts → Type 0
AreParts n none = Unit
AreParts n (some (name, value, rest)) = IsSome (value_of value) × (length rest ≤ n)

abbrev IsStep : ℕ → ParamIter → Type 0
IsStep n (no_param rest) = Unit
IsStep n (param name value rest) = IsSome (value_of value) × (length rest < n)

length-take_token : (s : Bytes) → length (take_token s).1 ≤ length s
unfolding take_token
length-take_token [] = omega arith
length-take_token (c ∷ r) = ground (arith, length-take_token r)

abbrev IsShort : ℕ → Option (Bytes × Bytes) → Type 0
IsShort n none = Unit
IsShort n (some (q, rest)) = length rest ≤ n

bind-IsShort :
    (n c : ℕ) (m : Option (Bytes × Bytes))
    → IsShort n m
    → IsShort (suc n) (do p ← m; some (c ∷ p.0, p.1))
bind-IsShort n c none h = tt
bind-IsShort n c (some (q, rest)) h = omega arith

quoted-IsShort : (escaped : Bool) (s : Bytes) → IsShort (length s) (quoted escaped s)
unfolding quoted
quoted-IsShort true [] = tt
quoted-IsShort false [] = tt
quoted-IsShort true (c ∷ r) =
    both_branches (IsShort (suc (length r))) (is_qpchar c) _ none
      (λ _. bind-IsShort (length r) c (quoted false r) (quoted-IsShort false r)) (λ _. tt)
quoted-IsShort false (c ∷ r) =
    both_branches (IsShort (suc (length r))) (c == b'"') _ _ (λ _. omega arith)
      λ _.
        both_branches (IsShort (suc (length r))) (is_qdchar c) _ _
          (λ h. bind-IsShort (length r) c (quoted false r) (quoted-IsShort false r))
          λ _.
            both_branches (IsShort (suc (length r))) (not (c == b'\\')) none _ (λ _. tt)
              λ h. bind-IsShort (length r) c (quoted true r) (quoted-IsShort true r)

weaken : {m n : ℕ} (q : Parts) → m ≤ n → AreParts m q → AreParts (suc n) q
weaken none h a = tt
weaken (some p) h a = (a.0, omega (arith, a.1))

quote-AreParts :
    (n : ℕ) (name : Bytes) (m : Option (Bytes × Bytes))
    → Unquotes false m
    → IsShort n m
    → AreParts (suc n) (do p ← m; some (name, b'"' ∷ p.0, p.1))
unfolding value_of
quote-AreParts n name none u h = tt
quote-AreParts n name (some (q, rest)) u h = (u, omega arith)

after_equals-AreParts : (name s : Bytes) → AreParts (length s) (after_equals name s)
unfolding after_equals
after_equals-AreParts name [] = (unfold value_of in tt, omega arith)
after_equals-AreParts name (c ∷ r) =
    both_branches (AreParts (suc (length r))) (c == b'"') _ _
      (λ h.
        let q : c ≡ b'"' = ground arith in
        rw q (
          quote-AreParts (length r) name (quoted false r) (quoted-Unquotes false r)
            (quoted-IsShort false r)))
      λ h.
        both_branches (AreParts (suc (length r))) (not (is_tchar c)) none _ (λ _. tt)
          λ _. (unfold value_of in rw h tt, omega (arith, length-take_token r))

after_name-AreParts : (name s : Bytes) → AreParts (length s) (after_name name s)
unfolding after_name
after_name-AreParts name [] = (unfold value_of in tt, omega arith)
after_name-AreParts name (c ∷ r) =
    both_branches (AreParts (suc (length r))) (c == b';') _ _
      (λ h. (unfold value_of in tt, omega arith))
      λ h.
        both_branches (AreParts (suc (length r))) (not (c == b'=')) none _ (λ _. tt)
          λ _.
            weaken (after_equals name (skip_blank r)) (length-skip_ows (length r) r)
              (after_equals-AreParts name (skip_blank r))

after_semicolon-AreParts : (s : Bytes) → AreParts (length s) (after_semicolon s)
unfolding after_semicolon
after_semicolon-AreParts [] = tt
after_semicolon-AreParts (c ∷ r) =
    both_branches (AreParts (suc (length r))) (not (is_tchar c)) none _ (λ _. tt)
      λ _.
        let rest = (take_token r).1 in
        weaken (after_name (c ∷ (take_token r).0) (skip_blank rest))
          (omega (arith, length-take_token r, length-skip_ows (length rest) rest))
          (after_name-AreParts (c ∷ (take_token r).0) (skip_blank rest))

param_or-IsStep :
    (n m : ℕ) (first : Bytes) (q : Parts) → m < n → AreParts m q → IsStep n (param_or first q)
param_or-IsStep n m first none h a = tt
param_or-IsStep n m first (some (name, value, rest)) h a = (a.0, omega (arith, a.1))

param_at-IsStep : (n : ℕ) (s : Bytes) → length s ≤ n → IsStep n (param_at s)
unfolding param_at
param_at-IsStep n [] h = tt
param_at-IsStep n (c ∷ r) h =
    both_branches (IsStep n) (not (c == b';')) (no_param (c ∷ r)) _ (λ _. tt)
      λ _.
        param_or-IsStep n (length (skip_blank r)) (c ∷ r) (after_semicolon (skip_blank r))
          (omega (arith, length-skip_ows (length r) r)) (after_semicolon-AreParts (skip_blank r))

-- A step of the iterator takes a character at least.
param_next-IsStep : (s : Bytes) → IsStep (length s) (param_next s)
unfolding param_next
param_next-IsStep s = param_at-IsStep (length s) (skip_blank s) (length-skip_ows (length s) s)

list_known :
    (o : Option (List (Bytes × Bytes))) → IsSome o → (ps : List (Bytes × Bytes)) × (o ≡ some ps)
list_known none h = absurd h
list_known (some ps) h = (ps, refl)

-- What a step gives.
data Stepped (s : Bytes) : Type 0 where
  stopped : (rest : Bytes) → param_next s ≡ no_param rest → Stepped s
  stepped :
      (name value rest v : Bytes)
      → param_next s ≡ param name value rest
      → value_of value ≡ some v
      → length rest < length s
      → Stepped s

value_known : (o : Option Bytes) → IsSome o → (v : Bytes) × (o ≡ some v)
value_known none h = absurd h
value_known (some v) h = (v, refl)

param_next-Stepped : (s : Bytes) → Stepped s
param_next-Stepped s = classify (param_next s) refl (param_next-IsStep s)
  where
    classify : (i : ParamIter) → param_next s ≡ i → IsStep (length s) i → Stepped s
    classify (no_param rest) e h = stopped rest e
    classify (param name value rest) e h =
        let (v, k) = value_known (value_of value) h.0 in stepped name value rest v e k h.1

abbrev add_param : Bytes → Bytes → Option (List (Bytes × Bytes)) → Option (List (Bytes × Bytes))
add_param name v m = do ps ← m; some ((name, v) ∷ ps)

add-IsSome :
    (name v : Bytes) (m : Option (List (Bytes × Bytes))) → IsSome m → IsSome (add_param name v m)
add-IsSome name v none h = h
add-IsSome name v (some ps) h = tt

params_from_step :
    (fuel : ℕ) (s : Bytes) {name value rest v : Bytes}
    → param_next s ≡ param name value rest
    → value_of value ≡ some v
    → params_from (suc fuel) s ≡ add_param name v (params_from fuel rest)
unfolding params_from
params_from_step fuel s e k = rw (e, k, params_from) refl

params_from_stop :
    (fuel : ℕ) (s rest : Bytes) → param_next s ≡ no_param rest → params_from (suc fuel) s ≡ some []
unfolding params_from
params_from_stop fuel s rest e = rw (e, params_from) refl

params_from-IsSome : (fuel : ℕ) (s : Bytes) → length s < fuel → IsSome (params_from fuel s)
params_from-IsSome zero s h = absurd (omega arith)
params_from-IsSome (suc fuel) s h = elim (param_next-Stepped s) [
  | stopped rest e ↦ rw (params_from_stop fuel s rest e) tt
  | stepped name value rest v e k l ↦
      rw (params_from_step fuel s e k)
        (add-IsSome name v (params_from fuel rest) (params_from-IsSome fuel rest (omega arith)))
]

params_from_fuel :
    (f g : ℕ) (s : Bytes) → length s < f → length s < g → params_from f s ≡ params_from g s
params_from_fuel zero g s h k = absurd (omega arith)
params_from_fuel (suc f) zero s h k = absurd (omega arith)
params_from_fuel (suc f) (suc g) s h k = elim (param_next-Stepped s) [
  | stopped rest e ↦ rw (params_from_stop f s rest e, params_from_stop g s rest e) refl
  | stepped name value rest v e q l ↦
      rw (params_from_step f s e q, params_from_step g s e q)
        (ap (add_param name v) (params_from_fuel f g rest (omega arith) (omega arith)))
]

-- Every text has a list of parameters: the iteration ends within as many steps as there are
-- characters and one, with any more fuel it gives the same list, and `unquote` never reads past the
-- end of a quoted string.
pub param_list_ends :
    (s : Bytes) (fuel : ℕ)
    → length s < fuel
    → (ps : List (Bytes × Bytes)) × (param_list s ≡ some ps) × (params_from fuel s ≡ some ps)
unfolding param_list
param_list_ends s fuel h =
    let n = suc (length s) in
    let (ps, e) = list_known (params_from n s) (params_from-IsSome n s (omega arith)) in
    (ps, e, params_from_fuel fuel n s h (omega arith) ∙ e)
