-- ===== src/Http/Params/Print.antt =====
-- Parameters and extensions as RFC 7230 writes them, and the scanning of tokens in them.
use remotedev.Base.{
  ℕ, ◌≡◌, refl, true, false, none, some, List, [], ◌∷◌, ◌++◌, Bytes, All, ◌==◌, arith,
}
use mathlib.Core.List.{append_assoc}
use remotedev.Http.Chars.{is_tchar}
use remotedev.Http.Lists.{is_ws, skip_ows, take_token}
use remotedev.Http.Params.{
  param, no_param, param_next, param_at, after_semicolon, after_name, after_equals, skip_blank,
}

-- A parameter: a name, and a value that may be empty.
abbrev pub Pair : Type 0
Pair = Bytes × Bytes

abbrev pub print_value : Bytes → Bytes
print_value [] = []
print_value (c ∷ v) = b'=' ∷ c ∷ v

abbrev pub print_param : Bytes → Bytes → Bytes
print_param name value = b';' ∷ b' ' ∷ (name ++ print_value value)

abbrev pub print_params : List Pair → Bytes
print_params [] = []
print_params ((name, value) ∷ ps) = print_param name value ++ print_params ps

abbrev pub AreTchars : Bytes → Type 0
AreTchars = All (λ c. is_tchar c ≡ true)

abbrev pub IsToken : Bytes → Type 0
IsToken [] = ⊥
IsToken (c ∷ r) = (is_tchar c ≡ true) × AreTchars r

abbrev pub AreParams : List Pair → Type 0
AreParams = All (λ p. IsToken p.0 × AreTchars p.1)

-- What ends a token.
abbrev pub StopsToken : Bytes → Type 0
StopsToken [] = Unit
StopsToken (c ∷ _) = is_tchar c ≡ false

-- What may stand behind a parameter with this value.
abbrev pub Follows : Bytes → Bytes → Type 0
Follows value [] = Unit
Follows [] (c ∷ _) = c ≡ b';'
Follows (_ ∷ _) (c ∷ _) = is_tchar c ≡ false

pub tchar_not_ws : (c : ℕ) → is_tchar c ≡ true → is_ws c ≡ false
unfolding is_tchar
tchar_not_ws c h = ground arith

pub skip_blank_stops : (c : ℕ) (r : Bytes) → is_ws c ≡ false → skip_blank (c ∷ r) ≡ c ∷ r
unfolding skip_ows
skip_blank_stops c r h = rw h refl

pub skip_blank_nil : skip_blank [] ≡ []
unfolding skip_ows
skip_blank_nil = refl

skip_blank_space : (c : ℕ) (r : Bytes) → is_ws c ≡ false → skip_blank (b' ' ∷ c ∷ r) ≡ c ∷ r
unfolding skip_ows
skip_blank_space c r h = rw h refl

pub take_token-append :
    (t rest : Bytes) → AreTchars t → StopsToken rest → take_token (t ++ rest) ≡ (t, rest)
unfolding take_token
take_token-append [] [] a s = refl
take_token-append [] (c ∷ r) a s = rw s refl
take_token-append (c ∷ t) rest a s = rw (a.0, take_token-append t rest a.1 s) refl

after_equals_token :
    (name : Bytes) (c : ℕ) (v rest : Bytes)
    → is_tchar c ≡ true
    → AreTchars v
    → StopsToken rest
    → after_equals name (c ∷ (v ++ rest)) ≡ some (name, c ∷ v, rest)
unfolding after_equals
after_equals_token name c v rest h a s =
    let q : (c == b'"') ≡ false = unfold is_tchar in ground arith in
    rw (q, h, take_token-append v rest a s) refl

Follows-StopsToken : (c : ℕ) (v rest : Bytes) → Follows (c ∷ v) rest → StopsToken rest
Follows-StopsToken c v [] f = tt
Follows-StopsToken c v (x ∷ r) f = f

after_name-print_value :
    (name v rest : Bytes)
    → AreTchars v
    → Follows v rest
    → after_name name (skip_blank (print_value v ++ rest)) ≡ some (name, v, rest)
unfolding after_name
after_name-print_value name [] [] a f = rw skip_blank_nil refl
after_name-print_value name [] (c ∷ r) a f = rw (f, skip_blank_stops b';' r refl) refl
after_name-print_value name (c ∷ v) rest a f =
    rw
      (
        skip_blank_stops b'=' (c ∷ (v ++ rest)) refl,
        skip_blank_stops c (v ++ rest) (tchar_not_ws c a.0),
      )
      (after_equals_token name c v rest a.0 a.1 (Follows-StopsToken c v rest f))

value_stops : (v rest : Bytes) → Follows v rest → StopsToken (print_value v ++ rest)
unfolding is_tchar
value_stops [] [] f = tt
value_stops [] (c ∷ r) f = rw f refl
value_stops (c ∷ v) rest f = refl

pub param_next-print_param :
    (name v rest : Bytes)
    → IsToken name
    → AreTchars v
    → Follows v rest
    → param_next (print_param name v ++ rest) ≡ param name v rest
unfolding param_next param_at after_semicolon
param_next-print_param [] v rest n a f = absurd n
param_next-print_param (c ∷ t) v rest n a f =
    rw
      (
        append_assoc t (print_value v) rest,
        skip_blank_stops b';' (b' ' ∷ c ∷ (t ++ (print_value v ++ rest))) refl,
        skip_blank_space c (t ++ (print_value v ++ rest)) (tchar_not_ws c n.0),
        n.0,
        take_token-append t (print_value v ++ rest) n.1 (value_stops v rest f),
        after_name-print_value (c ∷ t) v rest a f,
      )
      refl

after_name_comma : (name r : Bytes) → after_name name (skip_blank (b',' ∷ r)) ≡ none
unfolding after_name
after_name_comma name r = rw (skip_blank_stops b',' r refl) refl

-- A parameter without a value is not read before a comma.
pub param_next_lost :
    (name r : Bytes)
    → IsToken name
    → let s = b';' ∷ b' ' ∷ (name ++ b',' ∷ r) in param_next s ≡ no_param s
unfolding param_next param_at after_semicolon
param_next_lost [] r n = absurd n
param_next_lost (c ∷ t) r n =
    rw
      (
        skip_blank_stops b';' (b' ' ∷ c ∷ (t ++ b',' ∷ r)) refl,
        skip_blank_space c (t ++ b',' ∷ r) (tchar_not_ws c n.0),
        n.0,
        take_token-append t (b',' ∷ r) n.1 (unfold is_tchar in refl),
        after_name_comma (c ∷ t) r,
      )
      refl
