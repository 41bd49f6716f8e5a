-- ===== src/Http/Params.antt =====
-- include/beast/http/detail/rfc7230.hpp (param_iter) and impl/rfc7230.ipp (param_list, ext_list):
-- the parameters of an extension, and the extensions in a field. A view is the list of its
-- characters, and an iterator is what is behind it.
pub mod Print
pub mod RoundTrip
pub mod Defined
mod Tests
use remotedev.Base.{
  ℕ, zero, suc, ◌-◌, Bool, true, false, not, ◌&&◌, ◌||◌, Option, none, some, ◌>>=◌, List, [], ◌∷◌,
  Bytes, length, take, leb, ◌==◌, if◌then◌else◌,
}
use remotedev.Http.Chars.{is_tchar}
use remotedev.Http.Lists.{is_ws, skip_ows, take_token}

pub is_qdchar : ℕ → Bool
is_qdchar c =
    c == 9
    || leb 32 c && leb c 33
    || leb 35 c && leb c 91
    || leb 93 c && leb c 126
    || leb 128 c && leb c 255

pub is_qpchar : ℕ → Bool
is_qpchar c = c == 9 || leb 32 c && leb c 126 || leb 128 c && leb c 255

-- `skip_ows` to the end of the view.
abbrev pub skip_blank : Bytes → Bytes
skip_blank s = skip_ows (length s) s

-- A quoted string behind its first quote: the rest of it with the quote that ends it, and what is
-- behind. `escaped` says that the character before was a backslash.
pub quoted : Bool → Bytes → Option (Bytes × Bytes)
quoted escaped [] = none
quoted true (c ∷ r) = if is_qpchar c then (do p ← quoted false r; some (c ∷ p.0, p.1)) else none
quoted false (c ∷ r) =
    let plain = quoted false r in
    let pair = quoted true r in
    if c == b'"'
    then some (c ∷ [], r)
    else if is_qdchar c
    then (do p ← plain; some (c ∷ p.0, p.1))
    else if not (c == b'\\')
    then none
    else (do p ← pair; some (c ∷ p.0, p.1))

-- A name, a value and what is behind them; none is the code's `err()`.
abbrev pub Parts : Type 0
Parts = Option (Bytes × Bytes × Bytes)

pub after_equals : Bytes → Bytes → Parts
unfolding quoted
after_equals name [] = some (name, [], [])
after_equals name (c ∷ r) =
    if c == b'"'
    then (do p ← quoted false r; some (name, c ∷ p.0, p.1))
    else if not (is_tchar c)
    then none
    else (let (t, rest) = take_token r in some (name, c ∷ t, rest))

pub after_name : Bytes → Bytes → Parts
unfolding after_equals
after_name name [] = some (name, [], [])
after_name name (c ∷ r) =
    if c == b';'
    then some (name, [], c ∷ r)
    else if not (c == b'=')
    then none
    else after_equals name (skip_blank r)

pub after_semicolon : Bytes → Parts
unfolding after_name
after_semicolon [] = none
after_semicolon (c ∷ r) =
    if not (is_tchar c)
    then none
    else (let (t, rest) = take_token r in after_name (c ∷ t) (skip_blank rest))

-- A step of `param_iter`: a parameter and what is behind it, or what is behind the white space
-- where there is none.
pub data ParamIter : Type 0 where
  param : Bytes → Bytes → Bytes → ParamIter
  no_param : Bytes → ParamIter

abbrev pub param_or : Bytes → Parts → ParamIter
param_or first none = no_param first
param_or first (some (name, value, rest)) = param name value rest

pub param_at : Bytes → ParamIter
unfolding after_semicolon
param_at [] = no_param []
param_at (c ∷ r) =
    if not (c == b';') then no_param (c ∷ r) else param_or (c ∷ r) (after_semicolon (skip_blank r))

-- `param_iter::increment`
pub param_next : Bytes → ParamIter
unfolding param_at
param_next s = param_at (skip_blank s)

-- The loop of `unquote` behind the first quote; none is a read past the quote at the end.
pub unquote : Bytes → Option Bytes
unquote [] = none
unquote (x ∷ []) = some []
unquote (x ∷ y ∷ r) =
    let escaped = unquote r in
    let plain = unquote (y ∷ r) in
    if x == b'\\' then (do s ← escaped; some (y ∷ s)) else (do s ← plain; some (x ∷ s))

pub value_of : Bytes → Option Bytes
unfolding unquote
value_of [] = some []
value_of (c ∷ r) = if c == b'"' then unquote r else some (c ∷ r)

-- The parameters of an iteration. A step takes a character at least, so as much fuel as there are
-- characters is enough.
pub params_from : ℕ → Bytes → Option (List (Bytes × Bytes))
unfolding value_of param_next
params_from zero s = some []
params_from (suc fuel) s = elim (param_next s) [
  | no_param _ ↦ some []
  | param name value rest ↦ do v ← value_of value; ps ← params_from fuel rest; some ((name, v) ∷ ps)
]

-- `param_list`
pub param_list : Bytes → Option (List (Bytes × Bytes))
unfolding params_from
param_list s = params_from (suc (length s)) s

-- What the loop over `param_iter` in `ext_list` leaves.
pub skip_params : ℕ → Bytes → Bytes
unfolding param_next
skip_params zero s = s
skip_params (suc fuel) s = elim (param_next s) [
  | no_param rest ↦ rest
  | param _ _ rest ↦ skip_params fuel rest
]

-- A step of the iterator of `ext_list`: a name, the text of its parameters and what is behind
-- them, or the end, which an error is as well.
pub data ExtIter : Type 0 where
  ext : Bytes → Bytes → Bytes → ExtIter
  no_ext : ExtIter

pub ext_at : ℕ → Bytes → ExtIter
unfolding skip_params
ext_at c r =
    let (t, rest) = take_token r in
    let behind = skip_params (suc (length rest)) rest in
    ext (c ∷ t) (take (length rest - length behind) rest) behind

-- `ext_list::const_iterator::increment`
pub ext_next : Bool → Bytes → ExtIter
unfolding ext_at
ext_next need_comma [] = no_ext
ext_next need_comma (c ∷ r) =
    let skipped = ext_next need_comma r in
    let comma = ext_next false r in
    if is_ws c
    then skipped
    else if is_tchar c
    then (if need_comma then no_ext else ext_at c r)
    else if c == b','
    then comma
    else no_ext

pub exts_from : ℕ → ExtIter → List (Bytes × Bytes)
unfolding ext_next
exts_from zero _ = []
exts_from (suc fuel) no_ext = []
exts_from (suc fuel) (ext name params rest) = (name, params) ∷ exts_from fuel (ext_next true rest)

-- `ext_list`: the name of each extension and the text of its parameters.
pub ext_list : Bytes → List (Bytes × Bytes)
unfolding exts_from
ext_list s = exts_from (suc (length s)) (ext_next false s)
