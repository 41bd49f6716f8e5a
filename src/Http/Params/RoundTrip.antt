-- ===== src/Http/Params/RoundTrip.antt =====
-- Printed parameters and extensions are read back.
use mathlib.Core.List.{append_assoc, append-nil}
use remotedev.Base.{
  ℕ, zero, suc, ◌-◌, ◌<◌, ◌≤◌, ◌≡◌, refl, sym, ap, ◌∙◌, true, false, some, List, [], ◌∷◌, ◌++◌,
  Bytes, All, length, length-append, take-length_append, arith,
}
use remotedev.Http.Chars.{is_tchar}
use remotedev.Http.Params.{
  param, no_param, param_next, param_at, param_list, params_from, value_of, skip_params, ExtIter,
  ext, no_ext, ext_at, ext_next, exts_from, ext_list,
}
use remotedev.Http.Params.Print.{
  Pair, print_param, print_params, AreTchars, IsToken, AreParams, StopsToken, Follows, tchar_not_ws,
  skip_blank_stops, skip_blank_nil, take_token-append, param_next-print_param, param_next_lost,
}

-- What may stand behind parameters: nothing, or, where the last one has a value, a comma.
abbrev Behind : List Pair → Bytes → Type 0
Behind ps [] = Unit
Behind [] (c ∷ r) = c ≡ b','
Behind ((name, []) ∷ []) (c ∷ r) = ⊥
Behind ((name, _ ∷ _) ∷ []) (c ∷ r) = c ≡ b','
Behind (p ∷ q ∷ ps) (c ∷ r) = Behind (q ∷ ps) (c ∷ r)

Behind-tail : (p : Pair) (ps : List Pair) (rest : Bytes) → Behind (p ∷ ps) rest → Behind ps rest
Behind-tail p ps [] b = tt
Behind-tail (name, []) [] (c ∷ r) b = absurd b
Behind-tail (name, x ∷ v) [] (c ∷ r) b = b
Behind-tail p (q ∷ ps) (c ∷ r) b = b

Behind-Follows :
    (name v : Bytes) (ps : List Pair) (rest : Bytes)
    → Behind ((name, v) ∷ ps) rest
    → Follows v (print_params ps ++ rest)
unfolding is_tchar
Behind-Follows name v [] [] b = tt
Behind-Follows name [] [] (c ∷ r) b = absurd b
Behind-Follows name (x ∷ v) [] (c ∷ r) b = rw b refl
Behind-Follows name [] (q ∷ ps) rest b = refl
Behind-Follows name (x ∷ v) (q ∷ ps) rest b = refl

param_next_end : (rest : Bytes) → Behind [] rest → param_next rest ≡ no_param rest
unfolding param_next param_at
param_next_end [] b = rw skip_blank_nil refl
param_next_end (c ∷ r) b = rw (b, skip_blank_stops b',' r refl) refl

skip_params_step :
    (fuel : ℕ) (s : Bytes) {name v rest : Bytes}
    → param_next s ≡ param name v rest
    → skip_params (suc fuel) s ≡ skip_params fuel rest
unfolding skip_params
skip_params_step fuel s e = rw (e, skip_params) refl

skip_params-print_params :
    (fuel : ℕ) (ps : List Pair) (rest : Bytes)
    → length ps < fuel
    → AreParams ps
    → Behind ps rest
    → skip_params fuel (print_params ps ++ rest) ≡ rest
unfolding skip_params
skip_params-print_params zero ps rest h a b = absurd (omega arith)
skip_params-print_params (suc fuel) [] rest h a b = rw (param_next_end rest b, skip_params) refl
skip_params-print_params (suc fuel) ((name, v) ∷ ps) rest h a b =
    let e =
      ap param_next (append_assoc (print_param name v) (print_params ps) rest)
      ∙ param_next-print_param name v (print_params ps ++ rest) a.0.0 a.0.1
          (Behind-Follows name v ps rest b) in
    skip_params_step fuel (print_params ((name, v) ∷ ps) ++ rest) e
    ∙ skip_params-print_params fuel ps rest (omega arith) a.1 (Behind-tail (name, v) ps rest b)

value_of-AreTchars : (v : Bytes) → AreTchars v → value_of v ≡ some v
unfolding value_of is_tchar
value_of-AreTchars [] a = refl
value_of-AreTchars (c ∷ v) a = ground arith

params_from-print_params :
    (fuel : ℕ) (ps : List Pair)
    → length ps < fuel
    → AreParams ps
    → params_from fuel (print_params ps) ≡ some ps
unfolding params_from
params_from-print_params zero ps h a = absurd (omega arith)
params_from-print_params (suc fuel) [] h a = rw (param_next_end [] tt, params_from) refl
params_from-print_params (suc fuel) ((name, v) ∷ ps) h a =
    let f : Follows v (print_params ps ++ []) = Behind-Follows name v ps [] tt in
    let e = append-nil (print_params ps) in
    rw
      (
        param_next-print_param name v (print_params ps) a.0.0 a.0.1 (rw e at f),
        params_from,
        value_of-AreTchars v a.0.1,
        params_from-print_params fuel ps (omega arith) a.1,
      )
      refl

length-print_params : (ps : List Pair) → length ps ≤ length (print_params ps)
length-print_params [] = omega arith
length-print_params ((name, v) ∷ ps) =
    omega (arith, length-append (print_param name v) (print_params ps), length-print_params ps)

param_list-print_params : (ps : List Pair) → AreParams ps → param_list (print_params ps) ≡ some ps
unfolding param_list
param_list-print_params ps a =
    params_from-print_params (suc (length (print_params ps))) ps
      (omega (arith, length-print_params ps)) a

-- An extension, with the text of its parameters.
abbrev pub Extension : Type 0
Extension = Bytes × List Pair

abbrev print_ext : Extension → Bytes
print_ext (name, ps) = name ++ print_params ps

-- Extensions one after another, with a comma and a space between them.
abbrev pub print_exts : List Extension → Bytes
print_exts [] = []
print_exts (e ∷ []) = print_ext e
print_exts (e ∷ f ∷ es) = print_ext e ++ b',' ∷ b' ' ∷ print_exts (f ∷ es)

-- What is behind an extension.
abbrev pub more : List Extension → Bytes
more [] = []
more (e ∷ es) = b',' ∷ b' ' ∷ print_exts (e ∷ es)

-- Every name is a token, every value one or empty, and before a comma stands a value or the name
-- of an extension.
abbrev pub AreExtensions : List Extension → Type 0
AreExtensions [] = Unit
AreExtensions ((name, ps) ∷ es) =
    IsToken name × AreParams ps × Behind ps (more es) × AreExtensions es

print_params_stops :
    (ps : List Pair) (rest : Bytes) → Behind ps rest → StopsToken (print_params ps ++ rest)
unfolding is_tchar
print_params_stops [] [] b = tt
print_params_stops [] (c ∷ r) b = rw b refl
print_params_stops (p ∷ ps) rest b = refl

ext_at-print_params :
    (c : ℕ) (t : Bytes) (ps : List Pair) (rest : Bytes)
    → AreTchars t
    → AreParams ps
    → Behind ps rest
    → ext_at c (t ++ (print_params ps ++ rest)) ≡ ext (c ∷ t) (print_params ps) rest
unfolding ext_at
ext_at-print_params c t ps rest n a b =
    let text = print_params ps ++ rest in
    let l = length-append (print_params ps) rest in
    let k : length text - length rest ≡ length (print_params ps) = omega (arith, l) in
    rw
      (
        take_token-append t text n (print_params_stops ps rest b),
        skip_params-print_params (suc (length text)) ps rest
            (omega (arith, l, length-print_params ps)) a b,
        k,
        take-length_append (print_params ps) rest,
      )
      refl

ext_next-print_ext :
    (name : Bytes) (ps : List Pair) (rest : Bytes)
    → IsToken name
    → AreParams ps
    → Behind ps rest
    → ext_next false (name ++ (print_params ps ++ rest)) ≡ ext name (print_params ps) rest
unfolding ext_next
ext_next-print_ext [] ps rest n a b = absurd n
ext_next-print_ext (c ∷ t) ps rest n a b =
    rw (tchar_not_ws c n.0, n.0) (ext_at-print_params c t ps rest n.1 a b)

-- Behind an extension.
ext_next_comma : (s : Bytes) → ext_next true (b',' ∷ b' ' ∷ s) ≡ ext_next false s
unfolding ext_next is_tchar
ext_next_comma s = refl

print_exts-more :
    (e : Extension) (es : List Extension) → print_exts (e ∷ es) ≡ print_ext e ++ more es
print_exts-more e [] = sym (append-nil (print_ext e))
print_exts-more e (f ∷ es) = refl

abbrev pub texts : List Extension → List Pair
texts [] = []
texts ((name, ps) ∷ es) = (name, print_params ps) ∷ texts es

ext_next-print_exts :
    (name : Bytes) (ps : List Pair) (es : List Extension)
    → AreExtensions ((name, ps) ∷ es)
    → ext_next false (print_exts ((name, ps) ∷ es)) ≡ ext name (print_params ps) (more es)
ext_next-print_exts name ps es (n, a, b, _) =
    ap (ext_next false)
      (print_exts-more (name, ps) es ∙ append_assoc name (print_params ps) (more es))
    ∙ ext_next-print_ext name ps (more es) n a b

exts_from-print_exts :
    (fuel : ℕ) (es : List Extension)
    → length es < fuel
    → AreExtensions es
    → exts_from fuel (ext_next false (print_exts es)) ≡ texts es
unfolding exts_from
exts_from-print_exts zero es h a = absurd (omega arith)
exts_from-print_exts (suc fuel) [] h a = unfold ext_next in refl
exts_from-print_exts (suc zero) (e ∷ es) h a = absurd (omega arith)
exts_from-print_exts (suc (suc fuel)) ((name, ps) ∷ []) h a =
    rw (ext_next-print_exts name ps [] a) (unfold ext_next in refl)
exts_from-print_exts (suc (suc fuel)) ((name, ps) ∷ e ∷ es) h a =
    rw (ext_next-print_exts name ps (e ∷ es) a, ext_next_comma (print_exts (e ∷ es)))
      (ap (◌∷◌ (name, print_params ps))
        (exts_from-print_exts (suc fuel) (e ∷ es) (omega arith) a.3))

length-print_exts : (es : List Extension) → AreExtensions es → length es ≤ length (print_exts es)
length-print_exts [] a = omega arith
length-print_exts (([], ps) ∷ es) a = absurd a.0
length-print_exts ((c ∷ t, ps) ∷ []) a = omega arith
length-print_exts ((c ∷ t, ps) ∷ e ∷ es) a = omega (
  arith,
  length-append (print_ext (c ∷ t, ps)) (b',' ∷ b' ' ∷ print_exts (e ∷ es)),
  length-print_exts (e ∷ es) a.3,
)

lists_read :
    (es : List Extension)
    → AreExtensions es
    → All (λ e. param_list (print_params e.1) ≡ some e.1) es
lists_read [] a = tt
lists_read ((name, ps) ∷ es) a = (param_list-print_params ps a.1, lists_read es a.3)

-- The list of extensions in the text of any extensions is their names with the text of their
-- parameters, and the list of parameters in each text is those parameters. The text has a comma
-- and a space between extensions; the names are tokens, the values tokens or empty, and an
-- extension that another one is behind has no parameters or a value in its last one.
pub ext_list-print_exts :
    (es : List Extension)
    → AreExtensions es
    → (ext_list (print_exts es) ≡ texts es) × All (λ e. param_list (print_params e.1) ≡ some e.1) es
unfolding ext_list
ext_list-print_exts es a = (
  exts_from-print_exts (suc (length (print_exts es))) es (omega (arith, length-print_exts es a)) a,
  lists_read es a,
)

skip_params_none : (fuel : ℕ) (s : Bytes) → param_next s ≡ no_param s → skip_params (suc fuel) s ≡ s
unfolding skip_params
skip_params_none fuel s e = rw (e, skip_params) refl

ext_at_lost :
    (c : ℕ) (t s : Bytes)
    → AreTchars t
    → StopsToken s
    → param_next s ≡ no_param s
    → ext_at c (t ++ s) ≡ ext (c ∷ t) [] s
unfolding ext_at
ext_at_lost c t s n h e =
    let k : length s - length s ≡ 0 = omega arith in
    rw (take_token-append t s n h, skip_params_none (length s) s e, k) refl

no_more : (fuel : ℕ) {e : ExtIter} {p : Pair} → e ≡ no_ext → p ∷ exts_from fuel e ≡ p ∷ []
unfolding exts_from
no_more zero h = refl
no_more (suc fuel) h = rw h refl

ext_next_lost :
    (name s : Bytes)
    → IsToken name
    → StopsToken s
    → param_next s ≡ no_param s
    → ext_next false (name ++ s) ≡ ext name [] s
unfolding ext_next
ext_next_lost [] s n h e = absurd n
ext_next_lost (c ∷ t) s n h e = rw (tchar_not_ws c n.0, n.0) (ext_at_lost c t s n.1 h e)

-- A parameter without a value is lost before a comma, and so is all behind it, although the grammar
-- in the code allows it: with names that are tokens, the extension is listed with no parameters,
-- and the list ends there.
pub ext_list_lost :
    (name last r : Bytes)
    → IsToken name
    → IsToken last
    → ext_list (name ++ (b';' ∷ b' ' ∷ (last ++ b',' ∷ r))) ≡ (name, []) ∷ []
unfolding ext_list exts_from is_tchar
ext_list_lost name last r n l =
    let s = b';' ∷ b' ' ∷ (last ++ b',' ∷ r) in
    let next : ext_next true s ≡ no_ext = unfold ext_next in refl in
    rw (ext_next_lost name s n refl (param_next_lost last r l)) (no_more _ next)
