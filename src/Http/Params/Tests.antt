-- ===== src/Http/Params/Tests.antt =====
-- Extensions such as WebSocket clients send.
use remotedev.Base.{◌≡◌, refl, some, List, [], ◌∷◌, ◌++◌, Bytes, All, arith}
use remotedev.Base.Int.{codes}
use remotedev.Http.Chars.{is_tchar}
use remotedev.Http.Lists.{skip_ows, take_token}
use remotedev.Http.Params.{is_qdchar, is_qpchar, param_list, params_from, ext_list}
use remotedev.Http.Params.Print.{print_params}
use remotedev.Http.Params.RoundTrip.{
  Extension, print_exts, texts, AreExtensions, ext_list-print_exts, ext_list_lost,
}
use remotedev.Http.Params.Defined.{param_list_ends}

abbrev extensions : List Extension
extensions =
    (codes "foo", (codes "a", codes "b") ∷ (codes "c", codes "1") ∷ [])
    ∷ (codes "bar", (codes "x", []) ∷ [])
    ∷ []

extensions_are : AreExtensions extensions
unfolding is_tchar
extensions_are = ground arith

ext_list-print_exts_example :
    (ext_list (print_exts extensions) ≡ texts extensions)
    × All (λ e. param_list (print_params e.1) ≡ some e.1) extensions
ext_list-print_exts_example = ext_list-print_exts extensions extensions_are

-- A quoted string with an escaped quote.
abbrev quoted_param : Bytes
quoted_param = codes ";a=" ++ b'"' ∷ b'b' ∷ b'\\' ∷ b'"' ∷ b'"' ∷ []

quoted_param_read : param_list quoted_param ≡ some ((codes "a", b'b' ∷ b'"' ∷ []) ∷ [])
unfolding param_list skip_ows take_token is_tchar is_qdchar is_qpchar
quoted_param_read = refl

param_list_ends_example :
    (ps : List (Bytes × Bytes)) × (param_list quoted_param ≡ some ps)
    × (params_from 20 quoted_param ≡ some ps)
param_list_ends_example = param_list_ends quoted_param 20 (omega arith)

ext_list_lost_example :
    ext_list (codes "foo" ++ (codes "; " ++ (codes "x" ++ codes ", bar"))) ≡ (codes "foo", []) ∷ []
unfolding is_tchar
ext_list_lost_example =
    ext_list_lost (codes "foo") (codes "x") (codes " bar") (ground arith) (ground arith)
