-- ===== src/Websocket/Pmd/Valid.antt =====
-- What an accepted offer and the options of a stream hold.
use remotedev.Base.{
  zero, suc, ◌≡◌, refl, subst, Bool, true, false, not, ◌||◌, ◌>>=◌, Option, none, some, List, [],
  ◌∷◌, Bytes, both_branches, arith,
}
use remotedev.Base.Int.{ℤ, pos, negsuc, int_lt, int_eq, codes}
use remotedev.Core.CiEqual.{ci_equal}
use remotedev.Http.Params.{ext_list, param_list}
use remotedev.Websocket.Pmd.{
  PmdOffer, parse_bits, is_empty, read_param, read_params, read_exts, no_offer, pmd_read,
}
use remotedev.Websocket.Pmd.Text.{IsServerBits, IsClientBits, IsServerBits-IsClientBits}

abbrev pub IsValidOffer : PmdOffer → Type 0
IsValidOffer o = IsServerBits o.server_max_window_bits × IsClientBits o.client_max_window_bits

-- A parameter leaves a valid offer where the loop goes on, and accepts nothing.
abbrev IsReadOn : PmdOffer × Bool → Type 0
IsReadOn (o, go_on) = (go_on ≡ true → IsValidOffer o) × (o.accept ≡ false)

bits-IsServerBits : (v : ℤ) → not (int_lt v (pos 8) || int_lt (pos 15) v) ≡ true → IsServerBits v
bits-IsServerBits (pos zero) h = tt
bits-IsServerBits (pos (suc n)) h = ground arith
bits-IsServerBits (negsuc n) h = absurd (cc)

read_param-IsReadOn :
    (o : PmdOffer) (name value : Bytes)
    → IsValidOffer o
    → o.accept ≡ false
    → IsReadOn (read_param o name value)
unfolding read_param
read_param-IsReadOn o name value v a =
    let stop : IsReadOn (o, false) = (λ h. absurd (cc), a) in
    both_branches IsReadOn (ci_equal name (codes "server_max_window_bits")) _ _
      (λ _.
        both_branches IsReadOn (not (int_eq o.server_max_window_bits (pos 0))) _ _ (λ _. stop)
          λ _.
            both_branches IsReadOn (is_empty value) _ _ (λ _. stop)
              λ _. (λ h. (bits-IsServerBits (parse_bits value) h, v.1), a))
      λ _.
        both_branches IsReadOn (ci_equal name (codes "client_max_window_bits")) _ _
          (λ _.
            both_branches IsReadOn (not (int_eq o.client_max_window_bits (pos 0))) _ _ (λ _. stop)
              λ _.
                both_branches IsReadOn (not (is_empty value)) _ _
                  (λ _. (
                    λ h. (
                      v.0,
                      IsServerBits-IsClientBits (parse_bits value)
                          (bits-IsServerBits (parse_bits value) h),
                    ),
                    a,
                  ))
                  λ _. (λ h. (v.0, refl), a))
          λ _.
            both_branches IsReadOn (ci_equal name (codes "server_no_context_takeover")) _ _
              (λ _.
                both_branches IsReadOn o.server_no_context_takeover _ _ (λ _. stop)
                  λ _.
                    both_branches IsReadOn (not (is_empty value)) _ _ (λ _. stop) λ _. (λ h. v, a))
              λ _.
                both_branches IsReadOn (ci_equal name (codes "client_no_context_takeover")) _ _
                  (λ _.
                    both_branches IsReadOn o.client_no_context_takeover _ _ (λ _. stop)
                      λ _.
                        both_branches IsReadOn (not (is_empty value)) _ _ (λ _. stop)
                          λ _. (λ h. v, a))
                  λ _. stop

-- An accepted offer is valid.
abbrev IsSoundOffer : PmdOffer → Type 0
IsSoundOffer o = o.accept ≡ true → IsValidOffer o

read_params-IsSoundOffer :
    (o : PmdOffer) (ps : List (Bytes × Bytes))
    → IsValidOffer o
    → o.accept ≡ false
    → IsSoundOffer (read_params o ps)
unfolding read_params
read_params-IsSoundOffer o [] v a = λ _. v
read_params-IsSoundOffer o ((name, value) ∷ ps) v a =
    let (on, refused) = read_param-IsReadOn o name value v a in
    both_branches IsSoundOffer (read_param o name value).1 _ _
      (λ h. read_params-IsSoundOffer (read_param o name value).0 ps (on h) refused)
      λ _ h. absurd (cc)

abbrev IsSoundResult : Option PmdOffer → Type 0
IsSoundResult none = Unit
IsSoundResult (some o) = IsSoundOffer o

params-IsSoundResult :
    (m : Option (List (Bytes × Bytes))) → IsSoundResult (do ps ← m; some (read_params no_offer ps))
params-IsSoundResult none = tt
params-IsSoundResult (some ps) = read_params-IsSoundOffer no_offer ps (tt, tt) refl

read_exts-IsSoundResult : (es : List (Bytes × Bytes)) → IsSoundResult (read_exts es)
unfolding read_exts
read_exts-IsSoundResult [] = λ h. absurd (cc)
read_exts-IsSoundResult ((name, params) ∷ es) =
    both_branches IsSoundResult (ci_equal name (codes "permessage-deflate")) _ _
      (λ _. params-IsSoundResult (param_list params)) λ _. read_exts-IsSoundResult es

-- Whatever the field holds, an offer that `pmd_read` accepts has window bits of the server from 8
-- to 15, or 0, and of the client from 8 to 15, or 0, or -1.
pub pmd_read-IsValidOffer :
    (fields : Bytes) (o : PmdOffer) → pmd_read fields ≡ some o → o.accept ≡ true → IsValidOffer o
unfolding pmd_read
pmd_read-IsValidOffer fields o h a =
    (subst IsSoundResult h (read_exts-IsSoundResult (ext_list fields))) a
