-- ===== src/Websocket/Pmd/Text.antt =====
-- The texts that `pmd_write` and `pmd_negotiate` build, as an extension with its parameters, and
-- what `pmd_read` makes of them.
use mathlib.Core.List.{append_assoc, append-nil}
use remotedev.Base.{
  ℕ, zero, suc, ◌≤◌, ◌≡◌, refl, sym, ap, ◌∙◌, Bool, true, false, not, ◌||◌, some, List, [], ◌∷◌,
  ◌++◌, Bytes, if◌then◌else◌, arith,
}
use remotedev.Base.Int.{ℤ, pos, negsuc, int_lt, int_eq, codes, to_string}
use remotedev.Core.CiEqual.{ci_equal}
use remotedev.Http.Chars.{is_tchar}
use remotedev.Http.Params.Print.{
  Pair, print_value, print_param, print_params, AreTchars, IsToken, AreParams,
}
use remotedev.Http.Params.RoundTrip.{ext_list-print_exts}
use remotedev.Websocket.Pmd.{
  PmdOffer, is_empty, read_param, read_params, read_exts, no_offer, pmd_read, append_if,
}
use remotedev.Websocket.Pmd.Bits.{parse_bits-to_string}

-- Window bits as an endpoint may state them: from 8 to 15, or 0 for none.
abbrev pub IsServerBits : ℤ → Type 0
IsServerBits (pos zero) = Unit
IsServerBits (pos (suc n)) = (8 ≤ suc n) × (suc n ≤ 15)
IsServerBits (negsuc n) = ⊥

-- The same, or -1 for a parameter without a value.
abbrev pub IsClientBits : ℤ → Type 0
IsClientBits (pos zero) = Unit
IsClientBits (pos (suc n)) = (8 ≤ suc n) × (suc n ≤ 15)
IsClientBits (negsuc n) = n ≡ 0

abbrev pub bits_part : Bytes → ℤ → List Pair
bits_part name (pos zero) = []
bits_part name (pos (suc n)) = (name, to_string (pos (suc n))) ∷ []
bits_part name (negsuc n) = (name, []) ∷ []

abbrev pub flag_part : Bytes → Bool → List Pair
flag_part name b = if b then (name, []) ∷ [] else []

-- The code that appends window bits.
abbrev pub bits_text : Bytes → Bytes → ℤ → Bytes
bits_text name s v =
    if not (int_eq v (pos 0))
    then (if not (int_eq v (negsuc 0))
        then (s ++ (b';' ∷ b' ' ∷ (name ++ b'=' ∷ []))) ++ to_string v
        else s ++ (b';' ∷ b' ' ∷ name))
    else s

print_value-IsToken : (t : Bytes) → IsToken t → print_value t ≡ b'=' ∷ t
print_value-IsToken [] h = absurd h
print_value-IsToken (c ∷ r) h = refl

bits_valued :
    (name s t : Bytes)
    → IsToken t
    → (s ++ (b';' ∷ b' ' ∷ (name ++ b'=' ∷ []))) ++ t ≡ s ++ print_params ((name, t) ∷ [])
bits_valued name s t h = rw (print_value-IsToken t h) (simp (append_assoc, append-nil))

pub bits_text-print_params :
    (name s : Bytes) (v : ℤ)
    → IsClientBits v
    → bits_text name s v ≡ s ++ print_params (bits_part name v)
bits_text-print_params name s (pos zero) h = sym (append-nil s)
bits_text-print_params name s (pos (suc n)) h =
    let set : int_eq (pos (suc n)) (pos 0) ≡ false = ground arith in
    rw set (
      bits_valued name s (to_string (pos (suc n)))
        (parse_bits-to_string (suc n) (omega arith) (omega arith)).1)
bits_text-print_params name s (negsuc n) h = rw h (simp append-nil)

pub append_if-print_params :
    (name s : Bytes) (b : Bool)
    → append_if b (b';' ∷ b' ' ∷ name) s ≡ s ++ print_params (flag_part name b)
append_if-print_params name s true = simp append-nil
append_if-print_params name s false = sym (append-nil s)

pub print_params-append :
    (ps qs : List Pair) → print_params (ps ++ qs) ≡ print_params ps ++ print_params qs
print_params-append [] qs = refl
print_params-append ((name, v) ∷ ps) qs =
    ap (λ (t : Bytes). print_param name v ++ t) (print_params-append ps qs)
    ∙ sym (append_assoc (print_param name v) (print_params ps) (print_params qs))

-- The offer that a stream states, before its end is read.
abbrev pub stated : ℤ → ℤ → Bool → Bool → PmdOffer
stated server client server_takeover client_takeover = record {
  accept = false;
  server_max_window_bits = server;
  client_max_window_bits = client;
  server_no_context_takeover = server_takeover;
  client_no_context_takeover = client_takeover;
}

-- Reading parameters takes one offer to another, whatever follows.
abbrev pub Reads : PmdOffer → List Pair → PmdOffer → Type 0
Reads o ps o' = (qs : List Pair) → read_params o (ps ++ qs) ≡ read_params o' qs

pub Reads-append :
    (a b c : PmdOffer) (ps qs : List Pair) → Reads a ps b → Reads b qs c → Reads a (ps ++ qs) c
Reads-append a b c ps qs h k rest =
    ap (read_params a) (append_assoc ps qs rest) ∙ h (qs ++ rest) ∙ k rest

bits_read :
    (n : ℕ)
    → 8 ≤ suc n
    → suc n ≤ 15
    → not (int_lt (pos (suc n)) (pos 8) || int_lt (pos 15) (pos (suc n))) ≡ true
bits_read n h k = ground arith

not_empty : (t : Bytes) → IsToken t → is_empty t ≡ false
not_empty [] h = absurd h
not_empty (c ∷ r) h = refl

pub server_bits-Reads :
    (v c : ℤ) (st ct : Bool)
    → IsServerBits v
    → Reads
        (stated (pos 0) c st ct)
        (bits_part (codes "server_max_window_bits") v)
        (stated v c st ct)
unfolding read_params read_param ci_equal
server_bits-Reads (pos zero) c st ct h qs = refl
server_bits-Reads (pos (suc n)) c st ct h qs =
    let (e, t) = parse_bits-to_string (suc n) (omega arith) (omega arith) in
    rw (not_empty (to_string (pos (suc n))) t, e, bits_read n h.0 h.1) refl
server_bits-Reads (negsuc n) c st ct h qs = absurd h

pub client_bits-Reads :
    (s v : ℤ) (st ct : Bool)
    → IsClientBits v
    → Reads
        (stated s (pos 0) st ct)
        (bits_part (codes "client_max_window_bits") v)
        (stated s v st ct)
unfolding read_params read_param ci_equal
client_bits-Reads s (pos zero) st ct h qs = refl
client_bits-Reads s (pos (suc n)) st ct h qs =
    let (e, t) = parse_bits-to_string (suc n) (omega arith) (omega arith) in
    rw (not_empty (to_string (pos (suc n))) t, e, bits_read n h.0 h.1) refl
client_bits-Reads s (negsuc n) st ct h qs = rw h refl

pub server_takeover-Reads :
    (s c : ℤ) (b ct : Bool)
    → Reads
        (stated s c false ct)
        (flag_part (codes "server_no_context_takeover") b)
        (stated s c b ct)
unfolding read_params read_param ci_equal
server_takeover-Reads s c true ct qs = refl
server_takeover-Reads s c false ct qs = refl

pub client_takeover-Reads :
    (s c : ℤ) (st b : Bool)
    → Reads
        (stated s c st false)
        (flag_part (codes "client_no_context_takeover") b)
        (stated s c st b)
unfolding read_params read_param ci_equal
client_takeover-Reads s c st true qs = refl
client_takeover-Reads s c st false qs = refl

IsToken-AreTchars : (t : Bytes) → IsToken t → AreTchars t
IsToken-AreTchars [] h = absurd h
IsToken-AreTchars (c ∷ r) h = h

pub bits_part-AreParams :
    (name : Bytes) (v : ℤ) → IsToken name → IsClientBits v → AreParams (bits_part name v)
bits_part-AreParams name (pos zero) t h = tt
bits_part-AreParams name (pos (suc n)) t h =
    let d = (parse_bits-to_string (suc n) (omega arith) (omega arith)).1 in
    ((t, IsToken-AreTchars (to_string (pos (suc n))) d), tt)
bits_part-AreParams name (negsuc n) t h = ((t, tt), tt)

pub flag_part-AreParams : (name : Bytes) (b : Bool) → IsToken name → AreParams (flag_part name b)
flag_part-AreParams name true t = ((t, tt), tt)
flag_part-AreParams name false t = tt

pub IsServerBits-IsClientBits : (v : ℤ) → IsServerBits v → IsClientBits v
IsServerBits-IsClientBits (pos zero) h = h
IsServerBits-IsClientBits (pos (suc n)) h = h
IsServerBits-IsClientBits (negsuc n) h = absurd h

-- What is read of the extension with any parameters.
pub pmd_read-Reads :
    (ps : List Pair) (o : PmdOffer)
    → AreParams ps
    → Reads no_offer ps o
    → pmd_read (codes "permessage-deflate" ++ print_params ps) ≡ some (record o { accept = true })
unfolding pmd_read read_exts read_params ci_equal is_tchar
pmd_read-Reads ps o a r =
    let (e, l) =
      ext_list-print_exts ((codes "permessage-deflate", ps) ∷ []) (ground arith, a, tt, tt) in
    rw (e, l.0) (ap some (ap (read_params no_offer) (sym (append-nil ps)) ∙ r []))
