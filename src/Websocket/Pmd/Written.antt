-- ===== src/Websocket/Pmd/Written.antt =====
-- Texts of permessage-deflate, with the offer that is read from them.
use mathlib.Core.List.{append_assoc, append-nil}
use remotedev.Base.{
  ◌≡◌, refl, sym, ap, ◌∙◌, Bool, true, false, some, List, [], ◌++◌, Bytes, All-append, arith,
}
use remotedev.Base.Int.{ℤ, pos, codes}
use remotedev.Http.Chars.{is_tchar}
use remotedev.Http.Params.Print.{Pair, print_params, IsToken, AreParams, AreTchars}
use remotedev.Websocket.Pmd.{PmdOffer, no_offer, pmd_read, append_if}
use remotedev.Websocket.Pmd.Text.{
  IsServerBits, IsClientBits, bits_part, flag_part, bits_text, bits_text-print_params,
  append_if-print_params, print_params-append, stated, server_bits-Reads, client_bits-Reads,
  server_takeover-Reads, client_takeover-Reads, bits_part-AreParams, flag_part-AreParams,
  IsServerBits-IsClientBits, pmd_read-Reads, Reads, Reads-append,
}

-- The four names are tokens.
abbrev pub server_bits_name : Bytes
server_bits_name = codes "server_max_window_bits"

abbrev pub client_bits_name : Bytes
client_bits_name = codes "client_max_window_bits"

abbrev server_takeover_name : Bytes
server_takeover_name = codes "server_no_context_takeover"

abbrev client_takeover_name : Bytes
client_takeover_name = codes "client_no_context_takeover"

names_are_tokens :
    IsToken server_bits_name
    × IsToken client_bits_name
    × IsToken server_takeover_name
    × IsToken client_takeover_name
unfolding is_tchar
names_are_tokens = (ground arith, ground arith, ground arith, ground arith)

AreParams-append : (ps qs : List Pair) → AreParams ps → AreParams qs → AreParams (ps ++ qs)
AreParams-append ps qs a b = All-append (λ p. IsToken p.0 × AreTchars p.1) ps qs a b

-- Text that is followed by parameters.
more_params :
    (s t : Bytes) (ps qs : List Pair)
    → s ≡ t ++ print_params ps
    → s ++ print_params qs ≡ t ++ print_params (ps ++ qs)
more_params s t ps qs e =
    ap (λ (x : Bytes). x ++ print_params qs) e
    ∙ append_assoc t (print_params ps) (print_params qs)
    ∙ ap (λ (x : Bytes). t ++ x) (sym (print_params-append ps qs))

abbrev extension_name : Bytes
extension_name = codes "permessage-deflate"

-- A text whose parameters are read as an offer.
pub record IsWritten (s : Bytes) (o : PmdOffer) : Type 0 where
  params : List Pair
  is_text : s ≡ extension_name ++ print_params params
  are_params : AreParams params
  reads : Reads no_offer params o

pub name-IsWritten : IsWritten extension_name no_offer
name-IsWritten = record {
  params = [];
  is_text = sym (append-nil extension_name);
  are_params = tt;
  reads = λ qs. refl;
}

add_part :
    {s : Bytes} {o : PmdOffer} (s' : Bytes) (ps : List Pair) (o' : PmdOffer)
    → IsWritten s o
    → s' ≡ s ++ print_params ps
    → AreParams ps
    → Reads o ps o'
    → IsWritten s' o'
add_part {s} {o} s' ps o' w e a r = record {
  params = w.params ++ ps;
  is_text = e ∙ more_params s extension_name w.params ps w.is_text;
  are_params = AreParams-append w.params ps w.are_params a;
  reads = Reads-append no_offer o o' w.params ps w.reads r;
}

pub server_bits-IsWritten :
    (s : Bytes) (v c : ℤ) (x y : Bool)
    → IsServerBits v
    → IsWritten s (stated (pos 0) c x y)
    → IsWritten (bits_text server_bits_name s v) (stated v c x y)
server_bits-IsWritten s v c x y h w =
    let h' = IsServerBits-IsClientBits v h in
    add_part (bits_text server_bits_name s v) (bits_part server_bits_name v) (stated v c x y) w
      (bits_text-print_params server_bits_name s v h')
      (bits_part-AreParams server_bits_name v names_are_tokens.0 h') (server_bits-Reads v c x y h)

pub client_bits-IsWritten :
    (s : Bytes) (v c : ℤ) (x y : Bool)
    → IsClientBits c
    → IsWritten s (stated v (pos 0) x y)
    → IsWritten (bits_text client_bits_name s c) (stated v c x y)
client_bits-IsWritten s v c x y h w =
    add_part (bits_text client_bits_name s c) (bits_part client_bits_name c) (stated v c x y) w
      (bits_text-print_params client_bits_name s c h)
      (bits_part-AreParams client_bits_name c names_are_tokens.1 h) (client_bits-Reads v c x y h)

pub server_takeover-IsWritten :
    (s : Bytes) (v c : ℤ) (x y : Bool)
    → IsWritten s (stated v c false y)
    → IsWritten (append_if x (codes "; server_no_context_takeover") s) (stated v c x y)
server_takeover-IsWritten s v c x y w =
    add_part (append_if x (codes "; server_no_context_takeover") s)
      (flag_part server_takeover_name x) (stated v c x y) w
      (append_if-print_params server_takeover_name s x)
      (flag_part-AreParams server_takeover_name x names_are_tokens.2)
      (server_takeover-Reads v c x y)

pub client_takeover-IsWritten :
    (s : Bytes) (v c : ℤ) (x y : Bool)
    → IsWritten s (stated v c x false)
    → IsWritten (append_if y (codes "; client_no_context_takeover") s) (stated v c x y)
client_takeover-IsWritten s v c x y w =
    add_part (append_if y (codes "; client_no_context_takeover") s)
      (flag_part client_takeover_name y) (stated v c x y) w
      (append_if-print_params client_takeover_name s y)
      (flag_part-AreParams client_takeover_name y names_are_tokens.3)
      (client_takeover-Reads v c x y)

pub pmd_read-IsWritten :
    {s : Bytes} {o : PmdOffer} → IsWritten s o → pmd_read s ≡ some (record o { accept = true })
pmd_read-IsWritten {s} {o} w =
    ap pmd_read w.is_text ∙ pmd_read-Reads w.params o w.are_params w.reads
