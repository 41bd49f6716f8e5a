-- ===== src/Websocket/Close.antt =====
-- include/beast/websocket/rfc6455.hpp (close_reason), detail/frame.hpp (read of a close_reason) and
-- detail/stream_base.hpp (write_close). The addresses are those of the octets in the dynamic buffer.
mod Tests
use mathlib.Core.List.{append-nil}
use remotedev.Base.{
  ℕ, ◌+◌, ◌/◌, ◌%◌, ◌^◌, ◌≤◌, ◌<◌, ◌≡◌, subst, All-append, drop, drop-length_append, if_true,
  if_false, not, true, false, Option, some, none, List, [], ◌∷◌, ◌++◌, Bytes, AreOctets, All,
  flatten, length, leb, ◌==◌, if◌then◌else◌, refl, sym, ap, ◌∙◌, arith,
}
use remotedev.Websocket.Opcode.{
  close, no_code, protocol_error, is_valid_close_code, IsSendable, is_valid_close_code_iff,
}
use remotedev.Websocket.Endian.{BigEndian, big_uint16_to_native, big16_put}
use remotedev.Websocket.StreamBase.{Role, client, server, is_client}
use remotedev.Websocket.Frame.{FrameHeader, write}
use remotedev.Websocket.Mask.Rotation.{octets}
use remotedev.Websocket.Mask.{mask_inplace, prepare_key32, prepare_key64}
use remotedev.Websocket.Mask.RoundTrip.{mask_inplace_unmask}
use remotedev.Websocket.Utf8.{check_utf8}
use remotedev.Websocket.Utf8.Text.{ArePoints}
use remotedev.Websocket.Utf8.Buffers.{write_buffers-ArePoints}

pub record CloseReason : Type 0 where
  pub code : ℕ
  pub reason : Bytes

-- What follows the close code.
read_reason : CloseReason → Bytes → CloseReason × ℕ
read_reason cr [] = (record cr { reason = [] }, no_code)
read_reason cr (x ∷ r) =
    (record cr { reason = x ∷ r }, if not (check_utf8 (x ∷ r)) then protocol_error else no_code)

read_close_octets : CloseReason → Bytes → CloseReason × ℕ
read_close_octets cr [] = (record { code = no_code; reason = [] }, no_code)
read_close_octets cr (_ ∷ []) = (cr, protocol_error)
read_close_octets cr (a ∷ b ∷ r) =
    let cr' = record cr { code = big_uint16_to_native a b } in
    if not (is_valid_close_code cr'.code) then (cr', protocol_error) else read_reason cr' r

-- `read` of a close_reason: the object and the close code; none is the failed BOOST_ASSERT.
pub read_close : CloseReason → List Bytes → Option (CloseReason × ℕ)
read_close cr bs =
    if leb (length (flatten bs)) 125 then some (read_close_octets cr (flatten bs)) else none

pub close_header : Role → ℕ → CloseReason → FrameHeader
close_header role key cr = record {
  op = close;
  fin = true;
  mask = is_client role;
  rsv1 = false;
  rsv2 = false;
  rsv3 = false;
  len = if cr.code == no_code then 0 else 2 + length cr.reason;
  key = key;
}

-- The buffers that `prepare` gives, with the octets copied to them.
pub close_pieces : ℕ → ℕ → Bytes → Bytes → List (ℕ × Bytes)
close_pieces addr1 addr2 b [] = (addr1, b) ∷ []
close_pieces addr1 addr2 b (x ∷ r) = (addr1, b) ∷ (addr2, x ∷ r) ∷ []

module _ (be : BigEndian) where
  -- `key` is what `maskgen_` gives.
  pub write_close : Role → ℕ → ℕ → ℕ → Bytes → CloseReason → Bytes
  write_close role key addr1 addr2 db cr =
      let db1 = write be db (close_header role key cr) in
      if cr.code == no_code
      then db1
      else (let ps = close_pieces addr1 addr2 (be.put16 cr.code) cr.reason in
          db1 ++ (if is_client role then (mask_inplace 8 ps (prepare_key64 key)).0 else octets ps))

read_reason-points :
    (cr : CloseReason) (r : Bytes) (cps : List Bytes)
    → ArePoints cps
    → r ≡ flatten cps
    → read_reason cr r ≡ (record cr { reason = r }, no_code)
unfolding read_reason
read_reason-points cr [] cps p e = refl
read_reason-points cr (x ∷ r) cps p e =
    let v : check_utf8 (x ∷ r) ≡ true =
      rw (sym (append-nil (x ∷ r)))
        ((write_buffers-ArePoints ((x ∷ r) ∷ []) cps p (append-nil (x ∷ r) ∙ e)).2) in
    rw v refl

close_pieces-octets :
    (addr1 addr2 : ℕ) (b r : Bytes) → octets (close_pieces addr1 addr2 b r) ≡ b ++ r
unfolding close_pieces
close_pieces-octets addr1 addr2 b [] = refl
close_pieces-octets addr1 addr2 b (x ∷ r) = ap (λ (l : Bytes). b ++ (x ∷ l)) (append-nil r)

-- What is sent is what was put in, after the receiver's side.
pub unmasked :
    (role : Role) (key : ℕ) (ps cs : List (ℕ × Bytes))
    → key < 2 ^ 32
    → All (λ (p : ℕ × Bytes). AreOctets p.1) ps
    → All (λ (p : ℕ × Bytes). AreOctets p.1) cs
    → (if is_client role then (mask_inplace 8 ps (prepare_key64 key)).0 else octets ps) ≡ octets cs
    → (if is_client role then (mask_inplace 4 cs (prepare_key32 key)).0 else octets cs) ≡ octets ps
unmasked client key ps cs k o o' e = mask_inplace_unmask key ps cs k o o' (sym e)
unmasked server key ps cs k o o' e = sym e

points-AreOctets : (cps : List Bytes) → ArePoints cps → AreOctets (flatten cps)
points-AreOctets [] p = tt
points-AreOctets (cp ∷ cps) p =
    All-append (λ b. b < 256) cp (flatten cps) p.0.1 (points-AreOctets cps p.1)

module _ (be : BigEndian) where
  -- The payload that `write_close` makes, read in any buffers.
  read_close-payload :
      (cr cr0 : CloseReason) (bs cps : List Bytes)
      → cr.code < 2 ^ 16
      → IsSendable cr.code
      → ArePoints cps
      → cr.reason ≡ flatten cps
      → length cr.reason ≤ 123
      → flatten bs ≡ be.put16 cr.code ++ cr.reason
      → read_close cr0 bs ≡ some (cr, no_code)
  unfolding read_close read_close_octets
  read_close-payload cr cr0 bs cps h s p e l f =
      let v = (is_valid_close_code_iff cr.code).1 s in
      let g : flatten bs ≡ (cr.code / 2 ^ 8) ∷ (cr.code % 2 ^ 8) ∷ cr.reason =
        f ∙ ap (λ (x : Bytes). x ++ cr.reason) (be.put16_lem cr.code h) in
      let fits : leb (length ((cr.code / 2 ^ 8) ∷ (cr.code % 2 ^ 8) ∷ cr.reason)) 125 ≡ true =
        ground arith in
      rw g (
        if_true _ _ fits
        ∙ ap some (
            rw (big16_put cr.code h, v)
              (read_reason-points (record { code = cr.code; reason = cr0.reason }) cr.reason cps p
                e)))

  pieces-AreOctets :
      (addr1 addr2 : ℕ) (b r : Bytes)
      → AreOctets b
      → AreOctets r
      → All (λ (p : ℕ × Bytes). AreOctets p.1) (close_pieces addr1 addr2 b r)
  unfolding close_pieces
  pieces-AreOctets addr1 addr2 b [] o o' = (o, tt)
  pieces-AreOctets addr1 addr2 b (x ∷ r) o o' = (o, (o', tt))

  code-AreOctets : (v : ℕ) → v < 2 ^ 16 → AreOctets (be.put16 v)
  code-AreOctets v h = subst AreOctets (sym (be.put16_lem v h)) (omega arith, (omega arith, tt))

  -- A close reason that `write_close` wrote is read back: behind the header, in whatever buffers
  -- `cs` the payload arrives, `mask_inplace` where the writer is a client and then `read` give the
  -- reason and no error, whatever the object held. The code is one that may be sent, the reason
  -- is of at most 123 octets and made of code points of RFC 3629, and the key is of 32 bits.
  pub read_close-write_close :
      (role : Role) (key addr1 addr2 : ℕ) (db : Bytes) (cr cr0 : CloseReason)
      (cs : List (ℕ × Bytes)) (cps : List Bytes)
      → key < 2 ^ 32
      → cr.code < 2 ^ 16
      → IsSendable cr.code
      → ArePoints cps
      → cr.reason ≡ flatten cps
      → length cr.reason ≤ 123
      → All (λ (p : ℕ × Bytes). AreOctets p.1) cs
      → write_close be role key addr1 addr2 db cr
        ≡ write be db (close_header role key cr) ++ octets cs
      → read_close cr0
          ((if is_client role then (mask_inplace 4 cs (prepare_key32 key)).0 else octets cs) ∷ [])
        ≡ some (cr, no_code)
  unfolding write_close
  read_close-write_close role key addr1 addr2 db cr cr0 cs cps k h s p e l o w =
      let coded : (cr.code == no_code) ≡ false = ground arith in
      let ps = close_pieces addr1 addr2 (be.put16 cr.code) cr.reason in
      let os : All (λ (p : ℕ × Bytes). AreOctets p.1) ps =
        pieces-AreOctets addr1 addr2 (be.put16 cr.code) cr.reason (code-AreOctets cr.code h)
          (subst AreOctets (sym e) (points-AreOctets cps p)) in
      let header = write be db (close_header role key cr) in
      let sent = if is_client role then (mask_inplace 8 ps (prepare_key64 key)).0 else octets ps in
      let joined : header ++ sent ≡ header ++ octets cs = sym (if_false _ _ coded) ∙ w in
      let same : sent ≡ octets cs =
        sym (drop-length_append header sent)
        ∙ ap (drop (length header)) joined
        ∙ drop-length_append header (octets cs) in
      read_close-payload cr cr0 (_ ∷ []) cps h s p e l (
        append-nil _
        ∙ unmasked role key ps cs k os o same
        ∙ close_pieces-octets addr1 addr2 (be.put16 cr.code) cr.reason)
