-- ===== src/Websocket/Frame/Sound.antt =====
-- What reading a header accepts.
mod Steps
use mathlib.Core.List.{append_assoc}
use remotedev.Base.{
  ℕ, ◌+◌, ◌-◌, ◌/◌, ◌%◌, ◌^◌, ◌≤◌, ◌<◌, ◌≡◌, refl, sym, ◌∙◌, ap, ◌⊎◌, inl, inr, Bool, true, false,
  not, ◌&&◌, ◌||◌, [], ◌∷◌, ◌++◌, Option, none, some, bit_and, bit_or, Bytes, AreOctets, ltb, leb,
  ◌==◌, if◌then◌else◌, ◌>>=◌, arith, Bool-cases, leb→le, le→leb, ==_iff, bit_and_7f, subst,
}
use remotedev.Websocket.Opcode.{
  Opcode, cont, text, binary, close, ping, pong, of_nibble, is_reserved, is_control, no_code,
  protocol_error, too_big,
}
use remotedev.Websocket.Endian.{
  BigEndian, big_uint16_to_native, big_uint64_to_native, native_to_little_uint32, big16-lt,
  big64-lt, put16_big, put64_big, native_to_little-little, little-lt,
}
use remotedev.Websocket.StreamBase.{StreamBase, Role, client, server, is_set, is_client}
use remotedev.Websocket.Frame.{
  FrameHeader, Fh, first_octet, flag, length_octets, write, decode, need_octets, fh1_switch,
  wrong_mask, fh1_check, read_fh1, length16, length64, fh2_length, fh2_key, fh2_finish, fh2_rest,
  read_fh2, read_header,
}
use remotedev.Websocket.Frame.Bits.{first_octet-decode, second_octet_refold}
use remotedev.Websocket.Frame.Accepts.{
  IsWritable, Starts, Continues, IsControl, AcceptsAs, Accepts, received_as, received,
}
use remotedev.Websocket.Frame.Codec.{short_len, extension, length_octets_split, passed}
use remotedev.Websocket.Frame.Sound.Steps.{
  Passes, Second, switch_sound, finish_sound, mask_sound, length_sound, key_sound, check_sound,
  read_fh2_steps,
}

-- The octets `db` begin with the header `fh` as it is written, `rest` is behind it, the stream
-- accepts it, and `after` is the stream that expects what comes next.
pub record IsAccepted (be : BigEndian) (s : StreamBase) (db : Bytes) (after : StreamBase)
    (fh : FrameHeader) (rest : Bytes) : Type 0 where
  pub accepts : Accepts s fh
  pub writable : IsWritable fh
  pub octets : db ≡ write be [] fh ++ rest
  pub after_is : after ≡ received s fh

decode-len : (fh0 : FrameHeader) (b0 b1 : ℕ) → (decode fh0 b0 b1).len < 128
unfolding decode
decode-len fh0 b0 b1 = omega (arith, bit_and_7f b1)

first_octet_same :
    (f : FrameHeader) (n k : ℕ) → first_octet (record f { len = n; key = k }) ≡ first_octet f
unfolding first_octet
first_octet_same f n k = refl

second_octet_refold_at :
    (fh0 : FrameHeader) (b0 b1 : ℕ)
    → b1 < 256
    → bit_or (flag (decode fh0 b0 b1).mask 0x80) (decode fh0 b0 b1).len ≡ b1
unfolding decode
second_octet_refold_at fh0 b0 b1 h = second_octet_refold b1 h

module _ (be : BigEndian) where
  -- The octets of a header whose first two are those that its fields pack into.
  write_octets :
      (fh : FrameHeader) (b0 b1 : ℕ) (db rest1 rest : Bytes)
      → first_octet fh ≡ b0
      → bit_or (flag fh.mask 0x80) (short_len fh.len) ≡ b1
      → db ≡ extension be fh.len ++ rest1
      → rest1 ≡ (if fh.mask then native_to_little_uint32 fh.key else []) ++ rest
      → b0 ∷ b1 ∷ db ≡ write be [] fh ++ rest
  unfolding write
  write_octets fh b0 b1 db rest1 rest e0 e1 e2 e3 =
      rw (length_octets_split be fh) (rw append_assoc (cc))

  decoded_sound :
      (s : StreamBase) (fh0 : FrameHeader) (b0 b1 : ℕ) (db : Bytes) {r : Fh}
      → b0 < 256
      → b1 < 256
      → AreOctets db
      → Passes (decode fh0 b0 b1).op s (decode fh0 b0 b1)
      → wrong_mask s.role (decode fh0 b0 b1).mask ≡ false
      → Second (passed (decode fh0 b0 b1).op s (decode fh0 b0 b1)) (decode fh0 b0 b1) db r
      → IsAccepted be s (b0 ∷ b1 ∷ db) r.stream r.fh r.db
  decoded_sound s fh0 b0 b1 db {r} h0 h1 o p m q =
      let f = decode fh0 b0 b1 in
      let g : FrameHeader = record f { len = r.fh.len; key = r.fh.key } in
      let ln =
        length_sound be f.len db {len = r.fh.len} {r = q.rest} (decode-len fh0 b0 b1) o
          q.length_read in
      let ks = key_sound f.mask q.rest ln.3 q.key_read in
      let done : fh2_finish (passed f.op s f) g ≡ (r.stream, no_code) =
        subst (λ h. fh2_finish (passed f.op s f) h ≡ (r.stream, no_code)) q.header_is q.finished in
      let fin =
        finish_sound f.op s f r.fh.len r.fh.key refl (sym ln.1) p
          (ap (λ (t : StreamBase × ℕ). t.1) done) in
      subst (λ h. IsAccepted be s (b0 ∷ b1 ∷ db) r.stream h r.db) (sym q.header_is)
        (record {
          accepts = (fin.0, mask_sound s.role f.mask m);
          writable = record { len_fits = ln.2; key_fits = ks.1; no_key = ks.2 };
          octets =
              write_octets g b0 b1 db q.rest r.db
                (first_octet_same f r.fh.len r.fh.key ∙ first_octet-decode fh0 b0 b1 h0)
                (rw ln.1 (second_octet_refold_at fh0 b0 b1 h1)) ln.0 ks.0;
          after_is = sym (ap (λ (t : StreamBase × ℕ). t.0) done) ∙ fin.1;
        })

  checked_sound :
      (s : StreamBase) (fh0 : FrameHeader) (b0 b1 : ℕ) (db : Bytes) {r : Fh}
      → b0 < 256
      → b1 < 256
      → AreOctets db
      → ((fh1_check s (decode fh0 b0 b1) db).close_code == no_code) ≡ true
      → let f = fh1_check s (decode fh0 b0 b1) db in
        read_fh2 f.stream f.fh f.db ≡ some r
        → r.close_code ≡ no_code
        → IsAccepted be s (b0 ∷ b1 ∷ db) r.stream r.fh r.db
  checked_sound s fh0 b0 b1 db {r} h0 h1 o t e c =
      let f = decode fh0 b0 b1 in
      let k = check_sound s f db t in
      let w = switch_sound f.op s f refl k.0 in
      let e' : read_fh2 (passed f.op s f) f db ≡ some r = cc (e, k.2, k.3, k.4, w.1) in
      decoded_sound s fh0 b0 b1 db h0 h1 o w.0 k.1 (read_fh2_steps _ f db e' c)

  -- Whatever a stream reads without an error is a header that it accepts, in the one form in which
  -- `write` puts it: the octets are `write`'s for the header returned, followed by what is left,
  -- and the stream is the one that RFC 6455 expects next.
  pub read_header-IsAccepted :
      (s : StreamBase) (fh0 : FrameHeader) (db : Bytes) {r : Fh}
      → AreOctets db
      → read_header s fh0 db ≡ some r
      → r.close_code ≡ no_code
      → IsAccepted be s db r.stream r.fh r.db
  unfolding read_header read_fh1
  read_header-IsAccepted s fh0 [] o e c = ground arith
  read_header-IsAccepted s fh0 (b0 ∷ []) o e c = ground arith
  read_header-IsAccepted s fh0 (b0 ∷ b1 ∷ db) {r} o e c =
      elim (Bool-cases ((fh1_check s (decode fh0 b0 b1) db).close_code == no_code)) [
        | inl t ↦ checked_sound s fh0 b0 b1 db o.0 o.1.0 o.1.1 t (rw t at e) c
        | inr t ↦ absurd (ground arith)
      ]
