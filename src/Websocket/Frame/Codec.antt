-- ===== src/Websocket/Frame/Codec.antt =====
-- Reading a header that was written.
use mathlib.Core.List.{append_assoc}
use remotedev.Base.{
  ℕ, ◌%◌, ◌^◌, ◌<◌, ◌≡◌, refl, ◌⊎◌, inl, inr, Bool, true, false, not, [], ◌∷◌, ◌++◌, some, bit_or,
  Bytes, leb, if◌then◌else◌, arith,
}
use remotedev.Websocket.Opcode.{Opcode, cont, text, binary, is_reserved, is_control, no_code}
use remotedev.Websocket.Endian.{
  BigEndian, native_to_little_uint32, native_to_little_bytes, little_put, big16_put, big64_put,
}
use remotedev.Websocket.StreamBase.{StreamBase, Role, client, server, is_client}
use remotedev.Websocket.Frame.{
  FrameHeader, first_octet, flag, length_octets, write, decode, need_octets, fh1_switch, wrong_mask,
  fh1_check, read_fh1, fh2_length, fh2_key, fh2_finish, fh2_rest, read_fh2, read_header,
}
use remotedev.Websocket.Frame.Bits.{first_octet-FirstIs, second_octet_fields}
use remotedev.Websocket.Frame.Accepts.{IsWritable, AcceptsAs, Accepts, received_as, received}

-- The seven bits of length, and the octets behind them.
abbrev pub short_len : ℕ → ℕ
short_len len = if leb len 125 then len else if leb len 65535 then 126 else 127

module _ (be : BigEndian) where
  abbrev pub extension : ℕ → Bytes
  extension len =
      if leb len 125 then [] else if leb len 65535 then be.put16 (len % 2 ^ 16) else be.put64 len

  pub length_octets_split :
      (fh : FrameHeader)
      → length_octets be fh ≡ bit_or (flag fh.mask 0x80) (short_len fh.len) ∷ extension fh.len
  unfolding length_octets
  length_octets_split fh = ground arith

  length_extension :
      (len : ℕ) (r : Bytes)
      → len < 2 ^ 64
      → fh2_length (short_len len) (extension len ++ r) ≡ some (len, true, r)
  unfolding fh2_length
  length_extension len r h =
      ground (arith, be.put16_lem (len % 2 ^ 16), be.put64_lem len, big16_put len, big64_put len h)

decode_written :
    (fh fh0 : FrameHeader) (n : ℕ)
    → n < 128
    → decode fh0 (first_octet fh) (bit_or (flag fh.mask 0x80) n)
      ≡ record fh { len = n; key = fh0.key }
unfolding decode
decode_written fh fh0 n h = ground (arith, first_octet-FirstIs fh, second_octet_fields fh.mask n h)

key_octets :
    (mask : Bool) (key : ℕ) (r : Bytes)
    → key < 2 ^ 32
    → (mask ≡ true) ⊎ (key ≡ 0)
    → fh2_key mask ((if mask then native_to_little_uint32 key else []) ++ r) ≡ some (key, r)
unfolding fh2_key
key_octets true key r h _ = rw (native_to_little_bytes key) (rw (little_put key h))
key_octets false key r h (inl e) = ground arith
key_octets false key r h (inr e) = ground arith

-- The stream between the two parts of an accepted header.
abbrev pub passed : Opcode → StreamBase → FrameHeader → StreamBase
passed text s fh = record s { pmd = (received_as text s fh).pmd }
passed binary s fh = record s { pmd = (received_as binary s fh).pmd }
passed _ s fh = s

switch_accepts :
    (op : Opcode) (s : StreamBase) (fh : FrameHeader) (k : ℕ)
    → fh.op ≡ op
    → AcceptsAs op s fh
    → fh1_switch op s (record fh { len = short_len fh.len; key = k }) ≡ (passed op s fh, true)
unfolding fh1_switch is_reserved
switch_accepts text s fh k e a = ground arith
switch_accepts binary s fh k e a = ground arith
switch_accepts cont s fh k e a = ground arith
switch_accepts _ s fh k e a = ground arith

finish_accepts :
    (op : Opcode) (s : StreamBase) (fh : FrameHeader)
    → fh.op ≡ op
    → AcceptsAs op s fh
    → fh2_finish (passed op s fh) fh ≡ (received_as op s fh, no_code)
unfolding fh2_finish is_control
finish_accepts text s fh e a = ground arith
finish_accepts binary s fh e a = ground arith
finish_accepts cont s fh e a = ground arith
finish_accepts _ s fh e a = ground arith

mask_accepts : (r : Role) (m : Bool) → m ≡ not (is_client r) → wrong_mask r m ≡ false
unfolding wrong_mask
mask_accepts client m e = ground arith
mask_accepts server m e = ground arith

short_len-lt : (len : ℕ) → short_len len < 128
short_len-lt len = ground arith

read_fh1_written :
    (s : StreamBase) (fh fh0 : FrameHeader) (r : Bytes)
    → Accepts s fh
    → read_fh1 s fh0 (first_octet fh ∷ bit_or (flag fh.mask 0x80) (short_len fh.len) ∷ r)
      ≡ some (record {
        stream = passed fh.op s fh;
        fh = record fh { len = short_len fh.len; key = fh0.key };
        db = r;
        close_code = no_code;
        need = need_octets (short_len fh.len) fh.mask;
      })
unfolding read_fh1 fh1_check
read_fh1_written s fh fh0 r a =
    rw (decode_written fh fh0 (short_len fh.len) (short_len-lt fh.len))
      (rw (switch_accepts fh.op s fh fh0.key refl a.0) (rw (mask_accepts s.role fh.mask a.1)))

module _ (be : BigEndian) where
  read_fh2_written :
      (s : StreamBase) (fh : FrameHeader) (k : ℕ) (r : Bytes)
      → IsWritable fh
      → Accepts s fh
      → read_fh2
          (passed fh.op s fh)
          (record fh { len = short_len fh.len; key = k })
          (extension be fh.len ++ ((if fh.mask then native_to_little_uint32 fh.key else []) ++ r))
        ≡ some (record { stream = received s fh; fh = fh; db = r; close_code = no_code; need = 0 })
  unfolding read_fh2 fh2_rest
  read_fh2_written s fh k r w a = rw (length_extension be fh.len _ w.len_fits) (
      rw (key_octets fh.mask fh.key r w.key_fits w.no_key)
        (rw (finish_accepts fh.op s fh refl a.0)))

  -- A stream reads back every header that the wire format can hold and the stream accepts: the
  -- octets that `write` appends, with anything behind them, give the same header, leave what is
  -- behind them, and set the stream up for the next frame of the message.
  pub read_header-write :
      (s : StreamBase) (fh fh0 : FrameHeader) (rest : Bytes)
      → IsWritable fh
      → Accepts s fh
      → read_header s fh0 (write be [] fh ++ rest)
        ≡ some
            (record { stream = received s fh; fh = fh; db = rest; close_code = no_code; need = 0 })
  unfolding read_header write
  read_header-write s fh fh0 rest w a = rw (length_octets_split be fh) (
      rw append_assoc (rw (read_fh1_written s fh fh0 _ a) (read_fh2_written s fh fh0.key rest w a)))
