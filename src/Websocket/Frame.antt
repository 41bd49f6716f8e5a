-- ===== src/Websocket/Frame.antt =====
-- include/beast/websocket/detail/frame.hpp (frame_header, write) and stream_base.hpp (read_fh1,
-- read_fh2). A dynamic buffer is the list of its readable octets: `commit` of a copy appends, and
-- `consume` drops from the front. `none` is a failed BOOST_ASSERT, a read past the buffer.
pub mod Bits
pub mod Accepts
pub mod Codec
pub mod Sound
mod Tests
use remotedev.Base.{
  ℕ, ◌+◌, ◌-◌, ◌%◌, ◌^◌, Bool, true, false, not, ◌&&◌, ◌||◌, [], ◌∷◌, ◌++◌, Option, none, some,
  bit_and, bit_or, ◌>>=◌, Bytes, ltb, leb, ◌==◌, if◌then◌else◌,
}
use remotedev.Websocket.Opcode.{
  Opcode, cont, text, binary, code, of_nibble, is_reserved, is_control, no_code, protocol_error,
  too_big,
}
use remotedev.Websocket.Endian.{
  BigEndian, big_uint16_to_native, big_uint64_to_native, little_uint32_to_native,
  native_to_little_uint32,
}
use remotedev.Websocket.StreamBase.{StreamBase, Role, client, server, Pmd, is_set}

pub record FrameHeader : Type 0 where
  pub op : Opcode
  pub fin : Bool
  pub mask : Bool
  pub rsv1 : Bool
  pub rsv2 : Bool
  pub rsv3 : Bool
  pub len : ℕ
  pub key : ℕ

abbrev pub flag : Bool → ℕ → ℕ
flag b bit = if b then bit else 0x00

-- `b[0]`
pub first_octet : FrameHeader → ℕ
first_octet fh =
    let b = bit_or (flag fh.fin 0x80) (code fh.op) in
    let b = if fh.rsv1 then bit_or b 0x40 else b in
    let b = if fh.rsv2 then bit_or b 0x20 else b in if fh.rsv3 then bit_or b 0x10 else b

module _ (be : BigEndian) where
  -- `b[1]` and the extended length.
  pub length_octets : FrameHeader → Bytes
  length_octets fh =
      let b = flag fh.mask 0x80 in
      if leb fh.len 125
      then bit_or b (fh.len % 2 ^ 8) ∷ []
      else if leb fh.len 65535
      then bit_or b 126 ∷ be.put16 (fh.len % 2 ^ 16)
      else bit_or b 127 ∷ be.put64 fh.len

  pub write : Bytes → FrameHeader → Bytes
  write db fh =
      db
      ++ (first_octet fh
          ∷ (length_octets fh ++ (if fh.mask then native_to_little_uint32 fh.key else [])))

-- What `read_fh1` and `read_fh2` leave: the stream, the header, the buffer, the close code, and
-- the number of octets that `read_fh1` asks for.
pub record Fh : Type 0 where
  pub stream : StreamBase
  pub fh : FrameHeader
  pub db : Bytes
  pub close_code : ℕ
  pub need : ℕ

unfoldable pub need_octets : ℕ → Bool → ℕ
need_octets len mask =
    let need = if len == 126 then 2 else if len == 127 then 8 else 0 in
    if mask then need + 4 else need

-- The fields decoded from the two octets; `key` is not touched.
pub decode : FrameHeader → ℕ → ℕ → FrameHeader
decode fh b0 b1 = record fh {
  len = bit_and b1 0x7f;
  mask = not (bit_and b1 0x80 == 0);
  op = of_nibble (bit_and b0 0x0f);
  fin = not (bit_and b0 0x80 == 0);
  rsv1 = not (bit_and b0 0x40 == 0);
  rsv2 = not (bit_and b0 0x20 == 0);
  rsv3 = not (bit_and b0 0x10 == 0);
}

-- A data frame that starts a message.
fh1_data : StreamBase → FrameHeader → StreamBase × Bool
fh1_data s fh =
    if s.rd.cont
    then (s, false)
    else if fh.rsv1 && not (is_set s.pmd) || fh.rsv2 || fh.rsv3
    then (s, false)
    else (
      record s { pmd = if is_set s.pmd then some (record { rd_set = fh.rsv1 }) else none },
      true,
    )

fh1_cont : StreamBase → FrameHeader → StreamBase × Bool
fh1_cont s fh =
    if not s.rd.cont
    then (s, false)
    else if fh.rsv1 || fh.rsv2 || fh.rsv3
    then (s, false)
    else (s, true)

fh1_control : StreamBase → FrameHeader → StreamBase × Bool
fh1_control s fh =
    if is_reserved fh.op
    then (s, false)
    else if not fh.fin
    then (s, false)
    else if ltb 125 fh.len
    then (s, false)
    else if fh.rsv1 || fh.rsv2 || fh.rsv3
    then (s, false)
    else (s, true)

-- The switch on the opcode: the stream, and whether the frame passes.
pub fh1_switch : Opcode → StreamBase → FrameHeader → StreamBase × Bool
unfolding fh1_data fh1_cont fh1_control
fh1_switch text s fh = fh1_data s fh
fh1_switch binary s fh = fh1_data s fh
fh1_switch cont s fh = fh1_cont s fh
fh1_switch _ s fh = fh1_control s fh

-- An unmasked frame from a client, or a masked one from a server.
pub wrong_mask : Role → Bool → Bool
wrong_mask server mask = not mask
wrong_mask client mask = mask

-- The checks of `read_fh1` on the decoded header.
pub fh1_check : StreamBase → FrameHeader → Bytes → Fh
fh1_check s fh db =
    let (s', passes) = fh1_switch fh.op s fh in
    let failed : Fh = record {
      stream = s';
      fh = fh;
      db = db;
      close_code = protocol_error;
      need = 0;
    } in
    if not passes
    then failed
    else if wrong_mask s.role fh.mask
    then failed
    else record failed { close_code = no_code; need = need_octets fh.len fh.mask }

pub read_fh1 : StreamBase → FrameHeader → Bytes → Option Fh
read_fh1 s fh (b0 ∷ b1 ∷ db) = some (fh1_check s (decode fh b0 b1) db)
read_fh1 s fh _ = none

length16 : Bytes → Option (ℕ × Bool × Bytes)
length16 (p0 ∷ p1 ∷ r) = let n = big_uint16_to_native p0 p1 in some (n, not (ltb n 126), r)
length16 _ = none

length64 : Bytes → Option (ℕ × Bool × Bytes)
length64 (p0 ∷ p1 ∷ p2 ∷ p3 ∷ p4 ∷ p5 ∷ p6 ∷ p7 ∷ r) =
    let n = big_uint64_to_native p0 p1 p2 p3 p4 p5 p6 p7 in some (n, not (ltb n 65536), r)
length64 _ = none

-- The extended length. The Boolean is whether it was written in the shortest form.
pub fh2_length : ℕ → Bytes → Option (ℕ × Bool × Bytes)
unfolding length16 length64
fh2_length len db =
    if len == 126 then length16 db else if len == 127 then length64 db else some (len, true, db)

pub fh2_key : Bool → Bytes → Option (ℕ × Bytes)
fh2_key true (p0 ∷ p1 ∷ p2 ∷ p3 ∷ r) = some (little_uint32_to_native p0 p1 p2 p3, r)
fh2_key true _ = none
fh2_key false db = some (0, db)

-- The end of `read_fh2`: the message's state, and the close code.
pub fh2_finish : StreamBase → FrameHeader → StreamBase × ℕ
fh2_finish s fh =
    if not (is_control fh.op)
    then (if not (code fh.op == code cont)
        then (record s { rd = record rd { size = 0; op = fh.op; cont = not fh.fin } }, no_code)
        else if ltb (2 ^ 64 - 1 - fh.len) rd.size
        then (s, too_big)
        else (record s { rd = record rd { cont = not fh.fin } }, no_code))
    else (s, no_code)
  where
    open s use {rd}

-- What follows a length in the shortest form.
pub fh2_rest : StreamBase → FrameHeader → Bytes → Option Fh
fh2_rest s fh db = do
  (key, db') ← fh2_key fh.mask db
  let fh' = record fh { key = key }
  let (s', c) = fh2_finish s fh'
  some (record { stream = s'; fh = fh'; db = db'; close_code = c; need = 0 })

pub read_fh2 : StreamBase → FrameHeader → Bytes → Option Fh
read_fh2 s fh db = do
  (len, canonical, db') ← fh2_length fh.len db
  let fh' = record fh { len = len }
  if not canonical
      then some (record { stream = s; fh = fh'; db = db'; close_code = protocol_error; need = 0 })
      else fh2_rest s fh' db'

-- A whole header: the second part is read when the first was accepted.
pub read_header : StreamBase → FrameHeader → Bytes → Option Fh
read_header s fh db = do
  r ← read_fh1 s fh db
  if r.close_code == no_code then read_fh2 r.stream r.fh r.db else some r
