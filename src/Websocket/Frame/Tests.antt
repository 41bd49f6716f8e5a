-- ===== src/Websocket/Frame/Tests.antt =====
-- The theorems on frames and streams, at concrete frames and streams.
use remotedev.Base.{
  ◌/◌, ◌%◌, ◌^◌, ◌≡◌, refl, inl, inr, true, false, none, some, Bytes, [], ◌∷◌, ◌++◌, arith,
}
use remotedev.Websocket.Opcode.{cont, text, of_nibble, is_control, no_code}
use remotedev.Websocket.Endian.{BigEndian, big_uint16_to_native, little_uint32_to_native}
use remotedev.Websocket.StreamBase.{StreamBase, server}
use remotedev.Websocket.StreamBase.Buffers.{BuffersAreSized}
use remotedev.Websocket.Frame.{
  FrameHeader, Fh, write, read_header, read_fh1, fh1_check, fh1_switch, decode, wrong_mask,
  read_fh2, fh2_length, fh2_rest, fh2_key, fh2_finish,
}
use remotedev.Websocket.Frame.Accepts.{received}
use remotedev.Websocket.Frame.Codec.{read_header-write}
use remotedev.Websocket.Frame.Sound.{IsAccepted, read_header-IsAccepted}

big_endian : BigEndian
big_endian = record {
  put16 = λ v. v / 2 ^ 8 ∷ (v % 2 ^ 8) ∷ [];
  put64 = λ v.
      (v / 2 ^ 56)
      ∷ (v / 2 ^ 48 % 2 ^ 8)
      ∷ (v / 2 ^ 40 % 2 ^ 8)
      ∷ (v / 2 ^ 32 % 2 ^ 8)
      ∷ (v / 2 ^ 24 % 2 ^ 8)
      ∷ (v / 2 ^ 16 % 2 ^ 8)
      ∷ (v / 2 ^ 8 % 2 ^ 8)
      ∷ (v % 2 ^ 8)
      ∷ [];
  put16_lem = λ v h. refl;
  put64_lem = λ v h. refl;
}

-- A server with compression, whose read buffer has another size than the one asked for.
abbrev stream : StreamBase
stream = record {
  role = server;
  wr_autofrag = true;
  wr_buf_size = 4096;
  rd_buf_size = 4096;
  rd = record { op = text; cont = false; size = 0; buf_size = 100; buf = some 100 };
  wr = record { cont = false; autofrag = true; compress = false; buf_size = 0; buf = none };
  pmd = some (record { rd_set = false });
}

stream_sized : BuffersAreSized stream
stream_sized = record { rd_sized = ground arith; wr_sized = ground arith }

-- The first frame of a compressed message, with 300 octets behind a masking key.
abbrev first : FrameHeader
first = record {
  op = text;
  fin = false;
  mask = true;
  rsv1 = true;
  rsv2 = false;
  rsv3 = false;
  len = 300;
  key = 0x01020304;
}

abbrev blank : FrameHeader
blank = record {
  op = cont;
  fin = false;
  mask = false;
  rsv1 = false;
  rsv2 = false;
  rsv3 = false;
  len = 0;
  key = 0;
}

abbrev octets : Bytes
octets = 0x41 ∷ 0xfe ∷ 0x01 ∷ 0x2c ∷ 0x04 ∷ 0x03 ∷ 0x02 ∷ 0x01 ∷ 9 ∷ []

abbrev result : Fh
result = record {
  stream = received stream first;
  fh = first;
  db = 9 ∷ [];
  close_code = no_code;
  need = 0;
}

reads : read_header stream blank octets ≡ some result
unfolding read_header read_fh1 fh1_check fh1_switch decode of_nibble wrong_mask read_fh2 fh2_length
    big_uint16_to_native fh2_rest fh2_key fh2_finish little_uint32_to_native is_control
reads = refl

read_header-write_example :
    read_header stream blank (write big_endian [] first ++ (9 ∷ [])) ≡ some result
read_header-write_example =
    read_header-write big_endian stream first blank (9 ∷ [])
      (record { len_fits = omega arith; key_fits = omega arith; no_key = inl refl })
      (record { closed = refl; compressed = inr refl; clear2 = refl; clear3 = refl }, refl)

read_header-IsAccepted_example :
    IsAccepted big_endian stream octets result.stream result.fh result.db
read_header-IsAccepted_example =
    read_header-IsAccepted big_endian stream blank octets {r = result} (ground arith) reads refl
