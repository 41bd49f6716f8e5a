-- ===== src/Websocket/Ping/Tests.antt =====
-- A client's ping of two octets, read by a server.
use remotedev.Base.{
  ℕ, ◌/◌, ◌%◌, ◌^◌, ◌≡◌, refl, sym, true, false, some, none, List, [], ◌∷◌, ◌++◌, Bytes, arith,
}
use remotedev.Websocket.Opcode.{text, ping, no_code}
use remotedev.Websocket.Endian.{BigEndian}
use remotedev.Websocket.StreamBase.{StreamBase, client, server}
use remotedev.Websocket.Frame.{FrameHeader, read_header}
use remotedev.Websocket.Mask.{mask_inplace, prepare_key32}
use remotedev.Websocket.Mask.Rotation.{octets, mask_octets}
use remotedev.Websocket.Mask.RoundTrip.{key_octets, mask_inplace64}
use remotedev.Websocket.Ping.{
  read_ping, write_ping, ping_header, ping_payload, read_ping-write_ping,
}

in_memory : BigEndian
in_memory = record {
  put16 = λ v. v / 2 ^ 8 ∷ (v % 2 ^ 8) ∷ [];
  put64 = λ v.
      (v / 2 ^ 56)
      ∷ (v / 2 ^ 48 % 2 ^ 8)
      ∷ (v / 2 ^ 40 % 2 ^ 8)
      ∷ (v / 2 ^ 32 % 2 ^ 8)
      ∷ (v / 2 ^ 24 % 2 ^ 8)
      ∷ (v / 2 ^ 16 % 2 ^ 8)
      ∷ (v / 2 ^ 8 % 2 ^ 8)
      ∷ (v % 2 ^ 8)
      ∷ [];
  put16_lem = λ v h. refl;
  put64_lem = λ v h. refl;
}

-- A message is being received.
abbrev receiving : StreamBase
receiving = record {
  role = server;
  wr_autofrag = true;
  wr_buf_size = 4096;
  rd_buf_size = 4096;
  rd = record { op = text; cont = true; size = 7; buf_size = 0; buf = none };
  wr = record { cont = false; autofrag = true; compress = false; buf_size = 0; buf = none };
  pmd = none;
}

abbrev hello : Bytes
hello = 72 ∷ 105 ∷ []

abbrev hello_header : FrameHeader
hello_header = ping_header client 0x01020304 ping hello

-- The payload arrives in two buffers.
abbrev arrived : List (ℕ × Bytes)
arrived = (0, 76 ∷ []) ∷ (5, 106 ∷ []) ∷ []

arrived-ping_payload : octets arrived ≡ ping_payload client 0x01020304 0 hello
unfolding ping_payload mask_octets key_octets
arrived-ping_payload = sym (
    mask_inplace64 0x01020304 ((0, hello) ∷ []) (omega arith)
      ((omega arith, (omega arith, tt)), tt))

read_ping-write_ping_example :
    (read_header receiving hello_header
        (write_ping in_memory client 0x01020304 0 [] ping hello ++ (9 ∷ []))
      ≡ some (record {
        stream = receiving;
        fh = hello_header;
        db = 76 ∷ 106 ∷ 9 ∷ [];
        close_code = no_code;
        need = 0;
      }))
    × (read_ping ((mask_inplace 4 arrived (prepare_key32 0x01020304)).0 ∷ []) ≡ some hello)
unfolding ping_header
read_ping-write_ping_example =
    read_ping-write_ping in_memory client 0x01020304 0 ping hello (9 ∷ []) receiving hello_header
      arrived (omega arith) tt refl (omega arith, (omega arith, tt)) (omega arith)
      ((omega arith, tt), ((omega arith, tt), tt)) arrived-ping_payload
