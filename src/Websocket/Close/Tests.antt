-- ===== src/Websocket/Close/Tests.antt =====
-- A client that closes with code 1000 and a reason of one letter.
use remotedev.Base.{◌/◌, ◌%◌, ◌^◌, ◌≡◌, refl, ap, inl, some, [], ◌∷◌, ◌++◌, Bytes, arith}
use remotedev.Websocket.Opcode.{no_code}
use remotedev.Websocket.Endian.{BigEndian}
use remotedev.Websocket.StreamBase.{client}
use remotedev.Websocket.Mask.{mask_inplace, prepare_key32}
use remotedev.Websocket.Mask.Rotation.{octets, mask_octets}
use remotedev.Websocket.Mask.RoundTrip.{key_octets, mask_inplace64}
use remotedev.Websocket.Frame.{write}
use remotedev.Websocket.Close.{
  CloseReason, read_close, write_close, close_header, close_pieces, read_close-write_close,
}

stored : BigEndian
stored = record {
  put16 = λ v. v / 2 ^ 8 ∷ (v % 2 ^ 8) ∷ [];
  put64 = λ v.
      (v / 2 ^ 56)
      ∷ (v / 2 ^ 48 % 2 ^ 8)
      ∷ (v / 2 ^ 40 % 2 ^ 8)
      ∷ (v / 2 ^ 32 % 2 ^ 8)
      ∷ (v / 2 ^ 24 % 2 ^ 8)
      ∷ (v / 2 ^ 16 % 2 ^ 8)
      ∷ (v / 2 ^ 8 % 2 ^ 8)
      ∷ (v % 2 ^ 8)
      ∷ [];
  put16_lem = λ v h. refl;
  put64_lem = λ v h. refl;
}

abbrev goodbye : CloseReason
goodbye = record { code = 1000; reason = 65 ∷ [] }

abbrev before : CloseReason
before = record { code = 0; reason = [] }

goodbye_written :
    write_close stored client 0x01020304 0 2 [] goodbye
    ≡ write stored [] (close_header client 0x01020304 goodbye)
      ++ octets ((0, 0x07 ∷ 0xeb ∷ []) ∷ (2, 0x43 ∷ []) ∷ [])
unfolding write_close stored close_pieces mask_octets key_octets
goodbye_written =
    ap (λ (l : Bytes). write stored [] (close_header client 0x01020304 goodbye) ++ l)
      (mask_inplace64 0x01020304 ((0, 0x03 ∷ 0xe8 ∷ []) ∷ (2, 65 ∷ []) ∷ []) (omega arith)
        ((omega arith, (omega arith, tt)), ((omega arith, tt), tt)))

read_close-write_close_example :
    read_close before (
      (mask_inplace 4 ((0, 0x07 ∷ 0xeb ∷ []) ∷ (2, 0x43 ∷ []) ∷ []) (prepare_key32 0x01020304)).0
      ∷ [])
    ≡ some (goodbye, no_code)
read_close-write_close_example =
    read_close-write_close stored client 0x01020304 0 2 [] goodbye before
      ((0, 0x07 ∷ 0xeb ∷ []) ∷ (2, 0x43 ∷ []) ∷ []) ((65 ∷ []) ∷ []) (omega arith) (omega arith)
      (inl (omega arith, omega arith)) ((omega arith, (omega arith, tt)), tt) refl (omega arith)
      ((omega arith, (omega arith, tt)), ((omega arith, tt), tt)) goodbye_written
