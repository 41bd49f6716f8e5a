-- ===== src/Websocket/Mask/Tests.antt =====
-- The theorems on masking, at a message of two buffers at odd addresses.
use remotedev.Base.{ℕ, ◌≡◌, refl, Bytes, [], ◌∷◌, List, length, arith}
use remotedev.Websocket.Mask.{
  load, mask_inplace_fast, mask_inplace, prepare_key32, prepare_key64, xor_first, mask_words,
  unaligned, ror, store,
}
use remotedev.Websocket.Mask.Rotation.{octets, rotate, mask_octets}
use remotedev.Websocket.Mask.Width.{width4, width8}
use remotedev.Websocket.Mask.Fast.{mask_inplace_fast-mask_octets, mask_inplace-mask_octets}
use remotedev.Websocket.Mask.RoundTrip.{mask_inplace_unmask}

abbrev key4 : Bytes
key4 = 0x37 ∷ 0xfa ∷ 0x21 ∷ 0x3d ∷ []

abbrev key8 : Bytes
key8 = 0x37 ∷ 0xfa ∷ 0x21 ∷ 0x3d ∷ 0x37 ∷ 0xfa ∷ 0x21 ∷ 0x3d ∷ []

abbrev hello : Bytes
hello = 0x48 ∷ 0x65 ∷ 0x6c ∷ 0x6c ∷ 0x6f ∷ 0x20 ∷ 0x48 ∷ 0x65 ∷ 0x6c ∷ 0x6c ∷ 0x6f ∷ []

abbrev buffers : List (ℕ × Bytes)
buffers = (3, hello) ∷ (17, 1 ∷ 2 ∷ []) ∷ []

-- What RFC 6455 5.7 sends for "Hello", in one buffer.
abbrev plain : List (ℕ × Bytes)
plain = (0, 0x48 ∷ 0x65 ∷ 0x6c ∷ 0x6c ∷ 0x6f ∷ []) ∷ []

abbrev masked : List (ℕ × Bytes)
masked = (1, 0x7f ∷ 0x9f ∷ 0x4d ∷ []) ∷ (6, 0x51 ∷ 0x58 ∷ []) ∷ []

masked-plain : octets masked ≡ (mask_inplace 8 plain (prepare_key64 0x3d21fa37)).0
unfolding mask_inplace mask_inplace_fast prepare_key64 xor_first mask_words unaligned ror store load
masked-plain = refl

mask_inplace_fast-mask_octets_example :
    mask_inplace_fast 4 3 hello (load key4)
    ≡ (mask_octets key4 hello, load (rotate (length hello) key4))
mask_inplace_fast-mask_octets_example =
    mask_inplace_fast-mask_octets 4 width4 3 key4 hello refl (ground arith) (ground arith)

mask_inplace-mask_octets_example :
    mask_inplace 8 buffers (load key8)
    ≡ (mask_octets key8 (octets buffers), load (rotate (length (octets buffers)) key8))
mask_inplace-mask_octets_example =
    mask_inplace-mask_octets 8 width8 buffers key8 refl (ground arith) (ground arith)

mask_inplace_unmask_example : (mask_inplace 4 masked (prepare_key32 0x3d21fa37)).0 ≡ octets plain
mask_inplace_unmask_example =
    mask_inplace_unmask 0x3d21fa37 plain masked (omega arith) (ground arith) (ground arith)
      masked-plain
