-- ===== src/Websocket/Frame/Bits.antt =====
-- The two fixed octets of a header against the fields packed into them.
use remotedev.Base.{
  ℕ, ◌<◌, ◌≡◌, refl, Bool, true, false, not, ◌&&◌, bit_and, bit_or, ◌==◌, ==_iff, holds_below,
  holds_below_at, arith, if◌then◌else◌,
}
use remotedev.Websocket.Opcode.{Opcode, cont, of_nibble}
use remotedev.Websocket.Frame.{FrameHeader, first_octet, flag, decode}

-- A header with these fields, the rest zero.
abbrev header : Bool → Opcode → Bool → Bool → Bool → FrameHeader
header fin op r1 r2 r3 = record {
  op = op;
  fin = fin;
  mask = false;
  rsv1 = r1;
  rsv2 = r2;
  rsv3 = r3;
  len = 0;
  key = 0;
}

-- The fields that the first octet holds.
abbrev FirstIs : ℕ → FrameHeader → Type 0
FirstIs b fh =
    (of_nibble (bit_and b 0x0f) ≡ fh.op)
    × (not (bit_and b 0x80 == 0) ≡ fh.fin)
    × (not (bit_and b 0x40 == 0) ≡ fh.rsv1)
    × (not (bit_and b 0x20 == 0) ≡ fh.rsv2)
    × (not (bit_and b 0x10 == 0) ≡ fh.rsv3)

first_octet_fields :
    (op : Opcode) (fin r1 r2 r3 : Bool)
    → FirstIs (first_octet (header fin op r1 r2 r3)) (header fin op r1 r2 r3)
unfolding first_octet of_nibble
first_octet_fields cont _ _ _ _ = ground arith
first_octet_fields _ _ _ _ _ = ground arith

pub first_octet-FirstIs : (fh : FrameHeader) → FirstIs (first_octet fh) fh
unfolding first_octet
first_octet-FirstIs fh = first_octet_fields fh.op fh.fin fh.rsv1 fh.rsv2 fh.rsv3

first_table :
    holds_below 256 (λ b. first_octet (decode (header true cont true true true) b 0) == b) ≡ true
unfolding holds_below first_octet decode of_nibble
first_table = refl

-- Every octet is the first octet of the header decoded from it.
pub first_octet-decode :
    (fh : FrameHeader) (b0 b1 : ℕ) → b0 < 256 → first_octet (decode fh b0 b1) ≡ b0
unfolding first_octet decode
first_octet-decode fh b0 b1 h = (==_iff _ b0).0 (holds_below_at 256 _ b0 first_table h)

second_table :
    (m : Bool)
    → holds_below 128 (λ n.
      (bit_and (bit_or (flag m 0x80) n) 0x7f == n)
      && (if m
          then not (bit_and (bit_or (flag m 0x80) n) 0x80 == 0)
          else (bit_and (bit_or (flag m 0x80) n) 0x80 == 0)))
      ≡ true
unfolding holds_below
second_table true = refl
second_table false = refl

-- The second octet holds the mask flag and seven bits of length.
pub second_octet_fields :
    (m : Bool) (n : ℕ)
    → n < 128
    → (bit_and (bit_or (flag m 0x80) n) 0x7f ≡ n)
      × (not (bit_and (bit_or (flag m 0x80) n) 0x80 == 0) ≡ m)
second_octet_fields true n h = ground (arith, holds_below_at 128 _ n (second_table true) h)
second_octet_fields false n h = ground (arith, holds_below_at 128 _ n (second_table false) h)

refold_table :
    holds_below 256 (λ b. bit_or (flag (not (bit_and b 0x80 == 0)) 0x80) (bit_and b 0x7f) == b)
    ≡ true
unfolding holds_below
refold_table = refl

-- Every octet is the second octet of the flag and the length read from it.
pub second_octet_refold :
    (b : ℕ) → b < 256 → bit_or (flag (not (bit_and b 0x80 == 0)) 0x80) (bit_and b 0x7f) ≡ b
second_octet_refold b h = (==_iff _ b).0 (holds_below_at 256 _ b refold_table h)
