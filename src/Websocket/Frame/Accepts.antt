-- ===== src/Websocket/Frame/Accepts.antt =====
-- RFC 6455 5.2 to 5.5: which headers a stream accepts, and what it then expects.
use remotedev.Base.{◌-◌, ◌^◌, ◌≤◌, ◌<◌, ◌≡◌, ◌⊎◌, true, false, not, none, some, if◌then◌else◌}
use remotedev.Websocket.Opcode.{Opcode, cont, text, binary, close, ping, pong}
use remotedev.Websocket.StreamBase.{StreamBase, is_client, is_set}
use remotedev.Websocket.Frame.{FrameHeader}

-- The header is one that the wire format can hold.
pub record IsWritable (fh : FrameHeader) : Type 0 where
  pub len_fits : fh.len < 2 ^ 64
  pub key_fits : fh.key < 2 ^ 32
  pub no_key : (fh.mask ≡ true) ⊎ (fh.key ≡ 0)

-- A message starts when none is open; only compression uses a reserved bit.
pub record Starts (s : StreamBase) (fh : FrameHeader) : Type 0 where
  pub closed : s.rd.cont ≡ false
  pub compressed : (fh.rsv1 ≡ false) ⊎ (is_set s.pmd ≡ true)
  pub clear2 : fh.rsv2 ≡ false
  pub clear3 : fh.rsv3 ≡ false

-- A message goes on when one is open, and its size does not leave 64 bits.
pub record Continues (s : StreamBase) (fh : FrameHeader) : Type 0 where
  pub opened : s.rd.cont ≡ true
  pub clear1 : fh.rsv1 ≡ false
  pub clear2 : fh.rsv2 ≡ false
  pub clear3 : fh.rsv3 ≡ false
  pub room : s.rd.size ≤ 2 ^ 64 - 1 - fh.len

-- A control frame is short and in one piece, and may come between the frames of a message.
pub record IsControl (fh : FrameHeader) : Type 0 where
  pub whole : fh.fin ≡ true
  pub short : fh.len ≤ 125
  pub clear1 : fh.rsv1 ≡ false
  pub clear2 : fh.rsv2 ≡ false
  pub clear3 : fh.rsv3 ≡ false

abbrev pub AcceptsAs : Opcode → StreamBase → FrameHeader → Type 0
AcceptsAs text s fh = Starts s fh
AcceptsAs binary s fh = Starts s fh
AcceptsAs cont s fh = Continues s fh
AcceptsAs close s fh = IsControl fh
AcceptsAs ping s fh = IsControl fh
AcceptsAs pong s fh = IsControl fh
AcceptsAs _ s fh = ⊥

-- Clients mask what they send, and servers do not.
abbrev pub Accepts : StreamBase → FrameHeader → Type 0
Accepts s fh = AcceptsAs fh.op s fh × (fh.mask ≡ not (is_client s.role))

-- The stream after an accepted header.
abbrev pub received_as : Opcode → StreamBase → FrameHeader → StreamBase
received_as text s fh = record s {
  rd = record (s.rd) { op = text; cont = not fh.fin; size = 0 };
  pmd = if is_set s.pmd then some (record { rd_set = fh.rsv1 }) else none;
}
received_as binary s fh = record s {
  rd = record (s.rd) { op = binary; cont = not fh.fin; size = 0 };
  pmd = if is_set s.pmd then some (record { rd_set = fh.rsv1 }) else none;
}
received_as cont s fh = record s { rd = record (s.rd) { cont = not fh.fin } }
received_as _ s fh = s

abbrev pub received : StreamBase → FrameHeader → StreamBase
received s fh = received_as fh.op s fh
