-- ===== src/Websocket/Ping.antt =====
-- include/beast/websocket/detail/stream_base.hpp (write_ping) and detail/frame.hpp (read of
-- ping_data). The address is that of the octets in the dynamic buffer.
mod Tests
use mathlib.Core.List.{append_assoc, append-nil}
use remotedev.Base.{
  ℕ, ◌^◌, ◌≤◌, ◌<◌, ◌≡◌, not, Bool, true, false, Option, some, none, List, [], ◌∷◌, ◌++◌, Bytes,
  AreOctets, All, flatten, length, leb, if◌then◌else◌, refl, sym, ap, ◌∙◌, inl, inr, if_true, subst,
  arith,
}
use remotedev.Websocket.Opcode.{Opcode, ping, pong, no_code}
use remotedev.Websocket.Endian.{BigEndian}
use remotedev.Websocket.StreamBase.{StreamBase, Role, client, server, is_client}
use remotedev.Websocket.Frame.{FrameHeader, write, read_header}
use remotedev.Websocket.Frame.Accepts.{IsWritable, Accepts, IsControl, received}
use remotedev.Websocket.Frame.Codec.{read_header-write}
use remotedev.Websocket.Mask.Rotation.{octets}
use remotedev.Websocket.Mask.{mask_inplace, mask_inplace_nil, prepare_key32, prepare_key64}
use remotedev.Websocket.Close.{unmasked}

-- `read` of a ping_data; none is the failed BOOST_ASSERT.
pub read_ping : List Bytes → Option Bytes
read_ping bs = if leb (length (flatten bs)) 125 then some (flatten bs) else none

-- The key of a header without a mask is not set, and not written.
pub ping_header : Role → ℕ → Opcode → Bytes → FrameHeader
ping_header role key op payload = record {
  op = op;
  fin = true;
  mask = is_client role;
  rsv1 = false;
  rsv2 = false;
  rsv3 = false;
  len = length payload;
  key = if is_client role then key else 0;
}

-- The octets behind the header.
pub ping_payload : Role → ℕ → ℕ → Bytes → Bytes
ping_payload role key addr [] = []
ping_payload client key addr (x ∷ r) = (mask_inplace 8 ((addr, x ∷ r) ∷ []) (prepare_key64 key)).0
ping_payload server key addr (x ∷ r) = x ∷ r

module _ (be : BigEndian) where
  -- `key` is what `maskgen_` gives.
  pub write_ping : Role → ℕ → ℕ → Bytes → Opcode → Bytes → Bytes
  write_ping role key addr db op payload =
      write be db (ping_header role key op payload) ++ ping_payload role key addr payload

abbrev IsPing : Opcode → Type 0
IsPing ping = Unit
IsPing pong = Unit
IsPing _ = ⊥

abbrev pieces : ℕ → Bytes → List (ℕ × Bytes)
pieces addr [] = []
pieces addr (x ∷ r) = (addr, x ∷ r) ∷ []

pieces-octets : (addr : ℕ) (payload : Bytes) → octets (pieces addr payload) ≡ payload
pieces-octets addr [] = refl
pieces-octets addr (x ∷ r) = append-nil (x ∷ r)

pieces-AreOctets :
    (addr : ℕ) (payload : Bytes)
    → AreOctets payload
    → All (λ (p : ℕ × Bytes). AreOctets p.1) (pieces addr payload)
pieces-AreOctets addr [] o = tt
pieces-AreOctets addr (x ∷ r) o = (o, tt)

payload_sent :
    (role : Role) (key addr : ℕ) (payload : Bytes)
    → (if is_client role
        then (mask_inplace 8 (pieces addr payload) (prepare_key64 key)).0
        else octets (pieces addr payload))
      ≡ ping_payload role key addr payload
unfolding ping_payload
payload_sent client key addr [] =
    ap (λ (m : Bytes × ℕ). m.0) (mask_inplace_nil 8 (prepare_key64 key))
payload_sent server key addr [] = refl
payload_sent client key addr (x ∷ r) = refl
payload_sent server key addr (x ∷ r) = append-nil (x ∷ r)

other_side : (a b : Bool) → b ≡ not a → a ≡ not b
other_side true b e = ground arith
other_side false b e = ground arith

ping_header-IsControl :
    (role : Role) (key : ℕ) (op : Opcode) (payload : Bytes)
    → length payload ≤ 125
    → IsControl (ping_header role key op payload)
unfolding ping_header
ping_header-IsControl role key op payload l = record {
  whole = refl;
  short = l;
  clear1 = refl;
  clear2 = refl;
  clear3 = refl;
}

-- The header as the other side takes it.
ping_header-Accepts :
    (role : Role) (key : ℕ) (op : Opcode) (payload : Bytes) (s : StreamBase)
    → IsPing op
    → is_client s.role ≡ not (is_client role)
    → length payload ≤ 125
    → Accepts s (ping_header role key op payload)
      × (received s (ping_header role key op payload) ≡ s)
unfolding ping_header
ping_header-Accepts role key ping payload s p r l = (
  (ping_header-IsControl role key ping payload l, other_side (is_client role) (is_client s.role) r),
  refl,
)
ping_header-Accepts role key pong payload s p r l = (
  (ping_header-IsControl role key pong payload l, other_side (is_client role) (is_client s.role) r),
  refl,
)
ping_header-Accepts role key _ payload s p r l = absurd p

ping_header-IsWritable :
    (role : Role) (key : ℕ) (op : Opcode) (payload : Bytes)
    → key < 2 ^ 32
    → length payload ≤ 125
    → IsWritable (ping_header role key op payload)
unfolding ping_header
ping_header-IsWritable client key op payload k l = record {
  len_fits = omega arith;
  key_fits = k;
  no_key = inl refl;
}
ping_header-IsWritable server key op payload k l = record {
  len_fits = omega arith;
  key_fits = omega arith;
  no_key = inr refl;
}

read_fits :
    (bs : List Bytes) (xs : Bytes) → flatten bs ≡ xs → length xs ≤ 125 → read_ping bs ≡ some xs
unfolding read_ping
read_fits bs xs e l = rw e (if_true {b = leb (length xs) 125} _ _ (ground arith))

payload_arrives :
    (role : Role) (key addr : ℕ) (op : Opcode) (payload : Bytes) (cs : List (ℕ × Bytes))
    → key < 2 ^ 32
    → AreOctets payload
    → length payload ≤ 125
    → All (λ (p : ℕ × Bytes). AreOctets p.1) cs
    → octets cs ≡ ping_payload role key addr payload
    → let fh = ping_header role key op payload in
      read_ping ((if fh.mask then (mask_inplace 4 cs (prepare_key32 fh.key)).0 else octets cs) ∷ [])
      ≡ some payload
unfolding ping_header
payload_arrives role key addr op payload cs k o l oc e =
    let ps = pieces addr payload in
    let u =
      unmasked role key ps cs k (pieces-AreOctets addr payload o) oc
        (payload_sent role key addr payload ∙ sym e)
      ∙ pieces-octets addr payload in
    read_fits _ payload (by_role role u) l
  where
    by_role :
        (role : Role)
        → (if is_client role then (mask_inplace 4 cs (prepare_key32 key)).0 else octets cs)
          ≡ payload
        → flatten (
            (if is_client role
              then (mask_inplace 4 cs (prepare_key32 (if is_client role then key else 0))).0
              else octets cs)
            ∷ [])
          ≡ payload
    by_role client u = append-nil _ ∙ u
    by_role server u = append-nil _ ∙ u

module _ (be : BigEndian) where
  header_arrives :
      (role : Role) (key addr : ℕ) (op : Opcode) (payload rest : Bytes) (s : StreamBase)
      (fh0 : FrameHeader) (cs : List (ℕ × Bytes))
      → key < 2 ^ 32
      → IsPing op
      → is_client s.role ≡ not (is_client role)
      → length payload ≤ 125
      → octets cs ≡ ping_payload role key addr payload
      → let fh = ping_header role key op payload in
        read_header s fh0 (write_ping be role key addr [] op payload ++ rest)
        ≡ some
            (record { stream = s; fh = fh; db = octets cs ++ rest; close_code = no_code; need = 0 })
  unfolding write_ping
  header_arrives role key addr op payload rest s fh0 cs k p r l e =
      let fh = ping_header role key op payload in
      let (a, same) = ping_header-Accepts role key op payload s p r l in
      rw (append_assoc (write be [] fh) (ping_payload role key addr payload) rest, sym e)
        (read_header-write be s fh fh0 (octets cs ++ rest)
            (ping_header-IsWritable role key op payload k l) a
          ∙ ap
              (λ (t : StreamBase). some (record {
                stream = t;
                fh = fh;
                db = octets cs ++ rest;
                close_code = no_code;
                need = 0;
              }))
              same)

  -- A ping or a pong arrives: the stream on the other side reads the header that `write_ping` wrote
  -- in front of its octets, is left as it was, and finds the octets of the payload next, with
  -- anything behind them; in whatever buffers `cs` they arrive, `mask_inplace` where the header has a
  -- mask and then `read` give the payload. It is of at most 125 octets, and the key is of 32 bits.
  pub read_ping-write_ping :
      (role : Role) (key addr : ℕ) (op : Opcode) (payload rest : Bytes) (s : StreamBase)
      (fh0 : FrameHeader) (cs : List (ℕ × Bytes))
      → key < 2 ^ 32
      → IsPing op
      → is_client s.role ≡ not (is_client role)
      → AreOctets payload
      → length payload ≤ 125
      → All (λ (p : ℕ × Bytes). AreOctets p.1) cs
      → octets cs ≡ ping_payload role key addr payload
      → let fh = ping_header role key op payload in
        (read_header s fh0 (write_ping be role key addr [] op payload ++ rest)
          ≡ some (record {
            stream = s;
            fh = fh;
            db = octets cs ++ rest;
            close_code = no_code;
            need = 0;
          }))
        × (read_ping
              ((if fh.mask then (mask_inplace 4 cs (prepare_key32 fh.key)).0 else octets cs) ∷ [])
            ≡ some payload)
  read_ping-write_ping role key addr op payload rest s fh0 cs k p r o l oc e = (
    header_arrives role key addr op payload rest s fh0 cs k p r l e,
    payload_arrives role key addr op payload cs k o l oc e,
  )
