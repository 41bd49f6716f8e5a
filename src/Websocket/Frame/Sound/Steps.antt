-- ===== src/Websocket/Frame/Sound/Steps.antt =====
-- The steps of reading a header, each with what it says of the octets when it does not fail.
use remotedev.Base.{
  ℕ, ◌^◌, ◌<◌, ◌≡◌, refl, ◌⊎◌, Bool, true, false, not, [], ◌∷◌, ◌++◌, Option, none, some, Bytes,
  AreOctets, ◌==◌, if◌then◌else◌, arith,
}
use remotedev.Websocket.Opcode.{Opcode, cont, text, binary, is_reserved, is_control, no_code}
use remotedev.Websocket.Endian.{
  BigEndian, native_to_little_uint32, big16-lt, big64-lt, put16_big, put64_big,
  native_to_little-little, little-lt,
}
use remotedev.Websocket.StreamBase.{StreamBase, Role, client, server, is_client}
use remotedev.Websocket.Frame.{
  FrameHeader, Fh, fh1_switch, wrong_mask, fh1_check, length16, length64, fh2_length, fh2_key,
  fh2_finish, fh2_rest, read_fh2,
}
use remotedev.Websocket.Frame.Accepts.{Starts, AcceptsAs, received_as}
use remotedev.Websocket.Frame.Codec.{short_len, extension, passed}

-- Acceptance but for the room left in a message, which the first part does not check.
abbrev pub Passes : Opcode → StreamBase → FrameHeader → Type 0
Passes text s fh = Starts s fh
Passes binary s fh = Starts s fh
Passes cont s fh = (s.rd.cont ≡ true) × (fh.rsv1 ≡ false) × (fh.rsv2 ≡ false) × (fh.rsv3 ≡ false)
Passes op s fh = AcceptsAs op s fh

pub switch_sound :
    (op : Opcode) (s : StreamBase) (fh : FrameHeader)
    → fh.op ≡ op
    → (fh1_switch op s fh).1 ≡ true
    → Passes op s fh × ((fh1_switch op s fh).0 ≡ passed op s fh)
unfolding fh1_switch is_reserved
switch_sound text s fh e a = ground arith
switch_sound binary s fh e a = ground arith
switch_sound cont s fh e a = ground arith
switch_sound _ s fh e a = ground arith

-- With the length read in full, and the key.
pub finish_sound :
    (op : Opcode) (s : StreamBase) (f : FrameHeader) (n k : ℕ)
    → f.op ≡ op
    → f.len ≡ short_len n
    → Passes op s f
    → (fh2_finish (passed op s f) (record f { len = n; key = k })).1 ≡ no_code
    → AcceptsAs op s (record f { len = n; key = k })
      × ((fh2_finish (passed op s f) (record f { len = n; key = k })).0
          ≡ received_as op s (record f { len = n; key = k }))
unfolding fh2_finish is_control
finish_sound text s f n k e l p h = ground arith
finish_sound binary s f n k e l p h = ground arith
finish_sound cont s f n k e l p h = ground arith
finish_sound _ s f n k e l p h = ground arith

pub mask_sound : (r : Role) (m : Bool) → wrong_mask r m ≡ false → m ≡ not (is_client r)
unfolding wrong_mask
mask_sound client m e = ground arith
mask_sound server m e = ground arith

module _ (be : BigEndian) where
  -- The length's octets are those that are written for it.
  length16_sound :
      (db : Bytes) {len : ℕ} {r : Bytes}
      → AreOctets db
      → length16 db ≡ some (len, true, r)
      → (db ≡ extension be len ++ r) × (short_len len ≡ 126) × (len < 2 ^ 64) × AreOctets r
  unfolding length16
  length16_sound (a ∷ b ∷ db) {len} {r} o h =
      ground (arith, be.put16_lem len, put16_big a b, big16-lt a b)
  length16_sound (a ∷ []) o h = ground arith
  length16_sound [] o h = ground arith

  length64_sound :
      (db : Bytes) {len : ℕ} {r : Bytes}
      → AreOctets db
      → length64 db ≡ some (len, true, r)
      → (db ≡ extension be len ++ r) × (short_len len ≡ 127) × (len < 2 ^ 64) × AreOctets r
  unfolding length64
  length64_sound (a ∷ b ∷ c ∷ d ∷ e ∷ f ∷ g ∷ h ∷ db) {len} {r} o p =
      ground (arith, be.put64_lem len, put64_big a b c d e f g h, big64-lt a b c d e f g h)
  length64_sound [] o p = ground arith
  length64_sound (a ∷ []) o p = ground arith
  length64_sound (a ∷ b ∷ []) o p = ground arith
  length64_sound (a ∷ b ∷ c ∷ []) o p = ground arith
  length64_sound (a ∷ b ∷ c ∷ d ∷ []) o p = ground arith
  length64_sound (a ∷ b ∷ c ∷ d ∷ e ∷ []) o p = ground arith
  length64_sound (a ∷ b ∷ c ∷ d ∷ e ∷ f ∷ []) o p = ground arith
  length64_sound (a ∷ b ∷ c ∷ d ∷ e ∷ f ∷ g ∷ []) o p = ground arith

  pub length_sound :
      (n : ℕ) (db : Bytes) {len : ℕ} {r : Bytes}
      → n < 128
      → AreOctets db
      → fh2_length n db ≡ some (len, true, r)
      → (db ≡ extension be len ++ r) × (short_len len ≡ n) × (len < 2 ^ 64) × AreOctets r
  unfolding fh2_length
  length_sound n db {len} {r} lt o h =
      ground
        (arith, length16_sound db {len = len} {r = r} o, length64_sound db {len = len} {r = r} o)

pub key_sound :
    (mask : Bool) (db : Bytes) {key : ℕ} {r : Bytes}
    → AreOctets db
    → fh2_key mask db ≡ some (key, r)
    → (db ≡ (if mask then native_to_little_uint32 key else []) ++ r)
      × (key < 2 ^ 32)
      × ((mask ≡ true) ⊎ (key ≡ 0))
unfolding fh2_key
key_sound true (a ∷ b ∷ c ∷ d ∷ db) o h =
    ground (arith, native_to_little-little a b c d, little-lt a b c d)
key_sound true [] o h = ground arith
key_sound true (a ∷ []) o h = ground arith
key_sound true (a ∷ b ∷ []) o h = ground arith
key_sound true (a ∷ b ∷ c ∷ []) o h = ground arith
key_sound false db o h = ground arith

pub check_sound :
    (s : StreamBase) (f : FrameHeader) (db : Bytes)
    → ((fh1_check s f db).close_code == no_code) ≡ true
    → ((fh1_switch f.op s f).1 ≡ true)
      × (wrong_mask s.role f.mask ≡ false)
      × ((fh1_check s f db).stream ≡ (fh1_switch f.op s f).0)
      × ((fh1_check s f db).fh ≡ f)
      × ((fh1_check s f db).db ≡ db)
unfolding fh1_check
check_sound s f db h = ground arith

-- The steps of a second part that ends without an error.
pub record Second (s : StreamBase) (f : FrameHeader) (db : Bytes) (r : Fh) : Type 0 where
  pub rest : Bytes
  pub length_read : fh2_length f.len db ≡ some (r.fh.len, true, rest)
  pub key_read : fh2_key f.mask rest ≡ some (r.fh.key, r.db)
  pub header_is : r.fh ≡ record f { len = r.fh.len; key = r.fh.key }
  pub finished : fh2_finish s r.fh ≡ (r.stream, no_code)

fh2_rest_steps :
    (s : StreamBase) (f : FrameHeader) (db : Bytes) {r : Fh}
    → fh2_rest s f db ≡ some r
    → r.close_code ≡ no_code
    → (fh2_key f.mask db ≡ some (r.fh.key, r.db))
      × (r.fh ≡ record f { key = r.fh.key })
      × (fh2_finish s r.fh ≡ (r.stream, no_code))
unfolding fh2_rest
fh2_rest_steps s f db e c = ground arith

pub read_fh2_steps :
    (s : StreamBase) (f : FrameHeader) (db : Bytes) {r : Fh}
    → read_fh2 s f db ≡ some r
    → r.close_code ≡ no_code
    → Second s f db r
unfolding read_fh2
read_fh2_steps s f db {r} e c = go (fh2_length f.len db) refl
  where
    go : (o : Option (ℕ × Bool × Bytes)) → fh2_length f.len db ≡ o → Second s f db r
    go none p = ground arith
    go (some (len, false, db')) p = ground arith
    go (some (len, true, db')) p =
        let q = fh2_rest_steps s (record f { len = len }) db' {r = r} (ground arith) c in
        record {
          rest = db';
          length_read = ground arith;
          key_read = q.0;
          header_is = ground arith;
          finished = q.2;
        }
