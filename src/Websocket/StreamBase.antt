-- ===== src/Websocket/StreamBase.antt =====
-- include/beast/websocket/detail/stream_base.hpp: the state of a stream that its frame
-- operations read and write, `rd_begin` and `wr_begin`. An allocated buffer is its size; what it
-- holds is scratch.
pub mod Buffers
use remotedev.Base.{ℕ, Bool, true, false, not, ◌&&◌, ◌||◌, ◌==◌, if◌then◌else◌, Option, none, some}
use remotedev.Websocket.Opcode.{Opcode}

pub data Role : Type 0 where
  client server : Role

abbrev pub is_client : Role → Bool
is_client client = true
is_client server = false

-- The message being received.
pub record Rd : Type 0 where
  pub op : Opcode
  pub cont : Bool
  pub size : ℕ
  pub buf_size : ℕ
  pub buf : Option ℕ

-- The message being sent.
pub record Wr : Type 0 where
  pub cont : Bool
  pub autofrag : Bool
  pub compress : Bool
  pub buf_size : ℕ
  pub buf : Option ℕ

-- permessage-deflate, when it is in use: whether the message being read is compressed.
pub record Pmd : Type 0 where
  pub rd_set : Bool

pub record StreamBase : Type 0 where
  pub role : Role
  pub wr_autofrag : Bool
  pub wr_buf_size : ℕ
  pub rd_buf_size : ℕ
  pub rd : Rd
  pub wr : Wr
  pub pmd : Option Pmd

-- A pointer as a condition.
abbrev pub is_set {ℓ} : {A : Type ℓ} → Option A → Bool
is_set none = false
is_set (some _) = true

-- `! buf || buf_size != wanted`
abbrev stale : Option ℕ → ℕ → ℕ → Bool
stale buf size wanted = not (is_set buf) || not (size == wanted)

pub rd_begin : StreamBase → StreamBase
rd_begin s =
    if is_set s.pmd
    then (if stale s.rd.buf s.rd.buf_size s.rd_buf_size
        then record s { rd = record rd { buf_size = s.rd_buf_size; buf = some s.rd_buf_size } }
        else s)
    else s
  where
    open s use {rd}

pub wr_begin : StreamBase → StreamBase
wr_begin s =
    let w = record (s.wr) { autofrag = s.wr_autofrag; compress = is_set s.pmd } in
    record s {
      wr =
          if w.compress || is_client s.role
          then (if stale w.buf w.buf_size s.wr_buf_size
              then record w { buf_size = s.wr_buf_size; buf = some s.wr_buf_size }
              else w)
          else record w { buf_size = s.wr_buf_size; buf = none };
    }
