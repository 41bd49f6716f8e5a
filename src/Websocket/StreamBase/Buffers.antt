-- ===== src/Websocket/StreamBase/Buffers.antt =====
-- The scratch buffers of a stream have the size that the stream has recorded for them.
use remotedev.Base.{ℕ, ◌||◌, ◌≡◌, Option, none, some, if◌then◌else◌, arith}
use remotedev.Websocket.StreamBase.{StreamBase, is_client, is_set, rd_begin, wr_begin}

-- An allocated buffer has the recorded size.
abbrev IsSized : Option ℕ → ℕ → Type 0
IsSized none n = Unit
IsSized (some m) n = m ≡ n

pub record BuffersAreSized (s : StreamBase) : Type 0 where
  pub rd_sized : IsSized s.rd.buf s.rd.buf_size
  pub wr_sized : IsSized s.wr.buf s.wr.buf_size

-- If both allocated buffers have their recorded sizes, they have after `rd_begin`, which leaves a
-- compressed stream with a read buffer of the size now asked for, and touches no other.
rd_begin-BuffersAreSized :
    (s : StreamBase)
    → BuffersAreSized s
    → BuffersAreSized (rd_begin s)
      × ((rd_begin s).rd.buf ≡ (if is_set s.pmd then some s.rd_buf_size else s.rd.buf))
      × ((rd_begin s).wr ≡ s.wr)
unfolding rd_begin
rd_begin-BuffersAreSized s v = ground arith

-- If both allocated buffers have their recorded sizes, they have after `wr_begin`, which leaves a
-- write buffer of the size now asked for if the stream compresses or is a client's, and none
-- otherwise.
wr_begin-BuffersAreSized :
    (s : StreamBase)
    → BuffersAreSized s
    → BuffersAreSized (wr_begin s)
      × ((wr_begin s).wr.buf
          ≡ (if is_set s.pmd || is_client s.role then some s.wr_buf_size else none))
      × ((wr_begin s).wr.buf_size ≡ s.wr_buf_size)
      × ((wr_begin s).wr.compress ≡ is_set s.pmd)
      × ((wr_begin s).rd ≡ s.rd)
unfolding wr_begin
wr_begin-BuffersAreSized s v = ground arith
