-- ===== src/Websocket/Pmd/RoundTrip.antt =====
-- An offer that a client writes is the one that a server reads.
use remotedev.Base.{◌≡◌, true, false, some}
use remotedev.Base.Int.{pos}
use remotedev.Websocket.Pmd.{PmdOffer, pmd_read, pmd_write}
use remotedev.Websocket.Pmd.Text.{IsServerBits, IsClientBits}
use remotedev.Websocket.Pmd.Written.{
  name-IsWritten, server_bits-IsWritten, client_bits-IsWritten, server_takeover-IsWritten,
  client_takeover-IsWritten, pmd_read-IsWritten,
}

-- An offer that `pmd_write` writes, `pmd_read` reads: it is accepted and states what was written.
-- The server's window bits are none or from 8 to 15, and so are the client's, or -1.
pub pmd_read-pmd_write :
    (o : PmdOffer)
    → IsServerBits o.server_max_window_bits
    → IsClientBits o.client_max_window_bits
    → pmd_read (pmd_write o) ≡ some (record o { accept = true })
unfolding pmd_write
pmd_read-pmd_write o s c =
    let v = o.server_max_window_bits in
    let w = o.client_max_window_bits in
    let x = o.server_no_context_takeover in
    pmd_read-IsWritten (
      client_takeover-IsWritten _ v w x o.client_no_context_takeover (
        server_takeover-IsWritten _ v w x false (
          client_bits-IsWritten _ v w false false c
            (server_bits-IsWritten _ v (pos 0) false false s name-IsWritten))))
