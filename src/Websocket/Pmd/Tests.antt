-- ===== src/Websocket/Pmd/Tests.antt =====
-- A client that offers 10 bits for the server and leaves its own to the server, which allows 12.
use remotedev.Base.{◌≡◌, refl, true, false, some, Bytes, arith}
use remotedev.Base.Int.{pos, negsuc, codes, to_string}
use remotedev.Websocket.Pmd.{
  PmdOffer, PermessageDeflate, set_option, no_offer, pmd_read, pmd_write, pmd_negotiate,
  pmd_normalize,
}
use remotedev.Websocket.Pmd.RoundTrip.{pmd_read-pmd_write}
use remotedev.Websocket.Pmd.Valid.{IsValidOffer, pmd_read-IsValidOffer}
use remotedev.Websocket.Pmd.Agree.{pmd_negotiate-agrees}

abbrev offered : PmdOffer
offered = record {
  accept = true;
  server_max_window_bits = pos 10;
  client_max_window_bits = negsuc 0;
  server_no_context_takeover = false;
  client_no_context_takeover = true;
}

abbrev eight_offered : PmdOffer
eight_offered = record offered { server_max_window_bits = pos 8 }

abbrev allowed : PermessageDeflate
allowed = record {
  server_enable = true;
  client_enable = true;
  server_max_window_bits = pos 15;
  client_max_window_bits = pos 12;
  server_no_context_takeover = true;
  client_no_context_takeover = false;
  comp_level = pos 8;
  mem_level = pos 4;
}

pmd_read-pmd_write_example : pmd_read (pmd_write offered) ≡ some offered
pmd_read-pmd_write_example = pmd_read-pmd_write offered (omega arith, omega arith) refl

pmd_read-IsValidOffer_example : IsValidOffer offered
pmd_read-IsValidOffer_example =
    pmd_read-IsValidOffer (pmd_write offered) offered
      (pmd_read-pmd_write offered (omega arith, omega arith) refl) refl

abbrev agreed : PmdOffer
agreed = record {
  accept = true;
  server_max_window_bits = pos 10;
  client_max_window_bits = pos 12;
  server_no_context_takeover = true;
  client_no_context_takeover = true;
}

abbrev answered : Bytes
answered =
    codes
      "permessage-deflate; server_no_context_takeover; client_no_context_takeover; server_max_window_bits=10; client_max_window_bits=12"

allowed_set : set_option allowed ≡ some allowed
unfolding set_option
allowed_set = refl

answer_written : pmd_negotiate no_offer offered allowed ≡ (agreed, some answered)
unfolding pmd_negotiate to_string
answer_written = refl

pmd_negotiate-agrees_example :
    (read : PmdOffer) × (pmd_read answered ≡ some read) × (pmd_normalize read ≡ agreed)
pmd_negotiate-agrees_example =
    pmd_negotiate-agrees (pmd_write offered) answered no_offer offered agreed allowed allowed
      (pmd_read-pmd_write offered (omega arith, omega arith) refl) refl allowed_set answer_written
