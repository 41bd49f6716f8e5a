-- ===== src/Websocket/Pmd/Agree.antt =====
-- A client that reads the server's answer agrees with the server.
use remotedev.Base.{
  ℕ, zero, suc, ◌≤◌, ◌≡◌, refl, subst, Bool, true, false, not, ◌&&◌, ◌||◌, Option, none, some, [],
  ◌∷◌, ◌++◌, Bytes, both_branches, Bool-cases, ltb, inl, inr, ◌==◌, if◌then◌else◌, arith,
}
use remotedev.Base.Int.{ℤ, pos, negsuc, int_lt, int_eq, int_min, codes, to_string}
use remotedev.Websocket.Pmd.{
  PmdOffer, PermessageDeflate, set_option, pmd_read, pmd_negotiate, negotiate_client, pmd_normalize,
  append_if,
}
use remotedev.Websocket.Pmd.Text.{IsServerBits, IsClientBits, bits_text, stated}
use remotedev.Websocket.Pmd.Written.{
  IsWritten, name-IsWritten, server_bits-IsWritten, client_bits-IsWritten,
  server_takeover-IsWritten, client_takeover-IsWritten, pmd_read-IsWritten, server_bits_name,
  client_bits_name,
}
use remotedev.Websocket.Pmd.Valid.{IsValidOffer, pmd_read-IsValidOffer}

-- What `set_option` takes.
abbrev IsBits : ℤ → Type 0
IsBits (pos n) = (9 ≤ n) × (n ≤ 15)
IsBits (negsuc n) = ⊥

set-IsBits : (v : ℤ) → (int_lt (pos 15) v || int_lt v (pos 9)) ≡ false → IsBits v
set-IsBits (pos n) h = ground arith
set-IsBits (negsuc n) h = absurd (cc)

abbrev AreBits : Option PermessageDeflate → Type 0
AreBits none = Unit
AreBits (some o) = IsBits o.server_max_window_bits × IsBits o.client_max_window_bits

set_option-AreBits : (o : PermessageDeflate) → AreBits (set_option o)
unfolding set_option
set_option-AreBits o =
    let v = o.server_max_window_bits in
    let w = o.client_max_window_bits in
    both_branches AreBits (int_lt (pos 15) v || int_lt v (pos 9)) none _ (λ _. tt)
      λ h.
        both_branches AreBits (int_lt (pos 15) w || int_lt w (pos 9)) none _ (λ _. tt)
          λ k.
            both_branches AreBits (int_lt o.comp_level (pos 0) || int_lt (pos 9) o.comp_level) none
              _ (λ _. tt)
              λ _.
                both_branches AreBits (int_lt o.mem_level (pos 1) || int_lt (pos 9) o.mem_level)
                  none (some o) (λ _. tt) λ _. (set-IsBits v h, set-IsBits w k)

-- Window bits from 8 to 15, written with the code that always writes them.
bits_written :
    (name s : Bytes) (n : ℕ)
    → 8 ≤ n
    → (s ++ (b';' ∷ b' ' ∷ (name ++ b'=' ∷ []))) ++ to_string (pos n) ≡ bits_text name s (pos n)
bits_written name s zero h = absurd (omega arith)
bits_written name s (suc n) h = let e : (suc n == 0) ≡ false = ground arith in rw e refl

stated_server : (n : ℕ) → 8 ≤ n → n ≤ 15 → IsServerBits (pos n)
stated_server zero h k = tt
stated_server (suc n) h k = (h, k)

stated_client : (n : ℕ) → 8 ≤ n → n ≤ 15 → IsClientBits (pos n)
stated_client zero h k = tt
stated_client (suc n) h k = (h, k)

-- What `pmd_normalize` makes of window bits.
abbrev normal_server : ℤ → ℤ
normal_server v = if int_eq v (pos 0) then pos 15 else v

abbrev normal_client : ℤ → ℤ
normal_client v = if int_eq v (pos 0) || int_eq v (negsuc 0) then pos 15 else v

normalize-stated :
    (v c : ℤ) (x y : Bool)
    → pmd_normalize (record (stated v c x y) { accept = true })
      ≡ record (stated (normal_server v) (normal_client c) x y) { accept = true }
unfolding pmd_normalize
normalize-stated v c x y = ground arith

-- The server's window bits in the answer: those of the configuration, and those written.
abbrev server_bits : ℤ → ℤ
server_bits least =
    if int_lt least (pos 15) then (if int_lt least (pos 9) then pos 9 else least) else least

abbrev server_text : ℤ → Bytes → Bytes
server_text least s =
    if int_lt least (pos 15)
    then (s ++ codes "; server_max_window_bits=") ++ to_string (server_bits least)
    else s

record ServerPart (least : ℤ) (s : Bytes) (x y : Bool) : Type 0 where
  told : ℤ
  is_written : IsWritten (server_text least s) (stated told (pos 0) x y)
  is_normal : normal_server told ≡ server_bits least

server_part :
    (n : ℕ) (s : Bytes) (x y : Bool)
    → 8 ≤ n
    → n ≤ 15
    → IsWritten s (stated (pos 0) (pos 0) x y)
    → ServerPart (pos n) s x y
server_part n s x y h k w = elim (Bool-cases (ltb n 15)) [
  | inr e ↦
      let is_15 : n ≡ 15 = ground arith in
      record { told = pos 0; is_written = rw e w; is_normal = rw is_15 refl }
  | inl e ↦ elim (Bool-cases (ltb n 9)) [
    | inl f ↦ record {
      told = pos 9;
      is_written =
          rw (e, f) (server_bits-IsWritten s (pos 9) (pos 0) x y (omega arith, omega arith) w);
      is_normal = rw (e, f) refl;
    }
    | inr f ↦
        let z : (n == 0) ≡ false = ground arith in
        record {
          told = pos n;
          is_written =
              rw (e, f, bits_written server_bits_name s n h)
                (server_bits-IsWritten s (pos n) (pos 0) x y (stated_server n h k) w);
          is_normal = rw (e, f, z) refl;
        }
  ]
]

-- The client's window bits in the answer, where it is accepted.
abbrev ClientPart : ℤ → Bool → Bool → ℤ × Bytes × Bool → Type 0
ClientPart v x y (bits, s, accept) =
    accept ≡ true → (told : ℤ) × IsWritten s (stated v told x y) × (normal_client told ≡ bits)

told_bits :
    (v : ℤ) (n : ℕ) (s : Bytes) (x y : Bool)
    → 8 ≤ n
    → n ≤ 15
    → IsWritten s (stated v (pos 0) x y)
    → ClientPart v x y (pos n, (s ++ codes "; client_max_window_bits=") ++ to_string (pos n), true)
told_bits v n s x y h k w =
    let z : (n == 0) ≡ false = ground arith in
    λ _. (
      pos n,
      rw (bits_written client_bits_name s n h)
          (client_bits-IsWritten s v (pos n) x y (stated_client n h k) w),
      rw z refl,
    )

client_part :
    (offered wanted bits v : ℤ) (s : Bytes) (x y : Bool)
    → IsClientBits offered
    → IsBits wanted
    → IsWritten s (stated v (pos 0) x y)
    → ClientPart v x y (negotiate_client offered wanted bits s)
unfolding negotiate_client
client_part offered (negsuc k) bits v s x y h b w = absurd b
client_part (negsuc n) (pos k) bits v s x y h b w = rw h (elim (Bool-cases (ltb k 15)) [
  | inl e ↦ rw e (told_bits v k s x y (omega arith) b.1 w)
  | inr e ↦ let is_15 : k ≡ 15 = ground arith in rw is_15 (λ _. (pos 0, w, refl))
])
client_part (pos zero) (pos k) bits v s x y h b w =
    both_branches (ClientPart v x y) (k == 15) (pos 15, s, true) (bits, s, false)
      (λ _ _. (pos 0, w, refl)) λ _ f. absurd (cc)
client_part (pos (suc n)) (pos k) bits v s x y h b w =
    let z : (suc n == 0) ≡ false = ground arith in
    rw z (elim (Bool-cases (ltb (suc n) k)) [
      | inl e ↦ rw e (told_bits v (suc n) s x y h.0 h.1 w)
      | inr e ↦ rw e (told_bits v k s x y (omega arith) b.1 w)
    ])

-- The bits that the server may use, before 8 is raised to 9.
least_bits :
    (offered wanted : ℤ)
    → IsServerBits offered
    → IsBits wanted
    → (n : ℕ) × ((if not (int_eq offered (pos 0)) then int_min offered wanted else wanted) ≡ pos n)
      × (8 ≤ n)
      × (n ≤ 15)
least_bits offered (negsuc k) h b = absurd b
least_bits (negsuc n) wanted h b = absurd h
least_bits (pos zero) (pos k) h b = (k, refl, omega arith, b.1)
least_bits (pos (suc n)) (pos k) h b =
    let z : (suc n == 0) ≡ false = ground arith in
    elim (Bool-cases (ltb k (suc n))) [
      | inl e ↦ (k, rw (z, e) refl, omega arith, b.1)
      | inr e ↦ (suc n, rw (z, e) refl, h.0, h.1)
    ]

-- The answer is read as the configuration.
abbrev Agrees : PmdOffer × Option Bytes → Type 0
Agrees (config, none) = Unit
Agrees (config, some s) =
    (read : PmdOffer) × (pmd_read s ≡ some read) × (pmd_normalize read ≡ config)

answer-Agrees :
    (v bits : ℤ) (x y : Bool) (r : ℤ × Bytes × Bool)
    → normal_server v ≡ bits
    → ClientPart v x y r
    → Agrees (
      record {
        accept = r.2;
        server_max_window_bits = bits;
        client_max_window_bits = r.0;
        server_no_context_takeover = x;
        client_no_context_takeover = y;
      },
      if r.2 then some r.1 else none,
    )
answer-Agrees v bits x y (c, s, false) e p = tt
answer-Agrees v bits x y (c, s, true) e p =
    let (told, w, f) = p refl in
    (
      record (stated v told x y) { accept = true },
      pmd_read-IsWritten w,
      rw (normalize-stated v told x y, e, f) refl,
    )

negotiate-Agrees :
    (config offer : PmdOffer) (o : PermessageDeflate)
    → IsValidOffer offer
    → IsBits o.server_max_window_bits
    → IsBits o.client_max_window_bits
    → Agrees (pmd_negotiate config offer o)
unfolding pmd_negotiate
negotiate-Agrees config offer o valid bs bc =
    let x = offer.server_no_context_takeover || o.server_no_context_takeover in
    let y = o.client_no_context_takeover || offer.client_no_context_takeover in
    let s1 = append_if x (codes "; server_no_context_takeover") (codes "permessage-deflate") in
    let s2 = append_if y (codes "; client_no_context_takeover") s1 in
    let (n, e, h, k) =
      least_bits offer.server_max_window_bits o.server_max_window_bits valid.0 bs in
    let w : IsWritten s2 (stated (pos 0) (pos 0) x y) =
      client_takeover-IsWritten s1 (pos 0) (pos 0) x y (
        server_takeover-IsWritten (codes "permessage-deflate") (pos 0) (pos 0) x false
          name-IsWritten) in
    let p : ServerPart (pos n) s2 x y = server_part n s2 x y h k w in
    let r =
      negotiate_client offer.client_max_window_bits o.client_max_window_bits
        config.client_max_window_bits (server_text (pos n) s2) in
    both_branches Agrees (not (offer.accept && o.server_enable)) _ _ (λ _. tt)
      λ _. rw e (
        answer-Agrees p.told (server_bits (pos n)) x y r p.is_normal (
          client_part offer.client_max_window_bits o.client_max_window_bits
            config.client_max_window_bits p.told (server_text (pos n) s2) x y valid.1 bc
            p.is_written))

-- Both sides of a handshake agree. A server reads an offer that it accepts from a field `fields`,
-- which holds anything, and answers it with options that `set_option` takes. Where it writes an
-- answer, `pmd_read` reads the answer, and what `pmd_normalize` makes of what is read is the
-- server's own configuration.
pub pmd_negotiate-agrees :
    (fields answer : Bytes) (config offer result : PmdOffer) (o options : PermessageDeflate)
    → pmd_read fields ≡ some offer
    → offer.accept ≡ true
    → set_option o ≡ some options
    → pmd_negotiate config offer options ≡ (result, some answer)
    → (read : PmdOffer) × (pmd_read answer ≡ some read) × (pmd_normalize read ≡ result)
pmd_negotiate-agrees fields answer config offer result o options h a s n =
    let valid = pmd_read-IsValidOffer fields offer h a in
    let bits = subst AreBits s (set_option-AreBits o) in
    subst Agrees n (negotiate-Agrees config offer options valid bits.0 bits.1)

-- Where the offer states 8 window bits for the server, and the server does not turn the extension
-- off, the configuration has 9, more than the client offers.
pmd_negotiate_raises :
    (config offer : PmdOffer) (o options : PermessageDeflate)
    → offer.accept ≡ true
    → offer.server_max_window_bits ≡ pos 8
    → set_option o ≡ some options
    → options.server_enable ≡ true
    → (pmd_negotiate config offer options).0.server_max_window_bits ≡ pos 9
unfolding pmd_negotiate
pmd_negotiate_raises config offer o options a b s t =
    rw (a, t, b) (raised options.server_max_window_bits (subst AreBits s (set_option-AreBits o)).0)
  where
    raised : (v : ℤ) → IsBits v → server_bits (int_min (pos 8) v) ≡ pos 9
    raised (pos n) h = let e : ltb n 8 ≡ false = ground arith in rw e refl
    raised (negsuc n) h = absurd h
