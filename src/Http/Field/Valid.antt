-- ===== src/Http/Field/Valid.antt =====
-- No field makes a parser expect both a length and chunks.
use remotedev.Base.{
  ℕ, ◌≡◌, refl, ◌∙◌, true, false, not, ◌||◌, List, [], ◌∷◌, ◌++◌, Bytes, length, if◌then◌else◌,
  both_branches,
}
use remotedev.Http.Chars.{strieq}
use remotedev.Http.Scan.{Scan, ok, no, fault, parse_dec}
use remotedev.Http.Parser.{Parser, Flags, bad_value, bad_content_length, bad_transfer_encoding}
use remotedev.Http.Parser.Valid.{IsValid, IsValid-keep, Fits-mono}
use remotedev.Http.Outcome.{Outcome, done, err}
use remotedev.Http.Lists.{validate_list, opt_token_list, token_list}
use remotedev.Http.Field.{
  close_token, keep_alive_token, upgrade_token, connection_name, proxy_connection_name,
  content_length_name, transfer_encoding_name, connection_options, all_text, ends_in_chunked,
  store_length, do_connection, do_content_length, do_transfer_encoding, do_field,
}

-- The flags that the framing goes by are the same.
abbrev SameFraming : Flags → Flags → Type 0
SameFraming f g =
    (f.content_length ≡ g.content_length) × (f.chunked ≡ g.chunked) × (f.need_eof ≡ g.need_eof)

SameFraming-trans : (f g h : Flags) → SameFraming f g → SameFraming g h → SameFraming f h
SameFraming-trans f g h a b = (a.0 ∙ b.0, a.1 ∙ b.1, a.2 ∙ b.2)

connection_options-SameFraming :
    (ss : List Bytes) (f : Flags) → SameFraming f (connection_options ss f)
unfolding connection_options
connection_options-SameFraming [] f = (refl, refl, refl)
connection_options-SameFraming (s ∷ ss) f =
    let g : Flags =
      if strieq close_token s
      then record f { connection_close = true }
      else if strieq keep_alive_token s
      then record f { connection_keep_alive = true }
      else if strieq upgrade_token s
      then record f { connection_upgrade = true }
      else f in
    let one : SameFraming f g =
      both_branches (SameFraming f) (strieq close_token s) _ _ (λ _. (refl, refl, refl))
        (λ _.
          both_branches (SameFraming f) (strieq keep_alive_token s) _ _ (λ _. (refl, refl, refl))
            (λ _.
              both_branches (SameFraming f) (strieq upgrade_token s) _ _ (λ _. (refl, refl, refl))
                (λ _. (refl, refl, refl)))) in
    SameFraming-trans f g (connection_options ss g) one (connection_options-SameFraming ss g)

-- A parser that is returned is valid.
abbrev pub Yields : Outcome Parser → Type 0
Yields (done p) = IsValid p
Yields _ = Unit

do_connection-IsValid : (value : Bytes) (p : Parser) → IsValid p → Yields (do_connection value p)
unfolding do_connection
do_connection-IsValid value p h =
    let s = connection_options-SameFraming (opt_token_list value) p.f in
    both_branches Yields (not (validate_list value)) (err bad_value)
      (done (record p { f = connection_options (opt_token_list value) p.f })) (λ _. tt)
      (λ _.
        IsValid-keep p (record p { f = connection_options (opt_token_list value) p.f }) refl s.0 s.1
          s.2 h)

store_length-IsValid :
    (m : Scan ℕ) (p : Parser) → p.f.chunked ≡ false → IsValid p → Yields (store_length m p)
unfolding store_length
store_length-IsValid (ok v _) p c h = (
  c,
  Fits-mono p.state p.f (record (p.f) { content_length = true }) (λ _. refl) (λ e. e) refl h.1,
)
store_length-IsValid no p c h = tt
store_length-IsValid fault p c h = tt

do_content_length-IsValid :
    (value mem : Bytes) (p : Parser) → IsValid p → Yields (do_content_length value mem p)
unfolding do_content_length
do_content_length-IsValid value mem p h =
    both_branches Yields p.f.content_length (err bad_content_length) _ (λ _. tt)
      λ _.
        both_branches Yields p.f.chunked (err bad_content_length) _ (λ _. tt)
          λ c. store_length-IsValid (parse_dec (length mem) (value ++ mem)) p c h

do_transfer_encoding-IsValid :
    (value : Bytes) (p : Parser) → IsValid p → Yields (do_transfer_encoding value p)
unfolding do_transfer_encoding
do_transfer_encoding-IsValid value p h =
    both_branches Yields p.f.chunked (err bad_transfer_encoding) _ (λ _. tt)
      λ c.
        both_branches Yields p.f.content_length (err bad_transfer_encoding) _ (λ _. tt)
          λ l.
            both_branches Yields (ends_in_chunked (token_list value))
              (done (record p { len = 0; f = record (p.f) { chunked = true } })) (done p)
              (λ _. (
                rw l refl,
                Fits-mono p.state p.f (record (p.f) { chunked = true }) (λ e. e) (λ _. refl) refl
                    h.1,
              ))
              (λ _. h)

-- A field leaves a valid parser valid.
pub do_field-IsValid :
    (name value mem : Bytes) (p : Parser) → IsValid p → Yields (do_field name value mem p)
unfolding do_field
do_field-IsValid name value mem p h =
    both_branches Yields (strieq connection_name name || strieq proxy_connection_name name) _ _
      (λ _. do_connection-IsValid value p h)
      λ _.
        both_branches Yields (not (all_text value)) (err bad_value) _ (λ _. tt)
          λ _.
            both_branches Yields (strieq content_length_name name) _ _
              (λ _. do_content_length-IsValid value mem p h)
              λ _.
                both_branches Yields (strieq transfer_encoding_name name) _ _
                  (λ _. do_transfer_encoding-IsValid value p h)
                  λ _.
                    both_branches Yields (strieq upgrade_token name)
                      (done (record p { f = record (p.f) { upgrade = true } })) (done p)
                      (λ _.
                        IsValid-keep p (record p { f = record (p.f) { upgrade = true } }) refl refl
                          refl refl h)
                      (λ _. h)
