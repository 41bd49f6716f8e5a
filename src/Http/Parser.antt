-- ===== src/Http/Parser.antt =====
-- include/beast/http/basic_parser.hpp and impl/basic_parser.ipp: the parser's state, what follows
-- the header, and the body. The flags of `f_` are Booleans. The derived class, which the parser
-- calls, is a type `D` of states with the functions of `Derived`; an error code is an `Option`.
pub mod Framing
pub mod Valid
pub mod Body
pub mod Flatten
use remotedev.Base.{
  flatten, ℕ, zero, suc, ◌+◌, ◌-◌, ◌/◌, Bool, true, false, not, ◌&&◌, ◌||◌, Option, none, some,
  List, [], ◌∷◌, ◌++◌, Bytes, length, drop, take, replicate, ltb, leb, ◌==◌, if◌then◌else◌, ◌>>=◌,
}

-- `error`, and what a derived class reports.
pub data Error : Type 0 where
  end_of_stream partial_message buffer_overflow bad_line_ending bad_method bad_path : Error
  bad_version bad_status bad_reason bad_field bad_value bad_content_length : Error
  bad_transfer_encoding bad_chunk : Error
  derived : ℕ → Error

pub data ParseState : Type 0 where
  header body body_to_eof chunk_header chunk_body complete : ParseState

pub record Flags : Type 0 where
  pub skip_body : Bool
  pub on_body : Bool
  pub got_some : Bool
  pub has_body : Bool
  pub http11 : Bool
  pub need_eof : Bool
  pub expect_crlf : Bool
  pub final_chunk : Bool
  pub connection_close : Bool
  pub connection_upgrade : Bool
  pub connection_keep_alive : Bool
  pub content_length : Bool
  pub chunked : Bool
  pub upgrade : Bool

pub record Parser : Type 0 where
  pub len : ℕ
  pub buf : Bytes
  pub buf_len : ℕ
  pub skip : ℕ
  pub x : ℕ
  pub f : Flags
  pub state : ParseState
  pub ext : Bytes
  pub body_view : Bytes

-- The functions of the derived class that the body uses: `on_body` with the length and without,
-- `on_data` and `on_complete`.
pub record Derived (D : Type 0) : Type 0 where
  pub on_body_length : ℕ → D → D × Option Error
  pub on_body : D → D × Option Error
  pub on_data : Bytes → D → D × Option Error
  pub on_complete : D → D × Option Error

-- What a step leaves: the octets used, the error code, the parser and the derived class.
pub record Step (D : Type 0) : Type 0 where
  pub used : ℕ
  pub ec : Option Error
  pub parser : Parser
  pub derived_state : D

-- none is a failed BOOST_ASSERT, here and in `is_keep_alive`, `consume` and `write_eof`.
unfoldable pub skip_body : Parser → Option Parser
skip_body p =
    if not p.f.got_some then some (record p { f = record (p.f) { skip_body = true } }) else none

abbrev got_header : ParseState → Bool
got_header header = false
got_header _ = true

pub is_keep_alive : Parser → Option Bool
is_keep_alive p =
    if got_header p.state
    then some (
        if p.f.http11
        then (if p.f.connection_close then false else not p.f.need_eof)
        else if not p.f.connection_keep_alive
        then false
        else not p.f.need_eof)
    else none

-- `do_header` for requests.
unfoldable pub do_header_request : Parser → Parser
do_header_request p =
    if p.f.skip_body
    then record p { state = complete }
    else if p.f.content_length
    then (if ltb 0 p.len
        then record p { f = record (p.f) { has_body = true }; state = body }
        else record p { state = complete })
    else if p.f.chunked
    then record p { f = record (p.f) { has_body = true }; state = chunk_header }
    else record p { len = 0; state = complete }

-- `do_header` for responses.
unfoldable pub do_header_response : ℕ → Parser → Parser
do_header_response status p =
    if p.f.skip_body || status / 100 == 1 || status == 204 || status == 304
    then record p { state = complete }
    else if p.f.content_length
    then (if ltb 0 p.len
        then record p { f = record (p.f) { has_body = true }; state = body }
        else record p { state = complete })
    else if p.f.chunked
    then record p { f = record (p.f) { has_body = true }; state = chunk_header }
    else record p { f = record (p.f) { has_body = true; need_eof = true }; state = body_to_eof }

-- `clamp(x, limit)`
unfoldable pub clamp : ℕ → ℕ → ℕ
clamp x limit = if leb limit x then limit else x

-- `consume`: octets of a body or a chunk that were taken without the parser. First what follows
-- the last octet; there is no such state where the assertion fails.
consumed : ParseState → Option ParseState
consumed body = some complete
consumed chunk_body = some chunk_header
consumed _ = none

unfoldable pub consume : ℕ → Parser → Option Parser
unfolding consumed
consume n p =
    if leb n p.len
    then (do
      s ← consumed p.state
      some (
          if p.len - n == 0
          then record p { len = p.len - n; state = s }
          else record p { len = p.len - n }))
    else none

module _ {D : Type 0} (impl : Derived D) where
  unfoldable pub do_complete : Parser → D → Step D
  do_complete p d =
      let (d', ec) = impl.on_complete d in
      elim ec [
        | none ↦ record {
          used = 0;
          ec = none;
          parser = record p { state = complete };
          derived_state = d';
        }
        | some e ↦ record { used = 0; ec = some e; parser = p; derived_state = d' }
      ]

  unfoldable pub maybe_do_body_indirect : Parser → D → Step D
  maybe_do_body_indirect p d =
      if p.f.on_body
      then record { used = 0; ec = none; parser = p; derived_state = d }
      else (let p' = record p { f = record (p.f) { on_body = true } } in
          let (d', ec) =
            if p.f.content_length then impl.on_body_length p.len d else impl.on_body d in
          record { used = 0; ec = ec; parser = p'; derived_state = d' })

  -- `on_data` on a view of the input, then the rest of the step unless it fails.
  unfoldable pub deliver : Bytes → Parser → D → (D → Step D) → Step D
  deliver view p d rest =
      let (d', ec) = impl.on_data view d in
      elim ec [
        | none ↦ rest d'
        | some e ↦ record {
          used = 0;
          ec = some e;
          parser = record p { body_view = view };
          derived_state = d';
        }
      ]

  pub parse_body : Bytes → Parser → D → Step D
  unfolding deliver clamp do_complete
  parse_body input p d =
      let n = clamp p.len (length input) in
      let view = take n input in
      deliver view p d λ d'.
        let p' = record p { body_view = view; len = p.len - n } in
        if p'.len == 0
        then (let done = do_complete p' d' in
            record done { used = elim done.ec [ none ↦ n | some _ ↦ 0 ] })
        else record { used = n; ec = none; parser = p'; derived_state = d' }

  pub parse_body_to_eof : Bytes → Parser → D → Step D
  unfolding deliver
  parse_body_to_eof input p d = deliver input p d λ d'. record {
    used = length input;
    ec = none;
    parser = record p { body_view = input };
    derived_state = d';
  }

  unfoldable pub parse_chunk_body : Bytes → Parser → D → Step D
  unfolding deliver clamp
  parse_chunk_body input p d =
      let n = clamp p.len (length input) in
      let view = take n input in
      deliver view p d λ d'.
        let p' = record p { body_view = view; len = p.len - n } in
        record {
          used = n;
          ec = none;
          parser = if p'.len == 0 then record p' { body_view = []; state = chunk_header } else p';
          derived_state = d';
        }

  write_eof_at : ParseState → Parser → D → Step D
  write_eof_at header p d = record {
    used = 0;
    ec = some partial_message;
    parser = p;
    derived_state = d;
  }
  write_eof_at complete p d =
      if p.f.content_length || p.f.chunked
      then record { used = 0; ec = none; parser = p; derived_state = d }
      else do_complete p d
  write_eof_at _ p d =
      if p.f.content_length || p.f.chunked
      then record { used = 0; ec = some partial_message; parser = p; derived_state = d }
      else do_complete p d

  unfoldable write_eof : Parser → D → Option (Step D)
  unfolding write_eof_at do_complete
  write_eof p d = if p.f.got_some then some (write_eof_at p.state p d) else none

-- `maybe_flatten`: one buffer is used where it is, several are copied into `buf_`.
pub maybe_flatten : List Bytes → Parser → Bytes × Parser
maybe_flatten [] p = ([], p)
maybe_flatten (b ∷ []) p = (b, p)
maybe_flatten (b ∷ c ∷ bs) p =
    let all = flatten (b ∷ c ∷ bs) in
    let len = length all in
    let q = if ltb p.buf_len len then record p { buf = replicate len 0; buf_len = len } else p in
    let copied = all ++ drop len q.buf in (copied, record q { buf = copied })
