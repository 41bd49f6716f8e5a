-- ===== src/Core/Tests.antt =====
-- The theorems on flat buffers and base64, at concrete ones.
use remotedev.Base.{
  ℕ, ◌+◌, ◌<◌, ◌≡◌, ◌↔◌, none, some, List, Bytes, [], ◌∷◌, ◌++◌, length-replicate, replicate, arith,
}
use remotedev.Core.FlatBuffer.{FlatBuffer, size, data_of, prepare}
use remotedev.Core.FlatBuffer.Queue.{IsValid, IsAllocator, prepare_lem, prepare-none_iff}
use remotedev.Core.FlatBuffer.Laws.{IsLimited, flat_dynamic, flat_dynamic-refines}
use remotedev.Core.StaticBuffer.{StaticBuffer, static_data}
use remotedev.Core.StaticBuffer.Laws.{IsOrdered, static_dynamic, static_dynamic-refines}
use remotedev.Core.DynamicBuffer.{Use, put, take_off, use_buffer, use_queue}
use remotedev.Core.Base64.{encode, decode, tab}
use remotedev.Core.Base64.RoundTrip.{letter_A, HasNoA, decode-encode, decode-stops_at_A}

-- Two octets consumed, three readable, two writable, one behind them.
abbrev buffer : FlatBuffer
buffer = record {
  block = 1 ∷ 2 ∷ 3 ∷ 4 ∷ 5 ∷ 0 ∷ 0 ∷ 0 ∷ [];
  in_pos = 2;
  out_pos = 5;
  last_pos = 7;
  max_size = 1000;
  live = 1;
}

buffer-IsValid : IsValid buffer
buffer-IsValid = record {
  in_out = omega arith;
  out_last = omega arith;
  last_end = omega arith;
  end_limit = omega arith;
}

abbrev zeros : ℕ → Bytes
zeros n = replicate n 0

zeros-IsAllocator : IsAllocator zeros
zeros-IsAllocator = record { allocated = λ n. length-replicate n 0 }

prepare_lem_example :
    (r : FlatBuffer) × (prepare zeros 20 buffer ≡ some r)
    × IsValid r
    × (r.last_pos ≡ r.out_pos + 20)
    × (data_of r ≡ data_of buffer)
prepare_lem_example =
    prepare_lem zeros zeros-IsAllocator 20 buffer buffer-IsValid (omega arith) (omega arith)

prepare-none_iff_example : (prepare zeros 998 buffer ≡ none) ↔ (buffer.max_size < size buffer + 998)
prepare-none_iff_example = prepare-none_iff zeros zeros-IsAllocator 998 buffer buffer-IsValid

buffer-IsLimited : IsLimited buffer
buffer-IsLimited = (buffer-IsValid, omega arith)

-- Two octets put, three taken off, one put.
abbrev uses : List Use
uses = put (8 ∷ 9 ∷ []) ∷ take_off 3 ∷ put (7 ∷ []) ∷ []

flat_dynamic-refines_example :
    (r : FlatBuffer) × (use_buffer (flat_dynamic zeros zeros-IsAllocator) uses buffer ≡ some r)
    × IsLimited r
    × (data_of r ≡ use_queue uses (data_of buffer))
flat_dynamic-refines_example =
    flat_dynamic-refines zeros zeros-IsAllocator uses buffer buffer-IsLimited (omega arith)

-- One octet consumed, two readable, four behind them.
abbrev fixed : StaticBuffer
fixed = record { memory = 1 ∷ 2 ∷ 3 ∷ 0 ∷ 0 ∷ 0 ∷ 0 ∷ []; in_pos = 1; out_pos = 3; last_pos = 3 }

fixed-IsOrdered : IsOrdered fixed
fixed-IsOrdered = record { in_out = omega arith; out_last = omega arith; last_end = omega arith }

static_dynamic-refines_example :
    (r : StaticBuffer) × (use_buffer static_dynamic uses fixed ≡ some r)
    × IsOrdered r
    × (static_data r ≡ use_queue uses (static_data fixed))
static_dynamic-refines_example = static_dynamic-refines uses fixed fixed-IsOrdered (omega arith)

-- `sure.`
abbrev sure : Bytes
sure = 115 ∷ 117 ∷ 114 ∷ 101 ∷ 46 ∷ []

sure_has_no_A : HasNoA (encode sure)
unfolding encode tab
sure_has_no_A = ground arith

decode-encode_example : (decode (encode sure)).0 ≡ sure
decode-encode_example = decode-encode sure (ground arith) sure_has_no_A

decode-stops_at_A_example :
    decode ((99 ∷ 51 ∷ []) ++ (letter_A ∷ (61 ∷ []))) ≡ decode (99 ∷ 51 ∷ [])
decode-stops_at_A_example = decode-stops_at_A (99 ∷ 51 ∷ []) (61 ∷ [])
