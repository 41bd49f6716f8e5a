-- ===== src/Core/BufferSequences/Tests.antt =====
-- Three buffers, one of them empty, of which one octet is consumed, written in three steps.
use remotedev.Base.{◌≡◌, refl, [], ◌∷◌, flatten, arith}
use remotedev.Core.BufferSequences.{
  Consuming, IsWithin, consuming_data, buffer_prefix, written, written-take,
}

abbrev three : Consuming
three = record { rest = (1 ∷ 2 ∷ 3 ∷ []) ∷ [] ∷ (4 ∷ 5 ∷ 6 ∷ []) ∷ []; skip = 1 }

written-take_example :
    IsWithin (written (1 ∷ 2 ∷ 1 ∷ []) three).1
    × ((written (1 ∷ 2 ∷ 1 ∷ []) three).0 ≡ 2 ∷ 3 ∷ 4 ∷ 5 ∷ [])
    × (flatten (consuming_data (written (1 ∷ 2 ∷ 1 ∷ []) three).1) ≡ 6 ∷ [])
unfolding consuming_data
written-take_example = written-take (1 ∷ 2 ∷ 1 ∷ []) three (omega arith)

-- A prefix that ends with a buffer has no empty buffer behind it.
whole_buffer : buffer_prefix 3 three.rest ≡ (1 ∷ 2 ∷ 3 ∷ []) ∷ []
unfolding buffer_prefix
whole_buffer = refl
