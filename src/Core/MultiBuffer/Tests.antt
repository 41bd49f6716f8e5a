-- ===== src/Core/MultiBuffer/Tests.antt =====
-- A multi buffer with blocks of four octets.
use remotedev.Base.{
  ℕ, ◌≡◌, ◌≤◌, refl, some, List, [], ◌∷◌, Bytes, length, flatten, replicate, length-replicate,
  arith,
}
use remotedev.Core.MultiBuffer.{
  MultiBuffer, multi_buffer, multi_data, multi_prepare, multi_fill, multi_commit, multi_consume,
  copy_into,
}
use remotedev.Core.MultiBuffer.Sound.{IsSound}
use remotedev.Core.MultiBuffer.Queue.{
  MultiUse, put, take_off, use_multi, use_multi-refines, copy_into-multi_data, multi_buffer-IsSound,
}

abbrev zeros : ℕ → Bytes
zeros n = replicate n 0

length-zeros : (n : ℕ) → length (zeros n) ≡ n
length-zeros n = length-replicate n 0

abbrev start : MultiBuffer
start = record {
  before = [];
  rest = [];
  alloc_size = 4;
  in_size = 0;
  in_pos = 0;
  out_pos = 0;
  out_end = 0;
  live = 0;
}

multi_buffer-start : multi_buffer 4 ≡ some start
unfolding multi_buffer
multi_buffer-start = refl

start-IsSound : IsSound start
start-IsSound = (multi_buffer-IsSound 4 start multi_buffer-start).0

-- The second octets go to what is left of the first block, and to a second one.
abbrev uses : List MultiUse
uses = put 3 (1 ∷ 2 ∷ []) ∷ put 6 (3 ∷ 4 ∷ 5 ∷ 6 ∷ 7 ∷ []) ∷ take_off 5 ∷ put 2 (8 ∷ []) ∷ []

use_multi-refines_example :
    let r = use_multi zeros length-zeros uses start in
    IsSound r × (flatten (multi_data r) ≡ 6 ∷ 7 ∷ 8 ∷ []) × (r.in_size ≡ 3)
unfolding multi_data
use_multi-refines_example =
    use_multi-refines zeros length-zeros uses start start-IsSound
      (omega arith, (omega arith, (omega arith, tt)))

abbrev two_blocks : MultiBuffer
two_blocks = use_multi zeros length-zeros uses start

two_blocks-alloc_size : multi_buffer two_blocks.alloc_size ≡ some start
unfolding multi_buffer multi_prepare multi_fill multi_commit multi_consume
two_blocks-alloc_size = refl

copy_into-multi_data_example :
    IsSound (copy_into zeros two_blocks start)
    × (flatten (multi_data (copy_into zeros two_blocks start)) ≡ flatten (multi_data two_blocks))
    × ((copy_into zeros two_blocks start).live ≤ 1)
copy_into-multi_data_example =
    copy_into-multi_data zeros length-zeros two_blocks start use_multi-refines_example.0
      two_blocks-alloc_size
