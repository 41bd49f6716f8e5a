-- ===== src/Core/MultiBuffer/Sizes.antt =====
-- What `clear` leaves, and the sizes that are asked for when a stream is read.
use remotedev.Base.{
  ℕ, ◌-◌, min, ◌≤◌, ◌<◌, ◌≡◌, refl, Option, some, [], flatten, ltb, both_branches, arith,
}
use remotedev.Core.MultiBuffer.{
  MultiBuffer, multi_data, multi_clear, multi_capacity, multi_read_size_helper,
}
use remotedev.Core.MultiBuffer.Sound.{IsSound}

-- A cleared buffer is sound, has no octets, and every block has been deallocated.
multi_clear-IsSound :
    (b : MultiBuffer)
    → IsSound b
    → IsSound (multi_clear b)
      × (flatten (multi_data (multi_clear b)) ≡ [])
      × ((multi_clear b).live ≡ 0)
unfolding multi_clear multi_data
multi_clear-IsSound b s = (
  record {
    are_before = tt;
    are_rest = tt;
    has_output = (refl, refl);
    front = omega arith;
    sized = refl;
    allocates = s.allocates;
    counted = omega (arith, s.counted);
  },
  refl,
  omega (arith, s.counted),
)

-- The number of octets asked for is not none, and not above the number allowed; the assertion
-- holds where that is not 0.
record IsFitting (most : ℕ) (b : MultiBuffer) (r : Option ℕ) : Type 0 where
  size : ℕ
  is_size : r ≡ some size
  some_octets : 0 < size
  at_most : size ≤ most
  as_room : 0 < multi_capacity b - b.in_size → size ≤ multi_capacity b - b.in_size

multi_read_size_helper-IsFitting :
    (b : MultiBuffer) (most : ℕ) → 0 < most → IsFitting most b (multi_read_size_helper b most)
unfolding multi_read_size_helper
multi_read_size_helper-IsFitting b most h =
    let room = multi_capacity b - b.in_size in
    both_branches (IsFitting most b) (ltb most 1) _ _ (λ t. absurd (ground arith))
      λ t.
        both_branches (IsFitting most b) (ltb 0 room) _ _
          (λ u. record {
            size = min room most;
            is_size = refl;
            some_octets = ground arith;
            at_most = omega arith;
            as_room = λ _. omega arith;
          })
          λ u.
            both_branches (IsFitting most b) (ltb 512 b.alloc_size) _ _
              (λ v. record {
                size = min most b.alloc_size;
                is_size = refl;
                some_octets = ground arith;
                at_most = omega arith;
                as_room = λ w. absurd (ground arith);
              })
              λ v. record {
                size = min most 512;
                is_size = refl;
                some_octets = omega arith;
                at_most = omega arith;
                as_room = λ w. absurd (ground arith);
              }
