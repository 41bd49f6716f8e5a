-- ===== src/Core/FlatBuffer.antt =====
-- include/beast/core/flat_buffer.hpp and impl/flat_buffer.ipp: one block of memory, whose octets
-- from `in_pos` to `out_pos` are the input sequence, and those up to `last_pos` the output sequence.
-- The pointers are offsets into the block; a null pointer is the empty block, since the code never
-- allocates zero octets. `live` counts the blocks that are allocated and not deallocated. What an
-- allocator's new block holds is a parameter.
pub mod Room
pub mod Queue
pub mod Leak
pub mod Laws
use remotedev.Base.{
  ℕ, zero, suc, ◌+◌, ◌-◌, ◌*◌, ◌/◌, ◌%◌, ◌^◌, min, Bool, true, false, Option, none, some, Bytes, [],
  ◌++◌, length, take, drop, leb, ltb, ◌==◌, if◌then◌else◌,
}

pub record FlatBuffer : Type 0 where
  pub block : Bytes
  pub in_pos : ℕ
  pub out_pos : ℕ
  pub last_pos : ℕ
  pub max_size : ℕ
  pub live : ℕ

abbrev pub size : FlatBuffer → ℕ
size fb = fb.out_pos - fb.in_pos

abbrev pub capacity : FlatBuffer → ℕ
capacity fb = length fb.block

-- The input sequence.
abbrev pub data_of : FlatBuffer → Bytes
data_of fb = take (size fb) (drop fb.in_pos fb.block)

-- The loop of `next_pow2`, on fuel: `x` is halved, so `x` steps are enough.
pub next_pow2_loop : ℕ → ℕ → ℕ → ℕ
next_pow2_loop zero x n = n
next_pow2_loop (suc fuel) x n =
    let rest = next_pow2_loop fuel (x / 2) (suc n) in if ltb 0 x then rest else n

-- The shift is one of `std::size_t`, of 64 bits.
pub next_pow2 : ℕ → ℕ
unfolding next_pow2_loop
next_pow2 x = 2 ^ next_pow2_loop x x 0 % 2 ^ 64

pub max : ℕ → ℕ → ℕ
max a b = if leb a b then b else a

pub min_size : ℕ
min_size = 512

-- The constructor; none is the failed BOOST_ASSERT.
unfoldable flat_buffer : ℕ → Option FlatBuffer
flat_buffer limit =
    if ltb limit 1
    then none
    else some
        (record { block = []; in_pos = 0; out_pos = 0; last_pos = 0; max_size = limit; live = 0 })

pub commit : ℕ → FlatBuffer → FlatBuffer
commit n fb = record fb { out_pos = fb.out_pos + min n (fb.last_pos - fb.out_pos) }

pub consume : ℕ → FlatBuffer → FlatBuffer
consume n fb =
    if leb (size fb) n
    then record fb { in_pos = 0; out_pos = 0 }
    else record fb { in_pos = fb.in_pos + n }

-- The size of a new block for `n` octets.
pub new_size : ℕ → ℕ → ℕ
unfolding next_pow2 max min_size
new_size limit n = min limit (max (next_pow2 n) min_size)

-- none is the failed BOOST_ASSERT.
unfoldable read_size_helper : FlatBuffer → ℕ → Option ℕ
read_size_helper fb most =
    let len = size fb in
    let avail = capacity fb - len in
    if ltb most 1
    then none
    else if ltb 0 avail
    then some (min avail most)
    else (let room = min (capacity fb * 2) fb.max_size - len in
        some (min (if room == 0 then 1 else room) most))

-- The input sequence at the front of a new block; the old one is deallocated where it has octets.
pub move_to : Bytes → FlatBuffer → FlatBuffer
move_to p fb =
    let len = size fb in
    record fb {
      block = data_of fb ++ drop len p;
      in_pos = 0;
      out_pos = len;
      last_pos = len;
      live = if ltb 0 len then fb.live else fb.live + 1;
    }

module _ (allocate : ℕ → Bytes) where
  -- `none` is the exception `std::length_error`.
  pub prepare : ℕ → FlatBuffer → Option FlatBuffer
  unfolding new_size move_to
  prepare n fb =
      let len = size fb in
      if leb n (capacity fb - fb.out_pos)
      then some (record fb { last_pos = fb.out_pos + n })
      else if leb n (capacity fb - len)
      then some (record fb {
        block = data_of fb ++ drop len fb.block;
        in_pos = 0;
        out_pos = len;
        last_pos = len + n;
      })
      else if ltb (fb.max_size - len) n
      then none
      else (let moved = move_to (allocate (new_size fb.max_size (len + n))) fb in
          some (record moved { last_pos = len + n }))

  pub reserve : ℕ → FlatBuffer → Option FlatBuffer
  unfolding new_size move_to
  reserve n fb =
      if leb n (capacity fb)
      then some fb
      else if ltb fb.max_size n
      then none
      else some (move_to (allocate (new_size fb.max_size n)) fb)

  pub shrink_to_fit : FlatBuffer → FlatBuffer
  shrink_to_fit fb =
      let len = size fb in
      if len == capacity fb then fb else record fb {
        block = if ltb 0 len then data_of fb ++ drop len (allocate len) else [];
        in_pos = 0;
        out_pos = len;
        last_pos = len;
        live = if ltb 0 len then fb.live else fb.live - 1;
      }

  -- `copy_from`, into a buffer that is being constructed.
  unfoldable copy_from : FlatBuffer → FlatBuffer
  copy_from other =
      let n = size other in
      let copied = data_of other ++ drop n (allocate n) in
      if ltb 0 n
      then record {
        block = copied;
        in_pos = 0;
        out_pos = n;
        last_pos = n;
        max_size = other.max_size;
        live = 1;
      }
      else record {
        block = [];
        in_pos = 0;
        out_pos = 0;
        last_pos = 0;
        max_size = other.max_size;
        live = 0;
      }

-- `move_from`: the moved buffer and what the other is left with.
unfoldable move_from : FlatBuffer → FlatBuffer × FlatBuffer
move_from other = (
  record other { last_pos = other.out_pos },
  record other { block = []; in_pos = 0; out_pos = 0; last_pos = 0; live = 0 },
)
