-- ===== src/Core/MultiBuffer.antt =====
-- include/beast/core/multi_buffer.hpp and impl/multi_buffer.ipp: octets in a list of blocks. The
-- list is what is before the element `out_` and the rest of it, which is empty where `out_` is the
-- end. A block is its octets; `live` counts the blocks that are allocated and not deallocated.
pub mod Sound
pub mod Commit
pub mod Prepare
pub mod Fill
pub mod Consume
pub mod Queue
pub mod Sizes
mod Tests
use Prim.Native.Nat.{max}
use remotedev.Base.{
  ℕ, zero, suc, ◌+◌, ◌-◌, min, Bool, true, false, not, ◌&&◌, ◌||◌, Option, none, some, List, [],
  ◌∷◌, ◌++◌, Bytes, length, take, drop, flatten, ltb, leb, ◌==◌, if◌then◌else◌,
}
use remotedev.Core.Memory.{write_at}

pub record MultiBuffer : Type 0 where
  pub before : List Bytes
  pub rest : List Bytes
  pub alloc_size : ℕ
  pub in_size : ℕ
  pub in_pos : ℕ
  pub out_pos : ℕ
  pub out_end : ℕ
  pub live : ℕ

-- The constructor; none is the exception `std::invalid_argument`.
pub multi_buffer : ℕ → Option MultiBuffer
multi_buffer n =
    if n == 0
    then none
    else some (record {
      before = [];
      rest = [];
      alloc_size = n;
      in_size = 0;
      in_pos = 0;
      out_pos = 0;
      out_end = 0;
      live = 0;
    })

-- The element `out_` up to `out_pos_`.
abbrev pub committed : ℕ → List Bytes → List Bytes
committed pos [] = []
committed pos (r ∷ rs) = take pos r ∷ []

abbrev pub drop_first : ℕ → List Bytes → List Bytes
drop_first n [] = []
drop_first n (x ∷ xs) = drop n x ∷ xs

-- `data()`: the buffers of the input sequence.
pub multi_data : MultiBuffer → List Bytes
multi_data b = drop_first b.in_pos (b.before ++ committed b.out_pos b.rest)

abbrev pub total : List Bytes → ℕ
total [] = 0
total (x ∷ xs) = length x + total xs

pub multi_capacity : MultiBuffer → ℕ
multi_capacity b = elim b.rest [
  | [] ↦ b.in_size
  | r ∷ rs ↦ b.in_size + (length r - b.out_pos + total rs)
]

-- What the loops of `prepare` go through: the blocks that are appended, those that are left, the
-- octets still to be found and `out_end_`.
pub record Preparing : Type 0 where
  pub taken : List Bytes
  pub left : List Bytes
  pub missing : ℕ
  pub last : ℕ

-- The first loop of `prepare`, over the elements behind `out_`.
pub take_reuse : ℕ → ℕ → List Bytes → Preparing
take_reuse n out_end [] = record { taken = []; left = []; missing = n; last = out_end }
take_reuse n out_end (e ∷ es) =
    let fits = take_reuse 0 n es in
    let more = take_reuse (n - length e) (length e) es in
    if ltb 0 n
    then (let p = if ltb (length e) n then more else fits in record p { taken = e ∷ p.taken })
    else record { taken = []; left = e ∷ es; missing = n; last = out_end }

-- The second loop of `prepare`, on fuel: the blocks allocated and `out_end_`. `fresh` is the memory
-- that the allocator gives.
pub allocate : (ℕ → Bytes) → ℕ → ℕ → ℕ → ℕ → List Bytes × ℕ
allocate fresh alloc_size zero n out_end = ([], out_end)
allocate fresh alloc_size (suc fuel) n out_end =
    let e = fresh (max alloc_size n) in
    let more = allocate fresh alloc_size fuel (n - length e) (length e) in
    let fits = allocate fresh alloc_size fuel 0 n in
    if ltb 0 n
    then (let p = if leb (length e) n then more else fits in (e ∷ p.0, p.1))
    else ([], out_end)

-- What `prepare` does where `out_` is an element, and where it is the end.
pub prepare_out : ℕ → ℕ → ℕ → List Bytes → Preparing
prepare_out n pos out_end [] = record { taken = []; left = []; missing = n; last = out_end }
prepare_out n pos out_end (r ∷ rs) =
    let avail = length r - pos in
    if ltb avail n
    then record { taken = r ∷ []; left = rs; missing = n - avail; last = length r }
    else record { taken = r ∷ []; left = rs; missing = 0; last = pos + n }

pub multi_prepare : (ℕ → Bytes) → ℕ → MultiBuffer → MultiBuffer
unfolding prepare_out take_reuse allocate
multi_prepare fresh n b =
    let p = prepare_out n b.out_pos b.out_end b.rest in
    let q = take_reuse p.missing p.last p.left in
    let (blocks, out_end) = allocate fresh b.alloc_size (suc q.missing) q.missing q.last in
    record b {
      rest = p.taken ++ (q.taken ++ blocks);
      out_end = out_end;
      live = b.live + length blocks - length q.left;
    }

-- The loop of `commit`, over the elements from `out_` on.
pub commit_from : ℕ → MultiBuffer → List Bytes → MultiBuffer
commit_from n b [] = b
commit_from n b (r ∷ []) =
    let m = min n (b.out_end - b.out_pos) in
    if b.out_pos + m == length r
    then record b {
      before = b.before ++ r ∷ [];
      rest = [];
      in_size = b.in_size + m;
      out_pos = 0;
      out_end = 0;
    }
    else record b { in_size = b.in_size + m; out_pos = b.out_pos + m }
commit_from n b (r ∷ s ∷ rs) =
    let avail = length r - b.out_pos in
    let next =
      commit_from (n - avail)
        (record b {
          before = b.before ++ r ∷ [];
          rest = s ∷ rs;
          in_size = b.in_size + avail;
          out_pos = 0;
        })
        (s ∷ rs) in
    if ltb n avail then record b { in_size = b.in_size + n; out_pos = b.out_pos + n } else next

pub multi_commit : ℕ → MultiBuffer → MultiBuffer
unfolding commit_from
multi_commit n b = commit_from n b b.rest

-- `out_ == list_.iterator_to(list_.back())`; in an empty list `out_pos_` and `out_end_` are 0, and
-- what `consume` does is the same either way.
abbrev pub is_back : List Bytes → Bool
is_back (r ∷ s ∷ rs) = false
is_back _ = true

-- The loop of `consume`, over the elements before `out_`.
pub consume_from : ℕ → MultiBuffer → List Bytes → MultiBuffer
consume_from n b [] =
    if ltb n (b.out_pos - b.in_pos)
    then record b { in_size = b.in_size - n; in_pos = b.in_pos + n }
    else if not (is_back b.rest) || not (b.out_pos == b.out_end)
    then record b { in_size = 0; in_pos = b.out_pos }
    else record b { in_size = 0; in_pos = 0; out_pos = 0; out_end = 0 }
consume_from n b (x ∷ xs) =
    let avail = length x - b.in_pos in
    let next =
      consume_from (n - avail)
        (record b { before = xs; in_size = b.in_size - avail; in_pos = 0; live = b.live - 1 }) xs in
    if ltb n avail then record b { in_size = b.in_size - n; in_pos = b.in_pos + n } else next

abbrev pub is_nil : List Bytes → Bool
is_nil [] = true
is_nil (_ ∷ _) = false

pub multi_consume : ℕ → MultiBuffer → MultiBuffer
unfolding consume_from
multi_consume n b = if is_nil b.before && is_nil b.rest then b else consume_from n b b.before

-- `read_size_helper`; none is the failed BOOST_ASSERT.
pub multi_read_size_helper : MultiBuffer → ℕ → Option ℕ
unfolding multi_capacity
multi_read_size_helper b max_size =
    if ltb max_size 1
    then none
    else (let avail = multi_capacity b - b.in_size in
        if ltb 0 avail
        then some (min avail max_size)
        else if ltb 512 b.alloc_size
        then some (min max_size b.alloc_size)
        else some (min max_size 512))

-- Octets that are written to the buffers that `prepare` gives, from the first on.
pub fill_from : ℕ → Bytes → List Bytes → List Bytes
fill_from pos xs [] = []
fill_from pos xs (r ∷ rs) =
    let room = length r - pos in write_at pos (take room xs) r ∷ fill_from 0 (drop room xs) rs

-- The length of the buffers that `prepare` gives.
pub room_from : ℕ → ℕ → List Bytes → ℕ
room_from pos out_end [] = 0
room_from pos out_end (r ∷ []) = out_end - pos
room_from pos out_end (r ∷ s ∷ rs) = length r - pos + room_from 0 out_end (s ∷ rs)

-- `buffer_copy` to those buffers, and the number that it returns.
pub multi_fill : Bytes → MultiBuffer → MultiBuffer
unfolding fill_from room_from
multi_fill xs b = record b {
  rest = fill_from b.out_pos (take (room_from b.out_pos b.out_end b.rest) xs) b.rest;
}

pub filled : Bytes → MultiBuffer → ℕ
unfolding room_from
filled xs b = min (room_from b.out_pos b.out_end b.rest) (length xs)

-- `clear`, which deallocates every block.
pub multi_clear : MultiBuffer → MultiBuffer
multi_clear b = record b {
  before = [];
  rest = [];
  in_size = 0;
  in_pos = 0;
  out_pos = 0;
  out_end = 0;
  live = b.live - (length b.before + length b.rest);
}

-- `commit(buffer_copy(prepare(other.size()), other.data()))`
pub copy_into : (ℕ → Bytes) → MultiBuffer → MultiBuffer → MultiBuffer
copy_into fresh other b =
    let xs = flatten (multi_data other) in
    let p = multi_prepare fresh other.in_size b in multi_commit (filled xs p) (multi_fill xs p)
