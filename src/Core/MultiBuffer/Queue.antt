-- ===== src/Core/MultiBuffer/Queue.antt =====
-- A multi buffer is a queue of octets without a limit.
use remotedev.Base.{
  ℕ, ◌+◌, min, ◌≤◌, ◌≡◌, refl, sym, ap, ◌∙◌, subst, Option, none, some, List, [], ◌∷◌, ◌++◌, Bytes,
  length, take, drop, drop-append_short, flatten, length-append, length-drop, take-all, ◌==◌,
  both_branches, arith,
}
use mathlib.Core.List.{append_assoc}
use remotedev.Core.MultiBuffer.{
  MultiBuffer, multi_buffer, multi_data, multi_prepare, multi_fill, multi_commit, multi_consume,
  fill_from, filled, copy_into,
}
use remotedev.Core.MultiBuffer.Sound.{IsSound, octets_of, multi_data-octets_of}
use remotedev.Core.MultiBuffer.Commit.{Committed, buffer, commit_from-Committed, commit_from-live}
use remotedev.Core.MultiBuffer.Prepare.{multi_prepare-Prepared, multi_prepare-live}
use remotedev.Core.MultiBuffer.Fill.{
  fill_from-HasRoom, fill_from-AreBlocks, length-fill_from, take-fill, room_from-HasRoom,
}
use remotedev.Core.MultiBuffer.Consume.{multi_consume-Consumed}

-- What a stream does with a multi buffer: it asks for room for a number of octets, writes octets
-- to it and commits those, or it takes octets off the front.
pub data MultiUse : Type 0 where
  put : ℕ → Bytes → MultiUse
  take_off : ℕ → MultiUse

-- No more octets are written than there is room for.
abbrev AreFitting : List MultiUse → Type 0
AreFitting [] = Unit
AreFitting (put n xs ∷ us) = (length xs ≤ n) × AreFitting us
AreFitting (take_off n ∷ us) = AreFitting us

abbrev queue_of : List MultiUse → Bytes → Bytes
queue_of [] q = q
queue_of (put n xs ∷ us) q = queue_of us (q ++ xs)
queue_of (take_off n ∷ us) q = queue_of us (drop n q)

-- A buffer with these octets behind those that it had.
record Longer (xs : Bytes) (b b' : MultiBuffer) : Type 0 where
  is_sound : IsSound b'
  longer : flatten (multi_data b') ≡ flatten (multi_data b) ++ xs

octets_of-Longer :
    (b c b' : MultiBuffer) (xs : Bytes)
    → IsSound b
    → Committed (length xs) c b'
    → flatten c.before ++ take (c.out_pos + length xs) (flatten c.rest) ≡ octets_of b ++ xs
    → c.in_size ≡ b.in_size
    → c.in_pos ≡ b.in_pos
    → c.alloc_size ≡ b.alloc_size
    → c.live ≡ length c.before + length c.rest
    → Longer xs b b'
octets_of-Longer b c b' xs s k g size pos alloc live =
    let e : octets_of b' ≡ octets_of b ++ xs = k.gives ∙ g in
    let p : b'.in_pos ≡ b.in_pos = k.in_pos ∙ pos in
    let sound : IsSound b' = record {
      are_before = k.are_before;
      are_rest = k.are_rest;
      has_output = k.has_output;
      front = k.front;
      sized =
          omega (arith, s.sized, ap length e, length-append (octets_of b) xs, k.in_size, size, p);
      allocates = omega (arith, s.allocates, k.alloc_size, alloc);
      counted = omega (arith, k.live, live, k.blocks);
    } in
    record {
      is_sound = sound;
      longer =
          multi_data-octets_of b' sound
          ∙ ap (drop b'.in_pos) e
          ∙ ap (λ (i : ℕ). drop i (octets_of b ++ xs)) p
          ∙ drop-append_short b.in_pos (octets_of b) xs (omega (arith, s.sized))
          ∙ ap (λ (y : Bytes). y ++ xs) (sym (multi_data-octets_of b s));
    }

size_lem : (b : MultiBuffer) → IsSound b → b.in_size ≡ length (flatten (multi_data b))
size_lem b s =
    omega (arith, s.sized, ap length (multi_data-octets_of b s), length-drop b.in_pos (octets_of b))

abbrev Fresh : Option MultiBuffer → Type 0
Fresh none = Unit
Fresh (some b) = IsSound b × (flatten (multi_data b) ≡ []) × (b.rest ≡ []) × (b.live ≡ 0)

fresh_lem : (n : ℕ) → Fresh (multi_buffer n)
unfolding multi_buffer multi_data
fresh_lem n =
    both_branches Fresh (n == 0) none _ (λ _. tt)
      λ t. (
        record {
          are_before = tt;
          are_rest = tt;
          has_output = (refl, refl);
          front = omega arith;
          sized = refl;
          allocates = ground arith;
          counted = refl;
        },
        refl,
        refl,
        refl,
      )

-- A new buffer.
pub multi_buffer-IsSound :
    (n : ℕ) (b : MultiBuffer)
    → multi_buffer n ≡ some b
    → IsSound b × (flatten (multi_data b) ≡ []) × (b.rest ≡ []) × (b.live ≡ 0)
multi_buffer-IsSound n b h = subst Fresh h (fresh_lem n)

module _ (fresh : ℕ → Bytes) (length-fresh : (n : ℕ) → length (fresh n) ≡ n) where
  abbrev pub use_multi : List MultiUse → MultiBuffer → MultiBuffer
  use_multi [] b = b
  use_multi (put n xs ∷ us) b =
      use_multi us (multi_commit (length xs) (multi_fill xs (multi_prepare fresh n b)))
  use_multi (take_off n ∷ us) b = use_multi us (multi_consume n b)

  put-Longer :
      (n : ℕ) (xs : Bytes) (b : MultiBuffer)
      → IsSound b
      → length xs ≤ n
      → Longer xs b (multi_commit (length xs) (multi_fill xs (multi_prepare fresh n b)))
  unfolding multi_commit multi_fill
  put-Longer n xs b s h =
      let p = multi_prepare-Prepared fresh length-fresh n b s in
      let full = fill_from b.out_pos xs p.blocks in
      let c = buffer b.before full b.alloc_size b.in_size b.in_pos b.out_pos p.out_end p.live in
      let k : Committed (length xs) c _ =
        commit_from-Committed (length xs) n b.before full b.alloc_size b.in_size b.in_pos b.out_pos
          p.out_end p.live s.are_before
          (fill_from-AreBlocks b.out_pos n p.out_end xs p.blocks p.are_blocks p.has_room)
          (fill_from-HasRoom b.out_pos n p.out_end xs p.blocks p.has_room) s.front h in
      let gives : flatten b.before ++ take (b.out_pos + length xs) (flatten full)
          ≡ octets_of b ++ xs =
        ap (λ (y : Bytes). flatten b.before ++ y)
          (take-fill b.out_pos n p.out_end xs p.blocks p.has_room h
            ∙ ap (λ (y : Bytes). y ++ xs) p.same_octets)
        ∙ sym (append_assoc (flatten b.before) (take b.out_pos (flatten b.rest)) xs) in
      rw
        (p.is_changed, room_from-HasRoom b.out_pos n p.out_end p.blocks p.has_room, take-all n xs h)
        (octets_of-Longer b c _ xs s k gives refl refl refl
          (omega (arith, p.counted, length-fill_from b.out_pos xs p.blocks)))

  -- A multi buffer that is sound refines a queue of octets. Uses of it that write no more than they
  -- ask room for leave it sound, which includes what `debug_check` asserts and that every block but
  -- those in the list has been deallocated, and leave in it what they leave in a queue; `size` is
  -- the length of that. The allocator gives blocks of the size asked for.
  pub use_multi-refines :
      (us : List MultiUse) (b : MultiBuffer)
      → IsSound b
      → AreFitting us
      → let r = use_multi us b in
        IsSound r
        × (flatten (multi_data r) ≡ queue_of us (flatten (multi_data b)))
        × (r.in_size ≡ length (queue_of us (flatten (multi_data b))))
  use_multi-refines [] b s a = (s, refl, size_lem b s)
  use_multi-refines (put n xs ∷ us) b s a =
      let l = put-Longer n xs b s a.0 in
      let c = multi_commit (length xs) (multi_fill xs (multi_prepare fresh n b)) in
      let (t, e, z) = use_multi-refines us c l.is_sound a.1 in
      (t, e ∙ ap (queue_of us) l.longer, z ∙ ap (λ (y : Bytes). length (queue_of us y)) l.longer)
  use_multi-refines (take_off n ∷ us) b s a =
      let c = multi_consume-Consumed n b s in
      let b' = multi_consume n b in
      let taken : flatten (multi_data b') ≡ drop n (flatten (multi_data b)) =
        multi_data-octets_of b' c.is_sound
        ∙ c.gives
        ∙ ap (drop n) (sym (multi_data-octets_of b s)) in
      let (t, e, z) = use_multi-refines us b' c.is_sound a in
      (t, e ∙ ap (queue_of us) taken, z ∙ ap (λ (y : Bytes). length (queue_of us y)) taken)

  filled-prepare :
      (n : ℕ) (xs : Bytes) (b : MultiBuffer)
      → IsSound b
      → filled xs (multi_prepare fresh n b) ≡ min n (length xs)
  unfolding filled
  filled-prepare n xs b s =
      let p = multi_prepare-Prepared fresh length-fresh n b s in
      rw (p.is_changed, room_from-HasRoom b.out_pos n p.out_end p.blocks p.has_room) refl

  -- A copy of a sound multi buffer at the end of another one.
  copy_into-Longer :
      (other b : MultiBuffer)
      → IsSound other
      → IsSound b
      → Longer (flatten (multi_data other)) b (copy_into fresh other b)
  unfolding copy_into
  copy_into-Longer other b o s =
      let xs = flatten (multi_data other) in
      let e : other.in_size ≡ length xs = size_lem other o in
      let m : filled xs (multi_prepare fresh other.in_size b) ≡ length xs =
        filled-prepare other.in_size xs b s ∙ omega (arith, e) in
      rw m (put-Longer other.in_size xs b s (omega (arith, e)))

  -- What is committed stays in the blocks that `prepare` left.
  copy_into-live :
      (other b : MultiBuffer)
      → (copy_into fresh other b).live ≡ (multi_prepare fresh other.in_size b).live
  unfolding copy_into multi_commit multi_fill
  copy_into-live other b =
      let xs = flatten (multi_data other) in
      let p = multi_prepare fresh other.in_size b in
      commit_from-live (filled xs p) (multi_fill xs p) (multi_fill xs p).rest

  -- The copy constructor. The copy is sound, its input sequence is that of the original, and at most
  -- one block has been allocated for it, however many the original has. The allocator gives blocks of
  -- the size asked for.
  pub copy_into-multi_data :
      (other b : MultiBuffer)
      → IsSound other
      → multi_buffer other.alloc_size ≡ some b
      → IsSound (copy_into fresh other b)
        × (flatten (multi_data (copy_into fresh other b)) ≡ flatten (multi_data other))
        × ((copy_into fresh other b).live ≤ 1)
  copy_into-multi_data other b o e =
      let (s, z, r, k) = multi_buffer-IsSound other.alloc_size b e in
      let l = copy_into-Longer other b o s in
      (
        l.is_sound,
        l.longer ∙ ap (λ (y : Bytes). y ++ flatten (multi_data other)) z,
        omega (
          arith,
          copy_into-live other b,
          multi_prepare-live fresh length-fresh other.in_size b r k,
        ),
      )
