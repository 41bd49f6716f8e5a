-- ===== src/Core/MultiBuffer/Fill.antt =====
-- Octets that are written to the buffers of the output sequence.
use mathlib.Core.List.{append_assoc, append-nil}
use remotedev.Base.{
  ℕ, suc, ◌+◌, ◌-◌, ◌≤◌, ◌<◌, ◌≡◌, refl, sym, ap, ◌∙◌, inl, inr, List, [], ◌∷◌, ◌++◌, Bytes, length,
  take, drop, flatten, length-take, length-drop, take-all, drop-all, take-append_short,
  take-append_long, take-length_append, take-append-drop, leb, Bool-cases, arith,
}
use remotedev.Core.Memory.{write_at, length-write_at}
use remotedev.Core.MultiBuffer.{fill_from, room_from}
use remotedev.Core.MultiBuffer.Sound.{IsNil, AreBlocks, Output}
use remotedev.Core.MultiBuffer.Commit.{HasRoom}

-- The part of the octets that comes to the first block.
length-first :
    (pos : ℕ) (xs r : Bytes)
    → pos ≤ length r
    → length (write_at pos (take (length r - pos) xs) r) ≡ length r
length-first pos xs r h =
    length-write_at pos (take (length r - pos) xs) r
      (omega (arith, length-take (length r - pos) xs))

fill_from-Output :
    (pos f n m l : ℕ) (xs : Bytes) (rs : List Bytes)
    → Output pos f rs n m l
    → Output pos f (fill_from pos xs rs) n m l
unfolding fill_from
fill_from-Output pos f n m l xs [] o = o
fill_from-Output pos f n m l xs (r ∷ []) (p, inl (q, z, e, g)) =
    rw (length-first pos xs r (omega arith)) (p, inl (q, tt, e, g))
fill_from-Output pos f n m l xs (r ∷ s ∷ rs) (p, inl (q, z, e, g)) = absurd z
fill_from-Output pos f n m l xs (r ∷ rs) (p, inr (q, more)) =
    rw (length-first pos xs r (omega arith)) (
      p,
      inr (
        q,
        fill_from-Output 0 (length r) (n - (length r - pos)) m l (drop (length r - pos) xs) rs more,
      ),
    )

pub fill_from-HasRoom :
    (pos n l : ℕ) (xs : Bytes) (rs : List Bytes)
    → HasRoom pos l rs n
    → HasRoom pos l (fill_from pos xs rs) n
fill_from-HasRoom pos n l xs [] h = unfold fill_from in h
fill_from-HasRoom pos n l xs (r ∷ rs) h =
    unfold fill_from in (fill_from-Output pos 0 n 0 l xs (r ∷ rs) h)

pub length-fill_from :
    (pos : ℕ) (xs : Bytes) (rs : List Bytes) → length (fill_from pos xs rs) ≡ length rs
unfolding fill_from
length-fill_from pos xs [] = refl
length-fill_from pos xs (r ∷ rs) = ap suc (length-fill_from 0 (drop (length r - pos) xs) rs)

first_filled :
    (pos : ℕ) (xs r rest rest' : Bytes)
    → pos ≤ length r
    → length xs ≤ length r - pos
    → take (pos + length xs) (write_at pos (take (length r - pos) xs) r ++ rest')
      ≡ take pos (r ++ rest) ++ xs
first_filled pos xs r rest rest' h k =
    let t : take (length r - pos) xs ≡ xs = take-all (length r - pos) xs k in
    let l = length-write_at pos xs r (omega arith) in
    let behind = drop (pos + length xs) r in
    rw t (
      take-append_short (pos + length xs) (write_at pos xs r) rest' (omega (arith, l))
      ∙ take-append_long (pos + length xs) (length xs) (take pos r) (xs ++ behind)
          (omega (arith, length-take pos r))
      ∙ ap (λ (y : Bytes). take pos r ++ y) (take-length_append xs behind)
      ∙ ap (λ (y : Bytes). y ++ xs) (sym (take-append_short pos r rest h)))

first_passed :
    (pos : ℕ) (xs r rest rest' : Bytes)
    → pos ≤ length r
    → length r - pos < length xs
    → take (length (drop (length r - pos) xs)) rest' ≡ drop (length r - pos) xs
    → take (pos + length xs) (write_at pos (take (length r - pos) xs) r ++ rest')
      ≡ take pos (r ++ rest) ++ xs
first_passed pos xs r rest rest' h k e =
    let room = length r - pos in
    let front = take room xs in
    let l = length-first pos xs r h in
    let gone : drop (pos + length front) r ≡ [] =
      drop-all (pos + length front) r (omega (arith, length-take room xs)) in
    take-append_long (pos + length xs) (length (drop room xs)) (write_at pos front r) rest'
      (omega (arith, l, length-drop room xs))
    ∙ ap (λ (y : Bytes). write_at pos front r ++ y) e
    ∙ ap (λ (y : Bytes). (take pos r ++ (front ++ y)) ++ drop room xs) gone
    ∙ ap (λ (y : Bytes). (take pos r ++ y) ++ drop room xs) (append-nil front)
    ∙ append_assoc (take pos r) front (drop room xs)
    ∙ ap (λ (y : Bytes). take pos r ++ y) (take-append-drop room xs)
    ∙ ap (λ (y : Bytes). y ++ xs) (sym (take-append_short pos r rest h))

take-fill_from :
    (pos f n l : ℕ) (xs : Bytes) (rs : List Bytes)
    → Output pos f rs n 0 l
    → length xs ≤ n
    → (IsNil rs → pos ≡ 0)
    → take (pos + length xs) (flatten (fill_from pos xs rs)) ≡ take pos (flatten rs) ++ xs
unfolding fill_from
take-fill_from pos f n l [] [] o h z = rw (z tt) refl
take-fill_from pos f n l (x ∷ xs) [] o h z = absurd (omega (arith, o.0))
take-fill_from pos f n l xs (r ∷ rs) (p, inl (q, c, e, g)) h z =
    first_filled pos xs r (flatten rs) (flatten (fill_from 0 (drop (length r - pos) xs) rs))
      (omega arith) (omega arith)
take-fill_from pos f n l xs (r ∷ rs) (p, inr (q, more)) h z =
    let room = length r - pos in
    let behind = flatten (fill_from 0 (drop room xs) rs) in
    elim (Bool-cases (leb (length xs) room)) [
      | inl t ↦ first_filled pos xs r (flatten rs) behind (omega arith) (ground arith)
      | inr t ↦
          let ih =
            take-fill_from 0 (length r) (n - room) l (drop room xs) rs more
              (omega (arith, length-drop room xs)) (λ _. refl) in
          let k : length (drop room xs) ≡ 0 + length (drop room xs) = omega arith in
          first_passed pos xs r (flatten rs) behind (omega arith) (ground arith)
            (ap (λ (m : ℕ). take m behind) k ∙ ih)
    ]

-- Octets that fit, written behind those that are there.
pub take-fill :
    (pos n l : ℕ) (xs : Bytes) (rs : List Bytes)
    → HasRoom pos l rs n
    → length xs ≤ n
    → take (pos + length xs) (flatten (fill_from pos xs rs)) ≡ take pos (flatten rs) ++ xs
take-fill pos n l [] [] h k = unfold fill_from in rw h.0 refl
take-fill pos n l (x ∷ xs) [] h k = absurd (omega (arith, h.2))
take-fill pos n l xs (r ∷ rs) h k = take-fill_from pos 0 n l xs (r ∷ rs) h k (λ z. absurd z)

blocks_filled :
    (pos : ℕ) (xs : Bytes) (r : Bytes) (rs : List Bytes)
    → AreBlocks (r ∷ rs)
    → pos ≤ length r
    → AreBlocks (fill_from pos xs (r ∷ rs))
unfolding fill_from
blocks_filled pos xs r [] a h = (omega (arith, length-first pos xs r h, a.0), tt)
blocks_filled pos xs r (s ∷ rs) a h = (
  omega (arith, length-first pos xs r h, a.0),
  blocks_filled 0 (drop (length r - pos) xs) s rs a.1 (omega arith),
)

pub fill_from-AreBlocks :
    (pos n l : ℕ) (xs : Bytes) (rs : List Bytes)
    → AreBlocks rs
    → HasRoom pos l rs n
    → AreBlocks (fill_from pos xs rs)
fill_from-AreBlocks pos n l xs [] a h = unfold fill_from in tt
fill_from-AreBlocks pos n l xs (r ∷ rs) a h = blocks_filled pos xs r rs a (omega (arith, h.0))

room_from-Output :
    (pos f n l : ℕ) (rs : List Bytes) → Output pos f rs n 0 l → room_from pos l rs ≡ n
unfolding room_from
room_from-Output pos f n l [] o = o.0
room_from-Output pos f n l (r ∷ []) (p, inl (q, c, e, g)) = omega arith
room_from-Output pos f n l (r ∷ s ∷ rs) (p, inl (q, c, e, g)) = absurd c
room_from-Output pos f n l (r ∷ []) (p, inr (q, more)) = absurd (omega (arith, more.0))
room_from-Output pos f n l (r ∷ s ∷ rs) (p, inr (q, more)) =
    omega (arith, room_from-Output 0 (length r) (n - (length r - pos)) l (s ∷ rs) more)

-- The buffers hold what was asked for.
pub room_from-HasRoom :
    (pos n l : ℕ) (rs : List Bytes) → HasRoom pos l rs n → room_from pos l rs ≡ n
room_from-HasRoom pos n l [] h = unfold room_from in sym h.2
room_from-HasRoom pos n l (r ∷ rs) h = room_from-Output pos 0 n l (r ∷ rs) h
