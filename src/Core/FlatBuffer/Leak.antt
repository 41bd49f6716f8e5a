-- ===== src/Core/FlatBuffer/Leak.antt =====
-- Which blocks of a flat buffer are deallocated when it grows.
use remotedev.Base.{ℕ, ◌+◌, ◌≤◌, ◌<◌, ◌≡◌, ltb, leb, if◌then◌else◌, some, false, refl, Bytes, arith}
use remotedev.Core.FlatBuffer.{FlatBuffer, size, capacity, reserve, move_to, new_size}

-- Where `reserve` allocates, within the limit, as many blocks are live after it as before if there
-- are octets in the input sequence, and one more if there are none.
reserve-live :
    (allocate : ℕ → Bytes) (n : ℕ) (fb : FlatBuffer)
    → capacity fb < n
    → n ≤ fb.max_size
    → (r : FlatBuffer) × (reserve allocate n fb ≡ some r)
      × (r.live ≡ (if ltb 0 (size fb) then fb.live else fb.live + 1))
unfolding reserve move_to
reserve-live allocate n fb more room =
    let t : leb n (capacity fb) ≡ false = ground arith in
    let u : ltb fb.max_size n ≡ false = ground arith in
    (move_to (allocate (new_size fb.max_size n)) fb, rw (t, u), refl)
