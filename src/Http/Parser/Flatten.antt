-- ===== src/Http/Parser/Flatten.antt =====
-- What `maybe_flatten` gives the parser to read.
use mathlib.Core.List.{append-nil}
use remotedev.Base.{
  flatten, ℕ, ◌≤◌, ◌<◌, ◌≡◌, false, List, ◌∷◌, ◌++◌, Bytes, length, length-append, length-drop,
  length-replicate, drop, drop-all, replicate, ltb, Bool-cases, inl, inr, arith,
}
use remotedev.Http.Parser.{Parser, maybe_flatten}

-- The buffer has its recorded size.
abbrev BufferIsSized : Parser → Type 0
BufferIsSized p = length p.buf ≡ p.buf_len

-- Two buffers or more that are together at least as long as the parser's own buffer, which has its
-- recorded size, are read as their concatenation.
maybe_flatten-flatten :
    (b c : Bytes) (bs : List Bytes) (p : Parser)
    → BufferIsSized p
    → p.buf_len ≤ length (flatten (b ∷ c ∷ bs))
    → (maybe_flatten (b ∷ c ∷ bs) p).0 ≡ flatten (b ∷ c ∷ bs)
unfolding maybe_flatten
maybe_flatten-flatten b c bs p s h =
    let all = flatten (b ∷ c ∷ bs) in
    elim (Bool-cases (ltb p.buf_len (length all))) [
      | inl t ↦ rw t (
          simp (
            drop-all {A = ℕ} (length all) (replicate (length all) 0)
                (omega (arith, length-replicate {A = ℕ} (length all) 0)),
            append-nil,
          ))
      | inr t ↦ rw t (simp (drop-all (length all) p.buf (ground arith), append-nil))
    ]

-- Two buffers or more that are together shorter than the parser's own buffer, which has its recorded
-- size, are read with what an earlier call left behind their octets, up to the size of the buffer.
maybe_flatten_stale :
    (b c : Bytes) (bs : List Bytes) (p : Parser)
    → BufferIsSized p
    → length (flatten (b ∷ c ∷ bs)) < p.buf_len
    → ((maybe_flatten (b ∷ c ∷ bs) p).0
        ≡ flatten (b ∷ c ∷ bs) ++ drop (length (flatten (b ∷ c ∷ bs))) p.buf)
      × (length (maybe_flatten (b ∷ c ∷ bs) p).0 ≡ p.buf_len)
unfolding maybe_flatten
maybe_flatten_stale b c bs p s h =
    let all = flatten (b ∷ c ∷ bs) in
    let t : ltb p.buf_len (length all) ≡ false = ground arith in
    (
      rw t,
      rw t (
          omega
            (arith, length-append all (drop (length all) p.buf), length-drop (length all) p.buf)),
    )
