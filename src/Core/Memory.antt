-- ===== src/Core/Memory.antt =====
-- Octets of a block of memory: those between two offsets, and those that are written behind them.
use remotedev.Base.{
  ℕ, ◌+◌, ◌-◌, ◌≤◌, ◌≡◌, sym, inl, inr, leb, Bool-cases, drop-drop, drop-all, ap, ◌∙◌, Bytes, ◌++◌,
  length, take, drop, length-take, length-drop, length-append, take-append_long, take-length_append,
  drop-append_short, drop-take, min, arith,
}

-- The octets from one offset up to another.
abbrev pub between : ℕ → ℕ → Bytes → Bytes
between from to mem = take (to - from) (drop from mem)

-- Memory in which octets are written at an offset.
abbrev pub write_at : ℕ → Bytes → Bytes → Bytes
write_at at xs mem = take at mem ++ (xs ++ drop (at + length xs) mem)

length-between :
    (from to : ℕ) (mem : Bytes) → to ≤ length mem → length (between from to mem) ≡ to - from
length-between from to mem h =
    omega (arith, length-take (to - from) (drop from mem), length-drop from mem)

pub length-write_at :
    (at : ℕ) (xs mem : Bytes)
    → at + length xs ≤ length mem
    → length (write_at at xs mem) ≡ length mem
length-write_at at xs mem h =
    let behind = drop (at + length xs) mem in
    omega (
      arith,
      length-take at mem,
      length-append (take at mem) (xs ++ behind),
      length-append xs behind,
      length-drop (at + length xs) mem,
    )

-- What is written at the end of a range comes behind the octets in it.
pub between-write_at :
    (from at to : ℕ) (xs mem : Bytes)
    → from ≤ at
    → to ≡ at + length xs
    → to ≤ length mem
    → between from to (write_at at xs mem) ≡ between from at mem ++ xs
between-write_at from at to xs mem h e l =
    let behind = drop (at + length xs) mem in
    let kept : drop from (write_at at xs mem) ≡ between from at mem ++ (xs ++ behind) =
      drop-append_short from (take at mem) (xs ++ behind) (omega (arith, length-take at mem))
      ∙ ap (λ (ys : Bytes). ys ++ (xs ++ behind)) (drop-take from at mem) in
    ap (take (to - from)) kept
    ∙ take-append_long (to - from) (length xs) (between from at mem) (xs ++ behind)
        (omega (arith, length-between from at mem (omega arith)))
    ∙ ap (between from at mem ++◌) (take-length_append xs behind)

-- Octets that are taken off the front of a range.
pub between-drop :
    (from to n : ℕ) (mem : Bytes)
    → from ≤ to
    → to ≤ length mem
    → between (from + min n (to - from)) to mem ≡ drop n (between from to mem)
between-drop from to n mem h l = elim (Bool-cases (leb n (to - from))) [
  | inl t ↦
      let e : min n (to - from) ≡ n = ground arith in
      let k : to - (from + n) ≡ to - from - n = omega arith in
      rw (e, k)
        (sym (
          drop-take n (to - from) (drop from mem)
          ∙ ap (take (to - from - n)) (drop-drop from n mem)))
  | inr t ↦
      let e : to - (from + min n (to - from)) ≡ 0 = ground arith in
      rw e (sym (drop-all n (between from to mem) (ground (arith, length-between from to mem l))))
]
