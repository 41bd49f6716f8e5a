-- ===== src/Core/MultiBuffer/Sound.antt =====
-- What holds of a multi buffer between two calls, and its octets as one sequence.
use mathlib.Core.List.{append_assoc, append-nil}
use remotedev.Base.{
  ℕ, ◌+◌, ◌-◌, ◌≤◌, ◌<◌, ◌≡◌, ◌⊎◌, refl, sym, ap, ◌∙◌, List, [], ◌∷◌, ◌++◌, Bytes, All, length,
  take, drop, flatten, drop-append_short, take-append_short, length-take, arith,
}
use remotedev.Core.MultiBuffer.{MultiBuffer, multi_data, committed, drop_first}

abbrev pub IsNil : List Bytes → Type 0
IsNil [] = Unit
IsNil (_ ∷ _) = ⊥

-- Blocks have octets.
abbrev pub AreBlocks : List Bytes → Type 0
AreBlocks = All (λ x. 0 < length x)

-- The output sequence: `n` octets from `pos` on are wanted of blocks, `m` of them are not found,
-- and `last` is the end in the last block, which was `first` before.
abbrev pub Output : ℕ → ℕ → List Bytes → ℕ → ℕ → ℕ → Type 0
Output pos first [] n m last = (m ≡ n) × (last ≡ first)
Output pos first (r ∷ rs) n m last =
    (pos < length r)
    × (((n ≤ length r - pos) × IsNil rs × (m ≡ 0) × (last ≡ pos + n))
        ⊎ ((length r - pos < n) × Output 0 (length r) rs (n - (length r - pos)) m last))

-- Where `out_` is an element, there are octets for output, maybe none, from `out_pos_` to `out_end_`.
abbrev pub HasOutput : ℕ → ℕ → List Bytes → Type 0
HasOutput pos last [] = (pos ≡ 0) × (last ≡ 0)
HasOutput pos last (r ∷ rs) = (n : ℕ) × Output pos 0 (r ∷ rs) n 0 last

-- `in_pos_` is within the first element, and not behind `out_pos_`.
abbrev pub Front : ℕ → ℕ → List Bytes → Type 0
Front in_pos out_pos [] = in_pos ≤ out_pos
Front in_pos out_pos (x ∷ xs) = in_pos < length x

-- The octets up to `out_pos_`, those that have been consumed in the first element included.
abbrev pub octets_of : MultiBuffer → Bytes
octets_of b = flatten b.before ++ take b.out_pos (flatten b.rest)

-- `debug_check` and what it rests on.
pub record IsSound (b : MultiBuffer) : Type 0 where
  pub are_before : AreBlocks b.before
  pub are_rest : AreBlocks b.rest
  pub has_output : HasOutput b.out_pos b.out_end b.rest
  pub front : Front b.in_pos b.out_pos b.before
  pub sized : b.in_pos + b.in_size ≡ length (octets_of b)
  pub allocates : 0 < b.alloc_size
  pub counted : b.live ≡ length b.before + length b.rest

out_pos_within :
    (pos last : ℕ) (r : Bytes) (rs : List Bytes) → HasOutput pos last (r ∷ rs) → pos < length r
out_pos_within pos last r rs h = h.1.0

flatten_first :
    (n : ℕ) (x : Bytes) (xs : List Bytes)
    → n ≤ length x
    → flatten (drop_first n (x ∷ xs)) ≡ drop n (x ++ flatten xs)
flatten_first n x xs h = sym (drop-append_short n x (flatten xs) h)

pub flatten-append : (xs ys : List Bytes) → flatten (xs ++ ys) ≡ flatten xs ++ flatten ys
flatten-append [] ys = refl
flatten-append (x ∷ xs) ys =
    ap (λ (l : Bytes). x ++ l) (flatten-append xs ys)
    ∙ sym (append_assoc x (flatten xs) (flatten ys))

flatten-committed :
    (pos last : ℕ) (rest : List Bytes)
    → HasOutput pos last rest
    → flatten (committed pos rest) ≡ take pos (flatten rest)
flatten-committed pos last [] h = rw h.0 refl
flatten-committed pos last (r ∷ rs) h =
    append-nil (take pos r)
    ∙ sym (take-append_short pos r (flatten rs) (omega (arith, out_pos_within pos last r rs h)))

-- The input sequence is what has not been consumed of the octets.
pub multi_data-octets_of :
    (b : MultiBuffer) → IsSound b → flatten (multi_data b) ≡ drop b.in_pos (octets_of b)
unfolding multi_data
multi_data-octets_of b s = from b.before b.rest s.front s.has_output
  where
    from :
        (xs rest : List Bytes)
        → Front b.in_pos b.out_pos xs
        → HasOutput b.out_pos b.out_end rest
        → flatten (drop_first b.in_pos (xs ++ committed b.out_pos rest))
          ≡ drop b.in_pos (flatten xs ++ take b.out_pos (flatten rest))
    from [] [] f h = let z : b.in_pos ≡ 0 = omega (arith, f, h.0) in rw (z, h.0) refl
    from [] (r ∷ rs) f h =
        let w = out_pos_within b.out_pos b.out_end r rs h in
        flatten_first b.in_pos (take b.out_pos r) [] (omega (arith, f, w, length-take b.out_pos r))
        ∙ ap (drop b.in_pos) (flatten-committed b.out_pos b.out_end (r ∷ rs) h)
    from (x ∷ xs) rest f h =
        flatten_first b.in_pos x (xs ++ committed b.out_pos rest) (omega (arith, f))
        ∙ ap (λ (l : Bytes). drop b.in_pos (x ++ l))
            (flatten-append xs (committed b.out_pos rest)
              ∙ ap (λ (l : Bytes). flatten xs ++ l) (flatten-committed b.out_pos b.out_end rest h))
        ∙ ap (drop b.in_pos) (sym (append_assoc x (flatten xs) (take b.out_pos (flatten rest))))
