-- ===== src/Core/BufferSequences.antt =====
-- include/beast/core/detail/buffer_prefix.hpp and include/beast/core/impl/consuming_buffers.ipp. A
-- sequence of buffers is the list of their octets, and a sequence that is consumed is what is left
-- from `begin_` on, with `skip_`, which is at most the length of the buffer at `begin_`.
mod Tests
use mathlib.Core.List.{append-nil, append_assoc}
use remotedev.Base.{
  ℕ, zero, suc, ◌+◌, ◌-◌, ◌≤◌, ◌≡◌, refl, sym, ap, ◌∙◌, inl, inr, Bool, true, false, List, [], ◌∷◌,
  ◌++◌, Bytes, length, take, drop, flatten, take-append-drop, take-append_short, take-append_long,
  take-all, drop-append_short, drop-append_long, drop-length_append, drop-drop, drop-all,
  length-drop, both_branches, ltb, leb, if◌then◌else◌, arith,
}

pub record Consuming : Type 0 where
  pub rest : List Bytes
  pub skip : ℕ

-- The buffers from `begin()` to `end()`.
pub consuming_data : Consuming → List Bytes
consuming_data c = elim c.rest [ [] ↦ [] | b ∷ bs ↦ drop c.skip b ∷ bs ]

-- The loop of `consume`.
consume_rest : ℕ → ℕ → List Bytes → Consuming
consume_rest n skip [] = record { rest = []; skip = skip }
consume_rest n skip (b ∷ bs) =
    let len = length b - skip in
    let next = consume_rest (n - len) 0 bs in
    if ltb 0 n
    then (if ltb n len then record { rest = b ∷ bs; skip = skip + n } else next)
    else record { rest = b ∷ bs; skip = skip }

consuming_consume : ℕ → Consuming → Consuming
unfolding consume_rest
consuming_consume n c = consume_rest n c.skip c.rest

-- `buffer_prefix` of a buffer, and of a sequence.
prefix_of : ℕ → Bytes → Bytes
prefix_of n b = take n b

pub buffer_prefix : ℕ → List Bytes → List Bytes
unfolding prefix_of
buffer_prefix n [] = []
buffer_prefix n (b ∷ bs) =
    let next = buffer_prefix (n - length b) bs in
    if leb n (length b) then prefix_of n b ∷ [] else b ∷ next

abbrev pub IsWithin : Consuming → Type 0
IsWithin c = elim c.rest [ [] ↦ Unit | b ∷ bs ↦ c.skip ≤ length b ]

-- A stream that takes these numbers of octets of a sequence, one after the other: the octets, and
-- the sequence that is left.
pub written : List ℕ → Consuming → Bytes × Consuming
written [] c = ([], c)
written (n ∷ ns) c =
    let (xs, c') = written ns (consuming_consume n c) in
    (flatten (buffer_prefix n (consuming_data c)) ++ xs, c')

prefix-flatten : (n : ℕ) (bs : List Bytes) → flatten (buffer_prefix n bs) ≡ take n (flatten bs)
unfolding buffer_prefix
prefix-flatten n [] = sym (take-all n [] (omega arith))
prefix-flatten n (b ∷ bs) =
    both_branches (λ (l : List Bytes). flatten l ≡ take n (b ++ flatten bs)) (leb n (length b)) _ _
      (λ t. append-nil (take n b) ∙ sym (take-append_short n b (flatten bs) (ground arith)))
      λ t.
        ap (λ (l : Bytes). b ++ l) (prefix-flatten (n - length b) bs)
        ∙ sym (take-append_long n (n - length b) b (flatten bs) (ground arith))

starts : (bs : List Bytes) → IsWithin (record { rest = bs; skip = 0 })
starts [] = tt
starts (b ∷ bs) = omega arith

start_data :
    (bs : List Bytes) → flatten (consuming_data (record { rest = bs; skip = 0 })) ≡ flatten bs
unfolding consuming_data
start_data [] = refl
start_data (b ∷ bs) = refl

record Consumed (n skip : ℕ) (bs : List Bytes) (c : Consuming) : Type 0 where
  is_within : IsWithin c
  left :
      flatten (consuming_data c)
      ≡ drop n (flatten (consuming_data (record { rest = bs; skip = skip })))

consume_rest-Consumed :
    (n skip : ℕ) (bs : List Bytes)
    → IsWithin (record { rest = bs; skip = skip })
    → Consumed n skip bs (consume_rest n skip bs)
unfolding consume_rest consuming_data
consume_rest-Consumed n skip [] w = record {
  is_within = tt;
  left = sym (drop-all n [] (omega arith));
}
consume_rest-Consumed n skip (b ∷ bs) w =
    both_branches (Consumed n skip (b ∷ bs)) (ltb 0 n) _ _
      (λ t.
        both_branches (Consumed n skip (b ∷ bs)) (ltb n (length b - skip)) _ _
          (λ u. record {
            is_within = ground arith;
            left =
                ap (λ (l : Bytes). l ++ flatten bs) (sym (drop-drop skip n b))
                ∙ sym (
                    drop-append_short n (drop skip b) (flatten bs)
                      (ground (arith, length-drop skip b)));
          })
          λ u.
            let h = consume_rest-Consumed (n - (length b - skip)) 0 bs (starts bs) in
            record {
              is_within = h.is_within;
              left =
                  h.left
                  ∙ ap (drop (n - (length b - skip))) (start_data bs)
                  ∙ sym (
                      drop-append_long n (n - (length b - skip)) (drop skip b) (flatten bs)
                        (ground (arith, length-drop skip b)));
            })
      λ t. record { is_within = w; left = let z : n ≡ 0 = ground arith in rw z refl }

abbrev sum : List ℕ → ℕ
sum [] = 0
sum (n ∷ ns) = n + sum ns

take_add : (n m : ℕ) (xs : Bytes) → take n xs ++ take m (drop n xs) ≡ take (n + m) xs
take_add zero m xs = let e : 0 + m ≡ m = omega arith in rw e refl
take_add (suc n) m [] = take-all m [] (omega arith) ∙ sym (take-all (suc n + m) [] (omega arith))
take_add (suc n) m (x ∷ xs) =
    let e : suc n + m ≡ suc (n + m) = omega arith in rw e (ap (◌∷◌ x) (take_add n m xs))

-- However a sequence is written and consumed, in as many steps as there are numbers, the octets
-- written are its octets in order, as many as the numbers together or all of them, and what is left
-- of it is the others.
pub written-take :
    (ns : List ℕ) (c : Consuming)
    → IsWithin c
    → IsWithin (written ns c).1
      × ((written ns c).0 ≡ take (sum ns) (flatten (consuming_data c)))
      × (flatten (consuming_data (written ns c).1) ≡ drop (sum ns) (flatten (consuming_data c)))
unfolding written consuming_consume
written-take [] c w = (w, refl, refl)
written-take (n ∷ ns) c w =
    let h = consume_rest-Consumed n c.skip c.rest w in
    let d = flatten (consuming_data c) in
    let (v, e, l) = written-take ns (consuming_consume n c) h.is_within in
    (
      v,
      ap (λ (xs : Bytes). flatten (buffer_prefix n (consuming_data c)) ++ xs)
            (e ∙ ap (take (sum ns)) h.left)
          ∙ ap (λ (xs : Bytes). xs ++ take (sum ns) (drop n d))
              (prefix-flatten n (consuming_data c))
          ∙ take_add n (sum ns) d,
      l ∙ ap (drop (sum ns)) h.left ∙ drop-drop n (sum ns) d,
    )
