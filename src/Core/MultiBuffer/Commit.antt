-- ===== src/Core/MultiBuffer/Commit.antt =====
-- `commit` moves the first octets of the output sequence to the input sequence.
use mathlib.Core.List.{append_assoc, append-nil}
use remotedev.Base.{
  ℕ, ◌+◌, ◌-◌, min, ◌≤◌, ◌<◌, ◌≡◌, refl, sym, ap, ◌∙◌, inl, inr, List, [], ◌∷◌, ◌++◌, Bytes,
  All-append, length, take, flatten, length-append, take-append_long, ltb, ◌==◌, both_branches,
  arith,
}
use remotedev.Core.MultiBuffer.{MultiBuffer, commit_from}
use remotedev.Core.MultiBuffer.Sound.{
  AreBlocks, Output, HasOutput, Front, octets_of, flatten-append,
}

abbrev pub buffer : List Bytes → List Bytes → ℕ → ℕ → ℕ → ℕ → ℕ → ℕ → MultiBuffer
buffer before rest alloc_size in_size in_pos out_pos out_end live = record {
  before = before;
  rest = rest;
  alloc_size = alloc_size;
  in_size = in_size;
  in_pos = in_pos;
  out_pos = out_pos;
  out_end = out_end;
  live = live;
}

-- Room for `n` octets of output.
abbrev pub HasRoom : ℕ → ℕ → List Bytes → ℕ → Type 0
HasRoom pos last [] n = (pos ≡ 0) × (last ≡ 0) × (n ≡ 0)
HasRoom pos last (r ∷ rs) n = Output pos 0 (r ∷ rs) n 0 last

HasRoom-HasOutput :
    (pos last n : ℕ) (rs : List Bytes) → HasRoom pos last rs n → HasOutput pos last rs
HasRoom-HasOutput pos last n [] h = (h.0, h.1)
HasRoom-HasOutput pos last n (r ∷ rs) h = (n, h)

-- What `commit` of `k` octets leaves.
pub record Committed (k : ℕ) (b b' : MultiBuffer) : Type 0 where
  pub are_before : AreBlocks b'.before
  pub are_rest : AreBlocks b'.rest
  pub has_output : HasOutput b'.out_pos b'.out_end b'.rest
  pub front : Front b'.in_pos b'.out_pos b'.before
  pub gives : octets_of b' ≡ flatten b.before ++ take (b.out_pos + k) (flatten b.rest)
  pub in_size : b'.in_size ≡ b.in_size + k
  pub in_pos : b'.in_pos ≡ b.in_pos
  pub alloc_size : b'.alloc_size ≡ b.alloc_size
  pub live : b'.live ≡ b.live
  pub blocks : length b'.before + length b'.rest ≡ length b.before + length b.rest

Front-snoc :
    (in_pos pos pos' : ℕ) (xs : List Bytes) (r : Bytes)
    → pos < length r
    → Front in_pos pos xs
    → Front in_pos pos' (xs ++ r ∷ [])
Front-snoc in_pos pos pos' [] r h f = omega (arith, f)
Front-snoc in_pos pos pos' (x ∷ xs) r h f = f

Front-more :
    (in_pos pos pos' : ℕ) (xs : List Bytes)
    → pos ≤ pos'
    → Front in_pos pos xs
    → Front in_pos pos' xs
Front-more in_pos pos pos' [] h f = omega (arith, f)
Front-more in_pos pos pos' (x ∷ xs) h f = f

AreBlocks-snoc :
    (xs : List Bytes) (r : Bytes) → AreBlocks xs → 0 < length r → AreBlocks (xs ++ r ∷ [])
AreBlocks-snoc xs r a h = All-append (λ x. 0 < length x) xs (r ∷ []) a (h, tt)

-- A block that has been filled is part of the octets.
full_block :
    (xs : List Bytes) (r rest : Bytes) (k j : ℕ)
    → k ≡ length r + j
    → flatten (xs ++ r ∷ []) ++ take j rest ≡ flatten xs ++ take k (r ++ rest)
full_block xs r rest k j h =
    ap (λ (l : Bytes). l ++ take j rest)
      (flatten-append xs (r ∷ []) ∙ ap (λ (l : Bytes). flatten xs ++ l) (append-nil r))
    ∙ append_assoc (flatten xs) r (take j rest)
    ∙ ap (λ (l : Bytes). flatten xs ++ l) (sym (take-append_long k j r rest h))

-- The last block is full.
last_filled :
    (k : ℕ) (xs : List Bytes) (r : Bytes) (alloc_size in_size in_pos pos last live : ℕ)
    → AreBlocks xs
    → Front in_pos pos xs
    → pos < length r
    → pos + k ≡ length r
    → Committed k
        (buffer xs (r ∷ []) alloc_size in_size in_pos pos last live)
        (buffer (xs ++ r ∷ []) [] alloc_size (in_size + k) in_pos 0 0 live)
last_filled k xs r a size in_pos pos last live ax f p e = record {
  are_before = AreBlocks-snoc xs r ax (omega arith);
  are_rest = tt;
  has_output = (refl, refl);
  front = Front-snoc in_pos pos 0 xs r p f;
  gives = full_block xs r [] (pos + k) 0 (omega arith);
  in_size = refl;
  in_pos = refl;
  alloc_size = refl;
  live = refl;
  blocks = omega (arith, length-append xs (r ∷ []));
}

Output-later :
    (k n pos last : ℕ) (r : Bytes) (rs : List Bytes)
    → k ≤ n
    → pos + k < length r
    → Output pos 0 (r ∷ rs) n 0 last
    → Output (pos + k) 0 (r ∷ rs) (n - k) 0 last
Output-later k n pos last r rs h w (p, inl (q, z, m, e)) =
    (w, inl (omega arith, z, m, omega (arith, e)))
Output-later k n pos last r rs h w (p, inr (q, more)) =
    let e : n - (length r - pos) ≡ n - k - (length r - (pos + k)) = omega arith in
    (w, inr (omega arith, rw (← e) more))

-- A block is not full.
partly_filled :
    (k n : ℕ) (xs : List Bytes) (r : Bytes) (rs : List Bytes)
    (alloc_size in_size in_pos pos last live : ℕ)
    → AreBlocks xs
    → AreBlocks (r ∷ rs)
    → Front in_pos pos xs
    → Output pos 0 (r ∷ rs) n 0 last
    → k ≤ n
    → pos + k < length r
    → Committed k
        (buffer xs (r ∷ rs) alloc_size in_size in_pos pos last live)
        (buffer xs (r ∷ rs) alloc_size (in_size + k) in_pos (pos + k) last live)
partly_filled k n xs r rs a size in_pos pos last live ax ar f o l w = record {
  are_before = ax;
  are_rest = ar;
  has_output = (n - k, Output-later k n pos last r rs l w o);
  front = Front-more in_pos pos (pos + k) xs (omega arith) f;
  gives = refl;
  in_size = refl;
  in_pos = refl;
  alloc_size = refl;
  live = refl;
  blocks = refl;
}

next_block :
    (k : ℕ) (xs : List Bytes) (r : Bytes) (rs : List Bytes)
    (alloc_size in_size in_pos pos last live : ℕ) (b : MultiBuffer)
    → length r - pos ≤ k
    → pos < length r
    → Committed
        (k - (length r - pos))
        (buffer (xs ++ r ∷ []) rs alloc_size (in_size + (length r - pos)) in_pos 0 last live)
        b
    → Committed k (buffer xs (r ∷ rs) alloc_size in_size in_pos pos last live) b
next_block k xs r rs a size in_pos pos last live b h p c = record {
  are_before = c.are_before;
  are_rest = c.are_rest;
  has_output = c.has_output;
  front = c.front;
  gives =
      c.gives ∙ full_block xs r (flatten rs) (pos + k) (0 + (k - (length r - pos))) (omega arith);
  in_size = omega (arith, c.in_size);
  in_pos = c.in_pos;
  alloc_size = c.alloc_size;
  live = c.live;
  blocks = omega (arith, c.blocks, length-append xs (r ∷ []));
}

one_block_end :
    (n pos last : ℕ) (r : Bytes)
    → Output pos 0 (r ∷ []) n 0 last
    → (last ≡ pos + n) × (pos + n ≤ length r)
one_block_end n pos last r (p, inl (q, z, m, e)) = (e, omega arith)
one_block_end n pos last r (p, inr (q, more)) = absurd (omega (arith, more.0))

pub commit_from-Committed :
    (k n : ℕ) (xs rs : List Bytes) (alloc_size in_size in_pos pos last live : ℕ)
    → AreBlocks xs
    → AreBlocks rs
    → HasRoom pos last rs n
    → Front in_pos pos xs
    → k ≤ n
    → let b = buffer xs rs alloc_size in_size in_pos pos last live in
      Committed k b (commit_from k b rs)
unfolding commit_from
commit_from-Committed k n xs [] a size in_pos pos last live ax ar h f l =
    let z : k ≡ 0 = omega (arith, h.2) in
    record {
      are_before = ax;
      are_rest = tt;
      has_output = (h.0, h.1);
      front = f;
      gives = rw (z, h.0) refl;
      in_size = omega arith;
      in_pos = refl;
      alloc_size = refl;
      live = refl;
      blocks = refl;
    }
commit_from-Committed k n xs (r ∷ []) a size in_pos pos last live ax ar h f l =
    let (e, w) = one_block_end n pos last r h in
    let m : min k (last - pos) ≡ k = omega (arith, e) in
    rw m (
      both_branches (Committed k (buffer xs (r ∷ []) a size in_pos pos last live))
        (pos + k == length r) _ _
        (λ t. last_filled k xs r a size in_pos pos last live ax f h.0 (ground arith))
        λ t. partly_filled k n xs r [] a size in_pos pos last live ax ar f h l (ground arith))
commit_from-Committed k n xs (r ∷ s ∷ rs) a size in_pos pos last live ax ar (p, inl full) f l =
    absurd full.1
commit_from-Committed k n xs (r ∷ s ∷ rs) a size in_pos pos last live ax ar (p, inr (q, more)) f l =
    let avail = length r - pos in
    both_branches (Committed k (buffer xs (r ∷ s ∷ rs) a size in_pos pos last live)) (ltb k avail) _
      _
      (λ t.
        partly_filled k n xs r (s ∷ rs) a size in_pos pos last live ax ar f (p, inr (q, more)) l
          (ground arith))
      λ t.
        let within : avail ≤ k = ground arith in
        next_block k xs r (s ∷ rs) a size in_pos pos last live _ within p (
          commit_from-Committed (k - avail) (n - avail) (xs ++ r ∷ []) (s ∷ rs) a (size + avail)
            in_pos 0 last live (AreBlocks-snoc xs r ax ar.0) ar.1 more
            (Front-snoc in_pos pos 0 xs r p f) (omega arith))

pub commit_from-live :
    (n : ℕ) (b : MultiBuffer) (rs : List Bytes) → (commit_from n b rs).live ≡ b.live
unfolding commit_from
commit_from-live n b [] = refl
commit_from-live n b (r ∷ []) =
    both_branches (λ (c : MultiBuffer). c.live ≡ b.live)
      (b.out_pos + min n (b.out_end - b.out_pos) == length r) _ _ (λ _. refl) (λ _. refl)
commit_from-live n b (r ∷ s ∷ rs) =
    both_branches (λ (c : MultiBuffer). c.live ≡ b.live) (ltb n (length r - b.out_pos)) _ _
      (λ _. refl)
      (λ _.
        commit_from-live (n - (length r - b.out_pos))
          (record b {
            before = b.before ++ r ∷ [];
            rest = s ∷ rs;
            in_size = b.in_size + (length r - b.out_pos);
            out_pos = 0;
          })
          (s ∷ rs))
