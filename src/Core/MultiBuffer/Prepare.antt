-- ===== src/Core/MultiBuffer/Prepare.antt =====
-- `prepare` finds room for the octets asked for, in the elements that are there and in one more.
use remotedev.Base.{
  ℕ, zero, suc, ◌+◌, ◌-◌, ◌<◌, ◌≤◌, ◌≡◌, refl, sym, ◌∙◌, inl, inr, true, List, [], ◌∷◌, ◌++◌, Bytes,
  All-append, length, take, flatten, length-append, take-append_short, ltb, leb, both_branches,
  arith,
}
use Prim.Native.Nat.{max}
use remotedev.Core.MultiBuffer.{
  MultiBuffer, Preparing, take_reuse, allocate, prepare_out, multi_prepare,
}
use remotedev.Core.MultiBuffer.Sound.{IsNil, AreBlocks, Output, HasOutput, IsSound}
use remotedev.Core.MultiBuffer.Commit.{HasRoom}

take_reuse_zero :
    (first : ℕ) (es : List Bytes)
    → take_reuse 0 first es ≡ record { taken = []; left = es; missing = 0; last = first }
unfolding take_reuse
take_reuse_zero first [] = refl
take_reuse_zero first (e ∷ es) = refl

-- What the elements behind `out_` give of `n` octets.
record Taken (n first : ℕ) (es : List Bytes) (q : Preparing) : Type 0 where
  output : Output 0 first q.taken n q.missing q.last
  stops : (n ≡ 0) → IsNil q.taken
  are_taken : AreBlocks q.taken
  blocks : length q.taken + length q.left ≡ length es

none_taken :
    (n first : ℕ) (es : List Bytes)
    → Taken n first es (record { taken = []; left = es; missing = n; last = first })
none_taken n first es = record {
  output = (refl, refl);
  stops = λ _. tt;
  are_taken = tt;
  blocks = omega arith;
}

take_reuse-Taken :
    (n first : ℕ) (es : List Bytes) → AreBlocks es → Taken n first es (take_reuse n first es)
unfolding take_reuse
take_reuse-Taken n first [] a = none_taken n first []
take_reuse-Taken n first (e ∷ es) a =
    both_branches (Taken n first (e ∷ es)) (ltb 0 n) _ _
      (λ t.
        both_branches (λ (p : Preparing). Taken n first (e ∷ es) (record p { taken = e ∷ p.taken }))
          (ltb (length e) n) _ _
          (λ u.
            let w = take_reuse-Taken (n - length e) (length e) es a.1 in
            record {
              output = (
                a.0,
                inr (
                  ground arith,
                  (let z : length e - 0 ≡ length e = omega arith in rw z w.output),
                ),
              );
              stops = λ z. absurd (ground arith);
              are_taken = (a.0, w.are_taken);
              blocks = omega (arith, w.blocks);
            })
          λ u. rw (take_reuse_zero n es) (record {
            output = (a.0, inl (ground arith, tt, refl, omega arith));
            stops = λ z. absurd (ground arith);
            are_taken = (a.0, tt);
            blocks = omega arith;
          }))
      λ t. none_taken n first (e ∷ es)

Output-append :
    (f n m l l' : ℕ) (xs ys : List Bytes)
    → Output 0 f xs n m l
    → Output 0 l ys m 0 l'
    → ((m ≡ 0) → IsNil ys)
    → Output 0 f (xs ++ ys) n 0 l'
Output-append f n m l l' [] ys (e, g) o z = rw (sym e, sym g) o
Output-append f n m l l' (r ∷ []) [] (p, inl (q, _, e, g)) o z = (p, inl (q, tt, refl, o.1 ∙ g))
Output-append f n m l l' (r ∷ []) (y ∷ ys) (p, inl (q, _, e, g)) o z = absurd (z e)
Output-append f n m l l' (r ∷ x ∷ xs) ys (p, inl (q, c, e, g)) o z = absurd c
Output-append f n m l l' (r ∷ xs) ys (p, inr (q, more)) o z =
    (p, inr (q, Output-append (length r) (n - (length r - 0)) m l l' xs ys more o z))

module _ (fresh : ℕ → Bytes) (length-fresh : (n : ℕ) → length (fresh n) ≡ n) where
  allocate_zero : (a fuel first : ℕ) → allocate fresh a fuel 0 first ≡ ([], first)
  unfolding allocate
  allocate_zero a zero first = refl
  allocate_zero a (suc fuel) first = refl

  -- The blocks that `allocate` gives: none, or one.
  record Allocated (n first : ℕ) (p : List Bytes × ℕ) : Type 0 where
    output : Output 0 first p.0 n 0 p.1
    stops : (n ≡ 0) → IsNil p.0
    are_blocks : AreBlocks p.0

  allocate-Allocated :
      (a fuel n first : ℕ) → Allocated n first (allocate fresh a (suc fuel) n first)
  unfolding allocate
  allocate-Allocated a fuel n first =
      let e = fresh (max a n) in
      let l = length-fresh (max a n) in
      let p : ltb 0 n ≡ true → 0 < length e = λ t. ground (arith, l) in
      both_branches (Allocated n first) (ltb 0 n) _ ([], first)
        (λ t.
          both_branches (λ (q : List Bytes × ℕ). Allocated n first (e ∷ q.0, q.1))
            (leb (length e) n) _ _
            (λ u.
              let none_left : n - length e ≡ 0 = omega (arith, l) in
              rw (none_left, allocate_zero a fuel (length e))
                (record {
                  output = (p t, inl (omega (arith, l), tt, refl, ground (arith, l)));
                  stops = λ z. absurd (ground arith);
                  are_blocks = (p t, tt);
                }))
            λ u. rw (allocate_zero a fuel n) (record {
              output = (p t, inl (omega (arith, l), tt, refl, omega arith));
              stops = λ z. absurd (ground arith);
              are_blocks = (p t, tt);
            }))
        λ t.
          let z : n ≡ 0 = ground arith in
          record { output = rw z (refl, refl); stops = λ _. tt; are_blocks = tt }

  -- What `prepare` of `n` octets changes.
  pub record Prepared (n : ℕ) (b b' : MultiBuffer) : Type 0 where
    pub blocks : List Bytes
    pub out_end : ℕ
    pub live : ℕ
    pub is_changed : b' ≡ record b { rest = blocks; out_end = out_end; live = live }
    pub are_blocks : AreBlocks blocks
    pub has_room : HasRoom b.out_pos out_end blocks n
    pub same_octets : take b.out_pos (flatten blocks) ≡ take b.out_pos (flatten b.rest)
    pub counted : live ≡ length b.before + length blocks

  -- The two loops, after what was found in `out_`.
  abbrev reused : Preparing → Preparing
  reused p = take_reuse p.missing p.last p.left

  abbrev allocated : ℕ → Preparing → List Bytes × ℕ
  allocated a p = allocate fresh a (suc (reused p).missing) (reused p).missing (reused p).last

  abbrev next_blocks : ℕ → Preparing → List Bytes
  next_blocks a p = (reused p).taken ++ (allocated a p).0

  record AreFound (a : ℕ) (p : Preparing) : Type 0 where
    output : Output 0 p.last (next_blocks a p) p.missing 0 (allocated a p).1
    stops : (p.missing ≡ 0) → IsNil (next_blocks a p)
    are_blocks : AreBlocks (next_blocks a p)
    counted :
        length (next_blocks a p) + length (reused p).left ≡ length p.left + length (allocated a p).0

  IsNil-append : (xs ys : List Bytes) → IsNil xs → IsNil ys → IsNil (xs ++ ys)
  IsNil-append [] ys h k = k
  IsNil-append (x ∷ xs) ys h k = absurd h

  all_missing :
      (n f : ℕ) (es : List Bytes) (q : Preparing) → Taken n f es q → (n ≡ 0) → q.missing ≡ 0
  all_missing n f es q t z = nothing_taken q.taken (t.stops z) t.output
    where
      nothing_taken :
          (xs : List Bytes) → IsNil xs → Output 0 f xs n q.missing q.last → q.missing ≡ 0
      nothing_taken [] h o = o.0 ∙ z
      nothing_taken (x ∷ xs) h o = absurd h

  next_blocks-AreFound : (a : ℕ) (p : Preparing) → AreBlocks p.left → AreFound a p
  next_blocks-AreFound a p h =
      let q = reused p in
      let t = take_reuse-Taken p.missing p.last p.left h in
      let w = allocate-Allocated a q.missing q.missing q.last in
      record {
        output =
            Output-append p.last p.missing q.missing q.last (allocated a p).1 q.taken
              (allocated a p).0 t.output w.output w.stops;
        stops = λ z.
            IsNil-append q.taken (allocated a p).0 (t.stops z)
              (w.stops (all_missing p.missing p.last p.left q t z));
        are_blocks =
            All-append (λ x. 0 < length x) q.taken (allocated a p).0 t.are_taken w.are_blocks;
        counted = omega (arith, t.blocks, length-append q.taken (allocated a p).0);
      }

  -- The new list of elements from `out_` on.
  record Found (a n pos : ℕ) (rest : List Bytes) (p : Preparing) : Type 0 where
    are_blocks : AreBlocks (p.taken ++ next_blocks a p)
    has_room : HasRoom pos (allocated a p).1 (p.taken ++ next_blocks a p) n
    same_octets : take pos (flatten (p.taken ++ next_blocks a p)) ≡ take pos (flatten rest)
    counted :
        length (p.taken ++ next_blocks a p) + length (reused p).left
        ≡ length rest + length (allocated a p).0

  start_room : (n last : ℕ) (xs : List Bytes) → Output 0 0 xs n 0 last → HasRoom 0 last xs n
  start_room n last [] o = (refl, o.1, sym o.0)
  start_room n last (x ∷ xs) o = o

  only_nil : (xs : List Bytes) → IsNil xs → xs ≡ []
  only_nil [] h = refl
  only_nil (x ∷ xs) h = absurd h

  prepare_out-Found :
      (a n pos last : ℕ) (rest : List Bytes)
      → AreBlocks rest
      → HasOutput pos last rest
      → Found a n pos rest (prepare_out n pos last rest)
  unfolding prepare_out
  prepare_out-Found a n pos last [] h o =
      let f = next_blocks-AreFound a (record { taken = []; left = []; missing = n; last = 0 }) tt in
      rw (o.0, o.1)
        (record {
          are_blocks = f.are_blocks;
          has_room = start_room n _ _ f.output;
          same_octets = refl;
          counted = f.counted;
        })
  prepare_out-Found a n pos last (r ∷ rs) h o =
      let p = o.1.0 in
      let same = λ (xs : List Bytes).
        take-append_short pos r (flatten xs) (omega (arith, p))
        ∙ sym (take-append_short pos r (flatten rs) (omega (arith, p))) in
      both_branches (Found a n pos (r ∷ rs)) (ltb (length r - pos) n) _ _
        (λ t.
          let q : Preparing = record {
            taken = r ∷ [];
            left = rs;
            missing = n - (length r - pos);
            last = length r;
          } in
          let f = next_blocks-AreFound a q h.1 in
          record {
            are_blocks = (h.0, f.are_blocks);
            has_room = (p, inr (ground arith, f.output));
            same_octets = same (next_blocks a q);
            counted = omega (arith, f.counted);
          })
        λ t.
          let q : Preparing = record { taken = r ∷ []; left = rs; missing = 0; last = pos + n } in
          let f = next_blocks-AreFound a q h.1 in
          let nil = f.stops refl in
          record {
            are_blocks = (h.0, f.are_blocks);
            has_room = (p, inl (ground arith, nil, refl, end_stays (pos + n) _ _ nil f.output));
            same_octets = same (next_blocks a q);
            counted = omega (arith, f.counted);
          }
    where
      end_stays : (f l : ℕ) (xs : List Bytes) → IsNil xs → Output 0 f xs 0 0 l → l ≡ f
      end_stays f l [] z o = o.1
      end_stays f l (x ∷ xs) z o = absurd z

  pub multi_prepare-Prepared :
      (n : ℕ) (b : MultiBuffer) → IsSound b → Prepared n b (multi_prepare fresh n b)
  unfolding multi_prepare
  multi_prepare-Prepared n b s =
      let p = prepare_out n b.out_pos b.out_end b.rest in
      let f = prepare_out-Found b.alloc_size n b.out_pos b.out_end b.rest s.are_rest s.has_output in
      record {
        blocks = p.taken ++ next_blocks b.alloc_size p;
        out_end = (allocated b.alloc_size p).1;
        live = b.live + length (allocated b.alloc_size p).0 - length (reused p).left;
        is_changed = refl;
        are_blocks = f.are_blocks;
        has_room = f.has_room;
        same_octets = f.same_octets;
        counted = omega (arith, f.counted, s.counted);
      }

  -- One block is large enough.
  length-allocate : (a fuel n first : ℕ) → length (allocate fresh a (suc fuel) n first).0 ≤ 1
  unfolding allocate
  length-allocate a fuel n first =
      let e = fresh (max a n) in
      let l = length-fresh (max a n) in
      let P = λ (q : List Bytes × ℕ). length q.0 ≤ 1 in
      both_branches P (ltb 0 n) _ ([], first)
        (λ t.
          both_branches (λ (q : List Bytes × ℕ). length (e ∷ q.0) ≤ 1) (leb (length e) n) _ _
            (λ u.
              let none_left : n - length e ≡ 0 = omega (arith, l) in
              rw (none_left, allocate_zero a fuel (length e)) (omega arith))
            λ u. rw (allocate_zero a fuel n) (omega arith))
        λ t. omega arith

  pub multi_prepare-live :
      (n : ℕ) (b : MultiBuffer) → b.rest ≡ [] → b.live ≡ 0 → (multi_prepare fresh n b).live ≤ 1
  unfolding multi_prepare prepare_out
  multi_prepare-live n b r k =
      let p = prepare_out n b.out_pos b.out_end b.rest in
      let q = take_reuse p.missing p.last p.left in
      omega (arith, k, length-allocate b.alloc_size q.missing q.missing q.last)
