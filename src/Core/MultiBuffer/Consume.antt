-- ===== src/Core/MultiBuffer/Consume.antt =====
-- `consume` takes octets off the front of the input sequence, and gives up the elements passed.
use mathlib.Core.List.{append_assoc}
use remotedev.Base.{
  ℕ, zero, suc, ◌+◌, ◌-◌, ◌≤◌, ◌<◌, ◌≡◌, refl, sym, ap, ◌∙◌, inl, Bool, true, false, not, ◌&&◌,
  ◌||◌, List, [], ◌∷◌, ◌++◌, Bytes, length, take, drop, drop-drop, drop-all, drop-length_append,
  flatten, length-append, length-take, length-drop, ltb, ◌==◌, both_branches, arith,
}
use remotedev.Core.MultiBuffer.{MultiBuffer, consume_from, multi_consume, is_back, is_nil}
use remotedev.Core.MultiBuffer.Sound.{AreBlocks, HasOutput, Front, octets_of, IsSound}
use remotedev.Core.MultiBuffer.Commit.{buffer}

-- What `consume` of `n` octets leaves.
pub record Consumed (n : ℕ) (b b' : MultiBuffer) : Type 0 where
  pub is_sound : IsSound b'
  pub gives : drop b'.in_pos (octets_of b') ≡ drop n (drop b.in_pos (octets_of b))

length-output :
    (pos last : ℕ) (rs : List Bytes) → HasOutput pos last rs → length (take pos (flatten rs)) ≡ pos
length-output pos last [] h = rw h.0 refl
length-output pos last (r ∷ rs) h =
    let w : pos < length r = h.1.0 in
    omega (arith, w, length-take pos (r ++ flatten rs), length-append r (flatten rs))

-- All that was there has been consumed.
all_consumed :
    (n in_pos pos : ℕ) (T : Bytes)
    → length T ≡ pos
    → in_pos ≤ pos
    → pos - in_pos ≤ n
    → [] ≡ drop n (drop in_pos T)
all_consumed n in_pos pos T e h k =
    sym (drop-all n (drop in_pos T) (omega (arith, e, length-drop in_pos T)))

HasOutput-reset :
    (pos last : ℕ) (rs : List Bytes)
    → AreBlocks rs
    → HasOutput pos last rs
    → is_back rs ≡ true
    → HasOutput 0 0 rs
HasOutput-reset pos last [] a h e = (refl, refl)
HasOutput-reset pos last (r ∷ []) a h e = (0, (a.0, inl (omega arith, tt, refl, refl)))
HasOutput-reset pos last (r ∷ s ∷ rs) a h e = absurd (cc)

Front-zero : (pos : ℕ) (xs : List Bytes) → AreBlocks xs → Front 0 pos xs
Front-zero pos [] a = omega arith
Front-zero pos (x ∷ xs) a = a.0

-- The first element has been consumed.
first_consumed :
    (n in_pos : ℕ) (x F T : Bytes)
    → in_pos < length x
    → length x - in_pos ≤ n
    → drop (n - (length x - in_pos)) (drop 0 (F ++ T)) ≡ drop n (drop in_pos ((x ++ F) ++ T))
first_consumed n in_pos x F T h k =
    let m = n - (length x - in_pos) in
    let e : length x + m ≡ in_pos + n = omega arith in
    ap (drop m) (sym (drop-length_append x (F ++ T)))
    ∙ drop-drop (length x) m (x ++ (F ++ T))
    ∙ ap (λ (j : ℕ). drop j (x ++ (F ++ T))) e
    ∙ sym (drop-drop in_pos n (x ++ (F ++ T)))
    ∙ ap (λ (y : Bytes). drop n (drop in_pos y)) (sym (append_assoc x F T))

consume_from-Consumed :
    (n : ℕ) (xs rest : List Bytes) (alloc_size in_size in_pos pos last live : ℕ)
    → let b = buffer xs rest alloc_size in_size in_pos pos last live in
      IsSound b → Consumed n b (consume_from n b xs)
unfolding consume_from
consume_from-Consumed n [] rest a size in_pos pos last live s =
    let T = take pos (flatten rest) in
    let l : length T ≡ pos = length-output pos last rest s.has_output in
    let b = buffer [] rest a size in_pos pos last live in
    both_branches (Consumed n b) (ltb n (pos - in_pos)) _ _
      (λ t. record {
        is_sound = record {
          are_before = tt;
          are_rest = s.are_rest;
          has_output = s.has_output;
          front = ground arith;
          sized = ground (arith, l, s.sized);
          allocates = s.allocates;
          counted = s.counted;
        };
        gives = sym (drop-drop in_pos n T);
      })
      λ t.
        let f : in_pos ≤ pos = s.front in
        both_branches (Consumed n b) (not (is_back rest) || not (pos == last)) _ _
          (λ u. record {
            is_sound = record {
              are_before = tt;
              are_rest = s.are_rest;
              has_output = s.has_output;
              front = omega arith;
              sized = omega (arith, l);
              allocates = s.allocates;
              counted = s.counted;
            };
            gives =
                drop-all pos T (omega (arith, l)) ∙ all_consumed n in_pos pos T l f (ground arith);
          })
          λ u. record {
            is_sound = record {
              are_before = tt;
              are_rest = s.are_rest;
              has_output = HasOutput-reset pos last rest s.are_rest s.has_output (back_of _ _ u);
              front = omega arith;
              sized = refl;
              allocates = s.allocates;
              counted = s.counted;
            };
            gives = all_consumed n in_pos pos T l f (ground arith);
          }
  where
    back_of : (x y : Bool) → (not x || not y) ≡ false → x ≡ true
    back_of true y h = refl
    back_of false y h = absurd (cc)
consume_from-Consumed n (x ∷ xs) rest a size in_pos pos last live s =
    let b = buffer (x ∷ xs) rest a size in_pos pos last live in
    let T = take pos (flatten rest) in
    let l = length-append x (flatten xs ++ T) in
    let e = append_assoc x (flatten xs) T in
    let sized : in_pos + size ≡ length x + length (flatten xs ++ T) = s.sized ∙ ap length e ∙ l in
    let f : in_pos < length x = s.front in
    both_branches (Consumed n b) (ltb n (length x - in_pos)) _ _
      (λ t. record {
        is_sound = record {
          are_before = s.are_before;
          are_rest = s.are_rest;
          has_output = s.has_output;
          front = ground arith;
          sized = ground (arith, sized, ap length e, l);
          allocates = s.allocates;
          counted = s.counted;
        };
        gives = sym (drop-drop in_pos n ((x ++ flatten xs) ++ T));
      })
      λ t.
        let avail = length x - in_pos in
        let c =
          consume_from-Consumed (n - avail) xs rest a (size - avail) 0 pos last (live - 1) (record {
            are_before = s.are_before.1;
            are_rest = s.are_rest;
            has_output = s.has_output;
            front = Front-zero pos xs s.are_before.1;
            sized = omega (arith, sized);
            allocates = s.allocates;
            counted = omega (arith, s.counted);
          }) in
        record {
          is_sound = c.is_sound;
          gives = c.gives ∙ first_consumed n in_pos x (flatten xs) T f (ground arith);
        }

pub multi_consume-Consumed :
    (n : ℕ) (b : MultiBuffer) → IsSound b → Consumed n b (multi_consume n b)
unfolding multi_consume
multi_consume-Consumed n b s =
    both_branches (Consumed n b) (is_nil b.before && is_nil b.rest) b _
      (λ t. record { is_sound = s; gives = sym (nothing_left b s t) })
      λ _.
        consume_from-Consumed n b.before b.rest b.alloc_size b.in_size b.in_pos b.out_pos b.out_end
          b.live s
  where
    nothing :
        (xs ys : List Bytes) (p m : ℕ)
        → (is_nil xs && is_nil ys) ≡ true
        → drop p (flatten xs ++ take m (flatten ys)) ≡ []
    nothing [] [] p zero h = drop-all p [] (omega arith)
    nothing [] [] p (suc m) h = drop-all p [] (omega arith)
    nothing (x ∷ xs) ys p m h = absurd (cc)
    nothing [] (y ∷ ys) p m h = absurd (cc)

    nothing_left :
        (b : MultiBuffer)
        → IsSound b
        → (is_nil b.before && is_nil b.rest) ≡ true
        → drop n (drop b.in_pos (octets_of b)) ≡ drop b.in_pos (octets_of b)
    nothing_left b s h =
        let e = nothing b.before b.rest b.in_pos b.out_pos h in rw e (drop-all n [] (omega arith))
