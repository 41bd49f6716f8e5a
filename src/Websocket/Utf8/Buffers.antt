-- ===== src/Websocket/Utf8/Buffers.antt =====
-- Text that is cut into buffers anywhere.
use mathlib.Core.List.{append_assoc, append-nil}
use remotedev.Base.{
  ℕ, ◌+◌, ◌-◌, ◌<◌, ◌≡◌, refl, sym, ap, ap₂, subst, ◌∙◌, inl, inr, min, true, false, Option, none,
  some, ◌>>=◌, List, [], ◌∷◌, ◌++◌, Bytes, AreOctets, flatten, length, length-append, length-drop,
  take, drop, take-append-drop, take-all, append_cut, ltb, leb, if_true, if_false, Bool-cases,
  arith,
}
use remotedev.Websocket.Utf8.{
  Utf8Checker, reset, finish, needed, valid, valid_have, write_rest, write, write_buffers,
  check_utf8,
}
use remotedev.Websocket.Utf8.Begun.{IsBegun, needed-length, begun_short, valid_have-IsBegun}
use remotedev.Websocket.Utf8.CodePoint.{IsCodePoint, valid-IsCodePoint}
use remotedev.Websocket.Utf8.Text.{ArePoints, Left, pending, write_rest-Left}

-- Text in two pieces: code points, the front of one, and the text that begins with it.
record Split (xs zs : Bytes) : Type 0 where
  points : List Bytes
  are_points : ArePoints points
  tail : Bytes
  is_begun : IsBegun tail
  is_front : xs ≡ flatten points ++ tail
  others : List Bytes
  are_others : ArePoints others
  goes_on : tail ++ zs ≡ flatten others

-- The first piece is shorter than the first code point.
split_short :
    (xs zs cp : Bytes) (cps : List Bytes)
    → ArePoints (cp ∷ cps)
    → xs ++ zs ≡ flatten (cp ∷ cps)
    → length xs < length cp
    → IsBegun xs
split_short [] zs cp cps p e h = tt
split_short (a ∷ r) zs cp cps p e h =
    let n = length (a ∷ r) in
    let (same, _) =
      append_cut (take n cp) (a ∷ r) (drop n cp ++ flatten cps) zs
        (sym (append_assoc (take n cp) (drop n cp) (flatten cps))
          ∙ ap (λ (l : Bytes). l ++ flatten cps) (take-append-drop n cp)
          ∙ sym e)
        (omega (
          arith,
          length-append (drop n cp) (flatten cps),
          length-drop n cp,
          ap length e,
          length-append r zs,
          length-append cp (flatten cps),
          h,
        )) in
    let whole : cp ≡ (a ∷ r) ++ drop n cp =
      sym (take-append-drop n cp) ∙ ap (λ (l : Bytes). l ++ drop n cp) same in
    (
      drop n cp,
      omega (arith, length-drop n cp, h),
      subst IsCodePoint whole p.0.0,
      subst AreOctets whole p.0.1,
    )

text_in_two :
    (cps : List Bytes) (xs zs : Bytes) → ArePoints cps → xs ++ zs ≡ flatten cps → Split xs zs
text_in_two [] [] zs p e = record {
  points = [];
  are_points = tt;
  tail = [];
  is_begun = tt;
  is_front = refl;
  others = [];
  are_others = tt;
  goes_on = e;
}
text_in_two [] (x ∷ xs) zs p e = absurd cc
text_in_two (cp ∷ cps) xs zs p e = elim (Bool-cases (leb (length cp) (length xs))) [
  | inr t ↦ record {
    points = [];
    are_points = tt;
    tail = xs;
    is_begun = split_short xs zs cp cps p e (ground arith);
    is_front = refl;
    others = cp ∷ cps;
    are_others = p;
    goes_on = e;
  }
  | inl t ↦
      let n = length cp in
      let ys = drop n xs in
      let (same, more) =
        append_cut (take n xs) cp (ys ++ zs) (flatten cps)
          (sym (append_assoc (take n xs) ys zs)
            ∙ ap (λ (l : Bytes). l ++ zs) (take-append-drop n xs)
            ∙ e)
          (ground (
            arith,
            length-append ys zs,
            length-drop n xs,
            ap length e,
            length-append xs zs,
            length-append cp (flatten cps),
          )) in
      let s = text_in_two cps ys zs p.1 more in
      record {
        points = cp ∷ s.points;
        are_points = (p.0, s.are_points);
        tail = s.tail;
        is_begun = s.is_begun;
        is_front =
            sym (take-append-drop n xs)
            ∙ ap₂ ◌++◌ same s.is_front
            ∙ sym (append_assoc cp (flatten s.points) s.tail);
        others = s.others;
        are_others = s.are_others;
        goes_on = s.goes_on;
      }
]

-- A buffer that does not end the code point that is begun.
write_short :
    (a : ℕ) (r ys : Bytes)
    → IsBegun (a ∷ r)
    → IsBegun (a ∷ (r ++ ys))
    → write ys (pending (a ∷ r)) ≡ some (pending (a ∷ (r ++ ys)))
unfolding write pending
write_short a r ys b b' =
    let l = length-append r ys in
    let s = begun_short a (r ++ ys) b' in
    let need = needed a - length (a ∷ r) in
    let n : min (length ys) need ≡ length ys = omega (arith, l, s) in
    let t : ltb 0 need ≡ true = ground (arith, begun_short a r b) in
    let u : ltb 0 (need - min (length ys) need) ≡ true = ground (arith, n, l, s) in
    let k : take (min (length ys) need) ys ≡ ys =
      ap (λ (m : ℕ). take m ys) n ∙ take-all (length ys) ys (omega arith) in
    let m : need - min (length ys) need ≡ needed a - length (a ∷ (r ++ ys)) = omega (arith, n, l) in
    let v : valid_have (a ∷ (r ++ take (min (length ys) need) ys)) ≡ true =
      ap (λ (y : Bytes). valid_have (a ∷ (r ++ y))) k ∙ valid_have-IsBegun (a ∷ (r ++ ys)) b' in
    if_true _ (write_rest ys) t
    ∙ if_true _ _ u
    ∙ if_true _ none v
    ∙ ap₂ (λ (m : ℕ) (y : Bytes). some (record { need = m; have = a ∷ (r ++ y) })) m k

-- A buffer that ends it.
write_long :
    (a : ℕ) (r ys cp rest tail : Bytes)
    → IsBegun (a ∷ r)
    → IsBegun tail
    → Left tail rest
    → IsCodePoint cp
    → AreOctets cp
    → length cp ≡ needed a
    → a ∷ (r ++ ys) ≡ cp ++ rest
    → write ys (pending (a ∷ r)) ≡ some (pending tail)
unfolding write pending
write_long a r ys cp rest tail b b' left c o k e =
    let s = begun_short a r b in
    let need = needed a - length (a ∷ r) in
    let total : length (a ∷ (r ++ ys)) ≡ length cp + length rest =
      ap length e ∙ length-append cp rest in
    let n : min (length ys) need ≡ need = omega (arith, total, length-append r ys, k) in
    let t : ltb 0 need ≡ true = ground (arith, s) in
    let u : ltb 0 (need - min (length ys) need) ≡ false = ground (arith, n) in
    let (front, behind) =
      append_cut (a ∷ (r ++ take need ys)) cp (drop need ys) rest
        (ap (a ∷◌)
            (append_assoc r (take need ys) (drop need ys) ∙ ap (r ++◌) (take-append-drop need ys))
          ∙ e)
        (omega (arith, total, length-append r ys, length-drop need ys, k, s)) in
    let v : valid (a ∷ (r ++ take (min (length ys) need) ys)) ≡ some [] =
      ap (λ (m : ℕ). valid (a ∷ (r ++ take m ys))) n
      ∙ ap valid (front ∙ sym (append-nil cp))
      ∙ valid-IsCodePoint cp [] o c in
    if_true _ (write_rest ys) t
    ∙ if_false _ _ u
    ∙ ap (λ (o : Option Bytes). o >>= λ _. write_rest (drop (min (length ys) need) ys)) v
    ∙ ap write_rest (ap (λ (m : ℕ). drop m ys) n ∙ behind)
    ∙ write_rest-Left tail rest b' left

-- What a call on a buffer of text leaves.
record Written (tail ys zs : Bytes) : Type 0 where
  after : Bytes
  is_begun : IsBegun after
  is_written : write ys (pending tail) ≡ some (pending after)
  others : List Bytes
  are_others : ArePoints others
  goes_on : after ++ zs ≡ flatten others

write_from :
    (tail ys : Bytes) (cps : List Bytes) (after : Bytes)
    → IsBegun tail
    → ArePoints cps
    → IsBegun after
    → tail ++ ys ≡ flatten cps ++ after
    → write ys (pending tail) ≡ some (pending after)
unfolding write pending reset
write_from [] ys cps after b p b' e =
    write_rest-Left after ys b' (record { points = cps; are_points = p; is_text = e })
write_from (a ∷ r) ys [] after b p b' e =
    subst (λ (t : Bytes). write ys (pending (a ∷ r)) ≡ some (pending t)) e
      (write_short a r ys b (subst IsBegun (sym e) b'))
write_from (a ∷ r) ys ([] ∷ cps) after b p b' e = absurd p.0.0
write_from (a ∷ r) ys ((c ∷ cp) ∷ cps) after b p b' e =
    let e' = e ∙ append_assoc (c ∷ cp) (flatten cps) after in
    let same : a ≡ c = cc in
    write_long a r ys (c ∷ cp) (flatten cps ++ after) after b b'
      (record { points = cps; are_points = p.1; is_text = refl }) p.0.0 p.0.1
      (sym (needed-length c cp p.0.0) ∙ ap needed (sym same)) e'

write-Written :
    (tail ys zs : Bytes) (cps : List Bytes)
    → IsBegun tail
    → ArePoints cps
    → tail ++ (ys ++ zs) ≡ flatten cps
    → Written tail ys zs
write-Written tail ys zs cps b p e =
    let s = text_in_two cps (tail ++ ys) zs p (append_assoc tail ys zs ∙ e) in
    record {
      after = s.tail;
      is_begun = s.is_begun;
      is_written = write_from tail ys s.points s.tail b s.are_points s.is_begun s.is_front;
      others = s.others;
      are_others = s.are_others;
      goes_on = s.goes_on;
    }

begun_none :
    (tail : Bytes) (cps : List Bytes)
    → IsBegun tail
    → ArePoints cps
    → tail ++ [] ≡ flatten cps
    → tail ≡ []
begun_none [] cps b p e = refl
begun_none (a ∷ r) [] b p e = absurd cc
begun_none (a ∷ r) ([] ∷ cps) b p e = absurd p.0.0
begun_none (a ∷ r) ((c ∷ cp) ∷ cps) b p e =
    let same : a ≡ c = cc in
    absurd (
      omega (
        arith,
        begun_short a r b,
        ap needed same,
        needed-length c cp p.0.0,
        ap length e,
        length-append r [],
        length-append cp (flatten cps),
      ))

write_buffers-pending :
    (bs : List Bytes) (tail : Bytes) (cps : List Bytes)
    → IsBegun tail
    → ArePoints cps
    → tail ++ flatten bs ≡ flatten cps
    → write_buffers bs (pending tail) ≡ some reset
unfolding write_buffers
write_buffers-pending [] tail cps b p e =
    ap (λ (t : Bytes). some (pending t)) (begun_none tail cps b p e) ∙ unfold pending in refl
write_buffers-pending (ys ∷ bs) tail cps b p e =
    let w = write-Written tail ys (flatten bs) cps b p e in
    ap (λ (o : Option Utf8Checker). o >>= write_buffers bs) w.is_written
    ∙ write_buffers-pending bs w.after w.others w.is_begun w.are_others w.goes_on

-- The checker takes every sequence of code points of RFC 3629, however its octets are cut into
-- buffers, also within a code point: from the start, `write` of the buffers returns true, with
-- nothing pending, so that `finish` does. `check_utf8` of all the octets returns true as well.
pub write_buffers-ArePoints :
    (bs cps : List Bytes)
    → ArePoints cps
    → flatten bs ≡ flatten cps
    → (write_buffers bs reset ≡ some reset)
      × ((finish reset).0 ≡ true)
      × (check_utf8 (flatten bs) ≡ true)
unfolding finish reset check_utf8
write_buffers-ArePoints bs cps p e =
    let w : write (flatten bs) reset ≡ some reset =
      unfold pending in
      write_from [] (flatten bs) cps [] tt p tt (e ∙ sym (append-nil (flatten cps))) in
    (unfold pending in write_buffers-pending bs [] cps tt p e, refl, rw (check_utf8, w) refl)
