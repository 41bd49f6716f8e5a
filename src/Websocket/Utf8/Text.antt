-- ===== src/Websocket/Utf8/Text.antt =====
-- Text of code points in one buffer, the last of which may be cut.
use mathlib.Core.List.{append_assoc}
use remotedev.Base.{
  ℕ, zero, suc, ◌-◌, ◌++◌, ◌≤◌, ◌<◌, ◌≡◌, refl, ap, ◌∙◌, inl, inr, bit_and, Bool, true, false, ◌&&◌,
  Option, none, some, List, [], ◌∷◌, Bytes, All, AreOctets, flatten, length, length-append,
  length-drop, take, drop, ltb, leb, ◌==◌, if_true, if_false, ◌>>=◌, Bool-cases, arith,
}
use remotedev.Websocket.Utf8.{
  Utf8Checker, reset, needed, valid, all_ascii, loop8, loop4, loop1, write_rest,
}
use remotedev.Websocket.Utf8.Begun.{
  IsBegun, needed-length, begun_short, begun_first, valid_have-IsBegun,
}
use remotedev.Websocket.Utf8.CodePoint.{IsCodePoint, masks, valid-IsCodePoint}

-- Code points of RFC 3629, one after the other.
abbrev pub ArePoints : List Bytes → Type 0
ArePoints = All (λ cp. IsCodePoint cp × AreOctets cp)

-- A code point that begins with an ASCII octet is one.
ascii_point :
    (a : ℕ) (r : Bytes) → IsCodePoint (a ∷ r) → a < 256 → (bit_and a 0x80 == 0) ≡ true → r ≡ []
ascii_point a [] h o t = refl
ascii_point a (b ∷ []) h o t = absurd (ground (arith, masks a o))
ascii_point a (b ∷ c ∷ []) h o t = absurd (ground (arith, masks a o))
ascii_point a (b ∷ c ∷ d ∷ []) h o t = absurd (ground (arith, masks a o))
ascii_point a (b ∷ c ∷ d ∷ e ∷ r) h o t = absurd h

-- Text, with the front of a code point behind it.
pub record Left (tail inp : Bytes) : Type 0 where
  pub points : List Bytes
  pub are_points : ArePoints points
  pub is_text : inp ≡ flatten points ++ tail

-- What the checker keeps of the front of a code point.
unfoldable pub pending : Bytes → Utf8Checker
unfolding reset
pending [] = reset
pending (a ∷ r) = record { need = needed a - length (a ∷ r); have = a ∷ r }

both : (x y : Bool) → (x && y) ≡ true → (x ≡ true) × (y ≡ true)
both x y h = ground arith

ascii_drop :
    (tail : Bytes) (n : ℕ) (cps : List Bytes)
    → IsBegun tail
    → ArePoints cps
    → all_ascii (take n (flatten cps ++ tail)) ≡ true
    → Left tail (drop n (flatten cps ++ tail))
ascii_drop tail zero cps b h t = record { points = cps; are_points = h; is_text = refl }
ascii_drop [] (suc n) [] b h t = record { points = []; are_points = tt; is_text = refl }
ascii_drop (a ∷ r) (suc n) [] b h t =
    let q = (both (bit_and a 0x80 == 0) (all_ascii (take n r)) t).0 in
    absurd (cc (begun_first a r b, q))
ascii_drop tail (suc n) ([] ∷ cps) b h t = absurd h.0.0
ascii_drop tail (suc n) ((a ∷ []) ∷ cps) b h t = ascii_drop tail n cps b h.1 (both _ _ t).1
ascii_drop tail (suc n) ((a ∷ c ∷ r) ∷ cps) b h t =
    absurd (nonempty (ascii_point a (c ∷ r) h.0.0 h.0.1.0 (both _ _ t).0))
  where
    nonempty : ◌≡◌ {A = Bytes} (c ∷ r) [] → ⊥
    nonempty e = cc

-- The text behind its first code point.
behind_first :
    (cp : Bytes) (cps : List Bytes) (tail : Bytes)
    → ArePoints (cp ∷ cps)
    → length (flatten cps ++ tail) < length (flatten (cp ∷ cps) ++ tail)
behind_first [] cps tail h = absurd h.0.0
behind_first (a ∷ r) cps tail h =
    omega
      (arith, ap length (append_assoc r (flatten cps) tail), length-append r (flatten cps ++ tail))

-- A code point taken off text that is more than the front of one.
record First (tail inp : Bytes) : Type 0 where
  rest : Bytes
  taken : valid inp ≡ some rest
  left : Left tail rest
  shorter : length rest < length inp

Left-First : (tail inp : Bytes) → Left tail inp → length tail < length inp → First tail inp
Left-First tail inp l h = go l.points l.are_points l.is_text
  where
    go : (cps : List Bytes) → ArePoints cps → inp ≡ flatten cps ++ tail → First tail inp
    go [] p e = absurd (omega (arith, ap length e))
    go (cp ∷ cps) p e = record {
      rest = flatten cps ++ tail;
      taken =
          ap valid (e ∙ append_assoc cp (flatten cps) tail)
          ∙ valid-IsCodePoint cp (flatten cps ++ tail) p.0.1 p.0.0;
      left = record { points = cps; are_points = p.1; is_text = refl };
      shorter = omega (arith, behind_first cp cps tail p, ap length e);
    }

short_tail : (tail : Bytes) → IsBegun tail → length tail ≤ 3
short_tail [] b = omega arith
short_tail (a ∷ r) b = omega (arith, begun_short a r b)

-- The first two loops stop within text.
loop8-Left :
    (tail : Bytes) (fuel : ℕ) (inp : Bytes)
    → IsBegun tail
    → Left tail inp
    → length inp ≤ fuel
    → (r : Bytes) × (loop8 fuel inp ≡ some r) × Left tail r
unfolding loop8
loop8-Left tail zero [] b l h = ([], refl, l)
loop8-Left tail zero (x ∷ inp) b l h = absurd (omega arith)
loop8-Left tail (suc fuel) inp b l h = elim (Bool-cases (ltb 7 (length inp))) [
  | inr t ↦ (inp, if_false _ (some inp) t, l)
  | inl t ↦ elim (Bool-cases (all_ascii (take 8 inp))) [
    | inl u ↦
        let d : Left tail (drop 8 inp) =
          rw (l.is_text) (ascii_drop tail 8 l.points b l.are_points (rw (l.is_text) at u)) in
        let (r, e, k) = loop8-Left tail fuel (drop 8 inp) b d (ground (arith, length-drop 8 inp)) in
        (r, if_true _ (some inp) t ∙ if_true (loop8 fuel (drop 8 inp)) _ u ∙ e, k)
    | inr u ↦
        let f = Left-First tail inp l (ground (arith, short_tail tail b)) in
        let (r, e, k) = loop8-Left tail fuel f.rest b f.left (omega (arith, f.shorter, h)) in
        (
          r,
          if_true _ (some inp) t
              ∙ if_false (loop8 fuel (drop 8 inp)) _ u
              ∙ ap (λ (o : Option Bytes). o >>= loop8 fuel) f.taken
              ∙ e,
          k,
        )
  ]
]

loop4-Left :
    (tail : Bytes) (fuel : ℕ) (inp : Bytes)
    → IsBegun tail
    → Left tail inp
    → length inp ≤ fuel
    → (r : Bytes) × (loop4 fuel inp ≡ some r) × Left tail r
unfolding loop4
loop4-Left tail zero [] b l h = ([], refl, l)
loop4-Left tail zero (x ∷ inp) b l h = absurd (omega arith)
loop4-Left tail (suc fuel) inp b l h = elim (Bool-cases (ltb 3 (length inp))) [
  | inr t ↦ (inp, if_false _ (some inp) t, l)
  | inl t ↦
      let f = Left-First tail inp l (ground (arith, short_tail tail b)) in
      let (r, e, k) = loop4-Left tail fuel f.rest b f.left (omega (arith, f.shorter, h)) in
      (r, if_true _ (some inp) t ∙ ap (λ (o : Option Bytes). o >>= loop4 fuel) f.taken ∙ e, k)
]

-- The last loop takes all of text, and keeps the front of a code point.
needed_fits :
    (a : ℕ) (r cp rest : Bytes)
    → IsCodePoint cp
    → a ∷ r ≡ cp ++ rest
    → (0 < needed a) × (needed a ≤ length (a ∷ r))
needed_fits a r [] rest c e = absurd c
needed_fits a r (b ∷ cp) rest c e =
    let same : a ≡ b = cc in
    let n = needed-length b cp c in
    rw same (omega (arith, n), omega (arith, n, ap length e, length-append cp rest))

loop1_tail :
    (tail : Bytes) (fuel : ℕ)
    → IsBegun tail
    → length tail ≤ fuel
    → loop1 fuel tail ≡ some (pending tail)
unfolding loop1 pending
loop1_tail [] zero b h = refl
loop1_tail [] (suc fuel) b h = refl
loop1_tail (a ∷ r) zero b h = absurd (omega arith)
loop1_tail (a ∷ r) (suc fuel) b h =
    let s = begun_short a r b in
    let z : (needed a == 0) ≡ false = ground arith in
    let m : leb (needed a) (length (a ∷ r)) ≡ false = ground arith in
    if_false none _ z ∙ if_false _ _ m ∙ if_true _ none (valid_have-IsBegun (a ∷ r) b)

loop1-Left :
    (tail : Bytes) (fuel : ℕ) (inp : Bytes)
    → IsBegun tail
    → Left tail inp
    → length inp ≤ fuel
    → loop1 fuel inp ≡ some (pending tail)
unfolding loop1
loop1-Left tail fuel inp b l h = go fuel l.points l.are_points inp l.is_text h
  where
    go :
        (fuel : ℕ) (cps : List Bytes)
        → ArePoints cps
        → (inp : Bytes) → inp ≡ flatten cps ++ tail
        → length inp ≤ fuel
        → loop1 fuel inp ≡ some (pending tail)
    go fuel [] p inp e h =
        ap (loop1 fuel) e ∙ loop1_tail tail fuel b (omega (arith, ap length e, h))
    go zero (cp ∷ cps) p inp e h =
        absurd (omega (arith, behind_first cp cps tail p, ap length e, h))
    go (suc fuel) (cp ∷ cps) p [] e h =
        absurd (omega (arith, behind_first cp cps tail p, ap length e))
    go (suc fuel) (cp ∷ cps) p (a ∷ r) e h =
        let e' = e ∙ append_assoc cp (flatten cps) tail in
        let (q, m) = needed_fits a r cp (flatten cps ++ tail) p.0.0 e' in
        let z : (needed a == 0) ≡ false = ground arith in
        let fits : leb (needed a) (length (a ∷ r)) ≡ true = ground arith in
        let v : valid (a ∷ r) ≡ some (flatten cps ++ tail) =
          ap valid e' ∙ valid-IsCodePoint cp (flatten cps ++ tail) p.0.1 p.0.0 in
        if_false none _ z
        ∙ if_true _ _ fits
        ∙ ap (λ (o : Option Bytes). o >>= loop1 fuel) v
        ∙ go fuel cps p.1 (flatten cps ++ tail) refl
            (omega (arith, behind_first cp cps tail p, ap length e, h))

pub write_rest-Left :
    (tail inp : Bytes) → IsBegun tail → Left tail inp → write_rest inp ≡ some (pending tail)
unfolding write_rest
write_rest-Left tail inp b l =
    let (r8, e8, l8) = loop8-Left tail (length inp) inp b l (omega arith) in
    let (r4, e4, l4) = loop4-Left tail (length r8) r8 b l8 (omega arith) in
    rw (e8, e4) (loop1-Left tail (length r4) r4 b l4 (omega arith))
