-- ===== src/Core/FlatBuffer/Queue.antt =====
-- A flat buffer is a queue of octets: what is committed comes behind the input sequence, what is
-- consumed leaves at its front, and a new block moves nothing out of it.
use remotedev.Base.{
  ℕ, ◌+◌, ◌-◌, ◌≤◌, ◌<◌, ◌^◌, min, ◌≡◌, refl, sym, ap, ap₂, ◌∙◌, ◌↔◌, inl, inr, false, none, some,
  Bytes, ◌++◌, length, take, drop, length-append, length-take, length-drop, take-append_short,
  drop-drop, drop-take, drop-all, take-all, leb, ltb, if◌then◌else◌, ◌==◌, Bool-cases, arith,
}
use remotedev.Core.Memory.{length-write_at, between-write_at}
use remotedev.Core.FlatBuffer.{
  FlatBuffer, size, capacity, data_of, prepare, commit, consume, reserve, shrink_to_fit, new_size,
  move_to,
}
use remotedev.Core.FlatBuffer.Room.{new_size_fits}

-- `p_ ..|.. in_ ..|.. out_ ..|.. last_ ..|.. end_`, and the block is within the limit.
pub record IsValid (fb : FlatBuffer) : Type 0 where
  pub in_out : fb.in_pos ≤ fb.out_pos
  pub out_last : fb.out_pos ≤ fb.last_pos
  pub last_end : fb.last_pos ≤ capacity fb
  pub end_limit : capacity fb ≤ fb.max_size

pub record IsAllocator (allocate : ℕ → Bytes) : Type 0 where
  pub allocated : (n : ℕ) → length (allocate n) ≡ n

pub size-data_of : (fb : FlatBuffer) → IsValid fb → length (data_of fb) ≡ size fb
size-data_of fb v = omega (
  arith,
  length-take (size fb) (drop fb.in_pos fb.block),
  length-drop fb.in_pos fb.block,
  v.in_out,
  v.out_last,
  v.last_end,
)

-- The buffer whose block begins with the input sequence of `fb`.
abbrev at_front : FlatBuffer → Bytes → ℕ → ℕ → FlatBuffer
at_front fb p last live =
    let len = size fb in
    record {
      block = data_of fb ++ drop len p;
      in_pos = 0;
      out_pos = len;
      last_pos = last;
      max_size = fb.max_size;
      live = live;
    }

at_front_lem :
    (fb : FlatBuffer) (p : Bytes) (last live : ℕ)
    → IsValid fb
    → size fb ≤ last
    → last ≤ length p
    → length p ≤ fb.max_size
    → IsValid (at_front fb p last live) × (data_of (at_front fb p last live) ≡ data_of fb)
at_front_lem fb p last live v below room limit =
    let d = data_of fb in
    let l = size-data_of fb v in
    let total : length (d ++ drop (size fb) p) ≡ length p =
      omega (arith, l, length-append d (drop (size fb) p), length-drop (size fb) p) in
    (
      record {
        in_out = omega arith;
        out_last = omega arith;
        last_end = omega (arith, total);
        end_limit = omega (arith, total);
      },
      ap (λ (k : ℕ). take k (d ++ drop (size fb) p)) (omega arith)
          ∙ take-append_short (size fb) d (drop (size fb) p) (omega (arith, l))
          ∙ take-all (size fb) d (omega (arith, l)),
    )

module _ (allocate : ℕ → Bytes) (a : IsAllocator allocate) where
  -- If a valid buffer's input sequence and `n` octets are together within the limit and below
  -- 2 ^ 63, `prepare` returns a valid buffer with an output sequence of `n` octets and the same
  -- input sequence.
  pub prepare_lem :
      (n : ℕ) (fb : FlatBuffer)
      → IsValid fb
      → size fb + n < 2 ^ 63
      → size fb + n ≤ fb.max_size
      → (r : FlatBuffer) × (prepare allocate n fb ≡ some r)
        × IsValid r
        × (r.last_pos ≡ r.out_pos + n)
        × (data_of r ≡ data_of fb)
  unfolding prepare move_to
  prepare_lem n fb v small room =
      let len = size fb in
      elim (Bool-cases (leb n (capacity fb - fb.out_pos))) [
        | inl t ↦ (
          record fb { last_pos = fb.out_pos + n },
          rw t,
          record {
            in_out = v.in_out;
            out_last = omega arith;
            last_end = ground (arith, v.out_last, v.last_end);
            end_limit = v.end_limit;
          },
          refl,
          refl,
        )
        | inr t ↦ elim (Bool-cases (leb n (capacity fb - len))) [
          | inl u ↦
              let q =
                at_front_lem fb fb.block (len + n) fb.live v (omega arith)
                  (ground (arith, v.in_out, v.out_last, v.last_end)) v.end_limit in
              (at_front fb fb.block (len + n) fb.live, rw (t, u), q.0, refl, q.1)
          | inr u ↦
              let big = new_size fb.max_size (len + n) in
              let fits = new_size_fits fb.max_size (len + n) small room in
              let w : ltb (fb.max_size - len) n ≡ false = ground arith in
              let p = allocate big in
              let l = if ltb 0 len then fb.live else fb.live + 1 in
              let q =
                at_front_lem fb p (len + n) l v (omega arith) (omega (arith, fits, a.allocated big))
                  (omega (arith, fits, a.allocated big)) in
              (at_front fb p (len + n) l, rw (t, u, w), q.0, refl, q.1)
        ]
      ]

  -- `prepare` of a valid buffer throws exactly when the input sequence and the `n` octets are
  -- together above the limit.
  pub prepare-none_iff :
      (n : ℕ) (fb : FlatBuffer)
      → IsValid fb
      → (prepare allocate n fb ≡ none) ↔ (fb.max_size < size fb + n)
  unfolding prepare
  prepare-none_iff n fb v = (
    λ h. ground (arith, v.in_out, v.out_last, v.last_end, v.end_limit),
    λ h. ground (arith, v.in_out, v.out_last, v.last_end, v.end_limit),
  )

  -- If `n` is within a valid buffer's limit and below 2 ^ 63, `reserve` returns a valid buffer with
  -- a capacity of at least `n` and the same input sequence.
  reserve_lem :
      (n : ℕ) (fb : FlatBuffer)
      → IsValid fb
      → n < 2 ^ 63
      → n ≤ fb.max_size
      → (r : FlatBuffer) × (reserve allocate n fb ≡ some r)
        × IsValid r
        × (n ≤ capacity r)
        × (data_of r ≡ data_of fb)
  unfolding reserve move_to
  reserve_lem n fb v small room =
      let len = size fb in
      elim (Bool-cases (leb n (capacity fb))) [
        | inl t ↦ (fb, rw t, v, ground arith, refl)
        | inr t ↦
            let big = new_size fb.max_size n in
            let fits = new_size_fits fb.max_size n small room in
            let w : ltb fb.max_size n ≡ false = ground arith in
            let p = allocate big in
            let l = if ltb 0 len then fb.live else fb.live + 1 in
            let q =
              at_front_lem fb p len l v (omega arith)
                (ground (arith, fits, a.allocated big, v.in_out, v.out_last, v.last_end))
                (omega (arith, fits, a.allocated big)) in
            (
              at_front fb p len l,
              rw (t, w),
              q.0,
              omega (
                arith,
                fits,
                a.allocated big,
                size-data_of fb v,
                length-append (data_of fb) (drop len p),
                length-drop len p,
              ),
              q.1,
            )
      ]

  -- `shrink_to_fit` leaves a valid buffer valid, with the same input sequence and no capacity
  -- beyond it.
  shrink_to_fit_lem :
      (fb : FlatBuffer)
      → IsValid fb
      → let r = shrink_to_fit allocate fb in
        IsValid r × (capacity r ≡ size fb) × (data_of r ≡ data_of fb)
  unfolding shrink_to_fit
  shrink_to_fit_lem fb v =
      let len = size fb in
      elim (Bool-cases (len == capacity fb)) [
        | inl t ↦ rw t (v, ground arith, refl)
        | inr t ↦ elim (Bool-cases (ltb 0 len)) [
          | inl u ↦
              let p = allocate len in
              let q =
                at_front_lem fb p len fb.live v (omega arith) (omega (arith, a.allocated len))
                  (omega (arith, a.allocated len, v.out_last, v.last_end, v.end_limit)) in
              rw (t, u)
                (
                  q.0,
                  omega (
                    arith,
                    a.allocated len,
                    size-data_of fb v,
                    length-append (data_of fb) (drop len p),
                    length-drop len p,
                  ),
                  q.1,
                )
          | inr u ↦
              let e : len ≡ 0 = ground arith in
              rw (t, u, e)
                (
                  record {
                    in_out = omega arith;
                    out_last = omega arith;
                    last_end = omega arith;
                    end_limit = omega arith;
                  },
                  refl,
                  refl,
                )
        ]
      ]

-- The octets that the owner of the output sequence writes at its front.
unfoldable pub fill : Bytes → FlatBuffer → FlatBuffer
fill xs fb = record fb {
  block = take fb.out_pos fb.block ++ (xs ++ drop (fb.out_pos + length xs) fb.block);
}

-- Octets that are written at the front of a valid buffer's output sequence, no more than it has
-- room for, come behind the input sequence when they are committed, and the buffer stays valid.
pub commit-fill :
    (xs : Bytes) (fb : FlatBuffer)
    → IsValid fb
    → length xs ≤ fb.last_pos - fb.out_pos
    → let r = commit (length xs) (fill xs fb) in IsValid r × (data_of r ≡ data_of fb ++ xs)
unfolding commit fill
commit-fill xs fb v h =
    let grown = min (length xs) (fb.last_pos - fb.out_pos) in
    let e : grown ≡ length xs = omega arith in
    let l = length-write_at fb.out_pos xs fb.block (omega (arith, v.out_last, v.last_end)) in
    (
      record {
        in_out = omega (arith, v.in_out);
        out_last = omega (arith, v.out_last);
        last_end = omega (arith, v.last_end, l);
        end_limit = omega (arith, v.end_limit, l);
      },
      between-write_at fb.in_pos fb.out_pos (fb.out_pos + grown) xs fb.block v.in_out
          (omega (arith, e)) (omega (arith, e, v.out_last, v.last_end)),
    )

-- `consume` drops `n` octets from the front of a valid buffer's input sequence, all of them if
-- there are fewer, and the buffer stays valid.
pub consume_lem :
    (n : ℕ) (fb : FlatBuffer)
    → IsValid fb
    → IsValid (consume n fb) × (data_of (consume n fb) ≡ drop n (data_of fb))
unfolding consume
consume_lem n fb v = elim (Bool-cases (leb (size fb) n)) [
  | inl t ↦ rw t (
    record {
      in_out = omega arith;
      out_last = omega arith;
      last_end = v.last_end;
      end_limit = v.end_limit;
    },
    sym (drop-all n (data_of fb) (ground (arith, size-data_of fb v))),
  )
  | inr t ↦ rw t (
    record {
      in_out = ground (arith, v.in_out);
      out_last = v.out_last;
      last_end = v.last_end;
      end_limit = v.end_limit;
    },
    sym (
        drop-take n (size fb) (drop fb.in_pos fb.block)
        ∙ ap₂ take {x = size fb - n} (omega arith) (drop-drop fb.in_pos n fb.block)),
  )
]
