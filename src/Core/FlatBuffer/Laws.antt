-- ===== src/Core/FlatBuffer/Laws.antt =====
-- A flat buffer is a queue of octets up to its limit.
use remotedev.Base.{
  ℕ, ◌+◌, ◌-◌, ◌≤◌, ◌<◌, ◌^◌, ◌≡◌, ap, ◌∙◌, ◌↔◌, none, some, List, Bytes, ◌++◌, length,
  length-append, drop, length-drop, arith,
}
use remotedev.Core.FlatBuffer.{FlatBuffer, size, data_of, prepare, move_to, commit, consume}
use remotedev.Core.FlatBuffer.Queue.{
  IsValid, IsAllocator, size-data_of, fill, prepare_lem, prepare-none_iff, commit-fill, consume_lem,
}
use remotedev.Core.DynamicBuffer.{
  DynamicBuffer, Use, written, use_queue, use_buffer, use_buffer_lem,
}

-- A valid buffer with a limit that the sizes of blocks do not wrap around.
abbrev pub IsLimited : FlatBuffer → Type 0
IsLimited fb = IsValid fb × (fb.max_size < 2 ^ 63)

module _ (allocate : ℕ → Bytes) (a : IsAllocator allocate) where
  prepare-max_size :
      (n : ℕ) (fb : FlatBuffer) {r : FlatBuffer}
      → prepare allocate n fb ≡ some r
      → r.max_size ≡ fb.max_size
  unfolding prepare move_to
  prepare-max_size n fb h = ground arith

  write-IsLimited :
      (xs : Bytes) (fb : FlatBuffer)
      → IsLimited fb
      → length xs ≤ fb.max_size - size fb
      → (r : FlatBuffer) × (prepare allocate (length xs) fb ≡ some r)
        × IsLimited (commit (length xs) (fill xs r))
        × (data_of (commit (length xs) (fill xs r)) ≡ data_of fb ++ xs)
        × (fb.max_size - size fb ≡ r.max_size - size (commit (length xs) (fill xs r)) + length xs)
  unfolding commit fill
  write-IsLimited xs fb v h =
      let le : size fb ≤ fb.max_size =
        omega (arith, v.0.in_out, v.0.out_last, v.0.last_end, v.0.end_limit) in
      let (r, e, w, k, d) =
        prepare_lem allocate a (length xs) fb v.0 (omega (arith, v.1)) (omega arith) in
      let m = prepare-max_size (length xs) fb {r = r} e in
      let (u, c) = commit-fill xs r w (omega (arith, k)) in
      let done : FlatBuffer = commit (length xs) (fill xs r) in
      (
        r,
        e,
        (u, omega (arith, m, v.1)),
        c ∙ ap (λ (l : Bytes). l ++ xs) d,
        omega (
          arith,
          m,
          ap length c,
          length-append (data_of r) xs,
          ap length d,
          size-data_of fb v.0,
          size-data_of r w,
          size-data_of done u,
        ),
      )

  consume-max_size : (n : ℕ) (fb : FlatBuffer) → (consume n fb).max_size ≡ fb.max_size
  unfolding consume
  consume-max_size n fb = ground arith

  read-IsLimited :
      (n : ℕ) (fb : FlatBuffer)
      → IsLimited fb
      → IsLimited (consume n fb)
        × (data_of (consume n fb) ≡ drop n (data_of fb))
        × (fb.max_size - size fb ≤ (consume n fb).max_size - size (consume n fb))
  read-IsLimited n fb v =
      let (w, e) = consume_lem n fb v.0 in
      let m = consume-max_size n fb in
      (
        (w, omega (arith, m, v.1)),
        e,
        omega (
          arith,
          m,
          ap length e,
          length-drop n (data_of fb),
          size-data_of fb v.0,
          size-data_of (consume n fb) w,
        ),
      )

  refuses-IsLimited :
      (n : ℕ) (fb : FlatBuffer)
      → IsLimited fb
      → (prepare allocate n fb ≡ none) ↔ (fb.max_size - size fb < n)
  refuses-IsLimited n fb v =
      let q = prepare-none_iff allocate a n fb v.0 in
      let le : size fb ≤ fb.max_size =
        omega (arith, v.0.in_out, v.0.out_last, v.0.last_end, v.0.end_limit) in
      (λ h. omega (arith, q.0 h), λ h. q.1 (omega (arith, h)))

  pub flat_dynamic : DynamicBuffer FlatBuffer IsLimited
  unfolding commit fill
  flat_dynamic = record {
    data_of = data_of;
    available = λ fb. fb.max_size - size fb;
    prepare = prepare allocate;
    fill = fill;
    commit = commit;
    consume = consume;
    write_lem = write-IsLimited;
    refuses = refuses-IsLimited;
    read_lem = read-IsLimited;
  }

  -- A valid flat buffer with a limit below 2 ^ 63 refines a queue of octets: uses of it that together
  -- write no more than its limit leaves beside what is in it all succeed, leave it valid, and leave in
  -- it what they leave in a queue.
  pub flat_dynamic-refines :
      (us : List Use) (fb : FlatBuffer)
      → IsLimited fb
      → written us ≤ fb.max_size - size fb
      → (r : FlatBuffer) × (use_buffer flat_dynamic us fb ≡ some r)
        × IsLimited r
        × (data_of r ≡ use_queue us (data_of fb))
  unfolding flat_dynamic
  flat_dynamic-refines us fb v h = use_buffer_lem flat_dynamic us fb v h
