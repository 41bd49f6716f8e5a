-- ===== src/Core/StaticBuffer/Laws.antt =====
-- A static buffer is a queue of octets while its memory lasts.
use remotedev.Base.{
  ℕ, ◌+◌, ◌-◌, ◌≤◌, ◌<◌, ◌≡◌, refl, ◌↔◌, min, false, none, some, List, Bytes, ◌++◌, length, drop,
  ltb, arith,
}
use remotedev.Core.Memory.{write_at, length-write_at, between-write_at, between-drop}
use remotedev.Core.StaticBuffer.{
  StaticBuffer, static_data, static_size, static_max_size, static_prepare, static_commit,
  static_consume,
}
use remotedev.Core.DynamicBuffer.{
  DynamicBuffer, Use, written, use_queue, use_buffer, use_buffer_lem,
}

-- `begin_ ..|.. in_ ..|.. out_ ..|.. last_ ..|.. end_`.
pub record IsOrdered (b : StaticBuffer) : Type 0 where
  pub in_out : b.in_pos ≤ b.out_pos
  pub out_last : b.out_pos ≤ b.last_pos
  pub last_end : b.last_pos ≤ length b.memory

abbrev static_fill : Bytes → StaticBuffer → StaticBuffer
static_fill xs b = record b { memory = write_at b.out_pos xs b.memory }

write-IsOrdered :
    (xs : Bytes) (b : StaticBuffer)
    → IsOrdered b
    → length xs ≤ length b.memory - b.out_pos
    → (r : StaticBuffer) × (static_prepare (length xs) b ≡ some r)
      × IsOrdered (static_commit (length xs) (static_fill xs r))
      × (static_data (static_commit (length xs) (static_fill xs r)) ≡ static_data b ++ xs)
      × (length b.memory - b.out_pos
          ≡ length (static_fill xs r).memory
            - (static_commit (length xs) (static_fill xs r)).out_pos
            + length xs)
unfolding static_prepare static_commit
write-IsOrdered xs b v h =
    let n = length xs in
    let t : ltb (length b.memory - b.out_pos) n ≡ false = ground arith in
    let l =
      length-write_at b.out_pos xs b.memory (omega (arith, v.in_out, v.out_last, v.last_end)) in
    let e : b.out_pos + min n (b.out_pos + n - b.out_pos) ≡ b.out_pos + n = omega arith in
    (
      record b { last_pos = b.out_pos + n },
      rw t refl,
      record {
        in_out = omega (arith, v.in_out);
        out_last = omega arith;
        last_end = omega (arith, l, v.out_last, v.last_end);
      },
      between-write_at b.in_pos b.out_pos (b.out_pos + min n (b.out_pos + n - b.out_pos)) xs
          b.memory v.in_out e (omega (arith, e, v.out_last, v.last_end)),
      omega (arith, l, e, v.out_last, v.last_end),
    )

-- A static buffer whose pointers are ordered throws from `prepare` exactly when fewer than `n`
-- octets are left behind its input sequence, however many before it have been consumed.
static_prepare-none_iff :
    (n : ℕ) (b : StaticBuffer)
    → IsOrdered b
    → (static_prepare n b ≡ none) ↔ (static_max_size b < b.in_pos + static_size b + n)
unfolding static_prepare static_max_size
static_prepare-none_iff n b v = (
  λ h. ground (arith, v.in_out, v.out_last, v.last_end),
  λ h. ground (arith, v.in_out, v.out_last, v.last_end),
)

consume-IsOrdered :
    (n : ℕ) (b : StaticBuffer)
    → IsOrdered b
    → IsOrdered (static_consume n b) × (static_data (static_consume n b) ≡ drop n (static_data b))
unfolding static_consume
consume-IsOrdered n b v = (
  record { in_out = omega (arith, v.in_out); out_last = v.out_last; last_end = v.last_end },
  between-drop b.in_pos b.out_pos n b.memory v.in_out (omega (arith, v.out_last, v.last_end)),
)

pub static_dynamic : DynamicBuffer StaticBuffer IsOrdered
unfolding static_prepare static_commit static_consume
static_dynamic = record {
  data_of = static_data;
  available = λ b. length b.memory - b.out_pos;
  prepare = static_prepare;
  fill = static_fill;
  commit = static_commit;
  consume = static_consume;
  write_lem = write-IsOrdered;
  refuses = λ n b v. (λ h. ground (arith, v.in_out, v.out_last, v.last_end), λ h. ground arith);
  read_lem = λ n b v. let (w, e) = consume-IsOrdered n b v in (w, e, omega arith);
}

-- A static buffer whose pointers are ordered refines a queue of octets: uses of it that together
-- write no more than the octets behind its input sequence all succeed, leave its pointers ordered,
-- and leave in it what they leave in a queue.
pub static_dynamic-refines :
    (us : List Use) (b : StaticBuffer)
    → IsOrdered b
    → written us ≤ length b.memory - b.out_pos
    → (r : StaticBuffer) × (use_buffer static_dynamic us b ≡ some r)
      × IsOrdered r
      × (static_data r ≡ use_queue us (static_data b))
unfolding static_dynamic
static_dynamic-refines us b v h = use_buffer_lem static_dynamic us b v h
