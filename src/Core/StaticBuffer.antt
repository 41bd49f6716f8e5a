-- ===== src/Core/StaticBuffer.antt =====
-- include/beast/core/static_buffer.hpp and impl/static_buffer.ipp: memory of a fixed size, whose octets
-- from `in_pos` to `out_pos` are the input sequence, and those up to `last_pos` the output sequence.
-- The pointers are offsets into the memory.
pub mod Laws
use remotedev.Base.{ℕ, ◌+◌, ◌-◌, min, Option, none, some, Bytes, length, ltb, if◌then◌else◌}
use remotedev.Core.Memory.{between}

pub record StaticBuffer : Type 0 where
  pub memory : Bytes
  pub in_pos : ℕ
  pub out_pos : ℕ
  pub last_pos : ℕ

-- The constructor, and `reset`.
unfoldable static_buffer : Bytes → StaticBuffer
static_buffer memory = record { memory = memory; in_pos = 0; out_pos = 0; last_pos = 0 }

abbrev pub static_size : StaticBuffer → ℕ
static_size b = b.out_pos - b.in_pos

pub static_max_size : StaticBuffer → ℕ
static_max_size b = length b.memory

unfoldable static_capacity : StaticBuffer → ℕ
static_capacity b = length b.memory - b.in_pos

abbrev pub static_data : StaticBuffer → Bytes
static_data b = between b.in_pos b.out_pos b.memory

-- `none` is the exception `std::length_error`.
pub static_prepare : ℕ → StaticBuffer → Option StaticBuffer
static_prepare n b =
    if ltb (length b.memory - b.out_pos) n
    then none
    else some (record b { last_pos = b.out_pos + n })

pub static_commit : ℕ → StaticBuffer → StaticBuffer
static_commit n b = record b { out_pos = b.out_pos + min n (b.last_pos - b.out_pos) }

pub static_consume : ℕ → StaticBuffer → StaticBuffer
static_consume n b = record b { in_pos = b.in_pos + min n (b.out_pos - b.in_pos) }
