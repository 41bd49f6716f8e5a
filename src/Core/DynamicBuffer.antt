-- ===== src/Core/DynamicBuffer.antt =====
-- What the streams rely on of a dynamic buffer, and the queue of octets that it is to them.
use remotedev.Base.{
  ℕ, ◌+◌, ◌≤◌, ◌<◌, ◌≡◌, refl, ◌∙◌, ap, ◌↔◌, Option, none, some, ◌>>=◌, List, [], ◌∷◌, ◌++◌, Bytes,
  length, drop, arith,
}

-- The operations and their laws. `available` is the room for octets, `fill` writes octets at the
-- front of the output sequence.
pub record DynamicBuffer (B : Type 0) (IsSound : B → Type 0) : Type 0 where
  pub data_of : B → Bytes
  pub available : B → ℕ
  pub prepare : ℕ → B → Option B
  pub fill : Bytes → B → B
  pub commit : ℕ → B → B
  pub consume : ℕ → B → B
  pub write_lem :
      (xs : Bytes) (b : B)
      → IsSound b
      → length xs ≤ available b
      → (r : B) × (prepare (length xs) b ≡ some r)
        × IsSound (commit (length xs) (fill xs r))
        × (data_of (commit (length xs) (fill xs r)) ≡ data_of b ++ xs)
        × (available b ≡ available (commit (length xs) (fill xs r)) + length xs)
  pub refuses : (n : ℕ) (b : B) → IsSound b → (prepare n b ≡ none) ↔ (available b < n)
  pub read_lem :
      (n : ℕ) (b : B)
      → IsSound b
      → IsSound (consume n b)
        × (data_of (consume n b) ≡ drop n (data_of b))
        × (available b ≤ available (consume n b))

-- What a stream does with a buffer: it writes octets to it, and it takes them off its front.
pub data Use : Type 0 where
  put : Bytes → Use
  take_off : ℕ → Use

-- The octets written.
abbrev pub written : List Use → ℕ
written [] = 0
written (put xs ∷ us) = length xs + written us
written (take_off n ∷ us) = written us

-- The uses of a queue.
abbrev pub use_queue : List Use → Bytes → Bytes
use_queue [] q = q
use_queue (put xs ∷ us) q = use_queue us (q ++ xs)
use_queue (take_off n ∷ us) q = use_queue us (drop n q)

module _ {B : Type 0} {IsSound : B → Type 0} (impl : DynamicBuffer B IsSound) where
  abbrev pub use_buffer : List Use → B → Option B
  use_buffer [] b = some b
  use_buffer (put xs ∷ us) b = do
    r ← impl.prepare (length xs) b
    use_buffer us (impl.commit (length xs) (impl.fill xs r))
  use_buffer (take_off n ∷ us) b = use_buffer us (impl.consume n b)

  -- Uses that together write no more than is available succeed, and leave what they leave of a queue.
  pub use_buffer_lem :
      (us : List Use) (b : B)
      → IsSound b
      → written us ≤ impl.available b
      → (r : B) × (use_buffer us b ≡ some r)
        × IsSound r
        × (impl.data_of r ≡ use_queue us (impl.data_of b))
  use_buffer_lem [] b s h = (b, refl, s, refl)
  use_buffer_lem (put xs ∷ us) b s h =
      let (r, e, v, d, k) = impl.write_lem xs b s (omega arith) in
      let (t, f, w, g) =
        use_buffer_lem us (impl.commit (length xs) (impl.fill xs r)) v (omega (arith, k, h)) in
      (t, rw e f, w, g ∙ ap (use_queue us) d)
  use_buffer_lem (take_off n ∷ us) b s h =
      let (v, d, k) = impl.read_lem n b s in
      let (t, f, w, g) = use_buffer_lem us (impl.consume n b) v (omega (arith, k, h)) in
      (t, f, w, g ∙ ap (use_queue us) d)
