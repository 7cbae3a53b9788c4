-- ===== src/Spsc/Batch.antt =====
-- `BatchRingBuffer<T, Capacity>` of include/spsc/ring_buffer.hpp. The caller's array is a list: a read
-- or a write outside of it gives `none`.
pub mod Refine
use dpdk_itch5_feedhandler.Prelude.{
  ℕ, zero, suc, List, Option, none, some, get_elem?, if◌then◌else◌, ◌>>=◌, inc64,
}
use dpdk_itch5_feedhandler.Spsc.Ring.{RingBuffer, store, try_push, try_pop}

module _ {ℓ} {A : Type ℓ} (capacity : ℕ) where
  -- The `for` loop of `try_push_batch`, with the rounds that are left.
  unfoldable pub push_from : ℕ → RingBuffer A → List A → ℕ → ℕ → Option (ℕ × RingBuffer A)
  push_from zero r items i pushed = some (pushed, r)
  push_from (suc left) r items i pushed = get_elem? items i >>= λ item.
      try_push capacity r item >>= λ t.
      if t.0 then push_from left t.1 items (inc64 i) (inc64 pushed) else some (pushed, t.1)

  unfoldable pub try_push_batch : RingBuffer A → List A → ℕ → Option (ℕ × RingBuffer A)
  try_push_batch r items count = push_from count r items 0 0

  -- The `for` loop of `try_pop_batch`; the array comes back with the items written.
  unfoldable pub pop_from : ℕ → RingBuffer A → List A → ℕ → ℕ → Option (ℕ × RingBuffer A × List A)
  pop_from zero r items i popped = some (popped, r, items)
  pop_from (suc left) r items i popped = try_pop capacity r >>= λ t. elim t.0 [
    | none ↦ some (popped, t.1, items)
    | some item ↦ store items i item >>= λ items'. pop_from left t.1 items' (inc64 i) (inc64 popped)
  ]

  unfoldable pub try_pop_batch : RingBuffer A → List A → ℕ → Option (ℕ × RingBuffer A × List A)
  try_pop_batch r items max_count = pop_from max_count r items 0 0
