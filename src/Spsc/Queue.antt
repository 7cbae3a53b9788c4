-- ===== src/Spsc/Queue.antt =====
-- What a ring buffer of include/spsc/ring_buffer.hpp promises: a queue, oldest item first, of at
-- most one item less than its capacity.
use dpdk_itch5_feedhandler.Prelude.{
  ℕ, ◌+◌, List, [], ◌∷◌, ◌++◌, Bool, true, false, Option, none, some, length, ltb, if◌then◌else◌,
}

module _ {ℓ} {A : Type ℓ} where
  unfoldable pub push : ℕ → List A → A → Bool × List A
  push capacity q x = if ltb (length q + 1) capacity then (true, q ++ x ∷ []) else (false, q)

  unfoldable pub pop : List A → Option A × List A
  pop [] = (none, [])
  pop (x ∷ q) = (some x, q)

  abbrev pub front : List A → Option A
  front [] = none
  front (x ∷ q) = some x
