-- ===== src/Spsc/Spin.antt =====
-- The spinning `push` and `pop` of include/spsc/ring_buffer.hpp. The thread that waits makes its call
-- again and again; `turns` says what the other thread does between one try and the next. The tries
-- that are looked at end with the turns, so the result says whether the call has returned by then.
pub mod Returns
use dpdk_itch5_feedhandler.Prelude.{
  ℕ, zero, suc, List, [], ◌∷◌, Bool, Option, none, some, if◌then◌else◌, ◌>>=◌,
}
use dpdk_itch5_feedhandler.Spsc.Ring.{RingBuffer, try_push, try_pop}

module _ {ℓ} {A : Type ℓ} (capacity : ℕ) where
  -- The consumer calls `try_pop` some times.
  unfoldable pub pops : ℕ → RingBuffer A → Option (RingBuffer A)
  pops zero r = some r
  pops (suc n) r = try_pop capacity r >>= λ t. pops n t.1

  -- The producer calls `try_push` for some items.
  unfoldable pub pushes : List A → RingBuffer A → Option (RingBuffer A)
  pushes [] r = some r
  pushes (x ∷ xs) r = try_push capacity r x >>= λ t. pushes xs t.1

  unfoldable pub push : List ℕ → RingBuffer A → A → Option (Bool × RingBuffer A)
  push [] r item = try_push capacity r item
  push (n ∷ turns) r item = try_push capacity r item >>= λ t.
      let again = pops n t.1 >>= λ r'. push turns r' item in if t.0 then some t else again

  unfoldable pub pop : List (List A) → RingBuffer A → Option (Option A × RingBuffer A)
  pop [] r = try_pop capacity r
  pop (xs ∷ turns) r = try_pop capacity r >>= λ t. elim t.0 [
    | some item ↦ some (some item, t.1)
    | none ↦ pushes xs t.1 >>= λ r'. pop turns r'
  ]
