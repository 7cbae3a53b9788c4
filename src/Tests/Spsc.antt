-- ===== src/Tests/Spsc.antt =====
-- Runs of a ring buffer of four slots.
use dpdk_itch5_feedhandler.Prelude.{
  ℕ, ◌+◌, ◌≡◌, refl, List, [], ◌∷◌, some, length, take, drop, ◌++◌, ◌==◌, min, arith,
}
use dpdk_itch5_feedhandler.Spsc.Ring.{
  RingBuffer, try_push, try_pop, peek, empty, full, size, available,
}
use dpdk_itch5_feedhandler.Spsc.Queue
use dpdk_itch5_feedhandler.Spsc.Refine.{
  IsCapacity, Represents, try_push_refines, try_pop_refines, observers_agree,
}
use dpdk_itch5_feedhandler.Spsc.Batch.{try_push_batch, try_pop_batch}
use dpdk_itch5_feedhandler.Spsc.Batch.Refine.{room, try_push_batch_refines, try_pop_batch_refines}

-- Two items, the second one behind the wrap.
abbrev wrapped : RingBuffer ℕ
wrapped = record { buffer = 8 ∷ 0 ∷ 0 ∷ 7 ∷ []; head = 1; tail = 3 }

abbrev items : List ℕ
items = 7 ∷ 8 ∷ []

four : IsCapacity 4
four = record { log = 2; power = refl; positive = omega arith; small = omega arith }

wrapped-Represents : Represents 4 wrapped items
wrapped-Represents = record {
  slots = refl;
  tail_in = omega arith;
  fits = omega arith;
  head_at = refl;
  held = (refl, (refl, tt));
}

try_push_refines_example :
    (r : RingBuffer ℕ) × (try_push 4 wrapped 9 ≡ some ((Queue.push 4 items 9).0, r))
    × Represents 4 r (Queue.push 4 items 9).1
try_push_refines_example = try_push_refines 4 wrapped items 9 four wrapped-Represents

try_pop_refines_example :
    (r : RingBuffer ℕ) × (try_pop 4 wrapped ≡ some ((Queue.pop items).0, r))
    × Represents 4 r (Queue.pop items).1
try_pop_refines_example = try_pop_refines 4 wrapped items four wrapped-Represents

observers_agree_example :
    (peek 4 wrapped ≡ some (Queue.front items))
    × (size 4 wrapped ≡ length items)
    × (available 4 wrapped + length items + 1 ≡ 4)
    × (empty 4 wrapped ≡ (length items == 0))
    × (full 4 wrapped ≡ (length items + 1 == 4))
observers_agree_example = observers_agree 4 wrapped items four wrapped-Represents

-- Of three items only one fits.
abbrev batch : List ℕ
batch = 1 ∷ 2 ∷ 3 ∷ []

try_push_batch_refines_example :
    let n = min 3 (room 4 items) in
    (r : RingBuffer ℕ) × (try_push_batch 4 wrapped batch 3 ≡ some (n, r))
    × Represents 4 r (items ++ take n batch)
try_push_batch_refines_example =
    try_push_batch_refines 4 four wrapped items batch 3 (omega arith) (omega arith)
      wrapped-Represents

try_pop_batch_refines_example :
    let n = min 3 (length items) in
    (r : RingBuffer ℕ) × (try_pop_batch 4 wrapped batch 3
      ≡ some (n, r, take n items ++ drop n batch))
    × Represents 4 r (drop n items)
try_pop_batch_refines_example =
    try_pop_batch_refines 4 four wrapped items batch 3 (omega arith) (omega arith)
      wrapped-Represents
