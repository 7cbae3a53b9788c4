-- ===== src/Tests/Spin.antt =====
-- Runs of the spinning calls on rings of four slots and of one.
use dpdk_itch5_feedhandler.Prelude.{
  ℕ, ◌≤◌, ◌≡◌, refl, List, [], ◌∷◌, ◌++◌, true, false, some, drop, arith,
}
use dpdk_itch5_feedhandler.Spsc.Ring.{RingBuffer}
use dpdk_itch5_feedhandler.Spsc.Refine.{IsCapacity, Represents}
use dpdk_itch5_feedhandler.Spsc.Spin.{push, pop}
use dpdk_itch5_feedhandler.Spsc.Spin.Returns.{sum, push_returns, pop_returns, push_one_slot}

four : IsCapacity 4
four = record { log = 2; power = refl; positive = omega arith; small = omega arith }

abbrev filled : RingBuffer ℕ
filled = record { buffer = 8 ∷ 9 ∷ 0 ∷ 7 ∷ []; head = 2; tail = 3 }

filled-Represents : Represents 4 filled (7 ∷ 8 ∷ 9 ∷ [])
filled-Represents = record {
  slots = refl;
  tail_in = omega arith;
  fits = omega arith;
  head_at = refl;
  held = (refl, (refl, (refl, tt)));
}

-- The consumer does nothing between the first two tries.
push_returns_example :
    (n : ℕ) × (n ≤ sum (0 ∷ 2 ∷ []))
    × (r : RingBuffer ℕ) × (push 4 (0 ∷ 2 ∷ []) filled 5 ≡ some (true, r))
    × Represents 4 r (drop n (7 ∷ 8 ∷ 9 ∷ []) ++ 5 ∷ [])
push_returns_example =
    push_returns 4 four (0 ∷ 2 ∷ []) filled (7 ∷ 8 ∷ 9 ∷ []) 5 (omega arith) filled-Represents
      (omega arith)

abbrev drained : RingBuffer ℕ
drained = record { buffer = 8 ∷ 9 ∷ 0 ∷ 7 ∷ []; head = 3; tail = 3 }

drained-Represents : Represents 4 drained []
drained-Represents = record {
  slots = refl;
  tail_in = omega arith;
  fits = omega arith;
  head_at = refl;
  held = tt;
}

pop_returns_example :
    (r : RingBuffer ℕ) × (pop 4 ([] ∷ (5 ∷ 6 ∷ []) ∷ []) drained ≡ some (some 5, r))
    × (rest : List ℕ) × Represents 4 r rest
pop_returns_example =
    pop_returns 4 four ([] ∷ (5 ∷ 6 ∷ []) ∷ []) drained [] 5 (omega arith) drained-Represents refl

abbrev single : RingBuffer ℕ
single = record { buffer = 0 ∷ []; head = 0; tail = 0 }

push_one_slot_example :
    (r : RingBuffer ℕ) × (push 1 (1 ∷ 2 ∷ []) single 5 ≡ some (false, r)) × Represents 1 r []
push_one_slot_example =
    push_one_slot (1 ∷ 2 ∷ []) single 5 (record {
      slots = refl;
      tail_in = omega arith;
      fits = omega arith;
      head_at = refl;
      held = tt;
    })
