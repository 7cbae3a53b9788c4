-- ===== src/Tests/Threads.antt =====
-- Runs of the producer and the consumer of a ring buffer of four slots.
use dpdk_itch5_feedhandler.Prelude.{
  ℕ, ◌≤◌, ◌<◌, ◌≡◌, ◌≢◌, refl, List, [], ◌∷◌, ◌++◌, Option, none, some, length, take, arith,
}
use dpdk_itch5_feedhandler.Spsc.Ring.{increment, store, new_ring}
use dpdk_itch5_feedhandler.Spsc.Refine.{IsCapacity, Represents}
use dpdk_itch5_feedhandler.Spsc.Threads.{
  Machine, Producer, Consumer, new_machine, step, step_producer, step_consumer, run,
}
use dpdk_itch5_feedhandler.Spsc.Threads.Invariant.{IsMachine}
use dpdk_itch5_feedhandler.Spsc.Threads.Safety.{run_in_order, run_race_free}
use dpdk_itch5_feedhandler.Spsc.Threads.Progress.{try_push_wait_free, try_pop_wait_free}

four : IsCapacity 4
four = record { log = 2; power = refl; positive = omega arith; small = omega arith }

-- 5 is pushed; then both threads are in a call, the producer with 6, each past its test.
abbrev turns : List (Option ℕ)
turns = some 5 ∷ some 5 ∷ some 5 ∷ some 5 ∷ some 6 ∷ none ∷ none ∷ some 6 ∷ []

abbrev both_inside : Machine ℕ
both_inside = record {
  ring = record { buffer = 5 ∷ 0 ∷ 0 ∷ 0 ∷ []; head = 1; tail = 0 };
  producer = Producer.checked 6 1;
  consumer = Consumer.checked 0;
  sent = 5 ∷ [];
  received = [];
}

turns_taken : run 4 turns (new_machine 4 0) ≡ some both_inside
unfolding run step step_producer step_consumer store increment new_ring
turns_taken = refl

run_race_free_example : ◌≢◌ {A = ℕ} 1 0
run_race_free_example = run_race_free 4 four turns 0 both_inside 6 1 0 turns_taken refl refl

run_in_order_example :
    (m : Machine ℕ) × (run 4 turns (new_machine 4 0) ≡ some m)
    × (q : List ℕ) × (m.sent ≡ m.received ++ q)
    × (length q < 4)
    × Represents 4 m.ring q
run_in_order_example = run_in_order 4 four turns 0

both_inside-IsMachine : IsMachine 4 both_inside
both_inside-IsMachine = record {
  queue = 5 ∷ [];
  represents = record {
    slots = refl;
    tail_in = omega arith;
    fits = omega arith;
    head_at = refl;
    held = (refl, tt);
  };
  in_order = refl;
  producing = omega arith;
  consuming = omega arith;
}

-- Two more turns of each thread, the other's between them.
abbrev more : List (Option ℕ)
more = none ∷ some 7 ∷ none ∷ some 7 ∷ []

try_push_wait_free_example :
    (n : ℕ) × (n ≤ length more)
    × (m : Machine ℕ) × (run 4 (take n more) both_inside ≡ some m)
    × (m.producer ≡ Producer.idle)
try_push_wait_free_example =
    try_push_wait_free 4 four more both_inside both_inside-IsMachine (omega arith)

try_pop_wait_free_example :
    (n : ℕ) × (n ≤ length more)
    × (m : Machine ℕ) × (run 4 (take n more) both_inside ≡ some m)
    × (m.consumer ≡ Consumer.idle)
try_pop_wait_free_example =
    try_pop_wait_free 4 four more both_inside both_inside-IsMachine (omega arith)
