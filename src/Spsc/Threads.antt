-- ===== src/Spsc/Threads.antt =====
-- `RingBuffer::try_push` and `try_pop` of include/spsc/ring_buffer.hpp in two threads: every load and
-- store of a shared variable is a step of its own, and the steps of the threads interleave in any
-- order. A release store is seen by the acquire loads behind it in that order.
pub mod Invariant
pub mod Safety
pub mod Progress
use dpdk_itch5_feedhandler.Prelude.{
  ℕ, List, [], ◌∷◌, ◌++◌, Option, none, some, get_elem?, ◌==◌, if◌then◌else◌, ◌>>=◌,
}
use dpdk_itch5_feedhandler.Spsc.Ring.{RingBuffer, store, increment, new_ring}

-- Where the producer stands in `try_push(item)`, with its local copy of the head: outside of it, the
-- head loaded, the tail compared, and the slot written.
pub data Producer {ℓ} (A : Type ℓ) : Type ℓ where
  idle : Producer A
  loaded : A → ℕ → Producer A
  checked : A → ℕ → Producer A
  written : A → ℕ → Producer A

-- Where the consumer stands in `try_pop()`, with its local copy of the tail: outside of it, the tail
-- loaded, the head compared, and the slot read.
pub data Consumer {ℓ} (A : Type ℓ) : Type ℓ where
  idle : Consumer A
  loaded : ℕ → Consumer A
  checked : ℕ → Consumer A
  taken : ℕ → A → Consumer A

-- The shared ring, the two threads, and the items that were pushed and popped so far.
pub record Machine {ℓ} (A : Type ℓ) : Type ℓ where
  pub ring : RingBuffer A
  pub producer : Producer A
  pub consumer : Consumer A
  pub sent : List A
  pub received : List A

module _ {ℓ} {A : Type ℓ} (capacity : ℕ) where
  abbrev pub new_machine : A → Machine A
  new_machine default = record {
    ring = new_ring capacity default;
    producer = Producer.idle;
    consumer = Consumer.idle;
    sent = [];
    received = [];
  }

  -- The producer's next step; outside of a call it begins to push `next`.
  unfoldable pub step_producer : A → Machine A → Option (Machine A)
  step_producer next m = elim m.producer [
    | Producer.idle ↦ some (record m { producer = Producer.loaded next m.ring.head })
    | Producer.loaded item head ↦
        if increment capacity head == m.ring.tail
        then some (record m { producer = Producer.idle })
        else some (record m { producer = Producer.checked item head })
    | Producer.checked item head ↦ store m.ring.buffer head item >>= λ buffer. some (record m {
      ring = record m.ring { buffer = buffer };
      producer = Producer.written item head;
    })
    | Producer.written item head ↦ some (record m {
      ring = record m.ring { head = increment capacity head };
      producer = Producer.idle;
      sent = m.sent ++ item ∷ [];
    })
  ]

  -- The consumer's next step; outside of a call it begins to pop.
  unfoldable pub step_consumer : Machine A → Option (Machine A)
  step_consumer m = elim m.consumer [
    | Consumer.idle ↦ some (record m { consumer = Consumer.loaded m.ring.tail })
    | Consumer.loaded tail ↦
        if tail == m.ring.head
        then some (record m { consumer = Consumer.idle })
        else some (record m { consumer = Consumer.checked tail })
    | Consumer.checked tail ↦ get_elem? m.ring.buffer tail >>= λ item.
        some (record m { consumer = Consumer.taken tail item })
    | Consumer.taken tail item ↦ some (record m {
      ring = record m.ring { tail = increment capacity tail };
      consumer = Consumer.idle;
      received = m.received ++ item ∷ [];
    })
  ]

  -- A schedule gives the turns: `some next` to the producer, `none` to the consumer.
  unfoldable pub step : Option A → Machine A → Option (Machine A)
  unfolding step_producer step_consumer
  step none m = step_consumer m
  step (some next) m = step_producer next m

  unfoldable pub run : List (Option A) → Machine A → Option (Machine A)
  run [] m = some m
  run (turn ∷ turns) m = step turn m >>= λ m'. run turns m'
