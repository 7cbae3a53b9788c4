-- ===== src/Feed/Consumer.antt =====
-- The consumer thread of src/feed_handler.hpp, `run_consumer`, on the feed handler that it shares with
-- the producer.
pub mod Drain
pub mod Bounds
use dpdk_itch5_feedhandler.Prelude.{
  ℕ, zero, suc, List, [], ◌∷◌, Bool, true, false, Option, none, some, Bytes, ◌>>=◌, inc64,
}
use dpdk_itch5_feedhandler.Common.Types.{NormalizedMessage}
use dpdk_itch5_feedhandler.Spsc.Ring.{RingBuffer, try_pop}
use dpdk_itch5_feedhandler.Dpdk.Output.{buffer_capacity}
use dpdk_itch5_feedhandler.Dpdk.Handler.{Handler, process_raw_packet}
use dpdk_itch5_feedhandler.Feed.{FeedHandler}

-- The feed handler, and the thread's own `messages_consumed`.
pub record Consumer : Type 0 where
  pub feed_handler : FeedHandler
  pub messages_consumed : ℕ

abbrev pub message_buffer : FeedHandler → RingBuffer NormalizedMessage
message_buffer f = f.packet_handler.sink.output.buffer

abbrev pub with_message_buffer : FeedHandler → RingBuffer NormalizedMessage → FeedHandler
with_message_buffer f buffer = record f {
  packet_handler = record f.packet_handler {
    sink = record f.packet_handler.sink {
      output = record f.packet_handler.sink.output { buffer = buffer };
    };
  };
}

unfoldable pub process_message : FeedHandler → NormalizedMessage → FeedHandler
process_message f msg = record f { total_messages_processed = inc64 f.total_messages_processed }

-- One round of `while (auto msg = message_buffer_.try_pop())`, and whether there was a message.
unfoldable pub consume : Consumer → Option (Bool × Consumer)
unfolding process_message
consume c = try_pop buffer_capacity (message_buffer c.feed_handler) >>= λ t.
    let f = with_message_buffer c.feed_handler t.1 in
    elim t.0 [
      | none ↦ some (false, record c { feed_handler = f })
      | some msg ↦ some (
        true,
        record {
          feed_handler = process_message f msg;
          messages_consumed = inc64 c.messages_consumed;
        },
      )
    ]

-- The loop. Each round that goes on takes an item, so the buffer's capacity is enough where the
-- producer adds none.
unfoldable pub drain : ℕ → Consumer → Option Consumer
drain zero c = none
drain (suc rounds) c = consume c >>= λ t. elim t.0 [ true ↦ drain rounds t.1 | false ↦ some t.1 ]

-- The producer's frames, each of a length.
unfoldable pub receive : List (Bytes × ℕ) → Handler → Option Handler
receive [] h = some h
receive ((ptr, len) ∷ frames) h = process_raw_packet h ptr len >>= λ r. receive frames r.1

-- The loop `while (running_)`, and the one behind it that drains the buffer. `turns` holds the frames
-- that the producer processes between one round and the next while `running_` is set: a round that
-- finds no message reads `running_` and tries again. Once the producer is silent and `running_` is not
-- set, the inner loop runs to its end and the outer one ends.
unfoldable pub consume_turns : List (List (Bytes × ℕ)) → Consumer → Option Consumer
consume_turns [] c = drain buffer_capacity c >>= λ c'. drain buffer_capacity c'
consume_turns (frames ∷ turns) c = receive frames c.feed_handler.packet_handler >>= λ h.
    consume (record c { feed_handler = record c.feed_handler { packet_handler = h } }) >>= λ t.
    consume_turns turns t.1

unfoldable pub run_consumer : List (List (Bytes × ℕ)) → FeedHandler → Option FeedHandler
run_consumer turns f =
    consume_turns turns
      (record { feed_handler = record f { consumer_running = true }; messages_consumed = 0 })
    >>= λ c. some (record c.feed_handler { consumer_running = false })
