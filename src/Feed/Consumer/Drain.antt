-- ===== src/Feed/Consumer/Drain.antt =====
-- The consumer of src/feed_handler.hpp processes what the packet handler pushes.
use dpdk_itch5_feedhandler.Prelude.{
  ℕ, zero, suc, ◌^◌, ◌<◌, ◌≤◌, ◌≡◌, refl, List, [], ◌∷◌, Bool, true, false, none, some, Bytes, All,
  AreBytes, length, add64, inc64, word64, arith,
}
use dpdk_itch5_feedhandler.Common.Types.{NormalizedMessage}
use dpdk_itch5_feedhandler.Spsc.Queue
use dpdk_itch5_feedhandler.Spsc.Refine.{Represents, try_pop_refines}
use dpdk_itch5_feedhandler.Dpdk.Config.{total_min}
use dpdk_itch5_feedhandler.Dpdk.Output.{buffer_capacity}
use dpdk_itch5_feedhandler.Dpdk.Handler.{Handler, parse_itch_message}
use dpdk_itch5_feedhandler.Dpdk.Output.Bounds.{IsMessage}
use dpdk_itch5_feedhandler.Dpdk.Output.Safety.{buffer_capacity-IsCapacity}
use dpdk_itch5_feedhandler.Dpdk.Handler.Safety.{IsHandler, payload_offset, process_raw_packet_keeps}
use dpdk_itch5_feedhandler.Feed.{FeedHandler}
use dpdk_itch5_feedhandler.Feed.Consumer.{
  consume_turns, Consumer, message_buffer, with_message_buffer, process_message, consume, drain,
  receive, run_consumer,
}

-- Between two rounds the buffer holds the messages of `q`, and what was pushed is these and those that
-- the consumer has processed. The messages' numbers fit their types.
pub record IsConsumer (q : List NormalizedMessage) (f : FeedHandler) : Type 0 where
  pub processed : f.total_messages_processed < word64
  pub message :
      f.packet_handler.session.message_callback
      ≡ some (λ ptr length seq sink. parse_itch_message ptr length sink)
  pub gap : f.packet_handler.session.gap_callback ≡ none
  pub buffer : Represents buffer_capacity (message_buffer f) q
  pub pushed :
      f.packet_handler.sink.output.messages_pushed ≡ add64 f.total_messages_processed (length q)
  pub fit : All IsMessage q

-- A round on an empty buffer finds no message.
consume_empty :
    (c : Consumer)
    → IsConsumer [] c.feed_handler
    → (c' : Consumer) × (consume c ≡ some (false, c')) × IsConsumer [] c'.feed_handler
unfolding consume Queue.pop
consume_empty c v =
    let (r, e, w) =
      try_pop_refines buffer_capacity (message_buffer c.feed_handler) [] buffer_capacity-IsCapacity
        v.buffer in
    (
      record c { feed_handler = with_message_buffer c.feed_handler r },
      rw e refl,
      record {
        processed = v.processed;
        message = v.message;
        gap = v.gap;
        buffer = w;
        pushed = v.pushed;
        fit = tt;
      },
    )

-- Another round takes the oldest message.
consume_next :
    (c : Consumer) (x : NormalizedMessage) (q : List NormalizedMessage)
    → IsConsumer (x ∷ q) c.feed_handler
    → (c' : Consumer) × (consume c ≡ some (true, c')) × IsConsumer q c'.feed_handler
unfolding consume Queue.pop
consume_next c x q v =
    let (r, e, w) =
      try_pop_refines buffer_capacity (message_buffer c.feed_handler) (x ∷ q)
        buffer_capacity-IsCapacity v.buffer in
    (
      record {
        feed_handler = process_message (with_message_buffer c.feed_handler r) x;
        messages_consumed = inc64 c.messages_consumed;
      },
      rw e refl,
      record {
        processed = omega arith;
        message = v.message;
        gap = v.gap;
        buffer = w;
        pushed = omega (arith, v.pushed);
        fit = v.fit.1;
      },
    )

drain_returns :
    (rounds : ℕ) (c : Consumer) (q : List NormalizedMessage)
    → length q < rounds
    → IsConsumer q c.feed_handler
    → (c' : Consumer) × (drain rounds c ≡ some c') × IsConsumer [] c'.feed_handler
unfolding drain
drain_returns zero c q enough v = absurd (omega arith)
drain_returns (suc rounds) c [] enough v = let (c', e, w) = consume_empty c v in (c', rw e refl, w)
drain_returns (suc rounds) c (x ∷ q) enough v =
    let (c1, e1, w1) = consume_next c x q v in
    let (c', e, w) = drain_returns rounds c1 q (omega arith) w1 in (c', rw e1 e, w)

-- A frame in memory that is below the minimal length, or whose headers lie within it.
pub record IsFrame (f : Bytes × ℕ) : Type 0 where
  pub bytes : AreBytes f.0
  pub readable : f.1 ≤ length f.0
  pub small : f.1 < 2 ^ 63
  pub inside : total_min ≤ f.1 → payload_offset f.0 ≤ f.1

pub receive_returns :
    (taken : ℕ) (frames : List (Bytes × ℕ)) (h : Handler)
    → All IsFrame frames
    → IsHandler taken h
    → (h' : Handler) × (receive frames h ≡ some h') × IsHandler taken h'
unfolding receive
receive_returns taken [] h fs v = (h, refl, v)
receive_returns taken ((ptr, len) ∷ frames) h fs v =
    let f = fs.0 in
    let (r, e, w) =
      process_raw_packet_keeps taken h ptr len v f.bytes f.readable f.small f.inside in
    let (h', e', w') = receive_returns taken frames r.1 fs.1 w in (h', rw e e', w')

consume_returns :
    (c : Consumer) (q : List NormalizedMessage)
    → IsConsumer q c.feed_handler
    → (t : Bool × Consumer) × (consume c ≡ some t)
      × (p : List NormalizedMessage) × IsConsumer p t.1.feed_handler
consume_returns c [] v = let (c', e, w) = consume_empty c v in ((false, c'), e, [], w)
consume_returns c (x ∷ q) v = let (c', e, w) = consume_next c x q v in ((true, c'), e, q, w)

consume_turns-IsConsumer :
    (turns : List (List (Bytes × ℕ))) (c : Consumer) (q : List NormalizedMessage)
    → All (All IsFrame) turns
    → IsConsumer q c.feed_handler
    → (c' : Consumer) × (consume_turns turns c ≡ some c') × IsConsumer [] c'.feed_handler
unfolding consume_turns
consume_turns-IsConsumer [] c q fs v =
    let (c1, e1, w1) = drain_returns buffer_capacity c q v.buffer.fits v in
    let (c', e, w) = drain_returns buffer_capacity c1 [] (omega arith) w1 in (c', rw e1 e, w)
consume_turns-IsConsumer (frames ∷ turns) c q fs v =
    let (h, e1, w1) =
      receive_returns c.feed_handler.total_messages_processed frames c.feed_handler.packet_handler
        fs.0 (record { message = v.message; gap = v.gap; sink = (q, v.buffer, v.pushed, v.fit) }) in
    let (t, e2, p, w2) =
      consume_returns (record c { feed_handler = record c.feed_handler { packet_handler = h } }) _
        (record {
          processed = v.processed;
          message = w1.message;
          gap = w1.gap;
          buffer = w1.sink.1;
          pushed = w1.sink.2;
          fit = w1.sink.3;
        }) in
    let (c', e, w) = consume_turns-IsConsumer turns t.1 p fs.1 w2 in (c', rw (e1, e2) e, w)

-- Whatever frames, each below the minimal length or with its headers within it, the packet handler
-- processes while the consumer is at work, in whatever turns: the consumer's loops end with the buffer
-- empty, and the number of messages that it has processed is the number of those that the packet
-- handler has counted as pushed, both modulo 2^64.
pub run_consumer_processes_all :
    (turns : List (List (Bytes × ℕ))) (f : FeedHandler) (q : List NormalizedMessage)
    → All (All IsFrame) turns
    → IsConsumer q f
    → (f' : FeedHandler) × (run_consumer turns f ≡ some f')
      × Represents buffer_capacity (message_buffer f') []
      × (f'.total_messages_processed ≡ f'.packet_handler.sink.output.messages_pushed)
unfolding run_consumer
run_consumer_processes_all turns f q fs v =
    let (c', e, w) =
      consume_turns-IsConsumer turns
        (record { feed_handler = record f { consumer_running = true }; messages_consumed = 0 }) q fs
        (record {
          processed = v.processed;
          message = v.message;
          gap = v.gap;
          buffer = v.buffer;
          pushed = v.pushed;
          fit = v.fit;
        }) in
    (
      record c'.feed_handler { consumer_running = false },
      rw e refl,
      w.buffer,
      omega (arith, w.pushed, w.processed),
    )
