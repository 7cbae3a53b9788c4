-- ===== src/Feed.antt =====
-- `FeedHandler` of src/feed_handler.hpp. The message buffer, which the packet handler refers to, stands
-- in the packet handler's state; a thread is whether it can be joined.
pub mod Pcap
pub mod Consumer
pub mod Statistics
use dpdk_itch5_feedhandler.Prelude.{
  ℕ, Bool, true, false, Option, none, some, Bytes, length, if◌then◌else◌, ◌>>=◌,
}
use dpdk_itch5_feedhandler.Spsc.Ring.{RingBuffer}
use dpdk_itch5_feedhandler.Common.Types.{NormalizedMessage}
use dpdk_itch5_feedhandler.Dpdk.Handler
use dpdk_itch5_feedhandler.Dpdk.Handler.{Handler, new_handler, process_itch_file_data}

pub record FeedHandler : Type 0 where
  pub packet_handler : Handler
  pub running : Bool
  pub producer_running : Bool
  pub consumer_running : Bool
  pub producer_thread : Bool
  pub consumer_thread : Bool
  pub total_messages_processed : ℕ

-- The constructor, over its own buffer.
unfoldable pub new_feed_handler : RingBuffer NormalizedMessage → FeedHandler
new_feed_handler buffer = record {
  packet_handler = new_handler buffer;
  running = false;
  producer_running = false;
  consumer_running = false;
  producer_thread = false;
  consumer_thread = false;
  total_messages_processed = 0;
}

unfoldable pub start : FeedHandler → FeedHandler
start f = if f.running then f else record f {
  running = true;
  packet_handler = Handler.start f.packet_handler;
  producer_thread = true;
  consumer_thread = true;
}

-- Both threads are joined.
unfoldable pub stop : FeedHandler → FeedHandler
stop f = record f {
  running = false;
  packet_handler = Handler.stop f.packet_handler;
  producer_thread = false;
  consumer_thread = false;
}

-- Without a network card there is nothing to prepare.
unfoldable pub initialize : FeedHandler → Bool
initialize f = true

-- The producer thread only waits until `running` is not set. Nothing reads `producer_running`.
unfoldable pub run_producer : FeedHandler → FeedHandler
run_producer f =
    let waiting = record f { producer_running = true } in
    record waiting { producer_running = false }

-- The file's contents, `none` where it cannot be opened.
unfoldable pub process_itch_file : FeedHandler → Option Bytes → Option (ℕ × FeedHandler)
process_itch_file f none = some (0, f)
process_itch_file f (some buffer) =
    process_itch_file_data f.packet_handler buffer (length buffer) >>= λ r.
    some (r.0, record f { packet_handler = r.1 })
