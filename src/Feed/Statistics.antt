-- ===== src/Feed/Statistics.antt =====
-- `FeedHandler::print_stats` of src/feed_handler.hpp: the lines that it prints, each with its number.
use dpdk_itch5_feedhandler.Prelude.{ℕ, List, [], ◌∷◌}
use dpdk_itch5_feedhandler.Spsc.Ring.{size, available}
use dpdk_itch5_feedhandler.Dpdk.Output.{buffer_capacity}
use dpdk_itch5_feedhandler.Dpdk.Handler.{get_stats}
use dpdk_itch5_feedhandler.Feed.{FeedHandler}
use dpdk_itch5_feedhandler.Feed.Consumer.{message_buffer}

pub data Line : Type 0 where
  packets_processed bytes_processed invalid_packets messages_pushed buffer_full_events : Line
  total_messages add_orders order_executed order_deleted order_cancelled order_replaced : Line
  trades other_messages unknown_messages : Line
  session_packets session_messages gaps_detected heartbeats : Line
  buffer_size buffer_capacity_line buffer_available : Line

unfoldable pub print_stats : FeedHandler → List (Line × ℕ)
print_stats f =
    let stats = get_stats f.packet_handler in
    (Line.packets_processed, stats.packets_processed)
    ∷ (Line.bytes_processed, stats.bytes_processed)
    ∷ (Line.invalid_packets, stats.invalid_packets)
    ∷ (Line.messages_pushed, stats.messages_pushed)
    ∷ (Line.buffer_full_events, stats.buffer_full_count)
    ∷ (Line.total_messages, stats.parser_stats.total_messages)
    ∷ (Line.add_orders, stats.parser_stats.add_orders)
    ∷ (Line.order_executed, stats.parser_stats.order_executed)
    ∷ (Line.order_deleted, stats.parser_stats.order_deleted)
    ∷ (Line.order_cancelled, stats.parser_stats.order_cancelled)
    ∷ (Line.order_replaced, stats.parser_stats.order_replaced)
    ∷ (Line.trades, stats.parser_stats.trades)
    ∷ (Line.other_messages, stats.parser_stats.other_messages)
    ∷ (Line.unknown_messages, stats.parser_stats.unknown_messages)
    ∷ (Line.session_packets, stats.session_stats.packets_received)
    ∷ (Line.session_messages, stats.session_stats.messages_received)
    ∷ (Line.gaps_detected, stats.session_stats.gaps_detected)
    ∷ (Line.heartbeats, stats.session_stats.heartbeats_received)
    ∷ (Line.buffer_size, size buffer_capacity (message_buffer f))
    ∷ (Line.buffer_capacity_line, buffer_capacity)
    ∷ (Line.buffer_available, available buffer_capacity (message_buffer f))
    ∷ []
