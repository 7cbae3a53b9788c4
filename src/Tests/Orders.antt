-- ===== src/Tests/Orders.antt =====
-- Runs of the packet handler, the parser and the session on messages as the documents write them.
use dpdk_itch5_feedhandler.Prelude.{
  ◌+◌, ◌<◌, ◌≡◌, refl, List, [], ◌∷◌, ◌++◌, true, some, Bytes, All, replicate, length, inc64, inl,
  ◌>>=◌, arith,
}
use dpdk_itch5_feedhandler.Common.Types.{default_message}
use dpdk_itch5_feedhandler.Common.Endian.{ntoh16, swap16, swap_bytes, to_le, from_le, from_be}
use dpdk_itch5_feedhandler.Common.Endian.Laws.{be}
use dpdk_itch5_feedhandler.Spsc.Ring.{new_ring}
use dpdk_itch5_feedhandler.Spsc.Refine.{Represents, new_ring-Represents}
use dpdk_itch5_feedhandler.Mold.Header.{Header, is_heartbeat, is_end_of_session}
use dpdk_itch5_feedhandler.Mold.Session.{SessionState, new_session, set_message_callback}
use dpdk_itch5_feedhandler.Mold.Session.Blocks.{blocks, packet_of}
use dpdk_itch5_feedhandler.Mold.Session.Delivery.{Announces}
use dpdk_itch5_feedhandler.Itch.Layout.{sizeof, field, char, word}
use dpdk_itch5_feedhandler.Itch.Parser.{zero_stats, parse_message}
use dpdk_itch5_feedhandler.Itch.Wire.{Head, Order, add, add_mpid, encode, layout_of, IsOrder}
use dpdk_itch5_feedhandler.Dpdk.Config.{view_ipv4, view_ether_type, get_ip_header_length}
use dpdk_itch5_feedhandler.Dpdk.Output.{Output, buffer_capacity, setup_parser_callbacks}
use dpdk_itch5_feedhandler.Dpdk.Output.Normalized.{normalized, tally, push_normalized}
use dpdk_itch5_feedhandler.Dpdk.Output.Orders.{parse_message-normalized}
use dpdk_itch5_feedhandler.Dpdk.Handler.{
  Handler, new_handler, process_raw_packet, process_itch_file_data,
}
use dpdk_itch5_feedhandler.Dpdk.Handler.Safety.{IsUdpFrame, payload_offset}
use dpdk_itch5_feedhandler.Dpdk.Handler.Orders.{IsReady, IsFeed, Fed, process_raw_packet-orders}
use dpdk_itch5_feedhandler.Dpdk.Handler.Recording.{process_itch_file_data-orders}
use dpdk_itch5_feedhandler.Dpdk.Handler.Accept.{accept, messages_of, count_all}
use dpdk_itch5_feedhandler.Feed.Pcap.{process_pcap_file}
use dpdk_itch5_feedhandler.Feed.Pcap.Format.{pcap_file}
use dpdk_itch5_feedhandler.Feed.Pcap.Orders.{
  Capture, IsCapture, packets_of, orders_of, process_pcap_file-orders,
}

abbrev id : Bytes
id = replicate 10 b'S'

abbrev head : Head
head = record { stock_locate = 1; tracking_number = 2; timestamp = 3; order_ref = 4 }

abbrev order : Order
order = add head b'B' 100 (replicate 8 b'X') 12_345

abbrev pub orders : List Order
orders = order ∷ add_mpid head b'S' 7 (replicate 8 b'X') 5 (replicate 4 b'M') ∷ []

pub orders-IsOrder : All IsOrder orders
orders-IsOrder = omega arith

abbrev empty_output : Output
empty_output = record {
  buffer = new_ring buffer_capacity default_message;
  messages_pushed = 0;
  buffer_full_count = 0;
}

parse_message-normalized_example :
    parse_message setup_parser_callbacks zero_stats (encode order ++ []) 36 empty_output ≡ (
      push_normalized empty_output (normalized order) >>= λ out'. some (
        sizeof (layout_of order),
        record (tally order zero_stats) {
          total_messages = inc64 (tally order zero_stats).total_messages;
        },
        out',
      ))
parse_message-normalized_example =
    parse_message-normalized order [] zero_stats empty_output 36 orders-IsOrder.0 (omega arith)

abbrev header : Header
header = record { session = id; sequence_number = 1; message_count = 2 }

header-Announces : Announces encode header orders
unfolding be is_heartbeat is_end_of_session
header-Announces = record {
  session = refl;
  sequence = omega arith;
  count = refl;
  few = omega arith;
  short = omega arith;
  carried = refl;
}

-- Ethernet, IPv4 and UDP, 42 bytes.
abbrev pre : Bytes
pre = replicate 12 0 ++ (8 ∷ 0 ∷ 0x45 ∷ replicate 8 0 ++ (17 ∷ replicate 10 0 ++ replicate 8 0))

abbrev frame : Bytes
frame = pre ++ (packet_of encode header orders ++ [])

abbrev handler : Handler
handler = new_handler (new_ring buffer_capacity default_message)

handler-IsFeed : IsFeed handler header orders
unfolding new_handler set_message_callback new_session
handler-IsFeed = record { own = inl refl; announced = header-Announces; orders = orders-IsOrder }

frame-IsUdpFrame : IsUdpFrame frame
unfolding ntoh16 swap16 swap_bytes to_le from_be from_le view_ether_type view_ipv4 field word char
frame-IsUdpFrame = record { ether_type = refl; protocol = refl }

frame_offset : payload_offset frame ≡ 42
unfolding payload_offset view_ipv4 get_ip_header_length field char
frame_offset = refl

frame_length : 142 ≡ length pre + length (packet_of encode header orders)
unfolding be
frame_length = refl

handler-Represents : Represents buffer_capacity handler.sink.output.buffer []
unfolding new_handler
handler-Represents = new_ring-Represents buffer_capacity default_message (omega arith)

handler-IsReady : IsReady [] handler
unfolding new_handler set_message_callback new_session
handler-IsReady = record {
  message = refl;
  gap = refl;
  counter = omega arith;
  held = new_ring-Represents buffer_capacity default_message (omega arith);
}

handler_new : handler.session.state ≡ SessionState.unknown
unfolding new_handler set_message_callback new_session
handler_new = refl

process_raw_packet-orders_example :
    (r : Handler) × (process_raw_packet handler frame 142 ≡ some (true, r))
    × Fed handler [] header orders r
process_raw_packet-orders_example =
    process_raw_packet-orders handler header orders [] pre [] frame 142 handler-IsReady
      handler-IsFeed frame-IsUdpFrame frame_offset refl frame_length (omega arith) (omega arith)

-- The frame in a PCAP file of the other byte order.
abbrev capture : Capture
capture = record {
  packet = record { stamp = replicate 8 0; original = replicate 4 0; frame = frame };
  pre = pre;
  header = header;
  orders = orders;
}

capture-IsCapture : IsCapture id capture
unfolding be
capture-IsCapture = record {
  packet = record { stamp = refl; original = refl; frame = omega arith };
  session = refl;
  announced = header-Announces;
  orders = orders-IsOrder;
  udp = frame-IsUdpFrame;
  offset = frame_offset;
  contents = refl;
  long = omega arith;
}

process_pcap_file-orders_example :
    (r : Handler) × (process_pcap_file handler
        (some (pcap_file true (replicate 20 0) (packets_of (capture ∷ []))))
      ≡ some (1, r))
    × IsReady (accept [] (orders_of (capture ∷ []))) r
    × (r.sink.stats ≡ count_all handler.sink.stats (orders_of (capture ∷ [])))
    × (length (messages_of (orders_of (capture ∷ []))) < buffer_capacity
        → accept [] (orders_of (capture ∷ [])) ≡ messages_of (orders_of (capture ∷ [])))
process_pcap_file-orders_example =
    process_pcap_file-orders true (replicate 20 0) id (capture ∷ []) handler [] refl
      (capture-IsCapture, tt) handler-IsReady (inl handler_new) (omega arith)

process_itch_file_data-orders_example :
    (r : Handler) × (process_itch_file_data handler
        (blocks encode orders ++ 7 ∷ [])
        (length (blocks encode orders))
      ≡ some (2, r))
    × Represents buffer_capacity r.sink.output.buffer (accept [] orders)
    × (r.sink.stats ≡ count_all handler.sink.stats orders)
unfolding be
process_itch_file_data-orders_example =
    process_itch_file_data-orders handler orders [] (7 ∷ []) orders-IsOrder handler-Represents
      (omega arith)
