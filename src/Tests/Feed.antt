-- ===== src/Tests/Feed.antt =====
-- Runs of the feed handler on a PCAP file of one short frame, and of its consumer.
use dpdk_itch5_feedhandler.Prelude.{
  ℕ, Bytes, ◌≡◌, ◌<◌, ◌≤◌, subst, sym, All, length, refl, List, [], ◌∷◌, ◌++◌, true, some,
  replicate, arith,
}
use dpdk_itch5_feedhandler.Common.Types.{NormalizedMessage, default_message}
use dpdk_itch5_feedhandler.Spsc.Ring.{new_ring}
use dpdk_itch5_feedhandler.Spsc.Refine.{Represents, new_ring-Represents}
use dpdk_itch5_feedhandler.Dpdk.Output.{buffer_capacity}
use dpdk_itch5_feedhandler.Dpdk.Handler.{Handler, new_handler}
use dpdk_itch5_feedhandler.Feed.Pcap.{included_length, process_pcap_file}
use dpdk_itch5_feedhandler.Feed.Pcap.Format.{PcapPacket, pcap_file}
use dpdk_itch5_feedhandler.Feed.Pcap.Frames.{feed_all, process_pcap_file-feed_all}
use dpdk_itch5_feedhandler.Mold.Session.{new_session, set_message_callback}
use dpdk_itch5_feedhandler.Feed.{FeedHandler, new_feed_handler}
use dpdk_itch5_feedhandler.Feed.Consumer.{receive, message_buffer, run_consumer}
use dpdk_itch5_feedhandler.Feed.Consumer.Drain.{IsConsumer, IsFrame, run_consumer_processes_all}
use dpdk_itch5_feedhandler.Feed.Consumer.Bounds.{receive_fits}
use dpdk_itch5_feedhandler.Dpdk.Output.Bounds.{IsMessage}
use dpdk_itch5_feedhandler.Feed.Pcap.Safety.{
  IsInside, frames_in, file_frames, process_pcap_file_returns,
}
use dpdk_itch5_feedhandler.Dpdk.Handler.Safety.{IsHandler, new_handler-IsHandler}
use dpdk_itch5_feedhandler.Common.Endian.{swap32, swap_bytes, to_le, from_le, from_be}
use dpdk_itch5_feedhandler.Tests.Dpdk.{frame, offset_42}

abbrev handler : Handler
handler = new_handler (new_ring buffer_capacity default_message)

abbrev packets : List PcapPacket
packets = record { stamp = replicate 8 0; original = replicate 4 0; frame = 1 ∷ 2 ∷ 3 ∷ [] } ∷ []

process_pcap_file-feed_all_example :
    process_pcap_file handler (some (pcap_file true (replicate 20 0) packets))
    ≡ feed_all handler packets 0
process_pcap_file-feed_all_example =
    process_pcap_file-feed_all true (replicate 20 0) packets handler refl
      (record { stamp = refl; original = refl; frame = omega arith }, tt)

abbrev feed : FeedHandler
feed = new_feed_handler (new_ring buffer_capacity default_message)

feed-IsConsumer : IsConsumer [] feed
unfolding new_feed_handler new_handler new_session set_message_callback
feed-IsConsumer = record {
  processed = omega arith;
  message = refl;
  gap = refl;
  buffer = new_ring-Represents buffer_capacity default_message (omega arith);
  pushed = refl;
  fit = tt;
}

frame-IsFrame : IsFrame (frame 0x45, 65)
frame-IsFrame = record {
  bytes = omega arith;
  readable = omega arith;
  small = omega arith;
  inside = λ _. omega (arith, offset_42);
}

-- The frame comes twice before the first round, and once more before the third.
abbrev turns : List (List (Bytes × ℕ))
turns = ((frame 0x45, 65) ∷ (frame 0x45, 65) ∷ []) ∷ [] ∷ ((frame 0x45, 65) ∷ []) ∷ []

run_consumer_processes_all_example :
    (f : FeedHandler) × (run_consumer turns feed ≡ some f)
    × Represents buffer_capacity (message_buffer f) []
    × (f.total_messages_processed ≡ f.packet_handler.sink.output.messages_pushed)
run_consumer_processes_all_example =
    run_consumer_processes_all turns feed []
      ((frame-IsFrame, (frame-IsFrame, tt)), (tt, ((frame-IsFrame, tt), tt))) feed-IsConsumer

receive_fits_example :
    (h : Handler) × (receive ((frame 0x45, 65) ∷ []) handler ≡ some h)
    × (q : List NormalizedMessage) × Represents buffer_capacity h.sink.output.buffer q
    × (length q < buffer_capacity)
    × All IsMessage q
receive_fits_example =
    receive_fits ((frame 0x45, 65) ∷ []) (new_ring buffer_capacity default_message)
      (new_ring-Represents buffer_capacity default_message (omega arith)) (frame-IsFrame, tt)

-- A file of one frame, of the other byte order.
abbrev recorded : Bytes
recorded =
    0xa1 ∷ 0xb2 ∷ 0xc3 ∷ 0xd4 ∷ replicate 20 0
    ++ (replicate 8 0 ++ (0 ∷ 0 ∷ 0 ∷ 65 ∷ replicate 4 0 ++ frame 0x45))

recorded_frames : file_frames recorded ≡ frame 0x45 ∷ []
unfolding frames_in included_length swap32 swap_bytes to_le from_le from_be
recorded_frames = refl

process_pcap_file_returns_example :
    (r : ℕ × Handler) × (process_pcap_file handler (some recorded) ≡ some r)
    × (r.0 ≤ length (file_frames recorded))
    × IsHandler 0 r.1
process_pcap_file_returns_example =
    process_pcap_file_returns 0 handler recorded (omega arith) (omega arith) (omega arith)
      (subst (All IsInside) (sym recorded_frames) ((λ _. omega (arith, offset_42)), tt))
      (new_handler-IsHandler (new_ring buffer_capacity default_message)
        (new_ring-Represents buffer_capacity default_message (omega arith)))
