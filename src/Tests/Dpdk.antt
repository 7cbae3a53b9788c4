-- ===== src/Tests/Dpdk.antt =====
-- Runs of the packet handler on a frame of 65 bytes.
use dpdk_itch5_feedhandler.Prelude.{
  ℕ, ◌≡◌, refl, [], ◌∷◌, ◌++◌, Bool, none, some, Bytes, replicate, add64, arith,
}
use dpdk_itch5_feedhandler.Common.Types.{default_message}
use dpdk_itch5_feedhandler.Common.Endian.{ntoh16, swap16, swap_bytes, to_le, from_le, from_be}
use dpdk_itch5_feedhandler.Itch.Layout.{field, char, word}
use dpdk_itch5_feedhandler.Spsc.Ring.{new_ring}
use dpdk_itch5_feedhandler.Spsc.Refine.{new_ring-Represents}
use dpdk_itch5_feedhandler.Dpdk.Config.{view_ipv4, view_ether_type, get_ip_header_length}
use dpdk_itch5_feedhandler.Dpdk.Output.{buffer_capacity}
use dpdk_itch5_feedhandler.Dpdk.Handler.{
  Handler, new_handler, process_raw_packet, Mbuf, process_mbuf, process_itch_file_data,
}
use dpdk_itch5_feedhandler.Dpdk.Handler.Safety.{
  IsHandler, IsUdpFrame, new_handler-IsHandler, payload_offset, process_raw_packet_returns,
  process_raw_packet_overreads, process_mbuf_returns,
}
use dpdk_itch5_feedhandler.Dpdk.Handler.Files.{total_of, process_itch_file_data_returns}

abbrev pub session_packet : Bytes
session_packet = replicate 10 b'S' ++ (replicate 7 0 ++ 1 ∷ 0 ∷ 1 ∷ 0 ∷ 1 ∷ 120 ∷ [])

-- Ethernet, IPv4 with the version and header length given, and UDP.
abbrev pub frame : ℕ → Bytes
frame version_ihl =
    replicate 12 0
    ++ (8 ∷ 0 ∷ version_ihl ∷ replicate 8 0
        ++ (17 ∷ replicate 10 0 ++ (replicate 8 0 ++ session_packet)))

unfoldable handler : Handler
handler = new_handler (new_ring buffer_capacity default_message)

handler-IsHandler : IsHandler 0 handler
unfolding handler
handler-IsHandler =
    new_handler-IsHandler (new_ring buffer_capacity default_message)
      (new_ring-Represents buffer_capacity default_message (omega arith))

-- The usual header length of 20 bytes.
pub offset_42 : payload_offset (frame 0x45) ≡ 42
unfolding payload_offset view_ipv4 get_ip_header_length field char
offset_42 = refl

process_raw_packet_returns_example :
    (r : Bool × Handler) × (process_raw_packet handler (frame 0x45) 65 ≡ some r) × IsHandler 0 r.1
process_raw_packet_returns_example =
    process_raw_packet_returns 0 handler (frame 0x45) 65 handler-IsHandler (omega arith)
      (omega arith) (omega arith) (omega (arith, offset_42))

-- The frame behind two bytes of headroom.
abbrev mbuf : Mbuf
mbuf = record { data_len = 65; pkt_len = 65; buffer = 0 ∷ 0 ∷ frame 0x45; data_off = 2 }

process_mbuf_returns_example :
    (r : Bool × Handler) × (process_mbuf handler (some mbuf) ≡ some r) × IsHandler 0 r.1
process_mbuf_returns_example =
    process_mbuf_returns 0 handler (some mbuf) handler-IsHandler
      (λ _. (omega arith, omega arith, omega arith, omega (arith, offset_42)))

-- A header length of 60 bytes puts the payload at 82, behind the end.
offset_82 : payload_offset (frame 0x4f) ≡ 82
unfolding payload_offset view_ipv4 get_ip_header_length field char
offset_82 = refl

long_header-IsUdpFrame : IsUdpFrame (frame 0x4f)
unfolding ntoh16 swap16 swap_bytes to_le from_be from_le view_ether_type view_ipv4 field word char
long_header-IsUdpFrame = record { ether_type = refl; protocol = refl }

process_raw_packet_overreads_example : process_raw_packet handler (frame 0x4f) 65 ≡ none
process_raw_packet_overreads_example =
    process_raw_packet_overreads handler (frame 0x4f) 65 refl (omega arith) long_header-IsUdpFrame
      (omega (arith, offset_82))

-- A file of one delete message and a message that is cut off.
abbrev file : Bytes
file = 0 ∷ 19 ∷ b'D' ∷ replicate 18 1 ++ 0 ∷ 36 ∷ b'A' ∷ []

nothing_counted : total_of handler ≡ 0
unfolding handler new_handler
nothing_counted = refl

process_itch_file_data_returns_example :
    (r : ℕ × Handler) × (process_itch_file_data handler file 24 ≡ some r)
    × IsHandler 0 r.1
    × (total_of r.1 ≡ add64 (total_of handler) r.0)
process_itch_file_data_returns_example =
    process_itch_file_data_returns 0 handler file 24 (omega arith) (omega arith) (omega arith)
      handler-IsHandler (omega (arith, nothing_counted))
