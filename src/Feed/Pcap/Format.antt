-- ===== src/Feed/Pcap/Format.antt =====
-- The PCAP file of some captured packets, in either byte order, which src/feed_handler.hpp reads.
use dpdk_itch5_feedhandler.Prelude.{
  ℕ, ◌^◌, ◌≤◌, ◌<◌, ◌≡◌, refl, List, [], ◌∷◌, ◌++◌, Bool, true, false, Bytes, All, length,
  length-append, if◌then◌else◌, arith,
}
use dpdk_itch5_feedhandler.Common.Endian.{from_le, to_le, swap32}
use dpdk_itch5_feedhandler.Common.Endian.Laws.{
  be, length-be, swap_bytes-be, from_le-to_le, length-to_le,
}

-- A captured packet: its time stamp, the length that it had on the wire, and the captured bytes.
pub record PcapPacket : Type 0 where
  pub stamp : Bytes
  pub original : Bytes
  pub frame : Bytes

pub record IsPcapPacket (p : PcapPacket) : Type 0 where
  pub stamp : length p.stamp ≡ 8
  pub original : length p.original ≡ 4
  pub frame : length p.frame < 2 ^ 32

-- A 32-bit number in the file, which is in this host's byte order or in the other.
abbrev pub word_field : Bool → ℕ → Bytes
word_field swap_bytes v = if swap_bytes then be 4 v else to_le 4 v

abbrev pub packet_header : Bool → PcapPacket → Bytes
packet_header swap_bytes p = p.stamp ++ (word_field swap_bytes (length p.frame) ++ p.original)

abbrev pub pcap_packets : Bool → List PcapPacket → Bytes
pcap_packets swap_bytes [] = []
pcap_packets swap_bytes (p ∷ ps) =
    packet_header swap_bytes p ++ (p.frame ++ pcap_packets swap_bytes ps)

-- The file: the magic number, the rest of the global header, and the packets.
abbrev pub pcap_file : Bool → Bytes → List PcapPacket → Bytes
pcap_file swap_bytes rest ps =
    word_field swap_bytes 0xa1b2c3d4 ++ (rest ++ pcap_packets swap_bytes ps)

pub length-word_field : (swap_bytes : Bool) (v : ℕ) → length (word_field swap_bytes v) ≡ 4
length-word_field true v = length-be 4 v
length-word_field false v = length-to_le 4 v

pub read_word_field :
    (swap_bytes : Bool) (v : ℕ)
    → v < 2 ^ 32
    → (let value = from_le (word_field swap_bytes v) in if swap_bytes then swap32 value else value)
      ≡ v
unfolding swap32
read_word_field true v h = swap_bytes-be 4 v h
read_word_field false v h = from_le-to_le 4 v h

pub length-packet_header :
    (swap_bytes : Bool) (p : PcapPacket) → IsPcapPacket p → length (packet_header swap_bytes p) ≡ 16
length-packet_header swap_bytes p v = omega (
  arith,
  v.stamp,
  v.original,
  length-append p.stamp (word_field swap_bytes (length p.frame) ++ p.original),
  length-append (word_field swap_bytes (length p.frame)) p.original,
  length-word_field swap_bytes (length p.frame),
)

pub length-le-pcap_packets :
    (swap_bytes : Bool) (ps : List PcapPacket)
    → All IsPcapPacket ps
    → length ps ≤ length (pcap_packets swap_bytes ps)
length-le-pcap_packets swap_bytes [] v = omega arith
length-le-pcap_packets swap_bytes (p ∷ ps) v = omega (
  arith,
  length-append (packet_header swap_bytes p) (p.frame ++ pcap_packets swap_bytes ps),
  length-append p.frame (pcap_packets swap_bytes ps),
  length-packet_header swap_bytes p v.0,
  length-le-pcap_packets swap_bytes ps v.1,
)

pub magic_other : from_le (be 4 0xa1b2c3d4) ≡ 0xd4c3b2a1
unfolding from_le be
magic_other = refl

pub magic_own : from_le (to_le 4 0xa1b2c3d4) ≡ 0xa1b2c3d4
unfolding from_le to_le
magic_own = refl
