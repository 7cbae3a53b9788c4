-- ===== src/Dpdk/Config.antt =====
-- include/dpdk/config.hpp: the configuration, and the sizes and the layouts of the network headers.
use Prim.Native.Nat.{bit_and}
use dpdk_itch5_feedhandler.Prelude.{ℕ, ◌+◌, ◌*◌, ◌%◌, [], ◌∷◌, Bytes, Bool, true, false}
use dpdk_itch5_feedhandler.Itch.Layout.{Layout, char, word}

-- `Config`, its fields that can be set. `I` is the type of a core's number, C++'s `int`.
abbrev pub producer_core : ℕ
producer_core = 1

abbrev pub consumer_core : ℕ
consumer_core = 2

pub record Config (I : Type 0) : Type 0 where
  pub pcap_file : Bytes
  pub port_id : ℕ
  pub use_pcap : Bool
  pub promiscuous : Bool
  pub pin_to_core : Bool
  pub producer_core_id : I
  pub consumer_core_id : I

abbrev pub default_config : {I : Type 0} → (ℕ → I) → Config I
default_config int = record {
  pcap_file = [];
  port_id = 0;
  use_pcap = false;
  promiscuous = true;
  pin_to_core = true;
  producer_core_id = int producer_core;
  consumer_core_id = int consumer_core;
}

abbrev pub ethernet_size : ℕ
ethernet_size = 14

abbrev pub ipv4_size : ℕ
ipv4_size = 20

abbrev pub udp_size : ℕ
udp_size = 8

abbrev pub moldudp64_size : ℕ
moldudp64_size = 20

-- The headers of a typical packet: `TOTAL_MIN`.
abbrev pub total_min : ℕ
total_min = ethernet_size + ipv4_size + udp_size + moldudp64_size

-- dst_mac, src_mac, ether_type
abbrev pub ethernet_layout : Layout
ethernet_layout = 6 ∷ 6 ∷ 2 ∷ []

-- version_ihl, tos, total_length, identification, flags_fragment, ttl, protocol, checksum, src_addr,
-- dst_addr
abbrev pub ipv4_layout : Layout
ipv4_layout = 1 ∷ 1 ∷ 2 ∷ 2 ∷ 2 ∷ 1 ∷ 1 ∷ 2 ∷ 4 ∷ 4 ∷ []

-- src_port, dst_port, length, checksum
abbrev pub udp_layout : Layout
udp_layout = 2 ∷ 2 ∷ 2 ∷ 2 ∷ []

-- The fields that the handler reads.
pub record Ipv4Header : Type 0 where
  pub version_ihl : ℕ
  pub protocol : ℕ

unfoldable pub view_ether_type : Bytes → ℕ
unfolding word
view_ether_type p = word ethernet_layout 2 p

unfoldable pub view_ipv4 : Bytes → Ipv4Header
unfolding char
view_ipv4 p = record { version_ihl = char ipv4_layout 0 p; protocol = char ipv4_layout 6 p }

-- The IP header's length in bytes, as `uint8_t`.
unfoldable pub get_ip_header_length : Ipv4Header → ℕ
get_ip_header_length ip = bit_and ip.version_ihl 0x0f * 4 % 256

abbrev pub ip_proto_udp : ℕ
ip_proto_udp = 17

abbrev pub ether_type_ipv4 : ℕ
ether_type_ipv4 = 0x0800
