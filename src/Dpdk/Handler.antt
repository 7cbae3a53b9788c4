-- ===== src/Dpdk/Handler.antt =====
-- `PacketHandler` of include/dpdk/packet_handler.hpp. A call is `none` where it reads memory that is
-- not there.
pub mod Safety
pub mod Files
pub mod Accept
pub mod Orders
pub mod Recording
use dpdk_itch5_feedhandler.Prelude.{
  ℕ, zero, suc, ◌+◌, Bool, true, false, Option, none, some, Bytes, load, drop, replicate, ltb, ◌==◌,
  add64, sub64, inc64, if◌then◌else◌, ◌>>=◌,
}
use dpdk_itch5_feedhandler.Common.Types.{NormalizedMessage, default_message}
use dpdk_itch5_feedhandler.Common.Endian.{ntoh16, read_be16}
use dpdk_itch5_feedhandler.Spsc.Ring.{RingBuffer, new_ring}
use dpdk_itch5_feedhandler.Mold.Session
use dpdk_itch5_feedhandler.Mold.Session.{Session, new_session, set_message_callback, process_packet}
use dpdk_itch5_feedhandler.Itch.Parser
use dpdk_itch5_feedhandler.Itch.Parser.{zero_stats, parse_message}
use dpdk_itch5_feedhandler.Itch.Layout.{sizeof}
use dpdk_itch5_feedhandler.Dpdk.Config.{
  ethernet_size, udp_size, total_min, ethernet_layout, ipv4_layout, view_ether_type, view_ipv4,
  get_ip_header_length, ip_proto_udp, ether_type_ipv4,
}
use dpdk_itch5_feedhandler.Dpdk.Output.{Output, buffer_capacity, setup_parser_callbacks}

-- What the session's message callback changes: the parser's statistics and the output.
pub record Sink : Type 0 where
  pub stats : Parser.Stats
  pub output : Output

pub record Handler : Type 0 where
  pub sink : Sink
  pub session : Session Sink
  pub running : Bool
  pub packets_processed : ℕ
  pub bytes_processed : ℕ
  pub invalid_packets : ℕ

unfoldable pub parse_itch_message : Bytes → ℕ → Sink → Option Sink
parse_itch_message ptr length sink =
    parse_message setup_parser_callbacks sink.stats ptr length sink.output >>= λ r.
    some (record { stats = r.1; output = r.2 })

-- The constructor, over the buffer that it is given.
unfoldable pub new_handler : RingBuffer NormalizedMessage → Handler
new_handler buffer = record {
  sink = record {
    stats = zero_stats;
    output = record { buffer = buffer; messages_pushed = 0; buffer_full_count = 0 };
  };
  session =
      set_message_callback (new_session (replicate 10 0))
        (some (λ ptr length seq sink. parse_itch_message ptr length sink));
  running = false;
  packets_processed = 0;
  bytes_processed = 0;
  invalid_packets = 0;
}

-- `++invalid_packets_; return false;`
unfoldable pub reject : Handler → Bool × Handler
reject h = (false, record h { invalid_packets = inc64 h.invalid_packets })

-- The end of both packet functions: the session's verdict and the counters.
unfoldable pub finish : Handler → ℕ → Bool × Session Sink × Sink → Bool × Handler
unfolding reject
finish h len r =
    if r.0
    then (
      true,
      record h {
        sink = r.2;
        session = r.1;
        packets_processed = inc64 h.packets_processed;
        bytes_processed = add64 h.bytes_processed len;
      },
    )
    else reject (record h { sink = r.2; session = r.1 })

-- The MoldUDP64 packet that starts at `start`. Its length wraps where the headers claim more bytes
-- than the frame has.
unfoldable pub process_payload : Handler → Bytes → ℕ → ℕ → Option (Bool × Handler)
process_payload h ptr len start =
    process_packet h.session (drop start ptr) (sub64 len start) h.sink >>= λ r.
    some (finish h len r)

-- What `process_mbuf` and `process_raw_packet` do with a frame that has the minimal length.
unfoldable pub process_frame : Handler → Bytes → ℕ → Option (Bool × Handler)
process_frame h ptr len = load (sizeof ethernet_layout) ptr >>= λ eth.
    if ntoh16 (view_ether_type eth) == ether_type_ipv4
    then (load (sizeof ipv4_layout) (drop ethernet_size ptr) >>= λ raw.
        let ip = view_ipv4 raw in
        let offset = add64 ethernet_size (get_ip_header_length ip) in
        if ip.protocol == ip_proto_udp
        then process_payload h ptr len (add64 offset udp_size)
        else some (reject h))
    else some (reject h)

unfoldable pub process_raw_packet : Handler → Bytes → ℕ → Option (Bool × Handler)
process_raw_packet h ptr len =
    if ltb len total_min then some (reject h) else process_frame h ptr len

-- `rte_mbuf`: `buffer` is the memory at `buf_addr`.
pub record Mbuf : Type 0 where
  pub data_len : ℕ
  pub pkt_len : ℕ
  pub buffer : Bytes
  pub data_off : ℕ

-- A null pointer is `none`.
unfoldable pub process_mbuf : Handler → Option Mbuf → Option (Bool × Handler)
process_mbuf h none = some (reject h)
process_mbuf h (some m) =
    if ltb m.pkt_len total_min
    then some (reject h)
    else process_frame h (drop m.data_off m.buffer) m.pkt_len

-- The `while` loop over an ITCH file's messages; each round moves `offset` on by 2 or more, so
-- `len` rounds are enough.
unfoldable pub process_file_from : ℕ → Handler → Bytes → ℕ → ℕ → ℕ → Option (ℕ × Handler)
process_file_from zero h ptr len offset processed = none
process_file_from (suc rounds) h ptr len offset processed =
    if ltb (add64 offset 2) len
    then (read_be16 (drop offset ptr) >>= λ msg_len.
        let begin = add64 offset 2 in
        if ltb len (add64 begin msg_len)
        then some (processed, h)
        else (parse_message setup_parser_callbacks h.sink.stats (drop begin ptr) msg_len
              h.sink.output
            >>= λ r.
                process_file_from rounds (record h { sink = record { stats = r.1; output = r.2 } })
                  ptr len (add64 begin msg_len) (if ltb 0 r.0 then inc64 processed else processed)))
    else some (processed, h)

unfoldable pub process_itch_file_data : Handler → Bytes → ℕ → Option (ℕ × Handler)
process_itch_file_data h ptr len = process_file_from (len + 1) h ptr len 0 0

unfoldable pub start : Handler → Handler
start h = record h { running = true }

unfoldable pub stop : Handler → Handler
stop h = record h { running = false }

pub record Stats : Type 0 where
  pub packets_processed : ℕ
  pub bytes_processed : ℕ
  pub invalid_packets : ℕ
  pub messages_pushed : ℕ
  pub buffer_full_count : ℕ
  pub parser_stats : Parser.Stats
  pub session_stats : Session.Stats

unfoldable pub get_stats : Handler → Stats
get_stats h = record {
  packets_processed = h.packets_processed;
  bytes_processed = h.bytes_processed;
  invalid_packets = h.invalid_packets;
  messages_pushed = h.sink.output.messages_pushed;
  buffer_full_count = h.sink.output.buffer_full_count;
  parser_stats = h.sink.stats;
  session_stats = Session.get_stats h.session;
}
