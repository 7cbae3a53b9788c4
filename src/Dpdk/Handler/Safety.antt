-- ===== src/Dpdk/Handler/Safety.antt =====
-- `PacketHandler` of include/dpdk/packet_handler.hpp on the memory that it is given.
use dpdk_itch5_feedhandler.Prelude.{
  ℕ, ◌+◌, ◌^◌, ◌≤◌, ◌<◌, ◌≡◌, refl, sym, ◌∙◌, [], Bool, none, some, Option, Bytes, AreBytes,
  load-eq-take, length, drop, take, length-drop, All-drop, ltb, ◌==◌, ==_iff, Post, bind-Post,
  if-Post, if_holds, add64, sub64, subst, ltb→le, load-short, le→ltb, arith,
}
use dpdk_itch5_feedhandler.Common.Types.{NormalizedMessage}
use dpdk_itch5_feedhandler.Common.Endian.{ntoh16}
use dpdk_itch5_feedhandler.Spsc.Ring.{RingBuffer}
use dpdk_itch5_feedhandler.Spsc.Refine.{Represents}
use dpdk_itch5_feedhandler.Mold.Header.{parse}
use dpdk_itch5_feedhandler.Mold.Session.{Session, process_packet, new_session, set_message_callback}
use dpdk_itch5_feedhandler.Mold.Session.Safety.{
  KeepsMessage, KeepsGap, Wired, process_packet_returns,
}
use dpdk_itch5_feedhandler.Itch.Layout.{sizeof}
use dpdk_itch5_feedhandler.Itch.Parser.Safety.{parse_message_returns, consumed}
use dpdk_itch5_feedhandler.Dpdk.Config.{
  ethernet_size, udp_size, total_min, ethernet_layout, ipv4_layout, view_ether_type, view_ipv4,
  get_ip_header_length, ip_proto_udp, ether_type_ipv4,
}
use dpdk_itch5_feedhandler.Dpdk.Output.{buffer_capacity, setup_parser_callbacks}
use dpdk_itch5_feedhandler.Dpdk.Handler.{
  Handler, Sink, new_handler, parse_itch_message, reject, finish, process_payload, process_frame,
  process_raw_packet, Mbuf, process_mbuf,
}
use dpdk_itch5_feedhandler.Dpdk.Output.Safety.{IsOutput, callbacks_keep}

abbrev pub IsSink : ℕ → Sink → Type 0
IsSink taken s = IsOutput taken s.output

-- A handler whose session calls back into its parser, and whose ring is in order and holds what was
-- pushed and not among the `taken` messages.
pub record IsHandler (taken : ℕ) (h : Handler) : Type 0 where
  pub message :
      h.session.message_callback ≡ some (λ ptr length seq sink. parse_itch_message ptr length sink)
  pub gap : h.session.gap_callback ≡ none
  pub sink : IsSink taken h.sink

pub new_handler-IsHandler :
    (b : RingBuffer NormalizedMessage)
    → Represents buffer_capacity b []
    → IsHandler 0 (new_handler b)
unfolding new_handler new_session set_message_callback
new_handler-IsHandler b v = record { message = refl; gap = refl; sink = ([], v, refl, tt) }

-- The offset of the payload of a frame: behind the Ethernet, IP and UDP headers.
unfoldable pub payload_offset : Bytes → ℕ
payload_offset ptr =
    add64
      (add64 ethernet_size
        (get_ip_header_length (view_ipv4 (take (sizeof ipv4_layout) (drop ethernet_size ptr)))))
      udp_size

module _ (taken : ℕ) where
  parse_itch_message_returns :
      (p : Bytes) (n : ℕ) (s : Sink)
      → n ≤ length p
      → AreBytes p
      → IsSink taken s
      → Post (IsSink taken) (parse_itch_message p n s)
  unfolding parse_itch_message
  parse_itch_message_returns p n s h bytes j =
      let out =
        parse_message_returns (IsOutput taken) setup_parser_callbacks (callbacks_keep taken) s.stats
          p n s.output j bytes h in
      bind-Post (λ r. (r.0 ≡ consumed p n) × IsOutput taken r.2) (IsSink taken)
        (out.0, out.1, (out.2, out.3)) λ r k. (record { stats = r.1; output = r.2 }, refl, k.1)

  reject-IsHandler : (h : Handler) → IsHandler taken h → IsHandler taken (reject h).1
  unfolding reject
  reject-IsHandler h v = record { message = v.message; gap = v.gap; sink = v.sink }

  finish-IsHandler :
      (h : Handler) (len : ℕ) (r : Bool × Session Sink × Sink)
      → IsHandler taken h
      → Wired h.session r.1
      → IsSink taken r.2
      → IsHandler taken (finish h len r).1
  unfolding finish reject
  finish-IsHandler h len r v w k =
      if_holds {A = Bool × Handler} (λ t. IsHandler taken t.1) r.0
        (record { message = w.message ∙ v.message; gap = w.gap ∙ v.gap; sink = k })
        (record { message = w.message ∙ v.message; gap = w.gap ∙ v.gap; sink = k })

  process_payload_returns :
      (h : Handler) (ptr : Bytes) (len start : ℕ)
      → IsHandler taken h
      → AreBytes ptr
      → len ≤ length ptr
      → len < 2 ^ 63
      → start ≤ len
      → Post (λ r. IsHandler taken r.1) (process_payload h ptr len start)
  unfolding process_payload
  process_payload_returns h ptr len start v bytes readable small inside =
      bind-Post (λ r. Wired h.session r.1 × IsSink taken r.2) (λ r. IsHandler taken r.1)
        (process_packet_returns (IsSink taken) (drop start ptr) (sub64 len start)
          (All-drop _ start ptr bytes) (omega (arith, length-drop start ptr)) (omega arith)
          h.session h.sink
          (subst (KeepsMessage (IsSink taken)) (sym v.message)
            (λ p n seq w fits bytes j. parse_itch_message_returns p n w fits bytes j))
          (subst (KeepsGap (IsSink taken)) (sym v.gap) tt) v.sink)
        λ r p. (finish h len r, refl, finish-IsHandler h len r v p.0 p.1)

  process_frame_returns :
      (h : Handler) (ptr : Bytes) (len : ℕ)
      → IsHandler taken h
      → AreBytes ptr
      → len ≤ length ptr
      → len < 2 ^ 63
      → total_min ≤ len
      → payload_offset ptr ≤ len
      → Post (λ r. IsHandler taken r.1) (process_frame h ptr len)
  unfolding process_frame payload_offset
  process_frame_returns h ptr len v bytes readable small long inside =
      let start = payload_offset ptr in
      bind-Post (λ (eth : Bytes). Unit {0}) _
        (_, load-eq-take (sizeof ethernet_layout) ptr (omega arith), tt)
        λ eth _.
          if-Post _ (ntoh16 (view_ether_type eth) == ether_type_ipv4)
            (λ _.
              bind-Post (λ raw. raw ≡ take (sizeof ipv4_layout) (drop ethernet_size ptr)) _
                (
                  _,
                  load-eq-take (sizeof ipv4_layout) (drop ethernet_size ptr)
                      (omega (arith, length-drop ethernet_size ptr)),
                  refl,
                )
                λ raw same.
                  if-Post _ ((view_ipv4 raw).protocol == ip_proto_udp)
                    (λ _.
                      rw same
                        (process_payload_returns h ptr len start v bytes readable small inside))
                    λ _. (reject h, refl, reject-IsHandler h v))
            λ _. (reject h, refl, reject-IsHandler h v)

  -- The headers of a packet that is not short lie within it.
  pub process_raw_packet_keeps :
      (h : Handler) (ptr : Bytes) (len : ℕ)
      → IsHandler taken h
      → AreBytes ptr
      → len ≤ length ptr
      → len < 2 ^ 63
      → (total_min ≤ len → payload_offset ptr ≤ len)
      → (r : Bool × Handler) × (process_raw_packet h ptr len ≡ some r) × IsHandler taken r.1
  unfolding process_raw_packet
  process_raw_packet_keeps h ptr len v bytes readable small inside =
      if-Post (λ r. IsHandler taken r.1) (ltb len total_min)
        (λ _. (reject h, refl, reject-IsHandler h v))
        λ long.
          process_frame_returns h ptr len v bytes readable small (ltb→le _ _ long)
            (inside (ltb→le _ _ long))

  -- A packet of `len` readable bytes whose headers lie within it is processed without a read past its
  -- end, whatever it holds. The handler stays in order: every message counted as pushed is in the
  -- ring, or was taken from it.
  pub process_raw_packet_returns :
      (h : Handler) (ptr : Bytes) (len : ℕ)
      → IsHandler taken h
      → AreBytes ptr
      → len ≤ length ptr
      → len < 2 ^ 63
      → payload_offset ptr ≤ len
      → (r : Bool × Handler) × (process_raw_packet h ptr len ≡ some r) × IsHandler taken r.1
  process_raw_packet_returns h ptr len v bytes readable small inside =
      process_raw_packet_keeps h ptr len v bytes readable small (λ _. inside)

-- What `process_mbuf` needs of a buffer that it is given, where the packet is not short: it lies whole
-- in its one segment, and the headers lie within it.
abbrev pub IsMbuf : Option Mbuf → Type 0
IsMbuf none = Unit
IsMbuf (some m) =
    total_min ≤ m.pkt_len
    → AreBytes m.buffer
      × (m.data_off + m.pkt_len ≤ length m.buffer)
      × (m.pkt_len < 2 ^ 63)
      × (payload_offset (drop m.data_off m.buffer) ≤ m.pkt_len)

-- A null pointer, a packet below the minimal length whatever its buffer is, or a packet that lies whole
-- in its buffer with its headers within it is processed without a read outside of the buffer, whatever
-- it holds, and the handler stays in order.
pub process_mbuf_returns :
    (taken : ℕ) (h : Handler) (m : Option Mbuf)
    → IsHandler taken h
    → IsMbuf m
    → (r : Bool × Handler) × (process_mbuf h m ≡ some r) × IsHandler taken r.1
unfolding process_mbuf
process_mbuf_returns taken h none v w = (reject h, refl, reject-IsHandler taken h v)
process_mbuf_returns taken h (some m) v w =
    if-Post (λ r. IsHandler taken r.1) (ltb m.pkt_len total_min)
      (λ _. (reject h, refl, reject-IsHandler taken h v))
      λ long.
        let (bytes, readable, small, inside) = w (ltb→le _ _ long) in
        process_frame_returns taken h (drop m.data_off m.buffer) m.pkt_len v
          (All-drop _ m.data_off m.buffer bytes)
          (omega (arith, length-drop m.data_off m.buffer, readable)) small (ltb→le _ _ long) inside

payload_overreads :
    (h : Handler) (ptr : Bytes) (len start : ℕ)
    → length ptr ≡ len
    → len < start
    → start < 2 ^ 32
    → process_payload h ptr len start ≡ none
unfolding process_payload process_packet parse
payload_overreads h ptr len start whole past small = rw (
  le→ltb (sub64 len start) 20 (omega arith),
  load-short 10 (drop start ptr) (omega (arith, length-drop start ptr)),
)

-- An IPv4 and UDP frame, by the fields that the handler tests.
pub record IsUdpFrame (ptr : Bytes) : Type 0 where
  pub ether_type : ntoh16 (view_ether_type (take (sizeof ethernet_layout) ptr)) ≡ ether_type_ipv4
  pub protocol :
      (view_ipv4 (take (sizeof ipv4_layout) (drop ethernet_size ptr))).protocol ≡ ip_proto_udp

-- A UDP frame whose IP header length points past its end is read out of bounds: the payload's
-- length wraps to a huge one, and the session header is read behind the packet. This holds of every
-- handler and every such frame of at least the minimal length.
pub process_raw_packet_overreads :
    (h : Handler) (ptr : Bytes) (len : ℕ)
    → length ptr ≡ len
    → total_min ≤ len
    → IsUdpFrame ptr
    → len < payload_offset ptr
    → process_raw_packet h ptr len ≡ none
unfolding process_raw_packet process_frame payload_offset get_ip_header_length
process_raw_packet_overreads h ptr len whole long udp past =
    rw
      (
        le→ltb len total_min long,
        load-eq-take (sizeof ethernet_layout) ptr (omega arith),
        (==_iff _ _).1 udp.ether_type,
        load-eq-take (sizeof ipv4_layout) (drop ethernet_size ptr)
            (omega (arith, length-drop ethernet_size ptr)),
        (==_iff _ _).1 udp.protocol,
      )
      (payload_overreads h ptr len _ whole past (omega arith))
