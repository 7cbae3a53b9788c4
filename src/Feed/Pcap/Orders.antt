-- ===== src/Feed/Pcap/Orders.antt =====
-- From a PCAP file to the ring, through src/feed_handler.hpp and all that stands behind it.
use dpdk_itch5_feedhandler.Prelude.{
  ℕ, ◌+◌, ◌<◌, ◌≤◌, ◌≡◌, refl, sym, ap, ◌∙◌, ◌⊎◌, inl, inr, List, [], ◌∷◌, ◌++◌, append-nil, Bool,
  some, Bytes, All, length, length-append, add64, inc64, word64, subst, arith,
}
use dpdk_itch5_feedhandler.Common.Types.{NormalizedMessage}
use dpdk_itch5_feedhandler.Mold.Header.{Header}
use dpdk_itch5_feedhandler.Mold.Session.Blocks.{packet_of}
use dpdk_itch5_feedhandler.Mold.Session.{SessionState}
use dpdk_itch5_feedhandler.Mold.Session.Delivery.{Announces}
use dpdk_itch5_feedhandler.Itch.Wire.{Order, encode, IsOrder}
use dpdk_itch5_feedhandler.Dpdk.Config.{total_min}
use dpdk_itch5_feedhandler.Dpdk.Output.{buffer_capacity}
use dpdk_itch5_feedhandler.Dpdk.Handler.{Handler}
use dpdk_itch5_feedhandler.Dpdk.Handler.Safety.{IsUdpFrame, payload_offset}
use dpdk_itch5_feedhandler.Dpdk.Handler.Accept.{
  accept, messages_of, count_all, accept-append, count_all-append, accept-eq-append,
}
use dpdk_itch5_feedhandler.Dpdk.Handler.Orders.{IsReady, process_raw_packet-orders}
use dpdk_itch5_feedhandler.Feed.Pcap.{process_pcap_file}
use dpdk_itch5_feedhandler.Feed.Pcap.Format.{PcapPacket, IsPcapPacket, pcap_file}
use dpdk_itch5_feedhandler.Feed.Pcap.Frames.{feed_all, process_pcap_file-feed_all}

-- A captured packet with what it carries: the network headers `pre`, and the orders.
pub record Capture : Type 0 where
  pub packet : PcapPacket
  pub pre : Bytes
  pub header : Header
  pub orders : List Order

-- A UDP frame of the session `id` whose payload is the orders as the documents write them.
pub record IsCapture (id : Bytes) (c : Capture) : Type 0 where
  pub packet : IsPcapPacket c.packet
  pub session : c.header.session ≡ id
  pub announced : Announces encode c.header c.orders
  pub orders : All IsOrder c.orders
  pub udp : IsUdpFrame c.packet.frame
  pub offset : payload_offset c.packet.frame ≡ length c.pre
  pub contents : c.packet.frame ≡ c.pre ++ packet_of encode c.header c.orders
  pub long : total_min ≤ length c.packet.frame

abbrev pub packets_of : List Capture → List PcapPacket
packets_of [] = []
packets_of (c ∷ cs) = c.packet ∷ packets_of cs

abbrev pub orders_of : List Capture → List Order
orders_of [] = []
orders_of (c ∷ cs) = c.orders ++ orders_of cs

packets_of-IsPcapPacket :
    (id : Bytes) (cs : List Capture) → All (IsCapture id) cs → All IsPcapPacket (packets_of cs)
packets_of-IsPcapPacket id [] v = tt
packets_of-IsPcapPacket id (c ∷ cs) v = (v.0.packet, packets_of-IsPcapPacket id cs v.1)

feed_all-orders :
    (id : Bytes) (cs : List Capture) (h : Handler) (q : List NormalizedMessage) (processed : ℕ)
    → All (IsCapture id) cs
    → IsReady q h
    → (h.session.state ≡ SessionState.unknown) ⊎ (h.session.session_id ≡ id)
    → processed < word64
    → (r : Handler) × (feed_all h (packets_of cs) processed ≡ some (add64 processed (length cs), r))
      × IsReady (accept q (orders_of cs)) r
      × (r.sink.stats ≡ count_all h.sink.stats (orders_of cs))
feed_all-orders id [] h q processed v ready own p = (h, ap (λ n. some (n, h)) same, ready, refl)
  where
    same : processed ≡ add64 processed 0
    same = omega arith
feed_all-orders id (c ∷ cs) h q processed v ready own p =
    let (h1, done, fed) =
      process_raw_packet-orders h c.header c.orders q c.pre [] c.packet.frame
        (length c.packet.frame) ready
        (record {
          own = elim own [ inl new ↦ inl new | inr same ↦ inr (same ∙ sym v.0.session) ];
          announced = v.0.announced;
          orders = v.0.orders;
        })
        v.0.udp v.0.offset contents size v.0.long (omega (arith, v.0.packet.frame)) in
    let (r, rest, ready', stats) =
      feed_all-orders id cs h1 (accept q c.orders) (inc64 processed) v.1 fed.ready
        (inr (fed.session ∙ v.0.session)) (omega arith) in
    (
      r,
      rw done (rest ∙ ap (λ n. some (n, r)) one_more),
      subst (λ p. IsReady p r) (sym (accept-append q c.orders (orders_of cs))) ready',
      stats
          ∙ ap (λ s. count_all s (orders_of cs)) fed.stats
          ∙ sym (count_all-append h.sink.stats c.orders (orders_of cs)),
    )
  where
    contents : c.packet.frame ≡ c.pre ++ (packet_of encode c.header c.orders ++ [])
    contents =
        v.0.contents ∙ ap (λ p. c.pre ++ p) (sym (append-nil (packet_of encode c.header c.orders)))

    size : length c.packet.frame ≡ length c.pre + length (packet_of encode c.header c.orders)
    size = ap length v.0.contents ∙ length-append c.pre (packet_of encode c.header c.orders)

    one_more : add64 (inc64 processed) (length cs) ≡ add64 processed (length (c ∷ cs))
    one_more = omega arith

-- A recorded PCAP file, in either byte order, of UDP frames that carry the order messages of one
-- session as the documents write them, in packets with any sequence numbers: reading the file accepts
-- every frame, and each message is counted in the parser's statistics. Each message that has a
-- normalized one (all but an add order with an MPID and an execution with a price) is pushed in order,
-- or dropped where the ring is full; with room for all of them, the ring holds exactly them, in order,
-- behind what it held.
pub process_pcap_file-orders :
    (swap_bytes : Bool) (rest id : Bytes) (cs : List Capture) (h : Handler)
    (q : List NormalizedMessage)
    → length rest ≡ 20
    → All (IsCapture id) cs
    → IsReady q h
    → (h.session.state ≡ SessionState.unknown) ⊎ (h.session.session_id ≡ id)
    → length cs < word64
    → (r : Handler) × (process_pcap_file h (some (pcap_file swap_bytes rest (packets_of cs)))
        ≡ some (length cs, r))
      × IsReady (accept q (orders_of cs)) r
      × (r.sink.stats ≡ count_all h.sink.stats (orders_of cs))
      × (length q + length (messages_of (orders_of cs)) < buffer_capacity
          → accept q (orders_of cs) ≡ q ++ messages_of (orders_of cs))
process_pcap_file-orders swap_bytes rest id cs h q size v ready own few =
    let (r, run, ready', stats) = feed_all-orders id cs h q 0 v ready own (omega arith) in
    (
      r,
      process_pcap_file-feed_all swap_bytes rest (packets_of cs) h size
            (packets_of-IsPcapPacket id cs v)
          ∙ run
          ∙ ap (λ n. some (n, r)) number,
      ready',
      stats,
      accept-eq-append q (orders_of cs),
    )
  where
    number : add64 0 (length cs) ≡ length cs
    number = omega arith
