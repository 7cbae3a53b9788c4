-- ===== src/Dpdk/Handler/Orders.antt =====
-- `PacketHandler` of include/dpdk/packet_handler.hpp from the frame to the ring: the order messages of
-- a packet as the documents of MoldUDP64 and ITCH write them.
use dpdk_itch5_feedhandler.Prelude.{
  ℕ, ◌+◌, ◌^◌, ◌≤◌, ◌<◌, ◌≡◌, refl, ap, ◌∙◌, List, [], ◌∷◌, ◌++◌, true, Option, none, some, Bytes,
  All, length, drop, drop-append_of_length, length-append, length-drop, load-eq-take, ==_iff,
  le→ltb, inc64, add64, sub64, word64, ◌>>=◌, >>=_assoc, arith,
}
use dpdk_itch5_feedhandler.Common.Types.{NormalizedMessage}
use dpdk_itch5_feedhandler.Spsc.Refine.{Represents}
use dpdk_itch5_feedhandler.Mold.Header.{Header}
use dpdk_itch5_feedhandler.Mold.Session.Blocks.{packet_of, ActsAs, replay}
use dpdk_itch5_feedhandler.Mold.Session.Delivery.{Admits, Announces, process_packet-replay}
use dpdk_itch5_feedhandler.Itch.Layout.{sizeof}
use dpdk_itch5_feedhandler.Itch.Wire.{Order, encode, IsOrder}
use dpdk_itch5_feedhandler.Dpdk.Config.{ethernet_size, total_min, ethernet_layout, ipv4_layout}
use dpdk_itch5_feedhandler.Dpdk.Output.{buffer_capacity}
use dpdk_itch5_feedhandler.Dpdk.Output.Normalized.{normalized, push_normalized}
use dpdk_itch5_feedhandler.Dpdk.Output.Orders.{parse_message-normalized}
use dpdk_itch5_feedhandler.Dpdk.Handler.{
  Handler, Sink, parse_itch_message, finish, process_payload, process_frame, process_raw_packet,
}
use dpdk_itch5_feedhandler.Dpdk.Handler.Safety.{IsUdpFrame, payload_offset}
use dpdk_itch5_feedhandler.Dpdk.Handler.Accept.{
  counted, length-encode, accept, count_all, push_normalized_refines,
}

-- What the session's callback does with an order message.
abbrev act : Order → ℕ → Sink → Option Sink
act o seq sink = push_normalized sink.output (normalized o) >>= λ output.
    some (record { stats = counted o sink.stats; output = output })

parse_itch_message-ActsAs :
    (o : Order) → IsOrder o → ActsAs encode act (λ p n seq sink. parse_itch_message p n sink) o
unfolding parse_itch_message
parse_itch_message-ActsAs o v tail seq sink =
    ap (λ m. m >>= λ r. some (record { stats = r.1; output = r.2 }))
      (parse_message-normalized o tail sink.stats sink.output (length (encode o)) v
        (omega (arith, length-encode o v)))
    ∙ >>=_assoc (push_normalized sink.output (normalized o)) _ _

All-map {ℓ κ ν} :
    {A : Type ℓ} {P : A → Type κ} {Q : A → Type ν} (xs : List A)
    → ((x : A) → P x → Q x)
    → All P xs
    → All Q xs
All-map [] f h = tt
All-map (x ∷ xs) f h = (f x h.0, All-map xs f h.1)

replay_returns :
    (os : List Order) (seq : ℕ) (sink : Sink) (q : List NormalizedMessage)
    → Represents buffer_capacity sink.output.buffer q
    → (sink' : Sink) × (replay act os seq sink ≡ some sink')
      × Represents buffer_capacity sink'.output.buffer (accept q os)
      × (sink'.stats ≡ count_all sink.stats os)
replay_returns [] seq sink q v = (sink, refl, v, refl)
replay_returns (o ∷ os) seq sink q v =
    let (out, e, w) = push_normalized_refines sink.output q (normalized o) v in
    let (s, e', w', c) =
      replay_returns os (inc64 seq) (record { stats = counted o sink.stats; output = out }) _ w in
    (s, rw e e', w', c)

-- What the session's callback is, as `new_handler` sets it.
abbrev pub on_message : Bytes → ℕ → ℕ → Sink → Option Sink
on_message p n seq sink = parse_itch_message p n sink

-- A handler with its callbacks set, whose ring holds `q`.
pub record IsReady (q : List NormalizedMessage) (h : Handler) : Type 0 where
  pub message : h.session.message_callback ≡ some on_message
  pub gap : h.session.gap_callback ≡ none
  pub counter : h.session.messages_received < word64
  pub held : Represents buffer_capacity h.sink.output.buffer q

-- A packet of order messages of the session that the handler follows.
pub record IsFeed (h : Handler) (header : Header) (os : List Order) : Type 0 where
  pub own : Admits h.session header
  pub announced : Announces encode header os
  pub orders : All IsOrder os

-- What has become of the handler `h` after the packet.
pub record Fed (h : Handler) (q : List NormalizedMessage) (header : Header) (os : List Order)
    (r : Handler) : Type 0 where
  pub ready : IsReady (accept q os) r
  pub session : r.session.session_id ≡ header.session
  pub stats : r.sink.stats ≡ count_all h.sink.stats os
  pub processed : r.packets_processed ≡ inc64 h.packets_processed
  pub invalid : r.invalid_packets ≡ h.invalid_packets

process_payload-orders :
    (h : Handler) (header : Header) (os : List Order) (q : List NormalizedMessage)
    (pre rest ptr : Bytes) (len : ℕ)
    → IsReady q h
    → IsFeed h header os
    → ptr ≡ pre ++ (packet_of encode header os ++ rest)
    → len ≡ length pre + length (packet_of encode header os)
    → len < 2 ^ 63
    → (r : Handler) × (process_payload h ptr len (length pre) ≡ some (true, r))
      × Fed h q header os r
unfolding process_payload finish
process_payload-orders h header os q pre rest ptr len v feed e whole small =
    let (sink, replayed, w, c) = replay_returns os header.sequence_number h.sink q v.held in
    let (t, done, n) =
      process_packet-replay encode act on_message header os feed.announced
        (All-map os (λ o. parse_itch_message-ActsAs o) feed.orders) rest h.session.messages_received
        v.counter h.session h.sink sink v.message v.gap refl feed.own replayed in
    (
      record h {
        sink = sink;
        session = t;
        packets_processed = inc64 h.packets_processed;
        bytes_processed = add64 h.bytes_processed len;
      },
      rw (payload, rest_of_frame, done) refl,
      record {
        ready = record {
          message = n.message;
          gap = n.gap;
          counter = omega (arith, n.counted);
          held = w;
        };
        session = n.session;
        stats = c;
        processed = refl;
        invalid = refl;
      },
    )
  where
    payload : drop (length pre) ptr ≡ packet_of encode header os ++ rest
    payload = ap (drop (length pre)) e ∙ drop-append_of_length (length pre) pre _ refl

    rest_of_frame : sub64 len (length pre) ≡ length (packet_of encode header os)
    rest_of_frame = omega (arith, whole)

-- From the frame to the ring. A UDP frame whose payload is a MoldUDP64 packet of order messages, as
-- the documents write them, is accepted: each message that has a normalized one (all but an add order
-- with an MPID and an execution with a price) is pushed in order, or dropped where the ring is full;
-- the parser counts every message, the frame counts as processed, and the
-- handler follows the packet's session and is ready for another.
pub process_raw_packet-orders :
    (h : Handler) (header : Header) (os : List Order) (q : List NormalizedMessage)
    (pre rest ptr : Bytes) (len : ℕ)
    → IsReady q h
    → IsFeed h header os
    → IsUdpFrame ptr
    → payload_offset ptr ≡ length pre
    → ptr ≡ pre ++ (packet_of encode header os ++ rest)
    → len ≡ length pre + length (packet_of encode header os)
    → total_min ≤ len
    → len < 2 ^ 63
    → (r : Handler) × (process_raw_packet h ptr len ≡ some (true, r)) × Fed h q header os r
unfolding process_raw_packet process_frame payload_offset
process_raw_packet-orders h header os q pre rest ptr len v feed udp at e whole long small =
    rw
      (
        le→ltb len total_min long,
        load-eq-take (sizeof ethernet_layout) ptr (omega (arith, readable)),
        (==_iff _ _).1 udp.ether_type,
        load-eq-take (sizeof ipv4_layout) (drop ethernet_size ptr)
            (omega (arith, readable, length-drop ethernet_size ptr)),
        (==_iff _ _).1 udp.protocol,
        at,
      )
      (process_payload-orders h header os q pre rest ptr len v feed e whole small)
  where
    readable : len ≤ length ptr
    readable = omega (
      arith,
      whole,
      ap length e,
      length-append pre (packet_of encode header os ++ rest),
      length-append (packet_of encode header os) rest,
    )
