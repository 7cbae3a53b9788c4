-- ===== src/Dpdk/Handler/Accept.antt =====
-- What `PacketHandler` of include/dpdk/packet_handler.hpp does with order messages one after another: the
-- queue that its ring holds, and its parser's statistics.
use dpdk_itch5_feedhandler.Prelude.{
  ◌≤◌, ◌<◌, ◌+◌, refl, sym, ◌∙◌, ◌++◌, append-nil, append_assoc, length-append, lt→ltb, ◌≡◌, ap,
  List, [], ◌∷◌, Bool, Option, none, some, length, inc64, ◌>>=◌, if◌then◌else◌, if_holds, arith,
}
use dpdk_itch5_feedhandler.Common.Types.{NormalizedMessage}
use dpdk_itch5_feedhandler.Spsc.Ring.{RingBuffer}
use dpdk_itch5_feedhandler.Spsc.Queue
use dpdk_itch5_feedhandler.Spsc.Refine.{Represents, try_push_refines}
use dpdk_itch5_feedhandler.Mold.Session.Blocks.{IsShort}
use dpdk_itch5_feedhandler.Itch.Layout.{sizeof}
use dpdk_itch5_feedhandler.Itch.Parser
use dpdk_itch5_feedhandler.Itch.Wire.{Order, encode, fields, layout_of, IsOrder, fields-Fit}
use dpdk_itch5_feedhandler.Itch.Wire.Fields.{length-join}
use dpdk_itch5_feedhandler.Dpdk.Output.{Output, buffer_capacity, push_message}
use dpdk_itch5_feedhandler.Dpdk.Output.Normalized.{normalized, tally, push_normalized}
use dpdk_itch5_feedhandler.Dpdk.Output.Safety.{buffer_capacity-IsCapacity}

-- The parser's statistics after one more message.
abbrev pub counted : Order → Parser.Stats → Parser.Stats
counted o s = record (tally o s) { total_messages = inc64 (tally o s).total_messages }

pub length-encode : (o : Order) → IsOrder o → length (encode o) ≡ sizeof (layout_of o)
length-encode o v = length-join (layout_of o) (fields o) (fields-Fit o v)

pub encode-IsShort : (o : Order) → IsOrder o → IsShort (encode o)
encode-IsShort o v = omega (arith, length-encode o v, sizeof-le o)
  where
    sizeof-le : (o : Order) → sizeof (layout_of o) ≤ 44
    sizeof-le (Order.add h side shares stock price) = omega arith
    sizeof-le _ = omega arith

-- The queue after a message, if there is one, which is dropped where the queue is full.
abbrev pub enqueue : List NormalizedMessage → Option NormalizedMessage → List NormalizedMessage
enqueue q none = q
enqueue q (some msg) = (Queue.push buffer_capacity q msg).1

abbrev keep_some : Option NormalizedMessage → List NormalizedMessage → List NormalizedMessage
keep_some none msgs = msgs
keep_some (some msg) msgs = msg ∷ msgs

-- The normalized messages of the orders that have one, in order.
abbrev pub messages_of : List Order → List NormalizedMessage
messages_of [] = []
messages_of (o ∷ os) = keep_some (normalized o) (messages_of os)

-- The queue after the orders.
abbrev pub accept : List NormalizedMessage → List Order → List NormalizedMessage
accept q [] = q
accept q (o ∷ os) = accept (enqueue q (normalized o)) os

-- The statistics after the messages.
abbrev pub count_all : Parser.Stats → List Order → Parser.Stats
count_all s [] = s
count_all s (o ∷ os) = count_all (counted o s) os

push_message_refines :
    (o : Output) (q : List NormalizedMessage) (msg : NormalizedMessage)
    → Represents buffer_capacity o.buffer q
    → (o' : Output) × (push_message o msg ≡ some o')
      × Represents buffer_capacity o'.buffer (Queue.push buffer_capacity q msg).1
unfolding push_message
push_message_refines o q msg v =
    let (r, e, w) = try_push_refines buffer_capacity o.buffer q msg buffer_capacity-IsCapacity v in
    (
      settle ((Queue.push buffer_capacity q msg).0, r),
      ap (λ m. m >>= λ t. some (settle t)) e,
      if_holds (λ t. Represents buffer_capacity t.buffer (Queue.push buffer_capacity q msg).1)
          (Queue.push buffer_capacity q msg).0
          {x = record o { buffer = r; messages_pushed = inc64 o.messages_pushed }}
          {y = record o { buffer = r; buffer_full_count = inc64 o.buffer_full_count }} w w,
    )
  where
    settle : Bool × RingBuffer NormalizedMessage → Output
    settle t =
        if t.0
        then record o { buffer = t.1; messages_pushed = inc64 o.messages_pushed }
        else record o { buffer = t.1; buffer_full_count = inc64 o.buffer_full_count }

pub push_normalized_refines :
    (o : Output) (q : List NormalizedMessage) (m : Option NormalizedMessage)
    → Represents buffer_capacity o.buffer q
    → (o' : Output) × (push_normalized o m ≡ some o')
      × Represents buffer_capacity o'.buffer (enqueue q m)
push_normalized_refines o q none v = (o, refl, v)
push_normalized_refines o q (some msg) v = push_message_refines o q msg v

pub accept-append :
    (q : List NormalizedMessage) (os os' : List Order)
    → accept q (os ++ os') ≡ accept (accept q os) os'
accept-append q [] os' = refl
accept-append q (o ∷ os) os' = accept-append (enqueue q (normalized o)) os os'

pub count_all-append :
    (s : Parser.Stats) (os os' : List Order)
    → count_all s (os ++ os') ≡ count_all (count_all s os) os'
count_all-append s [] os' = refl
count_all-append s (o ∷ os) os' = count_all-append (counted o s) os os'

-- With room for all of them, the queue has them all, in order.
pub accept-eq-append :
    (q : List NormalizedMessage) (os : List Order)
    → length q + length (messages_of os) < buffer_capacity
    → accept q os ≡ q ++ messages_of os
unfolding Queue.push
accept-eq-append q [] h = sym (append-nil q)
accept-eq-append q (o ∷ os) h = one_more (normalized o) (λ q'. accept-eq-append q' os) h
  where
    one_more :
        (m : Option NormalizedMessage)
        → ((q' : List NormalizedMessage)
            → length q' + length (messages_of os) < buffer_capacity
            → accept q' os ≡ q' ++ messages_of os)
        → length q + length (keep_some m (messages_of os)) < buffer_capacity
        → accept (enqueue q m) os ≡ q ++ keep_some m (messages_of os)
    one_more none rest k = rest q k
    one_more (some msg) rest k =
        rw (enqueue, lt→ltb (length q + 1) buffer_capacity (omega arith))
          (rest (q ++ msg ∷ []) (omega (arith, length-append q (msg ∷ [])))
            ∙ append_assoc q (msg ∷ []) (messages_of os))
