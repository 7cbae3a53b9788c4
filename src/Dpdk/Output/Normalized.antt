-- ===== src/Dpdk/Output/Normalized.antt =====
-- What `PacketHandler` of include/dpdk/packet_handler.hpp is to make of an order message of the ITCH
-- document.
use dpdk_itch5_feedhandler.Prelude.{◌*◌, Option, none, some, ◌>>=◌, inc64}
use dpdk_itch5_feedhandler.Common.Types.{NormalizedMessage, MessageType, default_message, side_of}
use dpdk_itch5_feedhandler.Itch.Parser.{Stats}
use dpdk_itch5_feedhandler.Itch.Wire.{
  Order, add, add_mpid, executed, executed_with_price, cancel, delete, replace, trade,
}
use dpdk_itch5_feedhandler.Dpdk.Output.{Output, push_message}

-- The message that a consumer is to see, `none` for an add order with an MPID and for an execution
-- with a price: the handler sets no callback for these. Prices have six decimal places, four of them on the wire.
abbrev pub normalized : Order → Option NormalizedMessage
normalized (add h side shares stock price) = some (record default_message {
  type = MessageType.add_order;
  timestamp = h.timestamp;
  order_ref = h.order_ref;
  stock = stock;
  side = side_of side;
  price = price * 100;
  quantity = shares;
})
normalized (add_mpid h side shares stock price attribution) = none
normalized (executed h shares match_number) = some (record default_message {
  type = MessageType.order_executed;
  timestamp = h.timestamp;
  order_ref = h.order_ref;
  executed_quantity = shares;
})
normalized (executed_with_price h shares match_number printable price) = none
normalized (cancel h shares) = some (record default_message {
  type = MessageType.order_cancel;
  timestamp = h.timestamp;
  order_ref = h.order_ref;
  quantity = shares;
})
normalized (delete h) = some (record default_message {
  type = MessageType.order_delete;
  timestamp = h.timestamp;
  order_ref = h.order_ref;
})
normalized (replace h new_ref shares price) = some (record default_message {
  type = MessageType.order_replace;
  timestamp = h.timestamp;
  order_ref = h.order_ref;
  new_order_ref = new_ref;
  price = price * 100;
  quantity = shares;
})
normalized (trade h side shares stock price match_number) = some (record default_message {
  type = MessageType.trade;
  timestamp = h.timestamp;
  order_ref = h.order_ref;
  stock = stock;
  side = side_of side;
  price = price * 100;
  quantity = shares;
})

-- The parser's statistics with the message in its category.
abbrev pub tally : Order → Stats → Stats
tally (add h side shares stock price) s = record s { add_orders = inc64 s.add_orders }
tally (add_mpid h side shares stock price attribution) s = record s {
  add_orders = inc64 s.add_orders;
}
tally (executed h shares match_number) s = record s { order_executed = inc64 s.order_executed }
tally (executed_with_price h shares match_number printable price) s = record s {
  order_executed = inc64 s.order_executed;
}
tally (cancel h shares) s = record s { order_cancelled = inc64 s.order_cancelled }
tally (delete h) s = record s { order_deleted = inc64 s.order_deleted }
tally (replace h new_ref shares price) s = record s { order_replaced = inc64 s.order_replaced }
tally (trade h side shares stock price match_number) s = record s { trades = inc64 s.trades }

-- The message, if there is one, is pushed.
abbrev pub push_normalized : Output → Option NormalizedMessage → Option Output
push_normalized out none = some out
push_normalized out (some msg) = push_message out msg

-- The message is pushed, if there is one, and then what is counted is returned.
abbrev pub push_and_count : Order → Stats → Output → Option (Stats × Output)
push_and_count o s out = push_normalized out (normalized o) >>= λ out'. some (tally o s, out')
