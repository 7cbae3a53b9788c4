-- ===== src/Dpdk/Output.antt =====
-- The output side of `PacketHandler` in include/dpdk/packet_handler.hpp: `push_message` and the
-- callbacks that `setup_parser_callbacks` gives the parser.
pub mod Normalized
pub mod Bounds
pub mod Safety
pub mod Parses
pub mod Orders
use dpdk_itch5_feedhandler.Prelude.{ℕ, Option, some, inc64, if◌then◌else◌, ◌>>=◌}
use dpdk_itch5_feedhandler.Common.Types.{NormalizedMessage, MessageType, default_message, side_of}
use dpdk_itch5_feedhandler.Common.Endian.{ntoh32, ntoh64}
use dpdk_itch5_feedhandler.Spsc.Ring.{RingBuffer, try_push}
use dpdk_itch5_feedhandler.Itch.Messages.Orders.{AddOrder, OrderExecuted}
use dpdk_itch5_feedhandler.Itch.Messages.Changes.{OrderCancel, OrderDelete, OrderReplace, Trade}
use dpdk_itch5_feedhandler.Itch.Callbacks.{
  Callbacks, no_callbacks, set_add_order_callback, set_order_executed_callback,
  set_order_delete_callback, set_order_cancel_callback, set_order_replace_callback,
  set_trade_callback,
}

-- `MessageBuffer`'s capacity.
abbrev pub buffer_capacity : ℕ
buffer_capacity = 65536

-- The ring buffer and the two counters of `push_message`.
pub record Output : Type 0 where
  pub buffer : RingBuffer NormalizedMessage
  pub messages_pushed : ℕ
  pub buffer_full_count : ℕ

unfoldable pub push_message : Output → NormalizedMessage → Option Output
push_message o msg = try_push buffer_capacity o.buffer msg >>= λ r. some (
    if r.0
    then record o { buffer = r.1; messages_pushed = inc64 o.messages_pushed }
    else record o { buffer = r.1; buffer_full_count = inc64 o.buffer_full_count })

-- What each callback makes of its message.
unfoldable pub of_add_order : AddOrder → ℕ → ℕ → ℕ → NormalizedMessage
of_add_order msg ts price qty = record default_message {
  type = MessageType.add_order;
  timestamp = ts;
  order_ref = ntoh64 msg.order_reference_number;
  stock = msg.stock;
  side = side_of msg.buy_sell_indicator;
  price = price;
  quantity = qty;
}

unfoldable pub of_order_executed : OrderExecuted → ℕ → NormalizedMessage
of_order_executed msg ts = record default_message {
  type = MessageType.order_executed;
  timestamp = ts;
  order_ref = ntoh64 msg.order_reference_number;
  executed_quantity = ntoh32 msg.executed_shares;
}

unfoldable pub of_order_delete : OrderDelete → ℕ → NormalizedMessage
of_order_delete msg ts = record default_message {
  type = MessageType.order_delete;
  timestamp = ts;
  order_ref = ntoh64 msg.order_reference_number;
}

unfoldable pub of_order_cancel : OrderCancel → ℕ → NormalizedMessage
of_order_cancel msg ts = record default_message {
  type = MessageType.order_cancel;
  timestamp = ts;
  order_ref = ntoh64 msg.order_reference_number;
  quantity = ntoh32 msg.cancelled_shares;
}

unfoldable pub of_order_replace : OrderReplace → ℕ → ℕ → ℕ → NormalizedMessage
of_order_replace msg ts price qty = record default_message {
  type = MessageType.order_replace;
  timestamp = ts;
  order_ref = ntoh64 msg.original_order_reference_number;
  new_order_ref = ntoh64 msg.new_order_reference_number;
  price = price;
  quantity = qty;
}

unfoldable pub of_trade : Trade → ℕ → ℕ → ℕ → NormalizedMessage
of_trade msg ts price qty = record default_message {
  type = MessageType.trade;
  timestamp = ts;
  order_ref = ntoh64 msg.order_reference_number;
  stock = msg.stock;
  side = side_of msg.buy_sell_indicator;
  price = price;
  quantity = qty;
}

-- The MPID and executed-with-price callbacks are left unset.
unfoldable pub setup_parser_callbacks : Callbacks Output
unfolding no_callbacks set_add_order_callback set_order_executed_callback set_order_delete_callback
    set_order_cancel_callback set_order_replace_callback set_trade_callback
setup_parser_callbacks =
    set_trade_callback
      (set_order_replace_callback
        (set_order_cancel_callback
          (set_order_delete_callback
            (set_order_executed_callback
              (set_add_order_callback no_callbacks
                (some (λ msg ts price qty o. push_message o (of_add_order msg ts price qty))))
              (some (λ msg ts o. push_message o (of_order_executed msg ts))))
            (some (λ msg ts o. push_message o (of_order_delete msg ts))))
          (some (λ msg ts o. push_message o (of_order_cancel msg ts))))
        (some (λ msg ts price qty o. push_message o (of_order_replace msg ts price qty))))
      (some (λ msg ts price qty o. push_message o (of_trade msg ts price qty)))
