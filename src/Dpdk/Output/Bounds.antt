-- ===== src/Dpdk/Output/Bounds.antt =====
-- The normalized messages that the callbacks of `PacketHandler` in include/dpdk/packet_handler.hpp form:
-- their numbers fit the types of include/common/types.hpp.
use dpdk_itch5_feedhandler.Prelude.{
  ℕ, ◌+◌, ◌<◌, ◌^◌, List, [], ◌∷◌, Bool, length, ltb, All, All-append, if_holds, arith,
}
use dpdk_itch5_feedhandler.Common.Types.{NormalizedMessage}
use dpdk_itch5_feedhandler.Common.Endian.Reads.{ntoh32-lt, ntoh64-lt}
use dpdk_itch5_feedhandler.Spsc.Queue
use dpdk_itch5_feedhandler.Itch.Messages.Orders.{AddOrder, OrderExecuted}
use dpdk_itch5_feedhandler.Itch.Messages.Changes.{OrderCancel, OrderDelete, OrderReplace, Trade}
use dpdk_itch5_feedhandler.Dpdk.Output.{
  buffer_capacity, of_add_order, of_order_executed, of_order_cancel, of_order_delete,
  of_order_replace, of_trade,
}

-- The numbers of a message fit the types of their fields: a 48-bit timestamp in `uint64_t`, and a
-- price that is not negative in `int64_t`.
pub record IsMessage (m : NormalizedMessage) : Type 0 where
  pub timestamp : m.timestamp < 2 ^ 48
  pub order_ref : m.order_ref < 2 ^ 64
  pub price : m.price < 2 ^ 63
  pub quantity : m.quantity < 2 ^ 32
  pub executed_quantity : m.executed_quantity < 2 ^ 32
  pub new_order_ref : m.new_order_ref < 2 ^ 64

pub push-IsMessage :
    (q : List NormalizedMessage) (msg : NormalizedMessage)
    → All IsMessage q
    → IsMessage msg
    → All IsMessage (Queue.push buffer_capacity q msg).1
unfolding Queue.push
push-IsMessage q msg all fits =
    if_holds {A = Bool × List NormalizedMessage} (λ r. All IsMessage r.1)
      (ltb (length q + 1) buffer_capacity) (All-append _ q (msg ∷ []) all (fits, tt)) all

pub of_add_order-IsMessage :
    (m : AddOrder) (ts price qty : ℕ)
    → ts < 2 ^ 48
    → price < 2 ^ 63
    → qty < 2 ^ 32
    → IsMessage (of_add_order m ts price qty)
unfolding of_add_order
of_add_order-IsMessage m ts price qty t p n = record {
  timestamp = t;
  order_ref = ntoh64-lt m.order_reference_number;
  price = p;
  quantity = n;
  executed_quantity = omega arith;
  new_order_ref = omega arith;
}

pub of_order_replace-IsMessage :
    (m : OrderReplace) (ts price qty : ℕ)
    → ts < 2 ^ 48
    → price < 2 ^ 63
    → qty < 2 ^ 32
    → IsMessage (of_order_replace m ts price qty)
unfolding of_order_replace
of_order_replace-IsMessage m ts price qty t p n = record {
  timestamp = t;
  order_ref = ntoh64-lt m.original_order_reference_number;
  price = p;
  quantity = n;
  executed_quantity = omega arith;
  new_order_ref = ntoh64-lt m.new_order_reference_number;
}

pub of_trade-IsMessage :
    (m : Trade) (ts price qty : ℕ)
    → ts < 2 ^ 48
    → price < 2 ^ 63
    → qty < 2 ^ 32
    → IsMessage (of_trade m ts price qty)
unfolding of_trade
of_trade-IsMessage m ts price qty t p n = record {
  timestamp = t;
  order_ref = ntoh64-lt m.order_reference_number;
  price = p;
  quantity = n;
  executed_quantity = omega arith;
  new_order_ref = omega arith;
}

pub of_order_executed-IsMessage :
    (m : OrderExecuted) (ts : ℕ) → ts < 2 ^ 48 → IsMessage (of_order_executed m ts)
unfolding of_order_executed
of_order_executed-IsMessage m ts t = record {
  timestamp = t;
  order_ref = ntoh64-lt m.order_reference_number;
  price = omega arith;
  quantity = omega arith;
  executed_quantity = ntoh32-lt m.executed_shares;
  new_order_ref = omega arith;
}

pub of_order_cancel-IsMessage :
    (m : OrderCancel) (ts : ℕ) → ts < 2 ^ 48 → IsMessage (of_order_cancel m ts)
unfolding of_order_cancel
of_order_cancel-IsMessage m ts t = record {
  timestamp = t;
  order_ref = ntoh64-lt m.order_reference_number;
  price = omega arith;
  quantity = ntoh32-lt m.cancelled_shares;
  executed_quantity = omega arith;
  new_order_ref = omega arith;
}

pub of_order_delete-IsMessage :
    (m : OrderDelete) (ts : ℕ) → ts < 2 ^ 48 → IsMessage (of_order_delete m ts)
unfolding of_order_delete
of_order_delete-IsMessage m ts t = record {
  timestamp = t;
  order_ref = ntoh64-lt m.order_reference_number;
  price = omega arith;
  quantity = omega arith;
  executed_quantity = omega arith;
  new_order_ref = omega arith;
}
