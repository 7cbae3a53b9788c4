-- ===== src/Itch/Parser.antt =====
-- `Parser` of include/itch5/parser.hpp. `V` is the state that the callbacks change; a call is
-- `none` where it reads memory that is not there.
pub mod Counts
pub mod Reads
pub mod Safety
use dpdk_itch5_feedhandler.Prelude.{
  ℕ, ◌*◌, Option, none, some, Bytes, load, get_elem?, ltb, ◌==◌, ◌||◌, Bool, if◌then◌else◌, ◌>>=◌,
  inc64,
}
use dpdk_itch5_feedhandler.Common.Types.{NormalizedMessage, MessageType, default_message, side_of}
use dpdk_itch5_feedhandler.Common.Endian.{ntoh32, ntoh64, read_be48}
use dpdk_itch5_feedhandler.Itch.MsgType
use dpdk_itch5_feedhandler.Itch.Callbacks.{Callbacks}
use dpdk_itch5_feedhandler.Itch.Layout.{sizeof}
use dpdk_itch5_feedhandler.Itch.Messages.Orders.{
  AddOrder, view_add_order, add_order_layout, AddOrderMpid, view_add_order_mpid,
  add_order_mpid_layout, OrderExecuted, view_order_executed, order_executed_layout,
  OrderExecutedWithPrice, view_order_executed_with_price, order_executed_with_price_layout,
}
use dpdk_itch5_feedhandler.Itch.Messages.Changes.{
  OrderCancel, view_order_cancel, order_cancel_layout, OrderDelete, view_order_delete,
  order_delete_layout, OrderReplace, view_order_replace, order_replace_layout, Trade, view_trade,
  trade_layout,
}
use dpdk_itch5_feedhandler.Itch.Size.{get_message_size}

pub record Stats : Type 0 where
  pub total_messages : ℕ
  pub add_orders : ℕ
  pub order_executed : ℕ
  pub order_deleted : ℕ
  pub order_cancelled : ℕ
  pub order_replaced : ℕ
  pub trades : ℕ
  pub other_messages : ℕ
  pub unknown_messages : ℕ

abbrev pub zero_stats : Stats
zero_stats = record {
  total_messages = 0;
  add_orders = 0;
  order_executed = 0;
  order_deleted = 0;
  order_cancelled = 0;
  order_replaced = 0;
  trades = 0;
  other_messages = 0;
  unknown_messages = 0;
}

unfoldable pub reset_stats : Stats → Stats
reset_stats s = zero_stats

-- From 4 to 6 decimal places; a 32-bit price times 100 fits `int64_t`.
unfoldable pub convert_price : ℕ → ℕ
convert_price itch_price = itch_price * 100

unfoldable pub normalize_add_order : AddOrder → Option NormalizedMessage
unfolding read_be48 ntoh64 ntoh32 convert_price
normalize_add_order msg = do
  timestamp ← read_be48 msg.timestamp
  some (record default_message {
    type = MessageType.add_order;
    timestamp = timestamp;
    order_ref = ntoh64 msg.order_reference_number;
    stock = msg.stock;
    side = side_of msg.buy_sell_indicator;
    price = convert_price (ntoh32 msg.price);
    quantity = ntoh32 msg.shares;
  })

-- The types that are counted and not processed.
unfoldable pub is_other : ℕ → Bool
is_other t =
    t == MsgType.system_event
    || t == MsgType.stock_directory
    || t == MsgType.stock_trading_action
    || t == MsgType.reg_sho_restriction
    || t == MsgType.market_participant_position
    || t == MsgType.mwcb_decline
    || t == MsgType.mwcb_status
    || t == MsgType.ipo_quoting_period
    || t == MsgType.luld_auction_collar
    || t == MsgType.operational_halt
    || t == MsgType.cross_trade
    || t == MsgType.broken_trade
    || t == MsgType.noii
    || t == MsgType.rpii

module _ {ℓ} {V : Type ℓ} where
  -- The parser's two fields are passed one by one: its callbacks, which no call below changes, and
  -- its statistics.
  unfoldable pub parse_add_order : Callbacks V → Stats → Bytes → V → Option (Stats × V)
  parse_add_order cbs stats msg v =
      let counted = record stats { add_orders = inc64 stats.add_orders } in
      elim cbs.add_order [
        | none ↦ some (counted, v)
        | some cb ↦ load (sizeof add_order_layout) msg >>= λ raw.
            let m = view_add_order raw in
            read_be48 m.timestamp >>= λ ts.
            cb m ts (convert_price (ntoh32 m.price)) (ntoh32 m.shares) v >>= λ v'.
            some (counted, v')
      ]

  unfoldable pub parse_add_order_mpid : Callbacks V → Stats → Bytes → V → Option (Stats × V)
  parse_add_order_mpid cbs stats msg v =
      let counted = record stats { add_orders = inc64 stats.add_orders } in
      elim cbs.add_order_mpid [
        | none ↦ some (counted, v)
        | some cb ↦ load (sizeof add_order_mpid_layout) msg >>= λ raw.
            let m = view_add_order_mpid raw in
            read_be48 m.timestamp >>= λ ts.
            cb m ts (convert_price (ntoh32 m.price)) (ntoh32 m.shares) v >>= λ v'.
            some (counted, v')
      ]

  unfoldable pub parse_order_executed : Callbacks V → Stats → Bytes → V → Option (Stats × V)
  parse_order_executed cbs stats msg v =
      let counted = record stats { order_executed = inc64 stats.order_executed } in
      elim cbs.order_executed [
        | none ↦ some (counted, v)
        | some cb ↦ load (sizeof order_executed_layout) msg >>= λ raw.
            let m = view_order_executed raw in
            read_be48 m.timestamp >>= λ ts. cb m ts v >>= λ v'. some (counted, v')
      ]

  unfoldable pub parse_order_executed_with_price :
      Callbacks V → Stats → Bytes → V → Option (Stats × V)
  parse_order_executed_with_price cbs stats msg v =
      let counted = record stats { order_executed = inc64 stats.order_executed } in
      elim cbs.order_executed_with_price [
        | none ↦ some (counted, v)
        | some cb ↦ load (sizeof order_executed_with_price_layout) msg >>= λ raw.
            let m = view_order_executed_with_price raw in
            read_be48 m.timestamp >>= λ ts.
            cb m ts (convert_price (ntoh32 m.execution_price)) v >>= λ v'. some (counted, v')
      ]

  unfoldable pub parse_order_cancel : Callbacks V → Stats → Bytes → V → Option (Stats × V)
  parse_order_cancel cbs stats msg v =
      let counted = record stats { order_cancelled = inc64 stats.order_cancelled } in
      elim cbs.order_cancel [
        | none ↦ some (counted, v)
        | some cb ↦ load (sizeof order_cancel_layout) msg >>= λ raw.
            let m = view_order_cancel raw in
            read_be48 m.timestamp >>= λ ts. cb m ts v >>= λ v'. some (counted, v')
      ]

  unfoldable pub parse_order_delete : Callbacks V → Stats → Bytes → V → Option (Stats × V)
  parse_order_delete cbs stats msg v =
      let counted = record stats { order_deleted = inc64 stats.order_deleted } in
      elim cbs.order_delete [
        | none ↦ some (counted, v)
        | some cb ↦ load (sizeof order_delete_layout) msg >>= λ raw.
            let m = view_order_delete raw in
            read_be48 m.timestamp >>= λ ts. cb m ts v >>= λ v'. some (counted, v')
      ]

  unfoldable pub parse_order_replace : Callbacks V → Stats → Bytes → V → Option (Stats × V)
  parse_order_replace cbs stats msg v =
      let counted = record stats { order_replaced = inc64 stats.order_replaced } in
      elim cbs.order_replace [
        | none ↦ some (counted, v)
        | some cb ↦ load (sizeof order_replace_layout) msg >>= λ raw.
            let m = view_order_replace raw in
            read_be48 m.timestamp >>= λ ts.
            cb m ts (convert_price (ntoh32 m.price)) (ntoh32 m.shares) v >>= λ v'.
            some (counted, v')
      ]

  unfoldable pub parse_trade : Callbacks V → Stats → Bytes → V → Option (Stats × V)
  parse_trade cbs stats msg v =
      let counted = record stats { trades = inc64 stats.trades } in
      elim cbs.trade [
        | none ↦ some (counted, v)
        | some cb ↦ load (sizeof trade_layout) msg >>= λ raw.
            let m = view_trade raw in
            read_be48 m.timestamp >>= λ ts.
            cb m ts (convert_price (ntoh32 m.price)) (ntoh32 m.shares) v >>= λ v'.
            some (counted, v')
      ]

  -- The `switch` on the type.
  unfoldable pub dispatch : Callbacks V → ℕ → Stats → Bytes → V → Option (Stats × V)
  dispatch cbs msg_type stats msg v =
      if msg_type == MsgType.add_order
      then parse_add_order cbs stats msg v
      else if msg_type == MsgType.add_order_mpid
      then parse_add_order_mpid cbs stats msg v
      else if msg_type == MsgType.order_executed
      then parse_order_executed cbs stats msg v
      else if msg_type == MsgType.order_executed_with_price
      then parse_order_executed_with_price cbs stats msg v
      else if msg_type == MsgType.order_cancel
      then parse_order_cancel cbs stats msg v
      else if msg_type == MsgType.order_delete
      then parse_order_delete cbs stats msg v
      else if msg_type == MsgType.order_replace
      then parse_order_replace cbs stats msg v
      else if msg_type == MsgType.trade
      then parse_trade cbs stats msg v
      else if is_other msg_type
      then some (record stats { other_messages = inc64 stats.other_messages }, v)
      else some (record stats { unknown_messages = inc64 stats.unknown_messages }, v)

  -- The bytes consumed (0 for an unknown or an incomplete message), with the new statistics.
  unfoldable pub parse_message : Callbacks V → Stats → Bytes → ℕ → V → Option (ℕ × Stats × V)
  parse_message cbs stats ptr len v =
      if ltb len 1
      then some (0, stats, v)
      else (get_elem? ptr 0 >>= λ msg_type.
          let expected_size = get_message_size msg_type in
          if expected_size == 0
          then some (0, stats, v)
          else if ltb len expected_size
          then some (0, stats, v)
          else (dispatch cbs msg_type stats ptr v >>= λ r.
              some (expected_size, record r.0 { total_messages = inc64 r.0.total_messages }, r.1)))
