-- ===== src/Common/Types.antt =====
-- include/common/types.hpp. A `char` is its byte; Price is `int64_t`, and only non-negative prices
-- are ever formed, so it is a number below 2 ^ 63.
use dpdk_itch5_feedhandler.Prelude.{ℕ, Bytes, replicate, ◌==◌, if◌then◌else◌}

abbrev pub price_scale : ℕ
price_scale = 1_000_000

pub data Side : Type 0 where
  buy sell : Side

pub data MessageType : Type 0 where
  unknown add_order add_order_mpid order_executed order_executed_with_price : MessageType
  order_cancel order_delete order_replace trade cross_trade broken_trade : MessageType
  system_event stock_directory stock_trading_action reg_sho : MessageType
  market_participant_position mwcb ipo_quoting_period luld operational_halt : MessageType

pub record NormalizedMessage : Type 0 where
  pub type : MessageType
  pub timestamp : ℕ
  pub order_ref : ℕ
  pub stock : Bytes
  pub side : Side
  pub price : ℕ
  pub quantity : ℕ
  pub executed_quantity : ℕ
  pub new_order_ref : ℕ

-- The default constructor.
abbrev pub default_message : NormalizedMessage
default_message = record {
  type = MessageType.unknown;
  timestamp = 0;
  order_ref = 0;
  stock = replicate 8 0;
  side = Side.buy;
  price = 0;
  quantity = 0;
  executed_quantity = 0;
  new_order_ref = 0;
}

-- `cond ? Side::Buy : Side::Sell`, the test being on the byte 'B'.
abbrev pub side_of : ℕ → Side
side_of c = if c == b'B' then Side.buy else Side.sell
