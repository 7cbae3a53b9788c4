-- ===== src/Itch/Messages/Orders.antt =====
-- The messages of include/itch5/messages.hpp that add and execute orders. An integer field holds
-- the value that the host, little-endian, loads from the bytes.
use dpdk_itch5_feedhandler.Prelude.{ℕ, [], ◌∷◌, Bytes}
use dpdk_itch5_feedhandler.Itch.Layout.{Layout, text, char, word}

abbrev pub add_order_layout : Layout
add_order_layout = 1 ∷ 2 ∷ 2 ∷ 6 ∷ 8 ∷ 1 ∷ 4 ∷ 8 ∷ 4 ∷ []

pub record AddOrder : Type 0 where
  pub message_type : ℕ
  pub stock_locate : ℕ
  pub tracking_number : ℕ
  pub timestamp : Bytes
  pub order_reference_number : ℕ
  pub buy_sell_indicator : ℕ
  pub shares : ℕ
  pub stock : Bytes
  pub price : ℕ

unfoldable pub view_add_order : Bytes → AddOrder
unfolding char text word
view_add_order p = record {
  message_type = char add_order_layout 0 p;
  stock_locate = word add_order_layout 1 p;
  tracking_number = word add_order_layout 2 p;
  timestamp = text add_order_layout 3 p;
  order_reference_number = word add_order_layout 4 p;
  buy_sell_indicator = char add_order_layout 5 p;
  shares = word add_order_layout 6 p;
  stock = text add_order_layout 7 p;
  price = word add_order_layout 8 p;
}

abbrev pub add_order_mpid_layout : Layout
add_order_mpid_layout = 1 ∷ 2 ∷ 2 ∷ 6 ∷ 8 ∷ 1 ∷ 4 ∷ 8 ∷ 4 ∷ 4 ∷ []

pub record AddOrderMpid : Type 0 where
  pub message_type : ℕ
  pub stock_locate : ℕ
  pub tracking_number : ℕ
  pub timestamp : Bytes
  pub order_reference_number : ℕ
  pub buy_sell_indicator : ℕ
  pub shares : ℕ
  pub stock : Bytes
  pub price : ℕ
  pub attribution : Bytes

unfoldable pub view_add_order_mpid : Bytes → AddOrderMpid
unfolding char text word
view_add_order_mpid p = record {
  message_type = char add_order_mpid_layout 0 p;
  stock_locate = word add_order_mpid_layout 1 p;
  tracking_number = word add_order_mpid_layout 2 p;
  timestamp = text add_order_mpid_layout 3 p;
  order_reference_number = word add_order_mpid_layout 4 p;
  buy_sell_indicator = char add_order_mpid_layout 5 p;
  shares = word add_order_mpid_layout 6 p;
  stock = text add_order_mpid_layout 7 p;
  price = word add_order_mpid_layout 8 p;
  attribution = text add_order_mpid_layout 9 p;
}

abbrev pub order_executed_layout : Layout
order_executed_layout = 1 ∷ 2 ∷ 2 ∷ 6 ∷ 8 ∷ 4 ∷ 8 ∷ []

pub record OrderExecuted : Type 0 where
  pub message_type : ℕ
  pub stock_locate : ℕ
  pub tracking_number : ℕ
  pub timestamp : Bytes
  pub order_reference_number : ℕ
  pub executed_shares : ℕ
  pub match_number : ℕ

unfoldable pub view_order_executed : Bytes → OrderExecuted
unfolding char text word
view_order_executed p = record {
  message_type = char order_executed_layout 0 p;
  stock_locate = word order_executed_layout 1 p;
  tracking_number = word order_executed_layout 2 p;
  timestamp = text order_executed_layout 3 p;
  order_reference_number = word order_executed_layout 4 p;
  executed_shares = word order_executed_layout 5 p;
  match_number = word order_executed_layout 6 p;
}

abbrev pub order_executed_with_price_layout : Layout
order_executed_with_price_layout = 1 ∷ 2 ∷ 2 ∷ 6 ∷ 8 ∷ 4 ∷ 8 ∷ 1 ∷ 4 ∷ []

pub record OrderExecutedWithPrice : Type 0 where
  pub message_type : ℕ
  pub stock_locate : ℕ
  pub tracking_number : ℕ
  pub timestamp : Bytes
  pub order_reference_number : ℕ
  pub executed_shares : ℕ
  pub match_number : ℕ
  pub printable : ℕ
  pub execution_price : ℕ

unfoldable pub view_order_executed_with_price : Bytes → OrderExecutedWithPrice
unfolding char text word
view_order_executed_with_price p = record {
  message_type = char order_executed_with_price_layout 0 p;
  stock_locate = word order_executed_with_price_layout 1 p;
  tracking_number = word order_executed_with_price_layout 2 p;
  timestamp = text order_executed_with_price_layout 3 p;
  order_reference_number = word order_executed_with_price_layout 4 p;
  executed_shares = word order_executed_with_price_layout 5 p;
  match_number = word order_executed_with_price_layout 6 p;
  printable = char order_executed_with_price_layout 7 p;
  execution_price = word order_executed_with_price_layout 8 p;
}
