-- ===== src/Itch/Messages/Changes.antt =====
-- The messages of include/itch5/messages.hpp that change and remove orders, and trades. An integer
-- field holds the value that the host, little-endian, loads from the bytes.
use dpdk_itch5_feedhandler.Prelude.{ℕ, [], ◌∷◌, Bytes}
use dpdk_itch5_feedhandler.Itch.Layout.{Layout, text, char, word}

abbrev pub order_cancel_layout : Layout
order_cancel_layout = 1 ∷ 2 ∷ 2 ∷ 6 ∷ 8 ∷ 4 ∷ []

pub record OrderCancel : Type 0 where
  pub message_type : ℕ
  pub stock_locate : ℕ
  pub tracking_number : ℕ
  pub timestamp : Bytes
  pub order_reference_number : ℕ
  pub cancelled_shares : ℕ

unfoldable pub view_order_cancel : Bytes → OrderCancel
unfolding char text word
view_order_cancel p = record {
  message_type = char order_cancel_layout 0 p;
  stock_locate = word order_cancel_layout 1 p;
  tracking_number = word order_cancel_layout 2 p;
  timestamp = text order_cancel_layout 3 p;
  order_reference_number = word order_cancel_layout 4 p;
  cancelled_shares = word order_cancel_layout 5 p;
}

abbrev pub order_delete_layout : Layout
order_delete_layout = 1 ∷ 2 ∷ 2 ∷ 6 ∷ 8 ∷ []

pub record OrderDelete : Type 0 where
  pub message_type : ℕ
  pub stock_locate : ℕ
  pub tracking_number : ℕ
  pub timestamp : Bytes
  pub order_reference_number : ℕ

unfoldable pub view_order_delete : Bytes → OrderDelete
unfolding char text word
view_order_delete p = record {
  message_type = char order_delete_layout 0 p;
  stock_locate = word order_delete_layout 1 p;
  tracking_number = word order_delete_layout 2 p;
  timestamp = text order_delete_layout 3 p;
  order_reference_number = word order_delete_layout 4 p;
}

abbrev pub order_replace_layout : Layout
order_replace_layout = 1 ∷ 2 ∷ 2 ∷ 6 ∷ 8 ∷ 8 ∷ 4 ∷ 4 ∷ []

pub record OrderReplace : Type 0 where
  pub message_type : ℕ
  pub stock_locate : ℕ
  pub tracking_number : ℕ
  pub timestamp : Bytes
  pub original_order_reference_number : ℕ
  pub new_order_reference_number : ℕ
  pub shares : ℕ
  pub price : ℕ

unfoldable pub view_order_replace : Bytes → OrderReplace
unfolding char text word
view_order_replace p = record {
  message_type = char order_replace_layout 0 p;
  stock_locate = word order_replace_layout 1 p;
  tracking_number = word order_replace_layout 2 p;
  timestamp = text order_replace_layout 3 p;
  original_order_reference_number = word order_replace_layout 4 p;
  new_order_reference_number = word order_replace_layout 5 p;
  shares = word order_replace_layout 6 p;
  price = word order_replace_layout 7 p;
}

abbrev pub trade_layout : Layout
trade_layout = 1 ∷ 2 ∷ 2 ∷ 6 ∷ 8 ∷ 1 ∷ 4 ∷ 8 ∷ 4 ∷ 8 ∷ []

pub record Trade : Type 0 where
  pub message_type : ℕ
  pub stock_locate : ℕ
  pub tracking_number : ℕ
  pub timestamp : Bytes
  pub order_reference_number : ℕ
  pub buy_sell_indicator : ℕ
  pub shares : ℕ
  pub stock : Bytes
  pub price : ℕ
  pub match_number : ℕ

unfoldable pub view_trade : Bytes → Trade
unfolding char text word
view_trade p = record {
  message_type = char trade_layout 0 p;
  stock_locate = word trade_layout 1 p;
  tracking_number = word trade_layout 2 p;
  timestamp = text trade_layout 3 p;
  order_reference_number = word trade_layout 4 p;
  buy_sell_indicator = char trade_layout 5 p;
  shares = word trade_layout 6 p;
  stock = text trade_layout 7 p;
  price = word trade_layout 8 p;
  match_number = word trade_layout 9 p;
}
