-- ===== src/Itch/Messages/Auctions.antt =====
-- The cross trade and imbalance messages of include/itch5/messages.hpp, which are only measured.
use dpdk_itch5_feedhandler.Prelude.{ℕ, [], ◌∷◌, Bytes}
use dpdk_itch5_feedhandler.Itch.Layout.{Layout}

abbrev pub cross_trade_layout : Layout
cross_trade_layout = 1 ∷ 2 ∷ 2 ∷ 6 ∷ 8 ∷ 8 ∷ 4 ∷ 8 ∷ 1 ∷ []

pub record CrossTrade : Type 0 where
  pub message_type : ℕ
  pub stock_locate : ℕ
  pub tracking_number : ℕ
  pub timestamp : Bytes
  pub shares : ℕ
  pub stock : Bytes
  pub cross_price : ℕ
  pub match_number : ℕ
  pub cross_type : ℕ

abbrev pub broken_trade_layout : Layout
broken_trade_layout = 1 ∷ 2 ∷ 2 ∷ 6 ∷ 8 ∷ []

pub record BrokenTrade : Type 0 where
  pub message_type : ℕ
  pub stock_locate : ℕ
  pub tracking_number : ℕ
  pub timestamp : Bytes
  pub match_number : ℕ

abbrev pub noii_layout : Layout
noii_layout = 1 ∷ 2 ∷ 2 ∷ 6 ∷ 8 ∷ 8 ∷ 1 ∷ 8 ∷ 4 ∷ 4 ∷ 4 ∷ 1 ∷ 1 ∷ []

pub record Noii : Type 0 where
  pub message_type : ℕ
  pub stock_locate : ℕ
  pub tracking_number : ℕ
  pub timestamp : Bytes
  pub paired_shares : ℕ
  pub imbalance_shares : ℕ
  pub imbalance_direction : ℕ
  pub stock : Bytes
  pub far_price : ℕ
  pub near_price : ℕ
  pub current_reference_price : ℕ
  pub cross_type : ℕ
  pub price_variation_indicator : ℕ

abbrev pub rpii_layout : Layout
rpii_layout = 1 ∷ 2 ∷ 2 ∷ 6 ∷ 8 ∷ 1 ∷ []

pub record Rpii : Type 0 where
  pub message_type : ℕ
  pub stock_locate : ℕ
  pub tracking_number : ℕ
  pub timestamp : Bytes
  pub stock : Bytes
  pub interest_flag : ℕ
