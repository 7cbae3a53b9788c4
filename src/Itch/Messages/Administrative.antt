-- ===== src/Itch/Messages/Administrative.antt =====
-- The system, stock and market messages of include/itch5/messages.hpp, which are only measured.
use dpdk_itch5_feedhandler.Prelude.{ℕ, [], ◌∷◌, Bytes}
use dpdk_itch5_feedhandler.Itch.Layout.{Layout}

abbrev pub message_header_layout : Layout
message_header_layout = 1 ∷ 2 ∷ 2 ∷ 6 ∷ []

pub record MessageHeader : Type 0 where
  pub message_type : ℕ
  pub stock_locate : ℕ
  pub tracking_number : ℕ
  pub timestamp : Bytes

abbrev pub system_event_layout : Layout
system_event_layout = 1 ∷ 2 ∷ 2 ∷ 6 ∷ 1 ∷ []

pub record SystemEvent : Type 0 where
  pub message_type : ℕ
  pub stock_locate : ℕ
  pub tracking_number : ℕ
  pub timestamp : Bytes
  pub event_code : ℕ

abbrev pub stock_directory_layout : Layout
stock_directory_layout = 1 ∷ 2 ∷ 2 ∷ 6 ∷ 8 ∷ 1 ∷ 1 ∷ 4 ∷ 1 ∷ 1 ∷ 2 ∷ 1 ∷ 1 ∷ 1 ∷ 1 ∷ 1 ∷ 4 ∷ 1 ∷ []

pub record StockDirectory : Type 0 where
  pub message_type : ℕ
  pub stock_locate : ℕ
  pub tracking_number : ℕ
  pub timestamp : Bytes
  pub stock : Bytes
  pub market_category : ℕ
  pub financial_status : ℕ
  pub round_lot_size : ℕ
  pub round_lots_only : ℕ
  pub issue_classification : ℕ
  pub issue_sub_type : Bytes
  pub authenticity : ℕ
  pub short_sale_threshold : ℕ
  pub ipo_flag : ℕ
  pub luld_reference_price_tier : ℕ
  pub etp_flag : ℕ
  pub etp_leverage_factor : ℕ
  pub inverse_indicator : ℕ

abbrev pub stock_trading_action_layout : Layout
stock_trading_action_layout = 1 ∷ 2 ∷ 2 ∷ 6 ∷ 8 ∷ 1 ∷ 1 ∷ 4 ∷ []

pub record StockTradingAction : Type 0 where
  pub message_type : ℕ
  pub stock_locate : ℕ
  pub tracking_number : ℕ
  pub timestamp : Bytes
  pub stock : Bytes
  pub trading_state : ℕ
  pub reserved : ℕ
  pub reason : Bytes

abbrev pub reg_sho_restriction_layout : Layout
reg_sho_restriction_layout = 1 ∷ 2 ∷ 2 ∷ 6 ∷ 8 ∷ 1 ∷ []

pub record RegShoRestriction : Type 0 where
  pub message_type : ℕ
  pub stock_locate : ℕ
  pub tracking_number : ℕ
  pub timestamp : Bytes
  pub stock : Bytes
  pub reg_sho_action : ℕ

abbrev pub market_participant_position_layout : Layout
market_participant_position_layout = 1 ∷ 2 ∷ 2 ∷ 6 ∷ 4 ∷ 8 ∷ 1 ∷ 1 ∷ 1 ∷ []

pub record MarketParticipantPosition : Type 0 where
  pub message_type : ℕ
  pub stock_locate : ℕ
  pub tracking_number : ℕ
  pub timestamp : Bytes
  pub mpid : Bytes
  pub stock : Bytes
  pub primary_market_maker : ℕ
  pub market_maker_mode : ℕ
  pub market_participant_state : ℕ

abbrev pub mwcb_decline_layout : Layout
mwcb_decline_layout = 1 ∷ 2 ∷ 2 ∷ 6 ∷ 8 ∷ 8 ∷ 8 ∷ []

pub record MwcbDecline : Type 0 where
  pub message_type : ℕ
  pub stock_locate : ℕ
  pub tracking_number : ℕ
  pub timestamp : Bytes
  pub level_1 : ℕ
  pub level_2 : ℕ
  pub level_3 : ℕ

abbrev pub mwcb_status_layout : Layout
mwcb_status_layout = 1 ∷ 2 ∷ 2 ∷ 6 ∷ 1 ∷ []

pub record MwcbStatus : Type 0 where
  pub message_type : ℕ
  pub stock_locate : ℕ
  pub tracking_number : ℕ
  pub timestamp : Bytes
  pub breached_level : ℕ

abbrev pub ipo_quoting_period_layout : Layout
ipo_quoting_period_layout = 1 ∷ 2 ∷ 2 ∷ 6 ∷ 8 ∷ 4 ∷ 1 ∷ 4 ∷ []

pub record IpoQuotingPeriod : Type 0 where
  pub message_type : ℕ
  pub stock_locate : ℕ
  pub tracking_number : ℕ
  pub timestamp : Bytes
  pub stock : Bytes
  pub ipo_quotation_release_time : ℕ
  pub ipo_quotation_release_qualifier : ℕ
  pub ipo_price : ℕ

abbrev pub luld_auction_collar_layout : Layout
luld_auction_collar_layout = 1 ∷ 2 ∷ 2 ∷ 6 ∷ 8 ∷ 4 ∷ 4 ∷ 4 ∷ 4 ∷ []

pub record LuldAuctionCollar : Type 0 where
  pub message_type : ℕ
  pub stock_locate : ℕ
  pub tracking_number : ℕ
  pub timestamp : Bytes
  pub stock : Bytes
  pub auction_collar_reference_price : ℕ
  pub upper_auction_collar_price : ℕ
  pub lower_auction_collar_price : ℕ
  pub auction_collar_extension : ℕ

abbrev pub operational_halt_layout : Layout
operational_halt_layout = 1 ∷ 2 ∷ 2 ∷ 6 ∷ 8 ∷ 1 ∷ 1 ∷ []

pub record OperationalHalt : Type 0 where
  pub message_type : ℕ
  pub stock_locate : ℕ
  pub tracking_number : ℕ
  pub timestamp : Bytes
  pub stock : Bytes
  pub market_code : ℕ
  pub operational_halt_action : ℕ
