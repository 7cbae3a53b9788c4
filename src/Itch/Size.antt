-- ===== src/Itch/Size.antt =====
-- `get_message_size` of include/itch5/messages.hpp.
pub mod Table
use dpdk_itch5_feedhandler.Prelude.{ℕ, ◌==◌, if◌then◌else◌}
use dpdk_itch5_feedhandler.Itch.MsgType
use dpdk_itch5_feedhandler.Itch.Layout.{sizeof}
use dpdk_itch5_feedhandler.Itch.Messages.Orders.{
  add_order_layout, add_order_mpid_layout, order_executed_layout, order_executed_with_price_layout,
}
use dpdk_itch5_feedhandler.Itch.Messages.Changes.{
  order_cancel_layout, order_delete_layout, order_replace_layout, trade_layout,
}
use dpdk_itch5_feedhandler.Itch.Messages.Administrative.{
  system_event_layout, stock_directory_layout, stock_trading_action_layout,
  reg_sho_restriction_layout, market_participant_position_layout, mwcb_decline_layout,
  mwcb_status_layout, ipo_quoting_period_layout, luld_auction_collar_layout,
  operational_halt_layout,
}
use dpdk_itch5_feedhandler.Itch.Messages.Auctions.{
  cross_trade_layout, broken_trade_layout, noii_layout, rpii_layout,
}

-- 0 for a byte that starts no known message.
unfoldable pub get_message_size : ℕ → ℕ
get_message_size msg_type =
    if msg_type == MsgType.system_event
    then sizeof system_event_layout
    else if msg_type == MsgType.stock_directory
    then sizeof stock_directory_layout
    else if msg_type == MsgType.stock_trading_action
    then sizeof stock_trading_action_layout
    else if msg_type == MsgType.reg_sho_restriction
    then sizeof reg_sho_restriction_layout
    else if msg_type == MsgType.market_participant_position
    then sizeof market_participant_position_layout
    else if msg_type == MsgType.mwcb_decline
    then sizeof mwcb_decline_layout
    else if msg_type == MsgType.mwcb_status
    then sizeof mwcb_status_layout
    else if msg_type == MsgType.ipo_quoting_period
    then sizeof ipo_quoting_period_layout
    else if msg_type == MsgType.luld_auction_collar
    then sizeof luld_auction_collar_layout
    else if msg_type == MsgType.operational_halt
    then sizeof operational_halt_layout
    else if msg_type == MsgType.add_order
    then sizeof add_order_layout
    else if msg_type == MsgType.add_order_mpid
    then sizeof add_order_mpid_layout
    else if msg_type == MsgType.order_executed
    then sizeof order_executed_layout
    else if msg_type == MsgType.order_executed_with_price
    then sizeof order_executed_with_price_layout
    else if msg_type == MsgType.order_cancel
    then sizeof order_cancel_layout
    else if msg_type == MsgType.order_delete
    then sizeof order_delete_layout
    else if msg_type == MsgType.order_replace
    then sizeof order_replace_layout
    else if msg_type == MsgType.trade
    then sizeof trade_layout
    else if msg_type == MsgType.cross_trade
    then sizeof cross_trade_layout
    else if msg_type == MsgType.broken_trade
    then sizeof broken_trade_layout
    else if msg_type == MsgType.noii
    then sizeof noii_layout
    else if msg_type == MsgType.rpii
    then sizeof rpii_layout
    else 0
