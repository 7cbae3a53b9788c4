-- ===== src/Itch/MsgType.antt =====
-- `namespace msg_type` of include/itch5/messages.hpp: the byte that starts each message.
use dpdk_itch5_feedhandler.Prelude.{ℕ}

abbrev pub system_event : ℕ
system_event = b'S'

abbrev pub stock_directory : ℕ
stock_directory = b'R'

abbrev pub stock_trading_action : ℕ
stock_trading_action = b'H'

abbrev pub reg_sho_restriction : ℕ
reg_sho_restriction = b'Y'

abbrev pub market_participant_position : ℕ
market_participant_position = b'L'

abbrev pub mwcb_decline : ℕ
mwcb_decline = b'V'

abbrev pub mwcb_status : ℕ
mwcb_status = b'W'

abbrev pub ipo_quoting_period : ℕ
ipo_quoting_period = b'K'

abbrev pub luld_auction_collar : ℕ
luld_auction_collar = b'J'

abbrev pub operational_halt : ℕ
operational_halt = b'h'

abbrev pub add_order : ℕ
add_order = b'A'

abbrev pub add_order_mpid : ℕ
add_order_mpid = b'F'

abbrev pub order_executed : ℕ
order_executed = b'E'

abbrev pub order_executed_with_price : ℕ
order_executed_with_price = b'C'

abbrev pub order_cancel : ℕ
order_cancel = b'X'

abbrev pub order_delete : ℕ
order_delete = b'D'

abbrev pub order_replace : ℕ
order_replace = b'U'

abbrev pub trade : ℕ
trade = b'P'

abbrev pub cross_trade : ℕ
cross_trade = b'Q'

abbrev pub broken_trade : ℕ
broken_trade = b'B'

abbrev pub noii : ℕ
noii = b'I'

abbrev pub rpii : ℕ
rpii = b'N'
