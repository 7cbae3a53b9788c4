-- ===== src/Tests/Main.antt =====
-- A run of the command line.
use dpdk_itch5_feedhandler.Prelude.{
  ℕ, ◌<◌, ◌≡◌, refl, List, [], ◌∷◌, true, not, Option, some, Bytes, length, if◌then◌else◌, arith,
}
use dpdk_itch5_feedhandler.Mold.Session.{is_empty}
use dpdk_itch5_feedhandler.Main.{
  Options, main, apply_option, parse_options, choose_input, runs, itch, pcap, live, default_options,
}
use dpdk_itch5_feedhandler.Common.Endian.Laws.{be}
use dpdk_itch5_feedhandler.Spsc.Refine.{Represents}
use dpdk_itch5_feedhandler.Mold.Session.Blocks.{blocks}
use dpdk_itch5_feedhandler.Itch.Parser.{zero_stats}
use dpdk_itch5_feedhandler.Itch.Wire.{encode}
use dpdk_itch5_feedhandler.Dpdk.Output.{buffer_capacity}
use dpdk_itch5_feedhandler.Dpdk.Handler.Accept.{accept, messages_of, count_all}
use dpdk_itch5_feedhandler.Feed.{FeedHandler}
use dpdk_itch5_feedhandler.Feed.Consumer.{message_buffer}
use dpdk_itch5_feedhandler.Main.Run.Ends.{Ends, run_main, run_main-orders}
use dpdk_itch5_feedhandler.Tests.Orders.{orders, orders-IsOrder}
use dpdk_itch5_feedhandler.Main.Flags.{Says, given, last_argument, main-Says}

-- Two ITCH files, a port and `-s`; a number is read as the length of its text.
abbrev events : List (ℕ × Bytes)
events = (b'i', b'a' ∷ []) ∷ (b'P', b'0' ∷ []) ∷ (b's', []) ∷ (b'i', b'b' ∷ []) ∷ []

abbrev stoi : Bytes → Option ℕ
stoi text = some (length text)

abbrev same : ℕ → ℕ
same n = n

abbrev options : Options ℕ
options = record (default_options same) {
  config = record (default_options same).config { port_id = 1 };
  itch_file = b'b' ∷ [];
  show_stats = true;
  live_mode = true;
}

options_read : main stoi same (default_options same) events ≡ runs (itch (b'b' ∷ [])) options
unfolding main parse_options apply_option choose_input
options_read = refl

main-Says_example :
    Says stoi same (default_options same) events options
    × (itch (b'b' ∷ []) ≡ (
        if not (is_empty (last_argument b'i' [] events))
        then itch (last_argument b'i' [] events)
        else if not (is_empty (last_argument b'p' [] events))
        then pcap (last_argument b'p' [] events)
        else live))
    × (itch (b'b' ∷ []) ≡ live → given b'P' events ≡ true)
main-Says_example = main-Says stoi same same options (itch (b'b' ∷ [])) events options_read

-- The file `b` holds two order messages, and a signal is not waited for.
abbrev read_file : Bytes → Option Bytes
read_file name = some (blocks encode orders)

run_main-orders_example :
    (f : FeedHandler) × Ends options 2 f (run_main stoi same same read_file [] events)
    × Represents buffer_capacity (message_buffer f) (accept [] orders)
    × (f.packet_handler.sink.stats ≡ count_all zero_stats orders)
    × (length (messages_of orders) < buffer_capacity → accept [] orders ≡ messages_of orders)
unfolding be
run_main-orders_example =
    run_main-orders stoi same same read_file [] events options (b'b' ∷ []) orders options_read refl
      orders-IsOrder (omega arith)
