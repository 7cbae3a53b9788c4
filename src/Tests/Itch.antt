-- ===== src/Tests/Itch.antt =====
-- Runs of the ITCH parser on one message.
use dpdk_itch5_feedhandler.Prelude.{ℕ, ◌≤◌, ◌≡◌, refl, ◌∷◌, some, Bytes, replicate, load, arith}
use dpdk_itch5_feedhandler.Itch.Size.{get_message_size}
use dpdk_itch5_feedhandler.Itch.Size.Table.{documented, size_in, get_message_size-documented}
use dpdk_itch5_feedhandler.Itch.Callbacks.{Callbacks, no_callbacks, set_order_delete_callback}
use dpdk_itch5_feedhandler.Common.Endian.{from_le, read_be48, join48}
use dpdk_itch5_feedhandler.Itch.Layout.{text, field, char, word}
use dpdk_itch5_feedhandler.Itch.Messages.Changes.{view_order_delete}
use dpdk_itch5_feedhandler.Itch.Parser.{
  Stats, zero_stats, parse_message, dispatch, parse_order_delete,
}
use dpdk_itch5_feedhandler.Itch.Parser.Counts.{IsBalanced, parse_message-IsBalanced}
use dpdk_itch5_feedhandler.Itch.Parser.Reads.{KeepCallbacks}
use dpdk_itch5_feedhandler.Itch.Parser.Safety.{consumed, parse_message_returns}

get_message_size-documented_example : get_message_size b'A' ≡ size_in documented b'A'
get_message_size-documented_example = get_message_size-documented b'A'

-- A delete message of 19 bytes, and a callback that marks it.
abbrev delete_message : Bytes
delete_message = b'D' ∷ replicate 18 1

abbrev marking : Callbacks ℕ
marking = set_order_delete_callback no_callbacks (some (λ m ts n. some 1))

abbrev one_delete : Stats
one_delete = record zero_stats { total_messages = 1; order_deleted = 1 }

delete_parsed : parse_message marking zero_stats delete_message 19 0 ≡ some (19, one_delete, 1)
unfolding parse_message dispatch parse_order_delete get_message_size load view_order_delete text
    field char word from_le read_be48 join48 no_callbacks set_order_delete_callback
delete_parsed = refl

parse_message-IsBalanced_example : IsBalanced one_delete
parse_message-IsBalanced_example =
    parse_message-IsBalanced marking zero_stats delete_message 19 0 {r = (19, one_delete, 1)}
      delete_parsed (record { total = refl; no_unknown = refl })

marking-KeepCallbacks : KeepCallbacks (λ n. n ≤ 1) marking
unfolding no_callbacks set_order_delete_callback
marking-KeepCallbacks = record {
  add_order = tt;
  add_order_mpid = tt;
  order_executed = tt;
  order_executed_with_price = tt;
  order_cancel = tt;
  order_delete = λ m ts n b j. (1, refl, omega arith);
  order_replace = tt;
  trade = tt;
}

parse_message_returns_example :
    (r : ℕ × Stats × ℕ) × (parse_message marking zero_stats delete_message 19 0 ≡ some r)
    × (r.0 ≡ consumed delete_message 19)
    × (r.2 ≤ 1)
parse_message_returns_example =
    parse_message_returns (λ n. n ≤ 1) marking marking-KeepCallbacks zero_stats delete_message 19 0
      (omega arith) (omega arith) (omega arith)
