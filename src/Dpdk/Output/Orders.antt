-- ===== src/Dpdk/Output/Orders.antt =====
-- What `PacketHandler` of include/dpdk/packet_handler.hpp makes of each order message of the ITCH
-- document.
use dpdk_itch5_feedhandler.Prelude.{
  ℕ, ◌≤◌, ◌<◌, ◌≡◌, refl, ◌++◌, some, Bytes, ◌==◌, ◌>>=◌, >>=_assoc, le→ltb, inc64, get_elem?,
  arith, false,
}
use dpdk_itch5_feedhandler.Itch.Layout.{sizeof}
use dpdk_itch5_feedhandler.Itch.Size.{get_message_size}
use dpdk_itch5_feedhandler.Itch.Parser.{Stats, dispatch, parse_message}
use dpdk_itch5_feedhandler.Itch.Wire.{
  Order, add, add_mpid, executed, executed_with_price, cancel, delete, replace, trade, encode,
  layout_of, order_type, IsOrder,
}
use dpdk_itch5_feedhandler.Dpdk.Output.{Output, setup_parser_callbacks}
use dpdk_itch5_feedhandler.Dpdk.Output.Normalized.{
  normalized, tally, push_normalized, push_and_count,
}
use dpdk_itch5_feedhandler.Dpdk.Output.Parses.{
  parse_add_order_wire, parse_add_order_mpid_wire, parse_order_executed_with_price_wire,
  parse_order_executed_wire, parse_order_cancel_wire, parse_order_delete_wire,
  parse_order_replace_wire, parse_trade_wire,
}

module _ (rest : Bytes) (s : Stats) (out : Output) where
  dispatch_wire :
      (o : Order)
      → IsOrder o
      → dispatch setup_parser_callbacks (order_type o) s (encode o ++ rest) out
        ≡ push_and_count o s out
  unfolding dispatch
  dispatch_wire (add h side shares stock price) v =
      parse_add_order_wire rest s out h side shares stock price v
  dispatch_wire (add_mpid h side shares stock price attribution) v =
      parse_add_order_mpid_wire rest s out h side shares stock price attribution
  dispatch_wire (executed h shares match_number) v =
      parse_order_executed_wire rest s out h shares match_number v
  dispatch_wire (executed_with_price h shares match_number printable price) v =
      parse_order_executed_with_price_wire rest s out h shares match_number printable price
  dispatch_wire (cancel h shares) v = parse_order_cancel_wire rest s out h shares v
  dispatch_wire (delete h) v = parse_order_delete_wire rest s out h v
  dispatch_wire (replace h new_ref shares price) v =
      parse_order_replace_wire rest s out h new_ref shares price v
  dispatch_wire (trade h side shares stock price match_number) v =
      parse_trade_wire rest s out h side shares stock price match_number v

  -- The type byte comes first, and the document's size is that of the struct.
  first_byte : (o : Order) → get_elem? (encode o ++ rest) 0 ≡ some (order_type o)
  first_byte (add h side shares stock price) = refl
  first_byte _ = refl

size_of_order : (o : Order) → get_message_size (order_type o) ≡ sizeof (layout_of o)
unfolding get_message_size
size_of_order (add h side shares stock price) = refl
size_of_order _ = refl

pub layout_positive : (o : Order) → 0 < sizeof (layout_of o)
layout_positive (add h side shares stock price) = omega arith
layout_positive _ = omega arith

-- An order message as the document writes it, with the whole of it given and whatever memory behind
-- it: the parser consumes the message and counts it once in its category. An add order without an
-- MPID, an execution without a price, a cancel, a delete, a replace or a trade is pushed as the
-- normalized message with the document's values, its price scaled from four decimal places to six; for
-- an add order with an MPID (F) or an execution with a price (C) nothing is pushed.
pub parse_message-normalized :
    (o : Order) (rest : Bytes) (s : Stats) (out : Output) (len : ℕ)
    → IsOrder o
    → sizeof (layout_of o) ≤ len
    → parse_message setup_parser_callbacks s (encode o ++ rest) len out ≡ (
        push_normalized out (normalized o) >>= λ out'. some (
          sizeof (layout_of o),
          record (tally o s) { total_messages = inc64 (tally o s).total_messages },
          out',
        ))
unfolding parse_message
parse_message-normalized o rest s out len v whole =
    rw
      (
        le→ltb len 1 (omega (arith, layout_positive o)),
        first_byte rest s out o,
        size_of_order o,
        known,
        le→ltb len (sizeof (layout_of o)) whole,
        dispatch_wire rest s out o v,
      )
      (>>=_assoc (push_normalized out (normalized o)) _ _)
  where
    known : (sizeof (layout_of o) == 0) ≡ false
    known = ground (arith, layout_positive o)
