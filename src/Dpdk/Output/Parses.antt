-- ===== src/Dpdk/Output/Parses.antt =====
-- What the parse functions of include/itch5/parser.hpp do with the order messages of the ITCH document
-- under the callbacks of include/dpdk/packet_handler.hpp.
use dpdk_itch5_feedhandler.Prelude.{ℕ, ◌≡◌, refl, ap, ◌∙◌, ◌++◌, some, Bytes, ◌>>=◌}
use dpdk_itch5_feedhandler.Common.Types.{MessageType, default_message, side_of}
use dpdk_itch5_feedhandler.Common.Endian.{ntoh32}
use dpdk_itch5_feedhandler.Itch.Messages.Orders.{
  add_order_layout, view_add_order, order_executed_layout, view_order_executed,
}
use dpdk_itch5_feedhandler.Itch.Messages.Changes.{
  order_cancel_layout, view_order_cancel, order_delete_layout, view_order_delete,
  order_replace_layout, view_order_replace, trade_layout, view_trade,
}
use dpdk_itch5_feedhandler.Itch.Parser.{
  Stats, convert_price, parse_add_order, parse_add_order_mpid, parse_order_executed,
  parse_order_executed_with_price, parse_order_cancel, parse_order_delete, parse_order_replace,
  parse_trade,
}
use dpdk_itch5_feedhandler.Itch.Wire.{
  Head, add, add_mpid, executed, executed_with_price, cancel, delete, replace, trade, fields,
  encode, IsOrder, fields-Fit,
}
use dpdk_itch5_feedhandler.Itch.Wire.Fields.{
  text_wire, char_wire, ntoh32_wire, ntoh64_wire, load_wire,
}
use dpdk_itch5_feedhandler.Dpdk.Output.{
  Output, setup_parser_callbacks, of_add_order, of_order_executed, of_order_delete, of_order_cancel,
  of_order_replace, of_trade,
}
use dpdk_itch5_feedhandler.Dpdk.Output.Normalized.{
  normalized, tally, push_normalized, push_and_count,
}

module _ (rest : Bytes) (s : Stats) (out : Output) where
  pub parse_add_order_wire :
      (h : Head) (side shares : ℕ) (stock : Bytes) (price : ℕ)
      → IsOrder (add h side shares stock price)
      → parse_add_order setup_parser_callbacks s
          (encode (add h side shares stock price) ++ rest)
          out
        ≡ push_and_count (add h side shares stock price) s out
  unfolding parse_add_order setup_parser_callbacks view_add_order of_add_order convert_price
  parse_add_order_wire h side shares stock price v =
      let bs = fields (add h side shares stock price) in
      let fit = fields-Fit (add h side shares stock price) v in
      load_wire add_order_layout bs rest h.timestamp _ fit refl v.0.0
      ∙ ap
          (λ m.
            push_normalized out m >>= λ out'. some (tally (add h side shares stock price) s, out'))
          made
    where
      made :
          some (
            of_add_order
              (view_add_order (encode (add h side shares stock price)))
              h.timestamp
              (convert_price
                (ntoh32 (view_add_order (encode (add h side shares stock price))).price))
              (ntoh32 (view_add_order (encode (add h side shares stock price))).shares))
          ≡ normalized (add h side shares stock price)
      made =
          let bs = fields (add h side shares stock price) in
          let fit = fields-Fit (add h side shares stock price) v in
          λ i. some (record default_message {
            type = MessageType.add_order;
            timestamp = h.timestamp;
            order_ref = (ntoh64_wire add_order_layout bs fit 4 h.order_ref v.0.1 refl) i;
            stock = (text_wire add_order_layout bs fit 7) i;
            side = (ap side_of (char_wire add_order_layout bs fit 5 side refl)) i;
            price = (ap convert_price (ntoh32_wire add_order_layout bs fit 8 price v.3 refl)) i;
            quantity = (ntoh32_wire add_order_layout bs fit 6 shares v.1 refl) i;
          })

  pub parse_order_executed_wire :
      (h : Head) (shares match_number : ℕ)
      → IsOrder (executed h shares match_number)
      → parse_order_executed setup_parser_callbacks s
          (encode (executed h shares match_number) ++ rest)
          out
        ≡ push_and_count (executed h shares match_number) s out
  unfolding parse_order_executed setup_parser_callbacks view_order_executed of_order_executed
  parse_order_executed_wire h shares match_number v =
      let bs = fields (executed h shares match_number) in
      let fit = fields-Fit (executed h shares match_number) v in
      load_wire order_executed_layout bs rest h.timestamp _ fit refl v.0.0
      ∙ ap
          (λ m.
            push_normalized out m >>= λ out'. some (tally (executed h shares match_number) s, out'))
          made
    where
      made :
          some (
            of_order_executed
              (view_order_executed (encode (executed h shares match_number)))
              h.timestamp)
          ≡ normalized (executed h shares match_number)
      made =
          let bs = fields (executed h shares match_number) in
          let fit = fields-Fit (executed h shares match_number) v in
          λ i. some (record default_message {
            type = MessageType.order_executed;
            timestamp = h.timestamp;
            order_ref = (ntoh64_wire order_executed_layout bs fit 4 h.order_ref v.0.1 refl) i;
            executed_quantity = (ntoh32_wire order_executed_layout bs fit 5 shares v.1 refl) i;
          })

  pub parse_order_cancel_wire :
      (h : Head) (shares : ℕ)
      → IsOrder (cancel h shares)
      → parse_order_cancel setup_parser_callbacks s (encode (cancel h shares) ++ rest) out
        ≡ push_and_count (cancel h shares) s out
  unfolding parse_order_cancel setup_parser_callbacks view_order_cancel of_order_cancel
  parse_order_cancel_wire h shares v =
      let bs = fields (cancel h shares) in
      let fit = fields-Fit (cancel h shares) v in
      load_wire order_cancel_layout bs rest h.timestamp _ fit refl v.0.0
      ∙ ap (λ m. push_normalized out m >>= λ out'. some (tally (cancel h shares) s, out')) made
    where
      made :
          some (of_order_cancel (view_order_cancel (encode (cancel h shares))) h.timestamp)
          ≡ normalized (cancel h shares)
      made =
          let bs = fields (cancel h shares) in
          let fit = fields-Fit (cancel h shares) v in
          λ i. some (record default_message {
            type = MessageType.order_cancel;
            timestamp = h.timestamp;
            order_ref = (ntoh64_wire order_cancel_layout bs fit 4 h.order_ref v.0.1 refl) i;
            quantity = (ntoh32_wire order_cancel_layout bs fit 5 shares v.1 refl) i;
          })

  pub parse_order_delete_wire :
      (h : Head)
      → IsOrder (delete h)
      → parse_order_delete setup_parser_callbacks s (encode (delete h) ++ rest) out
        ≡ push_and_count (delete h) s out
  unfolding parse_order_delete setup_parser_callbacks view_order_delete of_order_delete
  parse_order_delete_wire h v =
      let bs = fields (delete h) in
      let fit = fields-Fit (delete h) v in
      load_wire order_delete_layout bs rest h.timestamp _ fit refl v.0
      ∙ ap (λ m. push_normalized out m >>= λ out'. some (tally (delete h) s, out')) made
    where
      made :
          some (of_order_delete (view_order_delete (encode (delete h))) h.timestamp)
          ≡ normalized (delete h)
      made =
          let bs = fields (delete h) in
          let fit = fields-Fit (delete h) v in
          λ i. some (record default_message {
            type = MessageType.order_delete;
            timestamp = h.timestamp;
            order_ref = (ntoh64_wire order_delete_layout bs fit 4 h.order_ref v.1 refl) i;
          })

  pub parse_order_replace_wire :
      (h : Head) (new_ref shares price : ℕ)
      → IsOrder (replace h new_ref shares price)
      → parse_order_replace setup_parser_callbacks s
          (encode (replace h new_ref shares price) ++ rest)
          out
        ≡ push_and_count (replace h new_ref shares price) s out
  unfolding parse_order_replace setup_parser_callbacks view_order_replace of_order_replace
      convert_price
  parse_order_replace_wire h new_ref shares price v =
      let bs = fields (replace h new_ref shares price) in
      let fit = fields-Fit (replace h new_ref shares price) v in
      load_wire order_replace_layout bs rest h.timestamp _ fit refl v.0.0
      ∙ ap
          (λ m.
            push_normalized out m >>= λ out'. some (tally (replace h new_ref shares price) s, out'))
          made
    where
      made :
          some (
            of_order_replace
              (view_order_replace (encode (replace h new_ref shares price)))
              h.timestamp
              (convert_price
                (ntoh32 (view_order_replace (encode (replace h new_ref shares price))).price))
              (ntoh32 (view_order_replace (encode (replace h new_ref shares price))).shares))
          ≡ normalized (replace h new_ref shares price)
      made =
          let bs = fields (replace h new_ref shares price) in
          let fit = fields-Fit (replace h new_ref shares price) v in
          λ i. some (record default_message {
            type = MessageType.order_replace;
            timestamp = h.timestamp;
            order_ref = (ntoh64_wire order_replace_layout bs fit 4 h.order_ref v.0.1 refl) i;
            new_order_ref = (ntoh64_wire order_replace_layout bs fit 5 new_ref v.1 refl) i;
            price = (ap convert_price (ntoh32_wire order_replace_layout bs fit 7 price v.3 refl)) i;
            quantity = (ntoh32_wire order_replace_layout bs fit 6 shares v.2 refl) i;
          })

  pub parse_trade_wire :
      (h : Head) (side shares : ℕ) (stock : Bytes) (price match_number : ℕ)
      → IsOrder (trade h side shares stock price match_number)
      → parse_trade setup_parser_callbacks s
          (encode (trade h side shares stock price match_number) ++ rest)
          out
        ≡ push_and_count (trade h side shares stock price match_number) s out
  unfolding parse_trade setup_parser_callbacks view_trade of_trade convert_price
  parse_trade_wire h side shares stock price match_number v =
      let bs = fields (trade h side shares stock price match_number) in
      let fit = fields-Fit (trade h side shares stock price match_number) v in
      load_wire trade_layout bs rest h.timestamp _ fit refl v.0.0
      ∙ ap
          (λ m. push_normalized out m >>= λ out'.
            some (tally (trade h side shares stock price match_number) s, out'))
          made
    where
      made :
          some (
            of_trade
              (view_trade (encode (trade h side shares stock price match_number)))
              h.timestamp
              (convert_price
                (ntoh32 (view_trade (encode (trade h side shares stock price match_number))).price))
              (ntoh32 (view_trade (encode (trade h side shares stock price match_number))).shares))
          ≡ normalized (trade h side shares stock price match_number)
      made =
          let bs = fields (trade h side shares stock price match_number) in
          let fit = fields-Fit (trade h side shares stock price match_number) v in
          λ i. some (record default_message {
            type = MessageType.trade;
            timestamp = h.timestamp;
            order_ref = (ntoh64_wire trade_layout bs fit 4 h.order_ref v.0.1 refl) i;
            stock = (text_wire trade_layout bs fit 7) i;
            side = (ap side_of (char_wire trade_layout bs fit 5 side refl)) i;
            price = (ap convert_price (ntoh32_wire trade_layout bs fit 8 price v.3 refl)) i;
            quantity = (ntoh32_wire trade_layout bs fit 6 shares v.1 refl) i;
          })

  -- No callback is set for these two.
  pub parse_add_order_mpid_wire :
      (h : Head) (side shares : ℕ) (stock : Bytes) (price : ℕ) (attribution : Bytes)
      → parse_add_order_mpid setup_parser_callbacks s
          (encode (add_mpid h side shares stock price attribution) ++ rest)
          out
        ≡ push_and_count (add_mpid h side shares stock price attribution) s out
  unfolding parse_add_order_mpid setup_parser_callbacks
  parse_add_order_mpid_wire h side shares stock price attribution = refl

  pub parse_order_executed_with_price_wire :
      (h : Head) (shares match_number printable price : ℕ)
      → parse_order_executed_with_price setup_parser_callbacks s
          (encode (executed_with_price h shares match_number printable price) ++ rest)
          out
        ≡ push_and_count (executed_with_price h shares match_number printable price) s out
  unfolding parse_order_executed_with_price setup_parser_callbacks
  parse_order_executed_with_price_wire h shares match_number printable price = refl
