-- ===== src/Itch/Parser/Counts.antt =====
-- The statistics of `Parser` in include/itch5/parser.hpp add up.
use dpdk_itch5_feedhandler.Prelude.{
  ℕ, ◌+◌, ◌%◌, ◌≡◌, ◌≢◌, false, some, Bytes, ◌==◌, ltb, word64, inc64, get_elem?, if◌then◌else◌,
  inl, inr, Option-cases, arith,
}
use dpdk_itch5_feedhandler.Itch.MsgType
use dpdk_itch5_feedhandler.Itch.Callbacks.{Callbacks}
use dpdk_itch5_feedhandler.Itch.Size.{get_message_size}
use dpdk_itch5_feedhandler.Itch.Parser.{
  Stats, is_other, dispatch, parse_message, parse_add_order, parse_add_order_mpid,
  parse_order_executed, parse_order_executed_with_price, parse_order_cancel, parse_order_delete,
  parse_order_replace, parse_trade,
}

-- The counters of the categories, together.
abbrev pub by_category : Stats → ℕ
by_category s =
    s.add_orders + s.order_executed + s.order_deleted + s.order_cancelled + s.order_replaced
    + s.trades + s.other_messages

-- Every parsed message is in one category, and none is unknown; the counters wrap at 64 bits.
pub record IsBalanced (s : Stats) : Type 0 where
  pub total : s.total_messages ≡ by_category s % word64
  pub no_unknown : s.unknown_messages ≡ 0

-- One message was put into one category.
record Counted (s t : Stats) : Type 0 where
  same_total : t.total_messages ≡ s.total_messages
  one_more : by_category t % word64 ≡ (by_category s + 1) % word64
  same_unknown : t.unknown_messages ≡ s.unknown_messages

module _ {ℓ} {V : Type ℓ} (cbs : Callbacks V) (s : Stats) (msg : Bytes) (v : V) where
  add_order-Counted : {r : Stats × V} → parse_add_order cbs s msg v ≡ some r → Counted s r.0
  unfolding parse_add_order
  add_order-Counted e = ground arith

  add_order_mpid-Counted :
      {r : Stats × V} → parse_add_order_mpid cbs s msg v ≡ some r → Counted s r.0
  unfolding parse_add_order_mpid
  add_order_mpid-Counted e = ground arith

  order_executed-Counted :
      {r : Stats × V} → parse_order_executed cbs s msg v ≡ some r → Counted s r.0
  unfolding parse_order_executed
  order_executed-Counted e = ground arith

  order_executed_with_price-Counted :
      {r : Stats × V} → parse_order_executed_with_price cbs s msg v ≡ some r → Counted s r.0
  unfolding parse_order_executed_with_price
  order_executed_with_price-Counted e = ground arith

  order_cancel-Counted : {r : Stats × V} → parse_order_cancel cbs s msg v ≡ some r → Counted s r.0
  unfolding parse_order_cancel
  order_cancel-Counted e = ground arith

  order_delete-Counted : {r : Stats × V} → parse_order_delete cbs s msg v ≡ some r → Counted s r.0
  unfolding parse_order_delete
  order_delete-Counted e = ground arith

  order_replace-Counted : {r : Stats × V} → parse_order_replace cbs s msg v ≡ some r → Counted s r.0
  unfolding parse_order_replace
  order_replace-Counted e = ground arith

  trade-Counted : {r : Stats × V} → parse_trade cbs s msg v ≡ some r → Counted s r.0
  unfolding parse_trade
  trade-Counted e = ground arith

-- A type that the `switch` names nowhere has no size.
unlisted :
    (t : ℕ)
    → (t == MsgType.add_order) ≡ false
    → (t == MsgType.add_order_mpid) ≡ false
    → (t == MsgType.order_executed) ≡ false
    → (t == MsgType.order_executed_with_price) ≡ false
    → (t == MsgType.order_cancel) ≡ false
    → (t == MsgType.order_delete) ≡ false
    → (t == MsgType.order_replace) ≡ false
    → (t == MsgType.trade) ≡ false
    → is_other t ≡ false
    → get_message_size t ≡ 0
unfolding get_message_size is_other
unlisted t a f e c x d u p o = ground arith

module _ {ℓ} {V : Type ℓ} (cbs : Callbacks V) where
  dispatch-Counted :
      (t : ℕ) (s : Stats) (msg : Bytes) (v : V) {r : Stats × V}
      → get_message_size t ≢ 0
      → dispatch cbs t s msg v ≡ some r
      → Counted s r.0
  unfolding dispatch
  dispatch-Counted t s msg v {r} known e = ground (
    arith,
    add_order-Counted cbs s msg v {r = r},
    add_order_mpid-Counted cbs s msg v {r = r},
    order_executed-Counted cbs s msg v {r = r},
    order_executed_with_price-Counted cbs s msg v {r = r},
    order_cancel-Counted cbs s msg v {r = r},
    order_delete-Counted cbs s msg v {r = r},
    order_replace-Counted cbs s msg v {r = r},
    trade-Counted cbs s msg v {r = r},
    unlisted t,
  )

  -- `parse_message` keeps the statistics balanced, whatever the bytes are.
  pub parse_message-IsBalanced :
      (s : Stats) (ptr : Bytes) (len : ℕ) (v : V) {r : ℕ × Stats × V}
      → parse_message cbs s ptr len v ≡ some r
      → IsBalanced s
      → IsBalanced r.1
  unfolding parse_message
  parse_message-IsBalanced s ptr len v {r} e b = elim (Option-cases (get_elem? ptr 0)) [
    | inl nothing ↦ ground arith
    | inr (t, read) ↦ elim (Option-cases (dispatch cbs t s ptr v)) [
      | inl stop ↦ ground arith
      | inr (d, done) ↦ ground (arith, dispatch-Counted t s ptr v {r = d})
    ]
  ]

  -- The total grows by one exactly when bytes are consumed.
  pub parse_message-total :
      (s : Stats) (ptr : Bytes) (len : ℕ) (v : V) {r : ℕ × Stats × V}
      → parse_message cbs s ptr len v ≡ some r
      → r.1.total_messages ≡ (if ltb 0 r.0 then inc64 s.total_messages else s.total_messages)
  unfolding parse_message
  parse_message-total s ptr len v {r} e = elim (Option-cases (get_elem? ptr 0)) [
    | inl nothing ↦ ground arith
    | inr (t, read) ↦ elim (Option-cases (dispatch cbs t s ptr v)) [
      | inl stop ↦ ground arith
      | inr (d, done) ↦ ground (arith, dispatch-Counted t s ptr v {r = d})
    ]
  ]
