-- ===== src/Itch/Wire.antt =====
-- The order messages as the ITCH 5.0 document describes them, by their contents and their bytes: the
-- fields one behind the other, numbers highest byte first. The structs of include/itch5/messages.hpp
-- are laid over these bytes.
pub mod Fields
use dpdk_itch5_feedhandler.Prelude.{
  ℕ, ◌+◌, ◌^◌, ◌<◌, ◌≡◌, refl, List, [], ◌∷◌, Bytes, length, arith,
}
use dpdk_itch5_feedhandler.Common.Endian.Laws.{be, length-be}
use dpdk_itch5_feedhandler.Itch.Layout.{Layout, join, Fit}
use dpdk_itch5_feedhandler.Itch.MsgType
use dpdk_itch5_feedhandler.Itch.Messages.Orders.{
  add_order_layout, add_order_mpid_layout, order_executed_layout, order_executed_with_price_layout,
}
use dpdk_itch5_feedhandler.Itch.Messages.Changes.{
  order_cancel_layout, order_delete_layout, order_replace_layout, trade_layout,
}

-- What every order message begins with, behind its type.
pub record Head : Type 0 where
  pub stock_locate : ℕ
  pub tracking_number : ℕ
  pub timestamp : ℕ
  pub order_ref : ℕ

pub data Order : Type 0 where
  add : Head → (side shares : ℕ) (stock : Bytes) (price : ℕ) → Order
  add_mpid : Head → (side shares : ℕ) (stock : Bytes) (price : ℕ) (attribution : Bytes) → Order
  executed : Head → (shares match_number : ℕ) → Order
  executed_with_price : Head → (shares match_number printable price : ℕ) → Order
  cancel : Head → (shares : ℕ) → Order
  delete : Head → Order
  replace : Head → (new_ref shares price : ℕ) → Order
  trade : Head → (side shares : ℕ) (stock : Bytes) (price match_number : ℕ) → Order

abbrev pub order_type : Order → ℕ
order_type (add h side shares stock price) = MsgType.add_order
order_type (add_mpid h side shares stock price attribution) = MsgType.add_order_mpid
order_type (executed h shares match_number) = MsgType.order_executed
order_type (executed_with_price h shares match_number printable price) =
    MsgType.order_executed_with_price
order_type (cancel h shares) = MsgType.order_cancel
order_type (delete h) = MsgType.order_delete
order_type (replace h new_ref shares price) = MsgType.order_replace
order_type (trade h side shares stock price match_number) = MsgType.trade

abbrev head_fields : ℕ → Head → List Bytes → List Bytes
head_fields type h rest =
    (type ∷ [])
    ∷ be 2 h.stock_locate
    ∷ be 2 h.tracking_number
    ∷ be 6 h.timestamp
    ∷ be 8 h.order_ref
    ∷ rest

abbrev pub fields : Order → List Bytes
fields (add h side shares stock price) =
    head_fields MsgType.add_order h ((side ∷ []) ∷ be 4 shares ∷ stock ∷ be 4 price ∷ [])
fields (add_mpid h side shares stock price attribution) =
    head_fields MsgType.add_order_mpid h
      ((side ∷ []) ∷ be 4 shares ∷ stock ∷ be 4 price ∷ attribution ∷ [])
fields (executed h shares match_number) =
    head_fields MsgType.order_executed h (be 4 shares ∷ be 8 match_number ∷ [])
fields (executed_with_price h shares match_number printable price) =
    head_fields MsgType.order_executed_with_price h
      (be 4 shares ∷ be 8 match_number ∷ (printable ∷ []) ∷ be 4 price ∷ [])
fields (cancel h shares) = head_fields MsgType.order_cancel h (be 4 shares ∷ [])
fields (delete h) = head_fields MsgType.order_delete h []
fields (replace h new_ref shares price) =
    head_fields MsgType.order_replace h (be 8 new_ref ∷ be 4 shares ∷ be 4 price ∷ [])
fields (trade h side shares stock price match_number) =
    head_fields MsgType.trade h
      ((side ∷ []) ∷ be 4 shares ∷ stock ∷ be 4 price ∷ be 8 match_number ∷ [])

abbrev pub encode : Order → Bytes
encode o = join (fields o)

-- The struct that is laid over the bytes.
abbrev pub layout_of : Order → Layout
layout_of (add h side shares stock price) = add_order_layout
layout_of (add_mpid h side shares stock price attribution) = add_order_mpid_layout
layout_of (executed h shares match_number) = order_executed_layout
layout_of (executed_with_price h shares match_number printable price) =
    order_executed_with_price_layout
layout_of (cancel h shares) = order_cancel_layout
layout_of (delete h) = order_delete_layout
layout_of (replace h new_ref shares price) = order_replace_layout
layout_of (trade h side shares stock price match_number) = trade_layout

abbrev IsHead : Head → Type 0
IsHead h = (h.timestamp < 2 ^ 48) × (h.order_ref < 2 ^ 64)

-- The contents fit their fields.
abbrev pub IsOrder : Order → Type 0
IsOrder (add h side shares stock price) =
    IsHead h × (shares < 2 ^ 32) × (length stock ≡ 8) × (price < 2 ^ 32)
IsOrder (add_mpid h side shares stock price attribution) =
    IsHead h × (shares < 2 ^ 32) × (length stock ≡ 8) × (price < 2 ^ 32) × (length attribution ≡ 4)
IsOrder (executed h shares match_number) = IsHead h × (shares < 2 ^ 32)
IsOrder (executed_with_price h shares match_number printable price) =
    IsHead h × (shares < 2 ^ 32) × (price < 2 ^ 32)
IsOrder (cancel h shares) = IsHead h × (shares < 2 ^ 32)
IsOrder (delete h) = IsHead h
IsOrder (replace h new_ref shares price) =
    IsHead h × (new_ref < 2 ^ 64) × (shares < 2 ^ 32) × (price < 2 ^ 32)
IsOrder (trade h side shares stock price match_number) =
    IsHead h × (shares < 2 ^ 32) × (length stock ≡ 8) × (price < 2 ^ 32)

-- The fields have the widths of the struct.
pub fields-Fit : (o : Order) → IsOrder o → Fit (layout_of o) (fields o)
fields-Fit (add h side shares stock price) v = omega (arith, length-be)
fields-Fit _ v = omega (arith, length-be)
