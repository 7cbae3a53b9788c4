-- ===== src/Itch/Callbacks.antt =====
-- The callbacks of `Parser` in include/itch5/parser.hpp and their setters. A callback changes a state
-- `V`, and is `none` where it reads memory that is not there.
use dpdk_itch5_feedhandler.Prelude.{ℕ, Option, none}
use dpdk_itch5_feedhandler.Itch.Messages.Orders.{
  AddOrder, AddOrderMpid, OrderExecuted, OrderExecutedWithPrice,
}
use dpdk_itch5_feedhandler.Itch.Messages.Changes.{OrderCancel, OrderDelete, OrderReplace, Trade}

-- The callbacks of the categories: message, timestamp, and price and quantity where they have them.
pub record Callbacks {ℓ} (V : Type ℓ) : Type ℓ where
  pub add_order : Option (AddOrder → ℕ → ℕ → ℕ → V → Option V)
  pub add_order_mpid : Option (AddOrderMpid → ℕ → ℕ → ℕ → V → Option V)
  pub order_executed : Option (OrderExecuted → ℕ → V → Option V)
  pub order_executed_with_price : Option (OrderExecutedWithPrice → ℕ → ℕ → V → Option V)
  pub order_cancel : Option (OrderCancel → ℕ → V → Option V)
  pub order_delete : Option (OrderDelete → ℕ → V → Option V)
  pub order_replace : Option (OrderReplace → ℕ → ℕ → ℕ → V → Option V)
  pub trade : Option (Trade → ℕ → ℕ → ℕ → V → Option V)

module _ {ℓ} {V : Type ℓ} where
  -- A parser as it is constructed: no callback is set.
  unfoldable pub no_callbacks : Callbacks V
  no_callbacks = record {
    add_order = none;
    add_order_mpid = none;
    order_executed = none;
    order_executed_with_price = none;
    order_cancel = none;
    order_delete = none;
    order_replace = none;
    trade = none;
  }

  unfoldable pub set_add_order_callback :
      Callbacks V → Option (AddOrder → ℕ → ℕ → ℕ → V → Option V) → Callbacks V
  set_add_order_callback cbs cb = record cbs { add_order = cb }

  unfoldable pub set_add_order_mpid_callback :
      Callbacks V → Option (AddOrderMpid → ℕ → ℕ → ℕ → V → Option V) → Callbacks V
  set_add_order_mpid_callback cbs cb = record cbs { add_order_mpid = cb }

  unfoldable pub set_order_executed_callback :
      Callbacks V → Option (OrderExecuted → ℕ → V → Option V) → Callbacks V
  set_order_executed_callback cbs cb = record cbs { order_executed = cb }

  unfoldable pub set_order_executed_with_price_callback :
      Callbacks V → Option (OrderExecutedWithPrice → ℕ → ℕ → V → Option V) → Callbacks V
  set_order_executed_with_price_callback cbs cb = record cbs { order_executed_with_price = cb }

  unfoldable pub set_order_cancel_callback :
      Callbacks V → Option (OrderCancel → ℕ → V → Option V) → Callbacks V
  set_order_cancel_callback cbs cb = record cbs { order_cancel = cb }

  unfoldable pub set_order_delete_callback :
      Callbacks V → Option (OrderDelete → ℕ → V → Option V) → Callbacks V
  set_order_delete_callback cbs cb = record cbs { order_delete = cb }

  unfoldable pub set_order_replace_callback :
      Callbacks V → Option (OrderReplace → ℕ → ℕ → ℕ → V → Option V) → Callbacks V
  set_order_replace_callback cbs cb = record cbs { order_replace = cb }

  unfoldable pub set_trade_callback :
      Callbacks V → Option (Trade → ℕ → ℕ → ℕ → V → Option V) → Callbacks V
  set_trade_callback cbs cb = record cbs { trade = cb }
