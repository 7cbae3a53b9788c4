-- ===== src/Dpdk/Output/Safety.antt =====
-- The callbacks of `PacketHandler` in include/dpdk/packet_handler.hpp return, and keep the ring in order.
use dpdk_itch5_feedhandler.Prelude.{
  ℕ, ◌+◌, ◌≡◌, refl, List, [], ◌∷◌, Bool, true, false, inc64, if◌then◌else◌, length-append, length,
  Post, bind-Post, All, add64, arith,
}
use dpdk_itch5_feedhandler.Common.Types.{NormalizedMessage}
use dpdk_itch5_feedhandler.Spsc.Ring.{RingBuffer}
use dpdk_itch5_feedhandler.Spsc.Queue
use dpdk_itch5_feedhandler.Spsc.Refine.{IsCapacity, Represents, try_push_refines}
use dpdk_itch5_feedhandler.Itch.Parser.Reads.{KeepCallbacks}
use dpdk_itch5_feedhandler.Dpdk.Output.Bounds.{
  IsMessage, push-IsMessage, of_add_order-IsMessage, of_order_executed-IsMessage,
  of_order_cancel-IsMessage, of_order_delete-IsMessage, of_order_replace-IsMessage,
  of_trade-IsMessage,
}
use dpdk_itch5_feedhandler.Dpdk.Output.{
  Output, buffer_capacity, push_message, setup_parser_callbacks,
}

pub buffer_capacity-IsCapacity : IsCapacity buffer_capacity
buffer_capacity-IsCapacity = record {
  log = 16;
  power = refl;
  positive = omega arith;
  small = omega arith;
}

length-push :
    (q : List NormalizedMessage) (msg : NormalizedMessage)
    → length (Queue.push buffer_capacity q msg).1
      ≡ (if (Queue.push buffer_capacity q msg).0 then length q + 1 else length q)
unfolding Queue.push
length-push q msg = ground (arith, length-append q (msg ∷ []))

-- The output's buffer is the ring of some queue, where `taken` messages were taken from it: what was
-- pushed is these and those in the queue, and their numbers fit their types.
abbrev pub IsOutput : ℕ → Output → Type 0
IsOutput taken o =
    (q : List NormalizedMessage) × Represents buffer_capacity o.buffer q
    × (o.messages_pushed ≡ add64 taken (length q))
    × All IsMessage q

-- Whether a push went in, with the ring after it.
abbrev Pushed : List NormalizedMessage → Bool × RingBuffer NormalizedMessage → Type 0
Pushed q t =
    (p : List NormalizedMessage) × Represents buffer_capacity t.1 p
    × (length p ≡ (if t.0 then length q + 1 else length q))
    × All IsMessage p

settle-IsOutput :
    (taken : ℕ) (o : Output) (q : List NormalizedMessage) (b : Bool)
    (r : RingBuffer NormalizedMessage)
    → o.messages_pushed ≡ add64 taken (length q)
    → Pushed q (b, r)
    → IsOutput taken (
        if b
        then record o { buffer = r; messages_pushed = inc64 o.messages_pushed }
        else record o { buffer = r; buffer_full_count = inc64 o.buffer_full_count })
settle-IsOutput taken o q true r n (p, w, l, fit) = (p, w, omega (arith, n, l), fit)
settle-IsOutput taken o q false r n (p, w, l, fit) = (p, w, omega (arith, n, l), fit)

module _ (taken : ℕ) where
  push_message_returns :
      (o : Output) (msg : NormalizedMessage)
      → IsMessage msg
      → IsOutput taken o
      → Post (IsOutput taken) (push_message o msg)
  unfolding push_message
  push_message_returns o msg fits (q, v, n, all) =
      let (r, e, v') =
        try_push_refines buffer_capacity o.buffer q msg buffer_capacity-IsCapacity v in
      bind-Post (Pushed q) (IsOutput taken)
        (_, e, (_, v', length-push q msg, push-IsMessage q msg all fits))
        λ t w. (_, refl, settle-IsOutput taken o q t.0 t.1 n w)

  pub callbacks_keep : KeepCallbacks (IsOutput taken) setup_parser_callbacks
  unfolding setup_parser_callbacks
  callbacks_keep = record {
    add_order = λ m ts price qty o t p n v.
        push_message_returns o _ (of_add_order-IsMessage m ts price qty t p n) v;
    add_order_mpid = tt;
    order_executed = λ m ts o t v. push_message_returns o _ (of_order_executed-IsMessage m ts t) v;
    order_executed_with_price = tt;
    order_cancel = λ m ts o t v. push_message_returns o _ (of_order_cancel-IsMessage m ts t) v;
    order_delete = λ m ts o t v. push_message_returns o _ (of_order_delete-IsMessage m ts t) v;
    order_replace = λ m ts price qty o t p n v.
        push_message_returns o _ (of_order_replace-IsMessage m ts price qty t p n) v;
    trade = λ m ts price qty o t p n v.
        push_message_returns o _ (of_trade-IsMessage m ts price qty t p n) v;
  }
