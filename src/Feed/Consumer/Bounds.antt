-- ===== src/Feed/Consumer/Bounds.antt =====
-- What the consumer of src/feed_handler.hpp finds in the buffer, by the types of its fields.
use dpdk_itch5_feedhandler.Prelude.{ℕ, ◌<◌, ◌≡◌, List, [], some, Bytes, All, length}
use dpdk_itch5_feedhandler.Common.Types.{NormalizedMessage}
use dpdk_itch5_feedhandler.Spsc.Ring.{RingBuffer}
use dpdk_itch5_feedhandler.Spsc.Refine.{Represents}
use dpdk_itch5_feedhandler.Dpdk.Output.{buffer_capacity}
use dpdk_itch5_feedhandler.Dpdk.Output.Bounds.{IsMessage}
use dpdk_itch5_feedhandler.Dpdk.Handler.{Handler, new_handler}
use dpdk_itch5_feedhandler.Dpdk.Handler.Safety.{new_handler-IsHandler}
use dpdk_itch5_feedhandler.Feed.Consumer.{receive}
use dpdk_itch5_feedhandler.Feed.Consumer.Drain.{IsFrame, receive_returns}

-- After a new packet handler has processed any frames, each below the minimal length or with its
-- headers within it, whatever else the frames hold, the buffer is the ring of fewer messages than its capacity, and every number in each
-- of them fits its field's type: a 48-bit timestamp, 64-bit order references, 32-bit quantities,
-- and a scaled price that does not overflow `int64_t`.
pub receive_fits :
    (frames : List (Bytes × ℕ)) (b : RingBuffer NormalizedMessage)
    → Represents buffer_capacity b []
    → All IsFrame frames
    → (h : Handler) × (receive frames (new_handler b) ≡ some h)
      × (q : List NormalizedMessage) × Represents buffer_capacity h.sink.output.buffer q
      × (length q < buffer_capacity)
      × All IsMessage q
receive_fits frames b v fs =
    let (h, e, w) = receive_returns 0 frames (new_handler b) fs (new_handler-IsHandler b v) in
    (h, e, w.sink.0, w.sink.1, w.sink.1.fits, w.sink.3)
