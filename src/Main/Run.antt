-- ===== src/Main/Run.antt =====
-- What src/main.cpp does with its options: the feed handler that it constructs, the input that it
-- processes, and what it returns. `read_file` gives the bytes of a file, `none` where it cannot be
-- opened.
pub mod Ends
use dpdk_itch5_feedhandler.Prelude.{
  ℕ, List, [], ◌∷◌, Bool, true, false, ◌||◌, Option, none, some, Bytes, if◌then◌else◌, ◌>>=◌,
}
use dpdk_itch5_feedhandler.Common.Types.{default_message}
use dpdk_itch5_feedhandler.Spsc.Ring.{new_ring}
use dpdk_itch5_feedhandler.Dpdk.Output.{buffer_capacity}
use dpdk_itch5_feedhandler.Feed.{
  FeedHandler, new_feed_handler, initialize, start, stop, process_itch_file,
}
use dpdk_itch5_feedhandler.Feed.Pcap.{process_pcap_file}
use dpdk_itch5_feedhandler.Feed.Statistics.{Line, print_stats}
use dpdk_itch5_feedhandler.Main.{
  Options, Input, Plan, main, default_options, runs, returns, throws, itch, pcap, live,
}

-- `main` returns after its input, or with a code before it; it ends by an exception; or, live, it still waits for a signal.
pub data Outcome : Type 0 where
  returned : ℕ → ℕ → List (Line × ℕ) → FeedHandler → Outcome
  exited : ℕ → Outcome
  threw : Outcome
  waiting : FeedHandler → Outcome

-- A signal stops the feed handler that `g_feed_handler` points to.
unfoldable pub signal_handler : FeedHandler → FeedHandler
signal_handler f = stop f

-- The end of `main`: the statistics where they are asked for, and the destructor.
unfoldable pub finish_main : {I : Type 0} → Options I → ℕ → FeedHandler → Outcome
finish_main o result f =
    returned 0 result (if o.show_stats || o.verbose then print_stats f else []) (stop f)

-- The `while` loop that sleeps for a second at a time; each element is whether a signal comes then.
unfoldable pub wait_for_signal : {I : Type 0} → Options I → List Bool → FeedHandler → Outcome
wait_for_signal o [] f = if f.running then waiting f else finish_main o 0 f
wait_for_signal o (signal ∷ signals) f =
    if f.running
    then wait_for_signal o signals (if signal then signal_handler f else f)
    else finish_main o 0 f

-- The input that was chosen.
unfoldable pub process_input :
    {I : Type 0}
    → (Bytes → Option Bytes)
    → List Bool
    → Options I
    → Input
    → FeedHandler
    → Option Outcome
process_input read_file signals o (itch itch_file) f =
    process_itch_file f (read_file itch_file) >>= λ r. some (finish_main o r.0 r.1)
process_input read_file signals o (pcap pcap_file) f =
    process_pcap_file f.packet_handler (read_file pcap_file) >>= λ r.
    some (finish_main o r.0 (record f { packet_handler = r.1 }))
process_input read_file signals o live f = some (wait_for_signal o signals (start f))

unfoldable pub run_plan :
    {I : Type 0} → (Bytes → Option Bytes) → List Bool → Plan I → Option Outcome
run_plan read_file signals (returns code) = some (exited code)
run_plan read_file signals throws = some threw
run_plan read_file signals (runs input o) =
    let feed_handler = new_feed_handler (new_ring buffer_capacity default_message) in
    if initialize feed_handler
    then process_input read_file signals o input feed_handler
    else some (exited 1)
