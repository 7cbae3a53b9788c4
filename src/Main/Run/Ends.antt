-- ===== src/Main/Run/Ends.antt =====
-- How a run of src/main.cpp ends, from the arguments to the exit code.
use dpdk_itch5_feedhandler.Prelude.{
  ℕ, ◌^◌, ◌<◌, ◌≡◌, refl, sym, ap, ◌∙◌, subst, List, [], ◌∷◌, append-nil, Bool, true, false, ◌||◌,
  Option, some, Bytes, All, length, if◌then◌else◌, ◌>>=◌, arith,
}
use dpdk_itch5_feedhandler.Common.Types.{default_message}
use dpdk_itch5_feedhandler.Spsc.Ring.{new_ring}
use dpdk_itch5_feedhandler.Spsc.Refine.{Represents, new_ring-Represents}
use dpdk_itch5_feedhandler.Mold.Session.Blocks.{blocks}
use dpdk_itch5_feedhandler.Itch.Parser.{zero_stats}
use dpdk_itch5_feedhandler.Itch.Wire.{Order, encode, IsOrder}
use dpdk_itch5_feedhandler.Dpdk.Output.{buffer_capacity}
use dpdk_itch5_feedhandler.Dpdk.Handler.{new_handler, process_itch_file_data}
use dpdk_itch5_feedhandler.Dpdk.Handler.Accept.{accept, messages_of, count_all, accept-eq-append}
use dpdk_itch5_feedhandler.Dpdk.Handler.Recording.{process_itch_file_data-orders}
use dpdk_itch5_feedhandler.Feed.{
  FeedHandler, new_feed_handler, initialize, start, stop, process_itch_file,
}
use dpdk_itch5_feedhandler.Feed.Consumer.{message_buffer}
use dpdk_itch5_feedhandler.Feed.Statistics.{print_stats}
use dpdk_itch5_feedhandler.Main.{Options, main, default_options, runs, itch, live}
use dpdk_itch5_feedhandler.Main.Run.{
  Outcome, returned, waiting, signal_handler, finish_main, wait_for_signal, process_input, run_plan,
}

abbrev pub new_feed : FeedHandler
new_feed = new_feed_handler (new_ring buffer_capacity default_message)

-- Some signal comes.
abbrev pub signalled : List Bool → Bool
signalled [] = false
signalled (signal ∷ signals) = signal || signalled signals

-- How `main` ends after its input: its result, the statistics where they are asked for, and the
-- feed handler with no thread left.
pub record Ends {I : Type 0} (o : Options I) (result : ℕ) (f : FeedHandler) (out : Option Outcome)
    : Type 0 where
  pub outcome :
      out
      ≡ some (returned 0 result (if o.show_stats || o.verbose then print_stats f else []) (stop f))
  pub running : (stop f).running ≡ false
  pub producer : (stop f).producer_thread ≡ false
  pub consumer : (stop f).consumer_thread ≡ false

finish_main-Ends :
    {I : Type 0} (o : Options I) (result : ℕ) (f : FeedHandler)
    → Ends o result f (some (finish_main o result f))
unfolding finish_main stop
finish_main-Ends o result f = record {
  outcome = refl;
  running = refl;
  producer = refl;
  consumer = refl;
}

stopped_at_once :
    {I : Type 0} (o : Options I) (signals : List Bool) (f : FeedHandler)
    → f.running ≡ false
    → wait_for_signal o signals f ≡ finish_main o 0 f
unfolding wait_for_signal
stopped_at_once o [] f e = rw e refl
stopped_at_once o (signal ∷ signals) f e = rw e refl

wait_for_signal-signalled :
    {I : Type 0} (o : Options I) (signals : List Bool) (f : FeedHandler)
    → f.running ≡ true
    → wait_for_signal o signals f
      ≡ (if signalled signals then finish_main o 0 (stop f) else waiting f)
unfolding wait_for_signal signal_handler stop
wait_for_signal-signalled o [] f e = ap (λ b. if b then waiting f else finish_main o 0 f) e
wait_for_signal-signalled o (true ∷ signals) f e =
    ap (λ b. if b then wait_for_signal o signals (stop f) else finish_main o 0 f) e
    ∙ stopped_at_once o signals (stop f) refl
wait_for_signal-signalled o (false ∷ signals) f e =
    ap (λ b. if b then wait_for_signal o signals f else finish_main o 0 f) e
    ∙ wait_for_signal-signalled o signals f e

module _ {I : Type 0} (stoi : Bytes → Option I) (to_uint16 : I → ℕ) (int : ℕ → I)
    (read_file : Bytes → Option Bytes) (signals : List Bool) where
  -- The whole program, on the options that `getopt_long` returns.
  abbrev pub run_main : List (ℕ × Bytes) → Option Outcome
  run_main events = run_plan read_file signals (main stoi to_uint16 (default_options int) events)

  -- Live capture goes on until a signal comes, and then `main` returns 0 with no thread left.
  pub run_main-live :
      (events : List (ℕ × Bytes)) (o : Options I)
      → main stoi to_uint16 (default_options int) events ≡ runs live o
      → (signalled signals ≡ true → Ends o 0 (stop (start new_feed)) (run_main events))
        × (signalled signals ≡ false → run_main events ≡ some (waiting (start new_feed)))
  unfolding run_plan process_input initialize start new_feed_handler
  run_main-live events o e =
      let ended = wait_for_signal-signalled o signals (start new_feed) refl in
      let planned = ap (run_plan read_file signals) e in
      (
        λ yes.
            subst (Ends o 0 (stop (start new_feed)))
              (sym (
                planned
                ∙ ap some (
                    ended
                    ∙ ap
                        (λ b.
                          if b
                          then finish_main o 0 (stop (start new_feed))
                          else waiting (start new_feed))
                        yes)))
              (finish_main-Ends o 0 (stop (start new_feed))),
        λ no.
            planned
            ∙ ap some (
                ended
                ∙ ap
                    (λ b.
                      if b
                      then finish_main o 0 (stop (start new_feed))
                      else waiting (start new_feed))
                    no),
      )

  -- A run that goes on to an ITCH file of order messages as the document writes them: `main` returns 0
  -- with the number of the messages and no thread left, and each is counted in the parser's
  -- statistics, which are printed if they are asked for. Each message that has a normalized one (all
  -- but an add order with an MPID and an execution with a price) is pushed in order, or dropped where
  -- the ring is full; if it has room for all of them, it holds exactly them, in order.
  pub run_main-orders :
      (events : List (ℕ × Bytes)) (o : Options I) (itch_file : Bytes) (os : List Order)
      → main stoi to_uint16 (default_options int) events ≡ runs (itch itch_file) o
      → read_file itch_file ≡ some (blocks encode os)
      → All IsOrder os
      → length (blocks encode os) < 2 ^ 63
      → (f : FeedHandler) × Ends o (length os) f (run_main events)
        × Represents buffer_capacity (message_buffer f) (accept [] os)
        × (f.packet_handler.sink.stats ≡ count_all zero_stats os)
        × (length (messages_of os) < buffer_capacity → accept [] os ≡ messages_of os)
  unfolding run_plan process_input initialize new_feed_handler process_itch_file new_handler
  run_main-orders events o itch_file os e file v small =
      let (r, run, held, stats) =
        process_itch_file_data-orders (new_feed).packet_handler os [] [] v
          (new_ring-Represents buffer_capacity default_message (omega arith)) small in
      let whole =
        subst
          (λ p.
            process_itch_file_data (new_feed).packet_handler p (length (blocks encode os))
            ≡ some (length os, r))
          (append-nil (blocks encode os)) run in
      let f : FeedHandler = record new_feed { packet_handler = r } in
      let processed : process_itch_file new_feed (some (blocks encode os)) ≡ some (length os, f) =
        ap (λ k. k >>= λ r. some (r.0, record new_feed { packet_handler = r.1 })) whole in
      (
        f,
        subst (Ends o (length os) f)
            (sym (
              ap (run_plan read_file signals) e
              ∙ ap (λ file. process_itch_file new_feed file >>= λ r. some (finish_main o r.0 r.1))
                  file
              ∙ ap (λ k. k >>= λ r. some (finish_main o r.0 r.1)) processed))
            (finish_main-Ends o (length os) f),
        held,
        stats,
        λ room. accept-eq-append [] os (omega (arith, room)),
      )
