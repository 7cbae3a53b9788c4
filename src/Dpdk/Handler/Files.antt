-- ===== src/Dpdk/Handler/Files.antt =====
-- `process_itch_file_data` of include/dpdk/packet_handler.hpp: the loop over a file's messages.
use dpdk_itch5_feedhandler.Prelude.{
  ℕ, zero, suc, ◌+◌, ◌^◌, ◌≤◌, ◌<◌, ◌≡◌, refl, some, Bytes, AreBytes, length, drop, length-drop,
  All-drop, ltb, ltb→le, ltb→lt, if◌then◌else◌, Post, bind-Post, if-Post, add64, inc64, word64,
  arith,
}
use dpdk_itch5_feedhandler.Common.Endian.Reads.{read_be16-lt}
use dpdk_itch5_feedhandler.Itch.Parser.{parse_message}
use dpdk_itch5_feedhandler.Itch.Parser.Counts.{parse_message-total}
use dpdk_itch5_feedhandler.Itch.Parser.Safety.{parse_message_returns}
use dpdk_itch5_feedhandler.Dpdk.Output.{setup_parser_callbacks}
use dpdk_itch5_feedhandler.Dpdk.Handler.{Handler, process_file_from, process_itch_file_data}
use dpdk_itch5_feedhandler.Dpdk.Output.Safety.{IsOutput, callbacks_keep}
use dpdk_itch5_feedhandler.Dpdk.Handler.Safety.{IsHandler}

-- The parser's count of messages.
abbrev pub total_of : Handler → ℕ
total_of h = h.sink.stats.total_messages

-- The handler stays in order, and the result counts what the parser has counted since `base`.
record Counts (taken base : ℕ) (r : ℕ × Handler) : Type 0 where
  handler : IsHandler taken r.1
  counted : total_of r.1 ≡ add64 base r.0

-- One more message, counted on both sides or on neither.
counted_next :
    (base processed total total' used : ℕ)
    → total ≡ add64 base processed
    → total' ≡ (if ltb 0 used then inc64 total else total)
    → total' ≡ add64 base (if ltb 0 used then inc64 processed else processed)
counted_next base processed total total' used e e' = ground arith

counter_small :
    (processed used : ℕ)
    → processed < word64
    → (if ltb 0 used then inc64 processed else processed) < word64
counter_small processed used p = ground arith

parse-Counts :
    (taken : ℕ) (h : Handler) (p : Bytes) (n base processed : ℕ)
    → n ≤ length p
    → AreBytes p
    → Counts taken base (processed, h)
    → Post
        (λ r. Counts taken base (
          if ltb 0 r.0 then inc64 processed else processed,
          record h { sink = record { stats = r.1; output = r.2 } },
        ))
        (parse_message setup_parser_callbacks h.sink.stats p n h.sink.output)
parse-Counts taken h p n base processed inside bytes c =
    let out =
      parse_message_returns (IsOutput taken) setup_parser_callbacks (callbacks_keep taken)
        h.sink.stats p n h.sink.output c.handler.sink bytes inside in
    (
      out.0,
      out.1,
      record {
        handler = record { message = c.handler.message; gap = c.handler.gap; sink = out.3 };
        counted =
            counted_next base processed _ _ out.0.0 c.counted
              (parse_message-total setup_parser_callbacks h.sink.stats p n h.sink.output out.1);
      },
    )

module _ (taken : ℕ) (ptr : Bytes) (len : ℕ) (bytes : AreBytes ptr) (readable : len ≤ length ptr)
    (small : len < 2 ^ 63) where
  process_file_from_returns :
      (rounds : ℕ) (h : Handler) (offset processed base : ℕ)
      → len < rounds + offset
      → offset ≤ len
      → processed < word64
      → Counts taken base (processed, h)
      → Post (Counts taken base) (process_file_from rounds h ptr len offset processed)
  unfolding process_file_from
  process_file_from_returns zero h offset processed base enough inside p c = absurd (omega arith)
  process_file_from_returns (suc rounds) h offset processed base enough inside p c =
      if-Post _ (ltb (add64 offset 2) len)
        (λ more.
          bind-Post (λ n. n < 2 ^ 16) _
            (read_be16-lt (drop offset ptr) (All-drop _ offset ptr bytes)
              (omega (arith, length-drop offset ptr, ltb→lt _ _ more)))
            λ n below.
              if-Post _ (ltb len (add64 (add64 offset 2) n)) (λ cut. ((processed, h), refl, c))
                λ whole.
                  bind-Post _ (Counts taken base)
                    (parse-Counts taken h (drop (add64 offset 2) ptr) n base processed
                      (omega (
                        arith,
                        length-drop (add64 offset 2) ptr,
                        ltb→lt _ _ more,
                        ltb→le _ _ whole,
                      ))
                      (All-drop _ (add64 offset 2) ptr bytes) c)
                    λ r k.
                      process_file_from_returns rounds _ _ _ base
                        (omega (arith, ltb→lt _ _ more, ltb→le _ _ whole)) (ltb→le _ _ whole)
                        (counter_small processed r.0 p) k)
        λ _. ((processed, h), refl, c)

-- `process_itch_file_data` ends and reads nothing past a file of `len` readable bytes, whatever they
-- are. The handler stays in order, every message counted as pushed being in the ring or taken from it,
-- and the result is the number of messages by which the parser's total has grown.
pub process_itch_file_data_returns :
    (taken : ℕ) (h : Handler) (ptr : Bytes) (len : ℕ)
    → AreBytes ptr
    → len ≤ length ptr
    → len < 2 ^ 63
    → IsHandler taken h
    → total_of h < word64
    → (r : ℕ × Handler) × (process_itch_file_data h ptr len ≡ some r)
      × IsHandler taken r.1
      × (total_of r.1 ≡ add64 (total_of h) r.0)
unfolding process_itch_file_data
process_itch_file_data_returns taken h ptr len bytes readable small v below =
    let out =
      process_file_from_returns taken ptr len bytes readable small (len + 1) h 0 0 (total_of h)
        (omega arith) (omega arith) (omega arith)
        (record { handler = v; counted = omega (arith, below) }) in
    (out.0, out.1, out.2.handler, out.2.counted)
