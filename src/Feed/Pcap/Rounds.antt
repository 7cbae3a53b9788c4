-- ===== src/Feed/Pcap/Rounds.antt =====
-- The rounds of the loop in `process_pcap_file` of src/feed_handler.hpp.
use dpdk_itch5_feedhandler.Prelude.{
  ℕ, zero, suc, ◌<◌, ◌≡◌, refl, Bool, Bytes, length, take, drop, length-drop, ltb, ltb→le,
  Bool-cases, Option-cases, inl, inr, arith,
}
use dpdk_itch5_feedhandler.Dpdk.Handler.{Handler, process_raw_packet}
use dpdk_itch5_feedhandler.Feed.Pcap.{included_length, read_packets}

-- The loop's rounds are never what ends it: any two numbers above the length give the same result.
pub read_packets_enough :
    (f g : ℕ) (swap_bytes : Bool) (h : Handler) (stream : Bytes) (processed : ℕ)
    → length stream < f
    → length stream < g
    → read_packets f swap_bytes h stream processed ≡ read_packets g swap_bytes h stream processed
unfolding read_packets
read_packets_enough zero g swap_bytes h stream processed hf hg = absurd (omega arith)
read_packets_enough (suc f) zero swap_bytes h stream processed hf hg = absurd (omega arith)
read_packets_enough (suc f) (suc g) swap_bytes h stream processed hf hg =
    elim (Bool-cases (ltb (length stream) 16)) [
      | inl short ↦ rw short refl
      | inr more ↦
          elim (Bool-cases (ltb (length (drop 16 stream)) (included_length swap_bytes stream))) [
            | inl cut ↦ rw (more, cut) refl
            | inr whole ↦
                (let n = included_length swap_bytes stream in
                  let rest = drop 16 stream in
                  elim (Option-cases (process_raw_packet h (take n rest) n)) [
                    | inl stop ↦ rw (more, whole, stop) refl
                    | inr (r, done) ↦
                        rw (more, whole, done)
                          (read_packets_enough f g swap_bytes r.1 (drop n rest) _
                            (omega
                              (arith, ltb→le _ _ more, length-drop n rest, length-drop 16 stream))
                            (omega
                              (arith, ltb→le _ _ more, length-drop n rest, length-drop 16 stream)))
                  ])
          ]
    ]
