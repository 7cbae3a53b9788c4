-- ===== src/Tests/Mold.antt =====
-- Runs of a MoldUDP64 session on a packet that jumps ahead.
use dpdk_itch5_feedhandler.Prelude.{
  ℕ, ◌≤◌, ◌≡◌, refl, sym, ◌∙◌, [], ◌∷◌, ◌++◌, Bool, true, false, not, ◌&&◌, ◌||◌, Option, none,
  some, Bytes, replicate, leb, ltb, subst, some-inj, inl, arith, load,
}
use dpdk_itch5_feedhandler.Common.Endian.{
  read_be16, read_be64, ntoh16, ntoh64, swap16, swap64, swap_bytes, to_le, from_le, from_be,
}
use dpdk_itch5_feedhandler.Mold.Header.{
  Header, parse, read_message_length, is_heartbeat, is_end_of_session,
}
use dpdk_itch5_feedhandler.Mold.Gap.{Gap, fill_gap, nonempty, keep, check_gap_fill}
use dpdk_itch5_feedhandler.Mold.Gap.Missing.{
  missing, in_range, missing-check_gap_fill, check_gap_fill-Inside,
}
use dpdk_itch5_feedhandler.Mold.Session.{
  Session, SessionState, new_session, set_gap_callback, set_message_callback, process_packet,
  process_retransmission, process_parsed, process_header, check_session_id, check_gaps, notify_gap,
  deliver_messages, deliver_or_count, process_messages, advance, redeliver_messages,
  reprocess_messages,
}
use dpdk_itch5_feedhandler.Mold.Session.Agreement.{Fits}
use dpdk_itch5_feedhandler.Mold.Session.Invariant.{
  IsSession, FitsPacket, process_packet-IsSession, process_retransmission-IsSession,
}
use dpdk_itch5_feedhandler.Mold.Session.Tracking.{carries}
use dpdk_itch5_feedhandler.Mold.Session.Coverage.{announces}
use dpdk_itch5_feedhandler.Mold.Session.History.{
  Run, begin, packet, heard, process_packet-missing, Run-covered,
}
use dpdk_itch5_feedhandler.Mold.Session.Safety.{Wired, process_packet_returns}

abbrev id : Bytes
id = replicate 10 b'S'

-- Message 5, one byte long, in a packet of 23 bytes.
abbrev fifth : Bytes
fifth = id ++ (replicate 7 0 ++ 5 ∷ 0 ∷ 1 ∷ 0 ∷ 1 ∷ 120 ∷ [])

abbrev fifth_header : Header
fifth_header = record { session = id; sequence_number = 5; message_count = 1 }

fifth_parsed : parse fifth 23 ≡ some (some fifth_header)
unfolding parse load read_be16 read_be64 ntoh16 ntoh64 swap16 swap64 swap_bytes to_le from_le
    from_be
fifth_parsed = refl

-- A message callback that marks that it was called.
abbrev mark : Option (Bytes → ℕ → ℕ → ℕ → Option ℕ)
mark = some (λ p n seq w. some 1)

abbrev begun : Session ℕ
begun = record {
  session_id = id;
  expected_sequence = 1;
  state = SessionState.unknown;
  pending_gaps = [];
  packets_received = 0;
  messages_received = 0;
  gaps_detected = 0;
  heartbeats_received = 0;
  gap_callback = none;
  message_callback = mark;
}

-- The session after message 5: 1 to 4 are missing.
abbrev jumped : Session ℕ
jumped = record begun {
  expected_sequence = 6;
  state = SessionState.stale;
  pending_gaps = record { start = 1; end = 4; detected_at_ns = 0 } ∷ [];
  packets_received = 1;
  messages_received = 1;
  gaps_detected = 1;
}

jump : process_packet begun fifth 23 0 ≡ some (true, jumped, 1)
unfolding parse load read_be16 read_be64 ntoh16 ntoh64 swap16 swap64 swap_bytes to_le from_le
    from_be process_packet process_parsed check_session_id process_header is_heartbeat
    is_end_of_session check_gaps notify_gap process_messages deliver_or_count deliver_messages
    read_message_length advance
jump = refl

fifth-FitsPacket : FitsPacket fifth 23
fifth-FitsPacket h p c =
    subst Fits (some-inj (some-inj (sym fifth_parsed ∙ p)))
      (record { first = omega arith; last = omega arith })

begun-IsSession : IsSession begun
begun-IsSession = record { ordered = omega arith; bounded = omega arith; agrees = refl }

process_packet-IsSession_example : IsSession jumped
process_packet-IsSession_example =
    process_packet-IsSession begun fifth 23 0 {r = (true, jumped, 1)} fifth-FitsPacket jump
      begun-IsSession

fifth-carries : carries fifth_header ≡ true
unfolding is_heartbeat is_end_of_session
fifth-carries = refl

process_packet-missing_example :
    missing 3 jumped.pending_gaps
    ≡ ((missing 3 begun.pending_gaps || leb 1 3 && ltb 3 5) && not (announces fifth_header 3))
process_packet-missing_example =
    process_packet-missing begun fifth 23 0 1 fifth_header jumped 3 begun-IsSession fifth_parsed
      fifth-carries (record { first = omega arith; last = omega arith }) tt jump

jump-Run : Run (λ x. false || heard true (parse fifth 23) x) jumped
jump-Run =
    packet {s = set_message_callback (set_gap_callback (new_session id) none) mark} {r = jumped}
      fifth 23 0 1 true (begin id none mark) fifth-FitsPacket
      (unfold set_message_callback set_gap_callback new_session in jump)

Run-covered_example :
    (missing 3 jumped.pending_gaps || (false || heard true (parse fifth 23) 3)) ≡ true
Run-covered_example = Run-covered jump-Run 3 (omega arith) (omega arith)

-- Message 1 again, two bytes of length and one of text.
abbrev first_message : Bytes
first_message = 0 ∷ 1 ∷ 120 ∷ []

abbrev refilled : Session ℕ
refilled = record jumped { pending_gaps = record { start = 2; end = 4; detected_at_ns = 0 } ∷ [] }

refill : process_retransmission jumped 1 first_message 3 1 1 ≡ some (refilled, 1)
unfolding process_retransmission reprocess_messages redeliver_messages read_message_length read_be16
    load ntoh16 swap16 swap_bytes to_le from_le from_be check_gap_fill fill_gap nonempty keep
refill = refl

process_retransmission-IsSession_example : IsSession refilled
process_retransmission-IsSession_example =
    process_retransmission-IsSession jumped 1 first_message 3 1 1 {r = (refilled, 1)} (omega arith)
      refill process_packet-IsSession_example

process_packet_returns_example :
    (r : Bool × Session ℕ × ℕ) × (process_packet begun fifth 23 0 ≡ some r)
    × (Wired begun r.1 × (r.2 ≤ 1))
process_packet_returns_example =
    process_packet_returns (λ n. n ≤ 1) fifth 23 (omega arith) (omega arith) (omega arith) begun 0
      (λ p n seq w fits bytes j. (1, refl, omega arith)) tt (omega arith)

abbrev gap_1_4 : Gap
gap_1_4 = record { start = 1; end = 4; detected_at_ns = 0 }

missing-check_gap_fill_example :
    missing 2 (check_gap_fill 1 2 (gap_1_4 ∷ []))
    ≡ (missing 2 (gap_1_4 ∷ []) && not (in_range 1 2 2))
missing-check_gap_fill_example =
    missing-check_gap_fill 1 2 (omega arith) (omega arith) 2 (gap_1_4 ∷ []) (omega arith)
      (inl (omega arith), tt)

check_gap_fill-Inside_example : missing 2 (check_gap_fill 2 3 ([] ++ gap_1_4 ∷ [])) ≡ true
check_gap_fill-Inside_example = check_gap_fill-Inside 2 3 2 [] gap_1_4 [] (omega arith) refl
