-- ===== src/Tests/Delivery.antt =====
-- Runs of a session on two short messages.
use dpdk_itch5_feedhandler.Prelude.{
  ℕ, ◌≡◌, refl, List, [], ◌∷◌, ◌++◌, true, none, some, Option, Bytes, replicate, length, add64, inr,
  arith,
}
use dpdk_itch5_feedhandler.Mold.Header.{Header, is_heartbeat, is_end_of_session}
use dpdk_itch5_feedhandler.Mold.Session.{Session, SessionState, process_packet}
use dpdk_itch5_feedhandler.Mold.Session.Blocks.{packet_of}
use dpdk_itch5_feedhandler.Mold.Session.Delivery.{Announces, Tuned, process_packet-replay}

abbrev pub id : Bytes
id = replicate 10 b'S'

abbrev pub messages : List Bytes
messages = (b'x' ∷ []) ∷ (b'y' ∷ b'z' ∷ []) ∷ []

-- The messages and their numbers, the last one first.
abbrev pub note : Bytes → ℕ → List (ℕ × ℕ) → Option (List (ℕ × ℕ))
note m seq w = some ((length m, seq) ∷ w)

abbrev pub note_length : Bytes → ℕ → ℕ → List (ℕ × ℕ) → Option (List (ℕ × ℕ))
note_length p n seq w = some ((n, seq) ∷ w)

abbrev pub plain : Bytes → Bytes
plain m = m

abbrev header : Header
header = record { session = id; sequence_number = 5; message_count = 2 }

header-Announces : Announces plain header messages
unfolding is_heartbeat is_end_of_session
header-Announces = record {
  session = refl;
  sequence = omega arith;
  count = refl;
  few = omega arith;
  short = omega arith;
  carried = refl;
}

-- Message 4 is missing, and 5 is expected.
abbrev session : Session (List (ℕ × ℕ))
session = record {
  session_id = id;
  expected_sequence = 5;
  state = SessionState.stale;
  pending_gaps = record { start = 3; end = 4; detected_at_ns = 0 } ∷ [];
  packets_received = 1;
  messages_received = 2;
  gaps_detected = 1;
  heartbeats_received = 0;
  gap_callback = none;
  message_callback = some note_length;
}

process_packet-replay_example :
    (t : Session (List (ℕ × ℕ))) × (process_packet session
        (packet_of plain header messages ++ 7 ∷ [])
        (length (packet_of plain header messages))
        []
      ≡ some (true, t, (2, 6) ∷ (1, 5) ∷ []))
    × Tuned note_length id (add64 2 (length messages)) t
process_packet-replay_example =
    process_packet-replay plain note note_length header messages header-Announces
      (λ tail seq w. refl, (λ tail seq w. refl, tt)) (7 ∷ []) 2 (omega arith) session [] _ refl refl
      refl (inr refl) refl
