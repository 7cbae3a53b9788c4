-- ===== src/Tests/Streams.antt =====
-- Runs of a new session over a stream of packets of the two short messages.
use dpdk_itch5_feedhandler.Prelude.{
  ℕ, ◌+◌, ◌<◌, ◌≡◌, refl, List, [], ◌∷◌, true, false, some, length, add64, inl, arith,
}
use dpdk_itch5_feedhandler.Mold.Header.{Header, is_heartbeat, is_end_of_session}
use dpdk_itch5_feedhandler.Mold.Session.{Session, is_healthy, process_packet, new_session}
use dpdk_itch5_feedhandler.Mold.Session.Blocks.{packet_of}
use dpdk_itch5_feedhandler.Mold.Session.Delivery.{Announces}
use dpdk_itch5_feedhandler.Mold.Session.Steps.{Awaits, lost}
use dpdk_itch5_feedhandler.Mold.Session.Streams.{
  packets_of, process_packets, process_packets_in_order,
}
use dpdk_itch5_feedhandler.Mold.Session.Recovery.{
  IsPart, retransmit, process_retransmission_recovers,
}
use dpdk_itch5_feedhandler.Tests.Delivery.{id, messages, note, note_length, plain}

abbrev fresh : Session (List (ℕ × ℕ))
fresh = record (new_session id) { message_callback = some note_length }

fresh-Awaits : Awaits note_length id 1 0 fresh
unfolding new_session
fresh-Awaits = record {
  message = refl;
  gap = refl;
  counted = refl;
  expected = refl;
  gaps = refl;
  own = inl refl;
}

abbrev at : ℕ → Header
at n = record { session = id; sequence_number = n; message_count = 2 }

at-Announces : (n : ℕ) → n < 100 → Announces plain (at n) messages
unfolding is_heartbeat is_end_of_session
at-Announces n h = record {
  session = refl;
  sequence = omega arith;
  count = refl;
  few = omega arith;
  short = omega arith;
  carried = ground arith;
}

process_packets_in_order_example :
    (t : Session (List (ℕ × ℕ))) × (process_packets fresh
        (packets_of plain ((at 1, messages) ∷ (at 3, messages) ∷ []))
        []
      ≡ some (true, t, (2, 4) ∷ (1, 3) ∷ (2, 2) ∷ (1, 1) ∷ []))
    × (is_healthy t ≡ true)
    × (t.expected_sequence ≡ 1 + 4)
    × (t.messages_received ≡ add64 0 4)
process_packets_in_order_example =
    process_packets_in_order plain note note_length id (at 1) messages ((at 3, messages) ∷ []) 1 0
      fresh [] _
      (
        at-Announces 1 (omega arith),
        refl,
        refl,
        omega arith,
        (at-Announces 3 (omega arith), refl, refl, omega arith, tt),
      )
      (
        (λ tail seq w. refl, (λ tail seq w. refl, tt)),
        ((λ tail seq w. refl, (λ tail seq w. refl, tt)), tt),
      )
      (omega arith) fresh-Awaits refl

two_messages-IsPart : IsPart plain note note_length messages
two_messages-IsPart =
    (omega arith, omega arith, omega arith, (λ tail seq w. refl, (λ tail seq w. refl, tt)))

-- Messages 1 to 4 are missing, and come in two parts.
process_retransmission_recovers_example :
    (t u : Session (List (ℕ × ℕ))) × (process_packet fresh
        (packet_of plain (at 5) messages)
        (length (packet_of plain (at 5) messages))
        []
      ≡ some (true, t, (2, 6) ∷ (1, 5) ∷ []))
    × (is_healthy t ≡ false)
    × (t.pending_gaps ≡ lost 1 5)
    × (retransmit plain note note_length t 1 (messages ∷ messages ∷ []) ((2, 6) ∷ (1, 5) ∷ [])
        ≡ some (u, (2, 4) ∷ (1, 3) ∷ (2, 2) ∷ (1, 1) ∷ (2, 6) ∷ (1, 5) ∷ []))
    × (is_healthy u ≡ true)
    × (u.expected_sequence ≡ 5 + 2)
process_retransmission_recovers_example =
    process_retransmission_recovers plain note note_length (at 5) messages
      (messages ∷ messages ∷ []) 1 0 fresh [] _ _ (at-Announces 5 (omega arith))
      (λ tail seq w. refl, (λ tail seq w. refl, tt))
      (two_messages-IsPart, (two_messages-IsPart, tt)) (omega arith) (omega arith) (omega arith)
      refl fresh-Awaits refl refl
