-- ===== src/Mold/Session.antt =====
-- `Session` of include/moldudp64/session.hpp. `W` is the state that the callbacks change; a call
-- is `none` where it reads memory that is not there.
pub mod Tracking
pub mod Moves
pub mod Agreement
pub mod Invariant
pub mod History
pub mod Safety
pub mod Coverage
pub mod Blocks
pub mod Delivery
pub mod Steps
pub mod Streams
pub mod Recovery
use dpdk_itch5_feedhandler.Prelude.{
  ℕ, zero, suc, List, [], ◌∷◌, ◌++◌, Bool, true, false, ◌&&◌, Option, none, some, Bytes, drop, ltb,
  if◌then◌else◌, ◌>>=◌, add64, sub64, inc64, same_bytes,
}
use dpdk_itch5_feedhandler.Mold.Header.{
  Header, parse, is_heartbeat, is_end_of_session, get_messages_offset, read_message_length,
  sizeof_message_block,
}
use dpdk_itch5_feedhandler.Mold.Gap.{Gap, check_gap_fill}

pub data SessionState : Type 0 where
  unknown active stale end_of_session error : SessionState

pub record Session {ℓ} (W : Type ℓ) : Type ℓ where
  pub session_id : Bytes
  pub expected_sequence : ℕ
  pub state : SessionState
  pub pending_gaps : List Gap
  pub packets_received : ℕ
  pub messages_received : ℕ
  pub gaps_detected : ℕ
  pub heartbeats_received : ℕ
  pub gap_callback : Option (Gap → W → W)
  pub message_callback : Option (Bytes → ℕ → ℕ → W → Option W)

pub record Stats : Type 0 where
  pub packets_received : ℕ
  pub messages_received : ℕ
  pub gaps_detected : ℕ
  pub heartbeats_received : ℕ

-- `pending_gaps_.empty()`
abbrev pub is_empty {ℓ} : {A : Type ℓ} → List A → Bool
is_empty [] = true
is_empty (x ∷ xs) = false

abbrev pub is_active : SessionState → Bool
is_active SessionState.active = true
is_active _ = false

abbrev pub is_stale : SessionState → Bool
is_stale SessionState.stale = true
is_stale _ = false

module _ {ℓ} {W : Type ℓ} where
  -- The constructor, with its session id.
  unfoldable pub new_session : Bytes → Session W
  new_session session_id = record {
    session_id = session_id;
    expected_sequence = 1;
    state = SessionState.unknown;
    pending_gaps = [];
    packets_received = 0;
    messages_received = 0;
    gaps_detected = 0;
    heartbeats_received = 0;
    gap_callback = none;
    message_callback = none;
  }

  unfoldable pub set_gap_callback : Session W → Option (Gap → W → W) → Session W
  set_gap_callback s cb = record s { gap_callback = cb }

  unfoldable pub set_message_callback :
      Session W → Option (Bytes → ℕ → ℕ → W → Option W) → Session W
  set_message_callback s cb = record s { message_callback = cb }

  -- The first packet establishes the session id; any later one must carry it.
  unfoldable pub check_session_id : Session W → Header → Session W × Bool
  check_session_id s h = elim s.state [
    | SessionState.unknown ↦
        (record s { session_id = h.session; state = SessionState.active }, true)
    | _ ↦
        if same_bytes s.session_id h.session
        then (s, true)
        else (record s { state = SessionState.error }, false)
  ]

  unfoldable pub notify_gap : Option (Gap → W → W) → Gap → W → W
  notify_gap none gap w = w
  notify_gap (some cb) gap w = cb gap w

  -- "Check for gaps": a jump ahead records one, a step back may fill some.
  unfoldable pub check_gaps : Session W → Header → W → Session W × W
  unfolding notify_gap
  check_gaps s h w =
      if ltb s.expected_sequence h.sequence_number
      then (let gap : Gap = record {
        start = s.expected_sequence;
        end = sub64 h.sequence_number 1;
        detected_at_ns = 0;
      } in
          (
            record s {
              pending_gaps = s.pending_gaps ++ gap ∷ [];
              gaps_detected = inc64 s.gaps_detected;
              state = SessionState.stale;
            },
            notify_gap s.gap_callback gap w,
          ))
      else if ltb h.sequence_number s.expected_sequence
      then (
        record s {
          pending_gaps =
              check_gap_fill h.sequence_number (sub64 (add64 h.sequence_number h.message_count) 1)
                s.pending_gaps;
        },
        w,
      )
      else (s, w)

  -- The `for` loop over the messages of a packet, from `offset` on, with the counts so far.
  unfoldable pub deliver_messages :
      (Bytes → ℕ → ℕ → W → Option W) → ℕ → Bytes → ℕ → ℕ → ℕ → ℕ → W → Option (ℕ × W)
  deliver_messages cb zero ptr len offset seq received w = some (received, w)
  deliver_messages cb (suc left) ptr len offset seq received w =
      if ltb len (add64 offset sizeof_message_block)
      then some (received, w)
      else (read_message_length (drop offset ptr) >>= λ msg_len.
          let start = add64 offset sizeof_message_block in
          if ltb len (add64 start msg_len)
          then some (received, w)
          else (cb (drop start ptr) msg_len seq w >>= λ w'.
              deliver_messages cb left ptr len (add64 start msg_len) (inc64 seq) (inc64 received)
                w'))

  -- "Process messages in the packet", or just count them where no callback is set.
  unfoldable pub deliver_or_count :
      Option (Bytes → ℕ → ℕ → W → Option W) → Header → Bytes → ℕ → ℕ → W → Option (ℕ × W)
  deliver_or_count none h ptr len received w = some (add64 received h.message_count, w)
  deliver_or_count (some cb) h ptr len received w =
      deliver_messages cb h.message_count ptr len get_messages_offset h.sequence_number received w

  unfoldable pub process_messages : Session W → Header → Bytes → ℕ → W → Option (Session W × W)
  process_messages s h ptr len w =
      deliver_or_count s.message_callback h ptr len s.messages_received w >>= λ r.
      some (record s { messages_received = r.0 }, r.1)

  -- "Update expected sequence number", and back to active when no gap is left.
  unfoldable pub advance : Session W → Header → Session W
  advance s h =
      let next_expected = add64 h.sequence_number h.message_count in
      let moved : Session W =
        (if ltb s.expected_sequence next_expected
          then record s { expected_sequence = next_expected }
          else s) in
      if is_stale moved.state && is_empty moved.pending_gaps
      then record moved { state = SessionState.active }
      else moved

  -- What follows a header of the right session.
  unfoldable pub process_header : Session W → Header → Bytes → ℕ → W → Option (Bool × Session W × W)
  process_header s h ptr len w =
      if is_heartbeat h
      then some (true, record s { heartbeats_received = inc64 s.heartbeats_received }, w)
      else if is_end_of_session h
      then some (true, record s { state = SessionState.end_of_session }, w)
      else (let (s1, w1) = check_gaps s h w in
          process_messages s1 h ptr len w1 >>= λ r. some (true, advance r.0 h, r.1))

  unfoldable pub process_parsed :
      Session W → Option Header → Bytes → ℕ → W → Option (Bool × Session W × W)
  process_parsed s none ptr len w = some (false, s, w)
  process_parsed s (some h) ptr len w =
      let (s1, known) =
        check_session_id (record s { packets_received = inc64 s.packets_received }) h in
      if known then process_header s1 h ptr len w else some (false, s1, w)

  unfoldable pub process_packet : Session W → Bytes → ℕ → W → Option (Bool × Session W × W)
  process_packet s ptr len w = parse ptr len >>= λ header. process_parsed s header ptr len w

  -- The `for` loop over retransmitted messages.
  unfoldable pub redeliver_messages :
      (Bytes → ℕ → ℕ → W → Option W) → ℕ → Bytes → ℕ → ℕ → ℕ → W → Option W
  redeliver_messages cb zero ptr len offset seq w = some w
  redeliver_messages cb (suc left) ptr len offset seq w =
      if ltb offset len
      then (read_message_length (drop offset ptr) >>= λ msg_len.
          let start = add64 offset sizeof_message_block in
          if ltb len (add64 start msg_len)
          then some w
          else (cb (drop start ptr) msg_len seq w >>= λ w'.
              redeliver_messages cb left ptr len (add64 start msg_len) (inc64 seq) w'))
      else some w

  unfoldable pub reprocess_messages :
      Option (Bytes → ℕ → ℕ → W → Option W) → ℕ → Bytes → ℕ → ℕ → W → Option W
  reprocess_messages none start_seq ptr len message_count w = some w
  reprocess_messages (some cb) start_seq ptr len message_count w =
      redeliver_messages cb message_count ptr len 0 start_seq w

  unfoldable pub process_retransmission : Session W → ℕ → Bytes → ℕ → ℕ → W → Option (Session W × W)
  process_retransmission s start_seq ptr len message_count w =
      let gaps =
        check_gap_fill start_seq (sub64 (add64 start_seq message_count) 1) s.pending_gaps in
      reprocess_messages s.message_callback start_seq ptr len message_count w >>= λ w'. some (
        if is_empty gaps
            then record s { pending_gaps = gaps; state = SessionState.active }
            else record s { pending_gaps = gaps },
        w',
      )

  unfoldable pub has_gaps : Session W → Bool
  has_gaps s = if is_empty s.pending_gaps then false else true

  unfoldable pub is_healthy : Session W → Bool
  is_healthy s = is_active s.state && is_empty s.pending_gaps

  unfoldable pub get_stats : Session W → Stats
  get_stats s = record {
    packets_received = s.packets_received;
    messages_received = s.messages_received;
    gaps_detected = s.gaps_detected;
    heartbeats_received = s.heartbeats_received;
  }

  -- The session id and the callbacks stay.
  unfoldable pub reset : Session W → Session W
  reset s = record s {
    expected_sequence = 1;
    state = SessionState.unknown;
    pending_gaps = [];
    packets_received = 0;
    messages_received = 0;
    gaps_detected = 0;
    heartbeats_received = 0;
  }
