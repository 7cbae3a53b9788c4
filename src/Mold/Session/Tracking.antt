-- ===== src/Mold/Session/Tracking.antt =====
-- How `Session::process_packet` of include/moldudp64/session.hpp moves the sequence number that
-- it expects and the list of gaps, apart from the counters and the callbacks.
use dpdk_itch5_feedhandler.Prelude.{
  ℕ, ◌≡◌, refl, List, [], ◌∷◌, ◌++◌, Bool, true, not, ◌&&◌, some, Bytes, ltb, if◌then◌else◌, add64,
  sub64, arith, ap, ap₂, ◌∙◌, Option-cases, inl, inr,
}
use dpdk_itch5_feedhandler.Mold.Header.{Header, is_heartbeat, is_end_of_session}
use dpdk_itch5_feedhandler.Mold.Gap.{Gap, check_gap_fill}
use dpdk_itch5_feedhandler.Mold.Session.{
  Session, SessionState, check_gaps, process_messages, advance, process_header, is_empty, is_stale,
}

-- The packet carries messages: it is no heartbeat and does not end the session.
abbrev pub carries : Header → Bool
carries h = not (is_heartbeat h) && not (is_end_of_session h)

unfoldable pub next_gaps : ℕ → List Gap → Header → List Gap
next_gaps expected gaps h =
    if ltb expected h.sequence_number
    then gaps
      ++ record { start = expected; end = sub64 h.sequence_number 1; detected_at_ns = 0 } ∷ []
    else if ltb h.sequence_number expected
    then check_gap_fill h.sequence_number (sub64 (add64 h.sequence_number h.message_count) 1) gaps
    else gaps

unfoldable pub next_expected : ℕ → Header → ℕ
next_expected expected h =
    let next = add64 h.sequence_number h.message_count in
    if ltb expected next then next else expected

-- The state after `check_gaps` and after the whole packet.
unfoldable pub next_state : ℕ → SessionState → List Gap → Header → SessionState
next_state expected state gaps h =
    let moved = (if ltb expected h.sequence_number then SessionState.stale else state) in
    if is_stale moved && is_empty (next_gaps expected gaps h) then SessionState.active else moved

module _ {ℓ} {W : Type ℓ} where
  -- What `process_header` does to the fields that track the sequence.
  pub record Tracks (s : Session W) (h : Header) (r : Session W) : Type ℓ where
    pub expected : r.expected_sequence ≡ next_expected s.expected_sequence h
    pub gaps : r.pending_gaps ≡ next_gaps s.expected_sequence s.pending_gaps h
    pub state : r.state ≡ next_state s.expected_sequence s.state s.pending_gaps h

  check_gaps_fields :
      (s : Session W) (h : Header) (w : W)
      → let t = (check_gaps s h w).0 in
        (t.expected_sequence ≡ s.expected_sequence)
        × (t.pending_gaps ≡ next_gaps s.expected_sequence s.pending_gaps h)
        × (t.state
            ≡ (if ltb s.expected_sequence h.sequence_number then SessionState.stale else s.state))
  unfolding check_gaps next_gaps
  check_gaps_fields s h w = ground arith

  process_messages_fields :
      (s : Session W) (h : Header) (ptr : Bytes) (len : ℕ) (w : W) {r : Session W × W}
      → process_messages s h ptr len w ≡ some r
      → (r.0.expected_sequence ≡ s.expected_sequence)
        × (r.0.pending_gaps ≡ s.pending_gaps)
        × (r.0.state ≡ s.state)
  unfolding process_messages
  process_messages_fields s h ptr len w e = ground arith

  advance_fields :
      (s : Session W) (h : Header)
      → ((advance s h).expected_sequence ≡ next_expected s.expected_sequence h)
        × ((advance s h).pending_gaps ≡ s.pending_gaps)
        × ((advance s h).state ≡ (
            if is_stale s.state && is_empty s.pending_gaps then SessionState.active else s.state))
  unfolding advance next_expected
  advance_fields s h = ground arith

  tracked :
      (s : Session W) (h : Header) (m : Session W)
      → m.expected_sequence ≡ s.expected_sequence
      → m.pending_gaps ≡ next_gaps s.expected_sequence s.pending_gaps h
      → m.state
        ≡ (if ltb s.expected_sequence h.sequence_number then SessionState.stale else s.state)
      → Tracks s h (advance m h)
  unfolding next_state
  tracked s h m e g st = record {
    expected = (advance_fields m h).0 ∙ ap (λ k. next_expected k h) e;
    gaps = (advance_fields m h).1 ∙ g;
    state = (advance_fields m h).2 ∙ ap₂ settle st g;
  }
    where
      settle : SessionState → List Gap → SessionState
      settle now gs = if is_stale now && is_empty gs then SessionState.active else now

  -- A packet that carries messages moves the sequence and the gaps as `next_expected`, `next_gaps`
  -- and `next_state` say, whatever its messages are, and counts as processed.
  pub process_header-Tracks :
      (s : Session W) (h : Header) (ptr : Bytes) (len : ℕ) (w : W) {r : Bool × Session W × W}
      → carries h ≡ true
      → process_header s h ptr len w ≡ some r
      → (r.0 ≡ true) × Tracks s h r.1
  unfolding process_header
  process_header-Tracks s h ptr len w {r} c e =
      let (t, w1) = check_gaps s h w in
      elim (Option-cases (process_messages t h ptr len w1)) [
        | inl stop ↦ ground arith
        | inr (m, done) ↦
            (let out : r ≡ (true, advance m.0 h, m.1) = ground arith in
              rw out (
                refl,
                (let a = check_gaps_fields s h w in
                    let b = process_messages_fields t h ptr len w1 done in
                    tracked s h m.0 (b.0 ∙ a.0) (b.1 ∙ a.1) (b.2 ∙ a.2)),
              ))
      ]
