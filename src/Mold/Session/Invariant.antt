-- ===== src/Mold/Session/Invariant.antt =====
-- The invariant of `Session` in include/moldudp64/session.hpp: the pending gaps lie in order below
-- the expected sequence number, and the state says whether there are any.
use dpdk_itch5_feedhandler.Prelude.{
  ℕ, ◌<◌, ◌≡◌, refl, sym, subst₂, Bool, true, false, some, Bytes, if◌then◌else◌, Option, none,
  word64, inc64, ap, ◌∙◌, subst, inl, inr, arith, Bool-cases, Option-cases, some-inj,
}
use dpdk_itch5_feedhandler.Mold.Header.{Header, parse}
use dpdk_itch5_feedhandler.Mold.Gap.{check_gap_fill}
use dpdk_itch5_feedhandler.Mold.Gap.Ordered.{Ordered, check_gap_fill-Ordered}
use dpdk_itch5_feedhandler.Mold.Session.{
  Session, SessionState, new_session, check_session_id, process_header, process_parsed,
  process_packet, process_retransmission, reprocess_messages, reset, is_empty,
}
use dpdk_itch5_feedhandler.Mold.Session.Tracking.{carries, Tracks, process_header-Tracks}
use dpdk_itch5_feedhandler.Mold.Session.Agreement.{
  Agrees, Fits, next_expected_bounds, next_gaps-Ordered, next_state-Agrees, check_gap_fill-Agrees,
}

-- What holds of a session between calls.
pub record IsSession {ℓ} {W : Type ℓ} (s : Session W) : Type 0 where
  pub ordered : Ordered 1 s.expected_sequence s.pending_gaps
  pub bounded : s.expected_sequence < word64
  pub agrees : Agrees s.state s.pending_gaps

-- If the packet carries messages, then their sequence numbers fit 64 bits.
abbrev pub FitsPacket : Bytes → ℕ → Type 0
FitsPacket ptr len = (h : Header) → parse ptr len ≡ some (some h) → carries h ≡ true → Fits h

module _ {ℓ} {W : Type ℓ} where
  pub new_session-IsSession : (id : Bytes) → IsSession (new_session {W = W} id)
  unfolding new_session
  new_session-IsSession id = record { ordered = omega arith; bounded = omega arith; agrees = refl }

  pub reset-IsSession : (s : Session W) → IsSession (reset s)
  unfolding reset
  reset-IsSession s = record { ordered = omega arith; bounded = omega arith; agrees = refl }

  check_session_id-IsSession :
      (s : Session W) (h : Header) → IsSession s → IsSession (check_session_id s h).0
  unfolding check_session_id
  check_session_id-IsSession s h v = ground arith

  Tracks-IsSession :
      (s : Session W) (h : Header) (r : Session W)
      → Fits h
      → Tracks s h r
      → IsSession s
      → IsSession r
  Tracks-IsSession s h r f t v = record {
    ordered =
        subst₂ (Ordered 1) (sym t.expected) (sym t.gaps)
          (next_gaps-Ordered s.expected_sequence s.pending_gaps h f v.bounded v.ordered);
    bounded = omega (arith, t.expected, next_expected_bounds s.expected_sequence h f v.bounded);
    agrees =
        subst₂ Agrees (sym t.state) (sym t.gaps)
          (next_state-Agrees s.expected_sequence s.state s.pending_gaps h v.agrees);
  }

  special_header-IsSession :
      (s : Session W) (h : Header) (ptr : Bytes) (len : ℕ) (w : W) {r : Bool × Session W × W}
      → carries h ≡ false
      → process_header s h ptr len w ≡ some r
      → IsSession s
      → IsSession r.1
  unfolding process_header
  special_header-IsSession s h ptr len w c e v = ground arith

  process_header-IsSession :
      (s : Session W) (h : Header) (ptr : Bytes) (len : ℕ) (w : W) {r : Bool × Session W × W}
      → (carries h ≡ true → Fits h)
      → process_header s h ptr len w ≡ some r
      → IsSession s
      → IsSession r.1
  process_header-IsSession s h ptr len w {r} f e v = elim (Bool-cases (carries h)) [
    | inl c ↦ Tracks-IsSession s h r.1 (f c) (process_header-Tracks s h ptr len w c e).1 v
    | inr special ↦ special_header-IsSession s h ptr len w special e v
  ]

  process_parsed-IsSession :
      (s : Session W) (h : Header) (ptr : Bytes) (len : ℕ) (w : W) {r : Bool × Session W × W}
      → (carries h ≡ true → Fits h)
      → process_parsed s (some h) ptr len w ≡ some r
      → IsSession s
      → IsSession r.1
  unfolding process_parsed
  process_parsed-IsSession s h ptr len w {r} f e v =
      let s0 : Session W = record s { packets_received = inc64 s.packets_received } in
      let v0 : IsSession s0 = record {
        ordered = v.ordered;
        bounded = v.bounded;
        agrees = v.agrees;
      } in
      let v1 = check_session_id-IsSession s0 h v0 in
      elim (Bool-cases (check_session_id s0 h).1) [
        | inl known ↦
            process_header-IsSession (check_session_id s0 h).0 h ptr len w f (rw known at e) v1
        | inr foreign ↦
            subst (λ (t : Bool × Session W × W). IsSession t.1) (some-inj (rw foreign at e)) v1
      ]

  process_parsed_any :
      (s : Session W) (o : Option Header) (ptr : Bytes) (len : ℕ) (w : W) {r : Bool × Session W × W}
      → ((h : Header) → o ≡ some h → carries h ≡ true → Fits h)
      → process_parsed s o ptr len w ≡ some r
      → IsSession s
      → IsSession r.1
  unfolding process_parsed
  process_parsed_any s (some h) ptr len w f e v =
      process_parsed-IsSession s h ptr len w (f h refl) e v
  process_parsed_any s none ptr len w f e v =
      subst (λ (t : Bool × Session W × W). IsSession t.1) (some-inj e) v

  -- Provided that the sequence numbers of the messages that it carries fit 64 bits, processing a packet
  -- of any kind keeps the invariant: too short, of another session, heartbeat, end of session, ahead,
  -- behind or in sequence.
  pub process_packet-IsSession :
      (s : Session W) (ptr : Bytes) (len : ℕ) (w : W) {r : Bool × Session W × W}
      → FitsPacket ptr len
      → process_packet s ptr len w ≡ some r
      → IsSession s
      → IsSession r.1
  unfolding process_packet
  process_packet-IsSession s ptr len w f e v = elim (Option-cases (parse ptr len)) [
    | inl short ↦ absurd (cc (rw short at e))
    | inr (o, parsed) ↦
        process_parsed_any s o ptr len w (λ h q. f h (parsed ∙ ap some q)) (rw parsed at e) v
  ]

  settled-IsSession :
      (s : Session W) (start end : ℕ)
      → start < word64
      → end < word64
      → IsSession s
      → IsSession (
          if is_empty (check_gap_fill start end s.pending_gaps)
          then record s {
            pending_gaps = check_gap_fill start end s.pending_gaps;
            state = SessionState.active;
          }
          else record s { pending_gaps = check_gap_fill start end s.pending_gaps })
  settled-IsSession s start end hs he v =
      let o =
        check_gap_fill-Ordered start end 1 s.expected_sequence s.pending_gaps hs he v.bounded
          v.ordered in
      elim (Bool-cases (is_empty (check_gap_fill start end s.pending_gaps))) [
        | inl none_left ↦
            rw none_left (record { ordered = o; bounded = v.bounded; agrees = none_left })
        | inr left ↦ rw left (record {
          ordered = o;
          bounded = v.bounded;
          agrees = check_gap_fill-Agrees start end s.state s.pending_gaps v.agrees left;
        })
      ]

  -- A retransmission, whatever it holds, keeps the invariant; its first sequence number is a 64-bit
  -- value.
  pub process_retransmission-IsSession :
      (s : Session W) (start_seq : ℕ) (ptr : Bytes) (len message_count : ℕ) (w : W)
      {r : Session W × W}
      → start_seq < word64
      → process_retransmission s start_seq ptr len message_count w ≡ some r
      → IsSession s
      → IsSession r.0
  unfolding process_retransmission
  process_retransmission-IsSession s start_seq ptr len message_count w h e v =
      elim (Option-cases
        (reprocess_messages s.message_callback start_seq ptr len message_count w)) [
          | inl stop ↦ absurd (cc (rw stop at e))
          | inr (w', done) ↦
              subst (λ (t : Session W × W). IsSession t.0) (some-inj (rw done at e))
                (settled-IsSession s start_seq _ h (omega arith) v)
        ]
