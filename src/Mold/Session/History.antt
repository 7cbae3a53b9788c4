-- ===== src/Mold/Session/History.antt =====
-- No loss goes unnoticed: any sequence of calls on a `Session` of include/moldudp64/session.hpp.
use dpdk_itch5_feedhandler.Prelude.{
  ℕ, ◌+◌, ◌≤◌, ◌<◌, ◌≡◌, refl, ◌∙◌, ap, List, [], ◌∷◌, Bool, true, false, not, ◌&&◌, ◌||◌, Option,
  some, Bytes, leb, ltb, add64, sub64, word64, inl, inr, arith, Bool-cases, leb→le, All, sym, subst,
  some-inj,
}
use dpdk_itch5_feedhandler.Mold.Header.{Header, parse}
use dpdk_itch5_feedhandler.Mold.Gap.{Gap, check_gap_fill}
use dpdk_itch5_feedhandler.Mold.Gap.Missing.{missing, Touches, missing-check_gap_fill_outside}
use dpdk_itch5_feedhandler.Mold.Gap.Ordered.{Ordered, Ordered-IsGap, Ordered-le}
use dpdk_itch5_feedhandler.Mold.Session.{
  Session, new_session, set_gap_callback, set_message_callback, process_packet,
  process_retransmission, reset,
}
use dpdk_itch5_feedhandler.Mold.Session.Tracking.{carries}
use dpdk_itch5_feedhandler.Mold.Session.Moves.{
  Stays, Follows, Moves, stays, follows, process_packet-Moves,
}
use dpdk_itch5_feedhandler.Mold.Session.Agreement.{Fits}
use dpdk_itch5_feedhandler.Mold.Session.Invariant.{
  FitsPacket, IsSession, reset-IsSession, process_packet-IsSession,
  process_retransmission-IsSession,
}
use dpdk_itch5_feedhandler.Mold.Session.Coverage.{
  announces, last_of, missing-next_gaps, covered-next_gaps,
}

-- No gap reaches the expected sequence number.
missing_above : (lo hi x : ℕ) (gs : List Gap) → Ordered lo hi gs → hi ≤ x → missing x gs ≡ false
unfolding missing
missing_above lo hi x [] o h = refl
missing_above lo hi x (g ∷ gs) o h =
    ground (arith, missing_above (g.end + 1) hi x gs o.2, Ordered-le (g.end + 1) hi gs o.2)

-- What an accepted packet announces.
abbrev pub heard : Bool → Option (Option Header) → ℕ → Bool
heard true (some (some h)) x = announces h x
heard _ _ x = false

module _ {ℓ} {W : Type ℓ} where
  -- One accepted packet, as a step on the set of missing numbers: what lies between the expected
  -- number and a later first number becomes missing, and what the packet announces no longer is.
  -- The session is in order, the packet carries messages, their numbers fit 64 bits, and no pending
  -- gap surrounds them on both sides.
  pub process_packet-missing :
      (s : Session W) (ptr : Bytes) (len : ℕ) (w w' : W) (h : Header) (r : Session W) (x : ℕ)
      → IsSession s
      → parse ptr len ≡ some (some h)
      → carries h ≡ true
      → Fits h
      → All (Touches h.sequence_number (last_of h)) s.pending_gaps
      → process_packet s ptr len w ≡ some (true, r, w')
      → missing x r.pending_gaps ≡ (
          (missing x s.pending_gaps || leb s.expected_sequence x && ltb x h.sequence_number)
          && not (announces h x))
  process_packet-missing s ptr len w w' h r x v p c f t e =
      ap (missing x) (followed (process_packet-Moves s ptr len w e)).gaps
      ∙ missing-next_gaps s.expected_sequence s.pending_gaps h x f c
          (Ordered-IsGap 1 s.expected_sequence s.pending_gaps v.bounded v.ordered) t
          (λ q. missing_above 1 s.expected_sequence x s.pending_gaps v.ordered (leb→le _ _ q))
    where
      followed : Moves s ptr len true r → Follows s h r
      followed (stays k quiet) = absurd (cc (quiet h refl p, c))
      followed (follows k q d a g) =
          subst (λ (t : Header). Follows s t r) (some-inj (some-inj (sym q ∙ p))) g

  -- A session and the numbers that the packets and retransmissions it took have announced.
  pub data Run : (ℕ → Bool) → Session W → Type ℓ where
    begin :
        (id : Bytes) (on_gap : Option (Gap → W → W))
        (on_message : Option (Bytes → ℕ → ℕ → W → Option W))
        → Run
            (λ x. false)
            (set_message_callback (set_gap_callback (new_session id) on_gap) on_message)
    packet :
        {seen : ℕ → Bool} {s r : Session W} (ptr : Bytes) (len : ℕ) (w w' : W) (accepted : Bool)
        → Run seen s
        → FitsPacket ptr len
        → process_packet s ptr len w ≡ some (accepted, r, w')
        → Run (λ x. seen x || heard accepted (parse ptr len) x) r
    retransmission :
        {seen : ℕ → Bool} {s r : Session W} (start_seq : ℕ) (ptr : Bytes) (len count : ℕ) (w w' : W)
        → Run seen s
        → 1 ≤ start_seq + count
        → start_seq + count < word64
        → process_retransmission s start_seq ptr len count w ≡ some (r, w')
        → Run (λ x. seen x || leb start_seq x && ltb x (start_seq + count)) r
    restart : {seen : ℕ → Bool} {s : Session W} → Run seen s → Run (λ x. false) (reset s)

  begin-IsSession :
      (id : Bytes) (on_gap : Option (Gap → W → W))
      (on_message : Option (Bytes → ℕ → ℕ → W → Option W))
      → IsSession (set_message_callback (set_gap_callback (new_session id) on_gap) on_message)
  unfolding set_message_callback set_gap_callback new_session
  begin-IsSession id on_gap on_message = record {
    ordered = omega arith;
    bounded = omega arith;
    agrees = refl;
  }

  Run-IsSession : {seen : ℕ → Bool} {s : Session W} → Run seen s → IsSession s
  Run-IsSession (begin id on_gap on_message) = begin-IsSession id on_gap on_message
  Run-IsSession (packet {s = s} ptr len w w' accepted run fits e) =
      process_packet-IsSession s ptr len w fits e (Run-IsSession run)
  Run-IsSession (retransmission {s = s} start_seq ptr len count w w' run one last e) =
      process_retransmission-IsSession s start_seq ptr len count w (omega arith) e
        (Run-IsSession run)
  Run-IsSession (restart {s = s} run) = reset-IsSession s

  -- Below the expected number, `x` is missing or accounted for.
  abbrev Covered : Session W → Bool → ℕ → Type 0
  Covered s seen x = x < s.expected_sequence → (missing x s.pending_gaps || seen) ≡ true

  fields-Covered :
      (s r : Session W) (seen more : Bool) (x : ℕ)
      → Stays s r
      → Covered s seen x
      → Covered r (seen || more) x
  fields-Covered s r seen more x q b k = rw q.gaps (ground arith)

  packet-Covered :
      (s r : Session W) (ptr : Bytes) (len : ℕ) (accepted seen : Bool) (x : ℕ)
      → IsSession s
      → FitsPacket ptr len
      → Moves s ptr len accepted r
      → Covered s seen x
      → Covered r (seen || heard accepted (parse ptr len) x) x
  packet-Covered s r ptr len accepted seen x v fits (stays q quiet) b k =
      fields-Covered s r seen (heard accepted (parse ptr len) x) x q b k
  packet-Covered s r ptr len accepted seen x v fits (follows h p c a f) b k =
      rw (a, p, f.gaps)
        (covered-next_gaps s.expected_sequence s.pending_gaps h x seen (fits h p c) c
          (Ordered-IsGap 1 s.expected_sequence s.pending_gaps v.bounded v.ordered) b
          (rw f.expected at k))

  refilled :
      (s : Session W) (start_seq : ℕ) (ptr : Bytes) (len count : ℕ) (w : W) {r : Session W × W}
      → process_retransmission s start_seq ptr len count w ≡ some r
      → (r.0.expected_sequence ≡ s.expected_sequence)
        × (r.0.pending_gaps
            ≡ check_gap_fill start_seq (sub64 (add64 start_seq count) 1) s.pending_gaps)
  unfolding process_retransmission
  refilled s start_seq ptr len count w e = ground arith

  retransmission-Covered :
      (s r : Session W) (start_seq count x : ℕ) (seen : Bool)
      → IsSession s
      → 1 ≤ start_seq + count
      → start_seq + count < word64
      → r.expected_sequence ≡ s.expected_sequence
      → r.pending_gaps ≡ check_gap_fill start_seq (sub64 (add64 start_seq count) 1) s.pending_gaps
      → Covered s seen x
      → Covered r (seen || leb start_seq x && ltb x (start_seq + count)) x
  retransmission-Covered s r start_seq count x seen v one last e g b k =
      elim (Bool-cases (leb start_seq x && ltb x (start_seq + count))) [
        | inl told ↦ ground arith
        | inr untold ↦ rw g (
            rw
              (missing-check_gap_fill_outside start_seq (sub64 (add64 start_seq count) 1)
                (omega arith) (omega arith) x s.pending_gaps
                (Ordered-IsGap 1 s.expected_sequence s.pending_gaps v.bounded v.ordered)
                (ground arith))
              (ground arith))
      ]

  -- After any sequence of packets, retransmissions and resets in which the sequence numbers of each
  -- packet's messages fit 64 bits (where it carries messages), and each retransmission's range fits
  -- 64 bits and is not the empty one at 0: every sequence number below the expected one is either in
  -- a pending gap or was announced by an accepted packet or by a retransmission since the last reset.
  pub Run-covered :
      {seen : ℕ → Bool} {s : Session W}
      → Run seen s
      → (x : ℕ) → 1 ≤ x
      → x < s.expected_sequence
      → (missing x s.pending_gaps || seen x) ≡ true
  Run-covered (begin id on_gap on_message) x one k =
      absurd (unfold set_message_callback set_gap_callback new_session in omega arith)
  Run-covered (packet {seen = seen} {s = s} {r = r} ptr len w w' accepted run fits e) x one k =
      packet-Covered s r ptr len accepted (seen x) x (Run-IsSession run) fits
        (process_packet-Moves s ptr len w e) (Run-covered run x one) k
  Run-covered
        (retransmission {seen = seen} {s = s} {r = r} start_seq ptr len count w w' run pos last e) x
        one k =
      let q = refilled s start_seq ptr len count w e in
      retransmission-Covered s r start_seq count x (seen x) (Run-IsSession run) pos last q.0 q.1
        (Run-covered run x one) k
  Run-covered (restart {s = s} run) x one k = absurd (unfold reset in omega arith)
