-- ===== src/Mold/Session/Steps.antt =====
-- `Session` of include/moldudp64/session.hpp over a stream of packets as the MoldUDP64 document
-- writes them, one packet at a time: at the expected number, or after it.
use dpdk_itch5_feedhandler.Prelude.{
  ℕ, ◌+◌, ◌-◌, ◌<◌, ◌≡◌, refl, sym, ap, ◌∙◌, ◌⊎◌, subst, append-nil, List, [], ◌∷◌, ◌++◌, true,
  Option, none, some, Bytes, All, length, if◌then◌else◌, ◌>>=◌, Option-cases, add64, inc64, word64,
  inl, inr, arith,
}
use dpdk_itch5_feedhandler.Mold.Header.{Header, parse}
use dpdk_itch5_feedhandler.Mold.Gap.{Gap}
use dpdk_itch5_feedhandler.Mold.Session.{
  Session, SessionState, check_session_id, is_empty, process_parsed, process_packet,
}
use dpdk_itch5_feedhandler.Mold.Session.Tracking.{
  carries, next_expected, next_gaps, next_state, process_header-Tracks,
}
use dpdk_itch5_feedhandler.Mold.Session.Blocks.{packet_of, ActsAs, replay}
use dpdk_itch5_feedhandler.Mold.Session.Delivery.{
  Announces, Admits, Tuned, parse-packet_of, same_bytes_refl, process_packet-replay,
}

pub replay-append {ℓ κ} :
    {X : Type ℓ} {W : Type κ} (f : X → ℕ → W → Option W) (xs ys : List X) (seq : ℕ) (w : W)
    → seq < word64
    → replay f (xs ++ ys) seq w
      ≡ (replay f xs seq w >>= λ w'. replay f ys (add64 seq (length xs)) w')
replay-append f [] ys seq w h = ap (λ n. replay f ys n w) same
  where
    same : seq ≡ add64 seq 0
    same = omega arith
replay-append f (x ∷ xs) ys seq w h = elim (Option-cases (f x seq w)) [
  | inl stop ↦ rw stop refl
  | inr (w', done) ↦ rw done (
      replay-append f xs ys (inc64 seq) w' (omega arith)
      ∙ ap (λ n. replay f xs (inc64 seq) w' >>= λ v. replay f ys n v) counted)
]
  where
    counted : add64 (inc64 seq) (length xs) ≡ add64 seq (length (x ∷ xs))
    counted = omega arith

-- A session that follows the session `id`, gives its messages to `cb`, has counted `received` of
-- them, expects the number `next`, and lacks exactly the gaps `gs`. No gap callback is set.
pub record At {ℓ} {W : Type ℓ} (cb : Bytes → ℕ → ℕ → W → Option W) (id : Bytes) (next : ℕ)
    (gs : List Gap) (received : ℕ) (s : Session W) : Type ℓ where
  pub tuned : Tuned cb id received s
  pub expected : s.expected_sequence ≡ next
  pub gaps : s.pending_gaps ≡ gs
  pub state : s.state ≡ (if is_empty gs then SessionState.active else SessionState.stale)

-- The gap of the numbers from `next` to just before `seq`.
abbrev pub lost : ℕ → ℕ → List Gap
lost next seq = record { start = next; end = seq - 1; detected_at_ns = 0 } ∷ []

in_order :
    (next : ℕ) (h : Header)
    → h.sequence_number ≡ next
    → h.sequence_number + h.message_count < word64
    → (next_expected next h ≡ next + h.message_count)
      × (next_gaps next [] h ≡ [])
      × (next_state next SessionState.active [] h ≡ SessionState.active)
unfolding next_expected next_gaps next_state
in_order next h e f = (ground arith, ground arith, ground arith)

ahead :
    (next : ℕ) (h : Header)
    → next < h.sequence_number
    → h.sequence_number + h.message_count < word64
    → (next_expected next h ≡ h.sequence_number + h.message_count)
      × (next_gaps next [] h ≡ lost next h.sequence_number)
      × (next_state next SessionState.active [] h ≡ SessionState.stale)
unfolding next_expected next_gaps next_state
ahead next h e f = (ground arith, ground arith, ground arith)

-- A session that takes the session `id`, or already follows it, and lacks nothing.
pub record Awaits {ℓ} {W : Type ℓ} (cb : Bytes → ℕ → ℕ → W → Option W) (id : Bytes) (next : ℕ)
    (received : ℕ) (s : Session W) : Type ℓ where
  pub message : s.message_callback ≡ some cb
  pub gap : s.gap_callback ≡ none
  pub counted : s.messages_received ≡ received
  pub expected : s.expected_sequence ≡ next
  pub gaps : s.pending_gaps ≡ []
  pub own :
      (s.state ≡ SessionState.unknown) ⊎ ((s.state ≡ SessionState.active) × (s.session_id ≡ id))

module _ {ℓ} {W : Type ℓ} where
  pub At-Awaits :
      (cb : Bytes → ℕ → ℕ → W → Option W) (id : Bytes) (next received : ℕ) (s : Session W)
      → At cb id next [] received s
      → Awaits cb id next received s
  At-Awaits cb id next received s a = record {
    message = a.tuned.message;
    gap = a.tuned.gap;
    counted = a.tuned.counted;
    expected = a.expected;
    gaps = a.gaps;
    own = inr (a.state, a.tuned.session);
  }

  process_parsed-Tracks :
      (s : Session W) (h : Header) (ptr : Bytes) (len : ℕ) (w w' : W) (t : Session W)
      → (s.state ≡ SessionState.unknown)
        ⊎ ((s.state ≡ SessionState.active) × (s.session_id ≡ h.session))
      → carries h ≡ true
      → process_parsed s (some h) ptr len w ≡ some (true, t, w')
      → (t.expected_sequence ≡ next_expected s.expected_sequence h)
        × (t.pending_gaps ≡ next_gaps s.expected_sequence s.pending_gaps h)
        × (t.state ≡ next_state s.expected_sequence SessionState.active s.pending_gaps h)
  unfolding process_parsed check_session_id
  process_parsed-Tracks s h ptr len w w' t (inl new) c e =
      let s0 : Session W = record s {
        packets_received = inc64 s.packets_received;
        session_id = h.session;
        state = SessionState.active;
      } in
      let moved = (process_header-Tracks s0 h ptr len w {r = (true, t, w')} c (ground arith)).1 in
      (moved.expected, moved.gaps, moved.state)
  process_parsed-Tracks s h ptr len w w' t (inr (live, own)) c e =
      let s0 : Session W = record s { packets_received = inc64 s.packets_received } in
      let moved =
        (process_header-Tracks s0 h ptr len w {r = (true, t, w')} c
          (ground (arith, same_bytes_refl h.session))).1 in
      (
        moved.expected,
        moved.gaps,
        moved.state ∙ ap (λ st. next_state s.expected_sequence st s.pending_gaps h) live,
      )

  -- What a session that lacks nothing becomes by a packet at `next` or after it.
  process_packet-moves :
      (cb : Bytes → ℕ → ℕ → W → Option W) (next received : ℕ) (s t : Session W) (h : Header)
      (ptr : Bytes) (len : ℕ) (w w' : W)
      → Awaits cb h.session next received s
      → parse ptr len ≡ some (some h)
      → carries h ≡ true
      → process_packet s ptr len w ≡ some (true, t, w')
      → (t.expected_sequence ≡ next_expected next h)
        × (t.pending_gaps ≡ next_gaps next [] h)
        × (t.state ≡ next_state next SessionState.active [] h)
  unfolding process_packet
  process_packet-moves cb next received s t h ptr len w w' a p c e =
      rw (← a.expected, ← a.gaps)
        (process_parsed-Tracks s h ptr len w w' t a.own c
          (sym (ap (λ o. o >>= λ header. process_parsed s header ptr len w) p) ∙ e))

  Awaits-Admits :
      (cb : Bytes → ℕ → ℕ → W → Option W) (next received : ℕ) (s : Session W) (h : Header)
      → Awaits cb h.session next received s
      → Admits s h
  Awaits-Admits cb next received s h a = elim a.own [ inl new ↦ inl new | inr k ↦ inr k.1 ]

  module _ {κ} {X : Type κ} (enc : X → Bytes) (f : X → ℕ → W → Option W)
      (cb : Bytes → ℕ → ℕ → W → Option W) where
    -- One packet at the expected number, or after it.
    receive :
        (h : Header) (xs : List X) (next received : ℕ) (s : Session W) (w w' : W)
        → Announces enc h xs
        → All (ActsAs enc f cb) xs
        → received < word64
        → Awaits cb h.session next received s
        → replay f xs h.sequence_number w ≡ some w'
        → (t : Session W) × (process_packet s (packet_of enc h xs) (length (packet_of enc h xs)) w
            ≡ some (true, t, w'))
          × Tuned cb h.session (add64 received (length xs)) t
          × (t.expected_sequence ≡ next_expected next h)
          × (t.pending_gaps ≡ next_gaps next [] h)
          × (t.state ≡ next_state next SessionState.active [] h)
    receive h xs next received s w w' a acts r at e =
        let (t, done, tuned) =
          process_packet-replay enc f cb h xs a acts [] received r s w w' at.message at.gap
            at.counted (Awaits-Admits cb next received s h at) e in
        let whole =
          subst (λ p. process_packet s p (length (packet_of enc h xs)) w ≡ some (true, t, w'))
            (append-nil (packet_of enc h xs)) done in
        let parsed =
          subst (λ p. parse p (length (packet_of enc h xs)) ≡ some (some h))
            (append-nil (packet_of enc h xs)) (parse-packet_of enc h xs [] a) in
        let moved =
          process_packet-moves cb next received s t h _ _ w w' at parsed a.carried whole in
        (t, whole, tuned, moved.0, moved.1, moved.2)

    pub receive_in_order :
        (h : Header) (xs : List X) (next received : ℕ) (s : Session W) (w w' : W)
        → Announces enc h xs
        → All (ActsAs enc f cb) xs
        → received < word64
        → h.sequence_number ≡ next
        → next + length xs < word64
        → Awaits cb h.session next received s
        → replay f xs next w ≡ some w'
        → (t : Session W) × (process_packet s (packet_of enc h xs) (length (packet_of enc h xs)) w
            ≡ some (true, t, w'))
          × At cb h.session (next + length xs) [] (add64 received (length xs)) t
    receive_in_order h xs next received s w w' a acts r here fits at e =
        let (t, done, tuned, expected, gaps, state) =
          receive h xs next received s w w' a acts r at (rw here e) in
        let (expected', gaps', state') = in_order next h here (omega (arith, a.count)) in
        (
          t,
          done,
          record {
            tuned = tuned;
            expected = expected ∙ expected' ∙ ap (λ n. next + n) a.count;
            gaps = gaps ∙ gaps';
            state = state ∙ state';
          },
        )

    pub receive_ahead :
        (h : Header) (xs : List X) (next received : ℕ) (s : Session W) (w w' : W)
        → Announces enc h xs
        → All (ActsAs enc f cb) xs
        → received < word64
        → next < h.sequence_number
        → h.sequence_number + length xs < word64
        → Awaits cb h.session next received s
        → replay f xs h.sequence_number w ≡ some w'
        → (t : Session W) × (process_packet s (packet_of enc h xs) (length (packet_of enc h xs)) w
            ≡ some (true, t, w'))
          × At cb h.session
              (h.sequence_number + length xs)
              (lost next h.sequence_number)
              (add64 received (length xs))
              t
    receive_ahead h xs next received s w w' a acts r here fits at e =
        let (t, done, tuned, expected, gaps, state) =
          receive h xs next received s w w' a acts r at e in
        let (expected', gaps', state') = ahead next h here (omega (arith, a.count)) in
        (
          t,
          done,
          record {
            tuned = tuned;
            expected = expected ∙ expected' ∙ ap (λ n. h.sequence_number + n) a.count;
            gaps = gaps ∙ gaps';
            state = state ∙ state';
          },
        )
