-- ===== src/Mold/Session/Recovery.antt =====
-- How `Session` of include/moldudp64/session.hpp recovers from a jump ahead by retransmissions as the
-- MoldUDP64 document writes them.
use dpdk_itch5_feedhandler.Prelude.{
  ℕ, ◌+◌, ◌≤◌, ◌<◌, ◌^◌, ◌≡◌, refl, sym, ap, ◌∙◌, subst, append-nil, List, [], ◌∷◌, ◌++◌, true,
  false, Option, some, Bytes, All, length, length-append, if◌then◌else◌, ltb, ◌>>=◌, Option-cases,
  add64, sub64, word64, inl, inr, arith,
}
use dpdk_itch5_feedhandler.Mold.Header.{Header}
use dpdk_itch5_feedhandler.Mold.Gap.{Gap, check_gap_fill, fill_gap, keep, nonempty}
use dpdk_itch5_feedhandler.Mold.Session.{
  Session, SessionState, is_empty, is_healthy, process_packet, process_retransmission,
}
use dpdk_itch5_feedhandler.Mold.Session.Blocks.{blocks, packet_of, IsShort, ActsAs, replay}
use dpdk_itch5_feedhandler.Mold.Session.Delivery.{Announces, process_retransmission-replay}
use dpdk_itch5_feedhandler.Mold.Session.Steps.{lost, At, Awaits, replay-append, receive_ahead}

abbrev pub concat {ℓ} : {X : Type ℓ} → List (List X) → List X
concat [] = []
concat (xs ∷ xss) = xs ++ concat xss

-- What is left of the gap when the numbers below `start` have arrived.
abbrev left : ℕ → ℕ → List Gap
left start seq = if ltb start seq then lost start seq else []

check_gap_fill-left :
    (start seq n : ℕ)
    → 0 < n
    → start + n ≤ seq
    → seq < word64
    → check_gap_fill start (sub64 (add64 start n) 1) (left start seq) ≡ left (start + n) seq
unfolding check_gap_fill fill_gap keep nonempty
check_gap_fill-left start seq n h k b = ground arith

settled :
    (start seq n : ℕ) (now : SessionState)
    → now ≡ (if is_empty (left start seq) then SessionState.active else SessionState.stale)
    → (if is_empty (left (start + n) seq) then SessionState.active else now)
      ≡ (if is_empty (left (start + n) seq) then SessionState.active else SessionState.stale)
settled start seq n now e = ground arith

module _ {ℓ} {W : Type ℓ} where
  process_retransmission_fields :
      (s t : Session W) (start : ℕ) (ptr : Bytes) (len count : ℕ) (w w' : W)
      → process_retransmission s start ptr len count w ≡ some (t, w')
      → (t.expected_sequence ≡ s.expected_sequence)
        × (t.message_callback ≡ s.message_callback)
        × (t.gap_callback ≡ s.gap_callback)
        × (t.messages_received ≡ s.messages_received)
        × (t.session_id ≡ s.session_id)
        × (t.state ≡ (if is_empty t.pending_gaps then SessionState.active else s.state))
  unfolding process_retransmission
  process_retransmission_fields s t start ptr len count w w' e = ground arith

  module _ {κ} {X : Type κ} (enc : X → Bytes) (f : X → ℕ → W → Option W)
      (cb : Bytes → ℕ → ℕ → W → Option W) where
    -- Retransmissions of consecutive messages, one after the other, from `start` on.
    abbrev pub retransmit : Session W → ℕ → List (List X) → W → Option (Session W × W)
    retransmit s start [] w = some (s, w)
    retransmit s start (xs ∷ xss) w =
        process_retransmission s start (blocks enc xs) (length (blocks enc xs)) (length xs) w
        >>= λ r. retransmit r.0 (start + length xs) xss r.1

    -- A part that a retransmission can hold: some messages, and not too many.
    abbrev pub IsPart : List X → Type ℓ
    IsPart xs =
        (0 < length xs)
        × (length xs < 2 ^ 16)
        × All (λ x. IsShort (enc x)) xs
        × All (ActsAs enc f cb) xs

    retransmit_part :
        (id : Bytes) (xs : List X) (start seq next received : ℕ) (s : Session W) (w w' : W)
        → IsPart xs
        → start + length xs ≤ seq
        → seq < word64
        → At cb id next (left start seq) received s
        → replay f xs start w ≡ some w'
        → (t : Session W) × (process_retransmission s start
              (blocks enc xs)
              (length (blocks enc xs))
              (length xs)
              w
            ≡ some (t, w'))
          × At cb id next (left (start + length xs) seq) received t
    retransmit_part id xs start seq next received s w w' (some_, few, short, acts) h b at e =
        let (t, done, gaps) =
          process_retransmission-replay enc f cb xs acts [] start s w w' few short at.tuned.message
            e in
        let whole =
          subst
            (λ p.
              process_retransmission s start p (length (blocks enc xs)) (length xs) w
              ≡ some (t, w'))
            (append-nil (blocks enc xs)) done in
        let (expected, message, gap, counted, session, state) =
          process_retransmission_fields s t start _ _ _ w w' whole in
        let filled : t.pending_gaps ≡ left (start + length xs) seq =
          gaps
          ∙ ap (check_gap_fill start (sub64 (add64 start (length xs)) 1)) at.gaps
          ∙ check_gap_fill-left start seq (length xs) some_ h b in
        (
          t,
          whole,
          record {
            tuned = record {
              message = message ∙ at.tuned.message;
              gap = gap ∙ at.tuned.gap;
              counted = counted ∙ at.tuned.counted;
              session = session ∙ at.tuned.session;
            };
            expected = expected ∙ at.expected;
            gaps = filled;
            state =
                state
                ∙ ap (λ gs. if is_empty gs then SessionState.active else s.state) filled
                ∙ settled start seq (length xs) s.state at.state;
          },
        )

    retransmit_all :
        (id : Bytes) (xss : List (List X)) (start seq next received : ℕ) (s : Session W) (w w' : W)
        → All IsPart xss
        → start + length (concat xss) ≡ seq
        → seq < word64
        → At cb id next (left start seq) received s
        → replay f (concat xss) start w ≡ some w'
        → (t : Session W) × (retransmit s start xss w ≡ some (t, w')) × At cb id next [] received t
    retransmit_all id [] start seq next received s w w' parts total b at e = (
      s,
      ap (λ o. o >>= λ v. some (s, v)) e,
      subst (λ gs. At cb id next gs received s) none_left at,
    )
      where
        none_left : left start seq ≡ []
        none_left = ground arith
    retransmit_all id (xs ∷ xss) start seq next received s w w' parts total b at e =
        elim (Option-cases (replay f xs start w)) [
          | inl stop ↦ absurd (
              cc (
                sym (ap (λ k. k >>= λ v. replay f (concat xss) (add64 start (length xs)) v) stop)
                ∙ both))
          | inr (w1, first) ↦
              (let (t, done, at1) =
                  retransmit_part id xs start seq next received s w w1 parts.0
                    (omega (arith, total, length-append xs (concat xss))) b at first in
                let (u, rest, at2) =
                  retransmit_all id xss (start + length xs) seq next received t w1 w' parts.1
                    (omega (arith, total, length-append xs (concat xss))) b at1
                    (rw step (
                      sym (
                        ap (λ k. k >>= λ v. replay f (concat xss) (add64 start (length xs)) v)
                          first)
                      ∙ both)) in
                (u, rw (done, rest) refl, at2))
        ]
      where
        both :
            (replay f xs start w >>= λ v. replay f (concat xss) (add64 start (length xs)) v)
            ≡ some w'
        both = sym (replay-append f xs (concat xss) start w (omega (arith, total))) ∙ e

        step : start + length xs ≡ add64 start (length xs)
        step = omega (arith, total, length-append xs (concat xss))

    -- A session that is new or lacks nothing, given a packet that jumps ahead, and then the messages
    -- that were skipped by retransmissions, in order and in any parts, all as the document writes
    -- them: the packet's messages reach the callback at once and leave exactly the skipped numbers as
    -- a gap, the retransmissions bring it each skipped message with its number, in order, and the
    -- session is then healthy and expects the number after the packet's last. The callback does `f`
    -- on each message, whatever follows it, and returns; no gap callback is set, and the numbers fit
    -- 64 bits.
    pub process_retransmission_recovers :
        (h : Header) (xs : List X) (xss : List (List X)) (next received : ℕ) (s : Session W)
        (w w1 w2 : W)
        → Announces enc h xs
        → All (ActsAs enc f cb) xs
        → All IsPart xss
        → received < word64
        → next < h.sequence_number
        → h.sequence_number + length xs < word64
        → next + length (concat xss) ≡ h.sequence_number
        → Awaits cb h.session next received s
        → replay f xs h.sequence_number w ≡ some w1
        → replay f (concat xss) next w1 ≡ some w2
        → (t u : Session W) × (process_packet s (packet_of enc h xs) (length (packet_of enc h xs)) w
            ≡ some (true, t, w1))
          × (is_healthy t ≡ false)
          × (t.pending_gaps ≡ lost next h.sequence_number)
          × (retransmit t next xss w1 ≡ some (u, w2))
          × (is_healthy u ≡ true)
          × (u.expected_sequence ≡ h.sequence_number + length xs)
    unfolding is_healthy
    process_retransmission_recovers h xs xss next received s w w1 w2 a acts parts r jump fits total
          at e k =
        let (t, done, at1) =
          receive_ahead enc f cb h xs next received s w w1 a acts r jump fits at e in
        let gap : lost next h.sequence_number ≡ left next h.sequence_number = ground arith in
        let (u, rest, at2) =
          retransmit_all h.session xss next h.sequence_number (h.sequence_number + length xs)
            (add64 received (length xs)) t w1 w2 parts total (omega arith)
            (subst
              (λ gs.
                At cb h.session (h.sequence_number + length xs) gs (add64 received (length xs)) t)
              gap at1)
            k in
        (t, u, done, rw at1.state refl, at1.gaps, rest, rw (at2.state, at2.gaps) refl, at2.expected)
