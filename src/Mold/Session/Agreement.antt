-- ===== src/Mold/Session/Agreement.antt =====
-- The gaps, the expected number and the state of `Session` in include/moldudp64/session.hpp keep in
-- order and in agreement as a header is processed.
use dpdk_itch5_feedhandler.Prelude.{
  ℕ, ◌+◌, ◌≤◌, ◌<◌, ◌≡◌, refl, List, [], ◌∷◌, ◌++◌, true, false, ltb, add64, sub64, word64, inl,
  inr, arith, Bool-cases, ltb→lt,
}
use dpdk_itch5_feedhandler.Mold.Header.{Header}
use dpdk_itch5_feedhandler.Mold.Gap.{Gap, check_gap_fill}
use dpdk_itch5_feedhandler.Mold.Gap.Ordered.{
  Ordered, Ordered-raise, Ordered-append, check_gap_fill-Ordered,
}
use dpdk_itch5_feedhandler.Mold.Session.{
  SessionState, unknown, active, stale, end_of_session, error, is_empty,
}
use dpdk_itch5_feedhandler.Mold.Session.Tracking.{next_gaps, next_expected, next_state}

-- No gap in a state that says so, and some gap in a stale one.
abbrev pub Agrees : SessionState → List Gap → Type 0
Agrees unknown gs = is_empty gs ≡ true
Agrees active gs = is_empty gs ≡ true
Agrees stale gs = is_empty gs ≡ false
Agrees end_of_session gs = Unit
Agrees error gs = Unit

-- The sequence numbers of the packet's messages fit 64 bits.
pub record Fits (h : Header) : Type 0 where
  pub first : h.sequence_number < word64
  pub last : h.sequence_number + h.message_count < word64

pub next_expected_bounds :
    (expected : ℕ) (h : Header)
    → Fits h
    → expected < word64
    → (expected ≤ next_expected expected h)
      × (h.sequence_number + h.message_count ≤ next_expected expected h)
      × (next_expected expected h < word64)
unfolding next_expected
next_expected_bounds expected h f b = ground arith

pub next_gaps-Ordered :
    (expected : ℕ) (gs : List Gap) (h : Header)
    → Fits h
    → expected < word64
    → Ordered 1 expected gs
    → Ordered 1 (next_expected expected h) (next_gaps expected gs h)
unfolding next_gaps
next_gaps-Ordered expected gs h f b o = elim (Bool-cases (ltb expected h.sequence_number)) [
  | inl ahead ↦ rw ahead (
      Ordered-raise 1 (sub64 h.sequence_number 1 + 1) _ _
        (omega (arith, next_expected_bounds expected h f b, ltb→lt _ _ ahead))
        (Ordered-append 1 expected gs _ o (omega arith) (omega (arith, ltb→lt _ _ ahead))))
  | inr no_gap ↦ elim (Bool-cases (ltb h.sequence_number expected)) [
    | inl behind ↦
        rw (no_gap, behind)
          (Ordered-raise 1 expected _ _ (next_expected_bounds expected h f b).0
            (check_gap_fill-Ordered h.sequence_number _ 1 expected gs f.first (omega arith) b o))
    | inr same ↦
        rw (no_gap, same) (Ordered-raise 1 expected _ _ (next_expected_bounds expected h f b).0 o)
  ]
]

is_empty-append : (gs : List Gap) (g : Gap) → is_empty (gs ++ g ∷ []) ≡ false
is_empty-append [] g = refl
is_empty-append (x ∷ gs) g = refl

pub is_empty-check_gap_fill :
    (start end : ℕ) (gs : List Gap)
    → is_empty gs ≡ true
    → is_empty (check_gap_fill start end gs) ≡ true
unfolding check_gap_fill
is_empty-check_gap_fill start end [] e = refl
is_empty-check_gap_fill start end (g ∷ gs) e = cc

pub next_state-Agrees :
    (expected : ℕ) (state : SessionState) (gs : List Gap) (h : Header)
    → Agrees state gs
    → Agrees (next_state expected state gs h) (next_gaps expected gs h)
unfolding next_state next_gaps
next_state-Agrees expected unknown gs h a = ground (
  arith,
  is_empty-append gs
      (record { start = expected; end = sub64 h.sequence_number 1; detected_at_ns = 0 }),
  is_empty-check_gap_fill h.sequence_number (sub64 (add64 h.sequence_number h.message_count) 1) gs,
)
next_state-Agrees expected _ gs h a = ground (
  arith,
  is_empty-append gs
      (record { start = expected; end = sub64 h.sequence_number 1; detected_at_ns = 0 }),
  is_empty-check_gap_fill h.sequence_number (sub64 (add64 h.sequence_number h.message_count) 1) gs,
)

pub check_gap_fill-Agrees :
    (start end : ℕ) (state : SessionState) (gs : List Gap)
    → Agrees state gs
    → is_empty (check_gap_fill start end gs) ≡ false
    → Agrees state (check_gap_fill start end gs)
check_gap_fill-Agrees start end stale gs a left = left
check_gap_fill-Agrees start end _ gs a left = ground (arith, is_empty-check_gap_fill start end gs)
