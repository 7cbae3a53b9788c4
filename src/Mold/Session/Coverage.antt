-- ===== src/Mold/Session/Coverage.antt =====
-- Gap detection of `Session` in include/moldudp64/session.hpp, read as sets of sequence numbers.
use dpdk_itch5_feedhandler.Prelude.{
  ℕ, ◌+◌, ◌<◌, ◌≡◌, ◌∙◌, List, [], ◌∷◌, ◌++◌, Bool, true, false, not, ◌&&◌, ◌||◌, leb, ltb, add64,
  sub64, All, arith, inl, inr, Bool-cases,
}
use dpdk_itch5_feedhandler.Mold.Header.{Header, is_heartbeat}
use dpdk_itch5_feedhandler.Mold.Gap.{Gap}
use dpdk_itch5_feedhandler.Mold.Gap.Missing.{
  missing, in_range, Touches, IsGap, missing-check_gap_fill, missing-check_gap_fill_outside,
}
use dpdk_itch5_feedhandler.Mold.Session.Tracking.{carries, next_gaps, next_expected}
use dpdk_itch5_feedhandler.Mold.Session.Agreement.{Fits}

-- `x` is the number of one of the messages that the header announces.
unfoldable pub announces : Header → ℕ → Bool
announces h x = leb h.sequence_number x && ltb x (h.sequence_number + h.message_count)

-- The last number that `check_gap_fill` is given for the header.
abbrev pub last_of : Header → ℕ
last_of h = sub64 (add64 h.sequence_number h.message_count) 1

missing-append :
    (x : ℕ) (gs : List Gap) (g : Gap)
    → missing x (gs ++ g ∷ []) ≡ (missing x gs || in_range g.start g.end x)
unfolding missing
missing-append x [] g = ground arith
missing-append x (y ∷ gs) g = ground (arith, missing-append x gs g)

announces-in_range :
    (h : Header) (x : ℕ)
    → Fits h
    → carries h ≡ true
    → in_range h.sequence_number (last_of h) x ≡ announces h x
unfolding announces is_heartbeat
announces-in_range h x f c = ground arith

-- Ahead of the sequence the numbers that were skipped become missing; behind it, or in it, the
-- numbers that the packet announces no longer are.
pub missing-next_gaps :
    (expected : ℕ) (gs : List Gap) (h : Header) (x : ℕ)
    → Fits h
    → carries h ≡ true
    → All IsGap gs
    → All (Touches h.sequence_number (last_of h)) gs
    → (leb expected x ≡ true → missing x gs ≡ false)
    → missing x (next_gaps expected gs h)
      ≡ ((missing x gs || leb expected x && ltb x h.sequence_number) && not (announces h x))
unfolding next_gaps announces
missing-next_gaps expected gs h x f c v t b = elim (Bool-cases (ltb expected h.sequence_number)) [
  | inl ahead ↦ rw ahead (missing-append x gs _ ∙ ground arith)
  | inr no_gap ↦ elim (Bool-cases (ltb h.sequence_number expected)) [
    | inl behind ↦
        rw (no_gap, behind)
          (missing-check_gap_fill h.sequence_number (last_of h) f.first (omega arith) x gs v t
            ∙ rw (announces-in_range h x f c) (ground (arith, announces-in_range h x f c)))
    | inr same ↦ rw (no_gap, same) (ground arith)
  ]
]

-- A number below the new expected one is missing, was accounted for before, or is announced.
pub covered-next_gaps :
    (expected : ℕ) (gs : List Gap) (h : Header) (x : ℕ) (seen : Bool)
    → Fits h
    → carries h ≡ true
    → All IsGap gs
    → (x < expected → (missing x gs || seen) ≡ true)
    → x < next_expected expected h
    → (missing x (next_gaps expected gs h) || (seen || announces h x)) ≡ true
unfolding next_gaps next_expected announces
covered-next_gaps expected gs h x seen f c v b k =
    elim (Bool-cases (ltb expected h.sequence_number)) [
      | inl ahead ↦ rw (ahead, missing-append x gs _) (ground arith)
      | inr no_gap ↦ elim (Bool-cases (ltb h.sequence_number expected)) [
        | inl behind ↦
            rw (no_gap, behind)
              (elim (Bool-cases (announces h x)) [
                | inl told ↦ ground arith
                | inr untold ↦
                    rw
                      (missing-check_gap_fill_outside h.sequence_number (last_of h) f.first
                        (omega arith) x gs v (announces-in_range h x f c ∙ untold))
                      (ground arith)
              ])
        | inr same ↦ rw (no_gap, same) (ground arith)
      ]
    ]
