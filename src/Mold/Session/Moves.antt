-- ===== src/Mold/Session/Moves.antt =====
-- What a whole call of `Session::process_packet` of include/moldudp64/session.hpp does to the
-- sequence number and the gaps, on each of its paths.
use dpdk_itch5_feedhandler.Prelude.{
  ℕ, ◌≡◌, refl, ◌∙◌, ap, ap₂, sym, subst, inl, inr, Bool, true, false, Option, none, some, Bytes,
  inc64, arith, Bool-cases, Option-cases, some-inj,
}
use dpdk_itch5_feedhandler.Mold.Header.{Header, parse}
use dpdk_itch5_feedhandler.Mold.Session.{
  Session, check_session_id, process_header, process_parsed, process_packet,
}
use dpdk_itch5_feedhandler.Mold.Session.Tracking.{
  carries, next_gaps, next_expected, process_header-Tracks,
}

module _ {ℓ} {W : Type ℓ} where
  -- The tracked fields stay as they were.
  pub record Stays (s r : Session W) : Type ℓ where
    pub expected : r.expected_sequence ≡ s.expected_sequence
    pub gaps : r.pending_gaps ≡ s.pending_gaps

  -- They move as the header says.
  pub record Follows (s : Session W) (h : Header) (r : Session W) : Type ℓ where
    pub expected : r.expected_sequence ≡ next_expected s.expected_sequence h
    pub gaps : r.pending_gaps ≡ next_gaps s.expected_sequence s.pending_gaps h

  -- A call either leaves them alone, or accepts a packet that carries messages.
  pub data Moves (s : Session W) (ptr : Bytes) (len : ℕ) (accepted : Bool) (r : Session W)
      : Type ℓ where
    stays :
        Stays s r
        → ((h : Header) → accepted ≡ true → parse ptr len ≡ some (some h) → carries h ≡ false)
        → Moves s ptr len accepted r
    follows :
        (h : Header)
        → parse ptr len ≡ some (some h)
        → carries h ≡ true
        → accepted ≡ true
        → Follows s h r
        → Moves s ptr len accepted r

  special-Stays :
      (s : Session W) (h : Header) (ptr : Bytes) (len : ℕ) (w : W) {r : Bool × Session W × W}
      → carries h ≡ false
      → process_header s h ptr len w ≡ some r
      → Stays s r.1
  unfolding process_header
  special-Stays s h ptr len w c e = ground arith

  check_session_id-Stays : (s : Session W) (h : Header) → Stays s (check_session_id s h).0
  unfolding check_session_id
  check_session_id-Stays s h = ground arith

  header-Moves :
      (s : Session W) (h : Header) (ptr : Bytes) (len : ℕ) (w : W) {r : Bool × Session W × W}
      → parse ptr len ≡ some (some h)
      → process_header s h ptr len w ≡ some r
      → Moves s ptr len r.0 r.1
  header-Moves s h ptr len w p e = elim (Bool-cases (carries h)) [
    | inl c ↦
        (let t = process_header-Tracks s h ptr len w c e in
          follows h p c t.0 (record { expected = t.1.expected; gaps = t.1.gaps }))
    | inr special ↦ stays (special-Stays s h ptr len w special e) (λ k a q.
        subst (λ (t : Header). carries t ≡ false) (some-inj (some-inj (sym p ∙ q))) special)
  ]

  -- The counter and the check of the session id come before, and leave the tracked fields alone.
  after_check :
      {s t r : Session W} {ptr : Bytes} {len : ℕ} {accepted : Bool}
      → Stays s t
      → Moves t ptr len accepted r
      → Moves s ptr len accepted r
  after_check q (stays k quiet) =
      stays (record { expected = k.expected ∙ q.expected; gaps = k.gaps ∙ q.gaps }) quiet
  after_check q (follows h p c a f) = follows h p c a (record {
    expected = f.expected ∙ ap (λ k. next_expected k h) q.expected;
    gaps = f.gaps ∙ ap₂ (λ k gs. next_gaps k gs h) q.expected q.gaps;
  })

  parsed-Moves :
      (s : Session W) (o : Option Header) (ptr : Bytes) (len : ℕ) (w : W) {r : Bool × Session W × W}
      → parse ptr len ≡ some o
      → process_parsed s o ptr len w ≡ some r
      → Moves s ptr len r.0 r.1
  unfolding process_parsed
  parsed-Moves s (some h) ptr len w {r} p e =
      let s0 : Session W = record s { packets_received = inc64 s.packets_received } in
      let same : Stays s s0 = record { expected = refl; gaps = refl } in
      after_check same (
        after_check (check_session_id-Stays s0 h) (elim (Bool-cases (check_session_id s0 h).1) [
          | inl known ↦ header-Moves (check_session_id s0 h).0 h ptr len w p (rw known at e)
          | inr foreign ↦ stays (unchanged (some-inj (rw foreign at e))) (λ k a q.
              absurd (cc (ap (λ (t : Bool × Session W × W). t.0) (some-inj (rw foreign at e)), a)))
        ]))
    where
      unchanged :
          {t : Session W} {w' : W} {b : Bool} {r : Bool × Session W × W}
          → ◌≡◌ {A = Bool × Session W × W} (b, t, w') r
          → Stays t r.1
      unchanged {t} q = record {
        expected = ap (λ k. k.1.expected_sequence) (sym q);
        gaps = ap (λ k. k.1.pending_gaps) (sym q);
      }
  parsed-Moves s none ptr len w {r} p e =
      stays
        (record {
          expected = ap (λ k. k.1.expected_sequence) (sym (some-inj e));
          gaps = ap (λ k. k.1.pending_gaps) (sym (some-inj e));
        })
        (λ h a q. absurd (cc (some-inj (sym p ∙ q))))

  pub process_packet-Moves :
      (s : Session W) (ptr : Bytes) (len : ℕ) (w : W) {r : Bool × Session W × W}
      → process_packet s ptr len w ≡ some r
      → Moves s ptr len r.0 r.1
  unfolding process_packet
  process_packet-Moves s ptr len w e = elim (Option-cases (parse ptr len)) [
    | inl short ↦ absurd (cc (rw short at e))
    | inr (o, p) ↦ parsed-Moves s o ptr len w p (rw p at e)
  ]
