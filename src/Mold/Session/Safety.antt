-- ===== src/Mold/Session/Safety.antt =====
-- `Session` of include/moldudp64/session.hpp reads no byte past its packet.
use dpdk_itch5_feedhandler.Prelude.{
  ℕ, zero, suc, ◌^◌, ◌≤◌, ◌<◌, ◌≡◌, ◌≢◌, refl, sym, ◌∙◌, Bool, true, false, Option, none, some,
  Bytes, AreBytes, Post, bind-Post, if-Post, if_holds, length, drop, length-drop, All-drop, ltb,
  add64, inc64, ltb→le, subst, arith,
}
use dpdk_itch5_feedhandler.Mold.Header.{Header, is_heartbeat, is_end_of_session}
use dpdk_itch5_feedhandler.Mold.Header.Wire.{parse_returns, read_message_length_returns}
use dpdk_itch5_feedhandler.Mold.Gap.{Gap}
use dpdk_itch5_feedhandler.Mold.Session.{
  Session, SessionState, check_session_id, check_gaps, deliver_messages, deliver_or_count,
  process_messages, advance, process_header, process_parsed, process_packet, notify_gap,
}

module _ {ℓ κ} {W : Type ℓ} (J : W → Type κ) where
  -- A message callback that returns on readable memory, and keeps the invariant `J` of its state.
  abbrev pub KeepsMessage : Option (Bytes → ℕ → ℕ → W → Option W) → Type (ℓ ⊔ κ)
  KeepsMessage none = Unit
  KeepsMessage (some cb) =
      (p : Bytes) (n seq : ℕ) (w : W)
      → n ≤ length p
      → AreBytes p
      → J w
      → (w' : W) × (cb p n seq w ≡ some w') × J w'

  module _ (cb : Bytes → ℕ → ℕ → W → Option W) (keep : KeepsMessage (some cb)) (ptr : Bytes)
      (len : ℕ) (bytes : AreBytes ptr) (readable : len ≤ length ptr) (small : len < 2 ^ 63) where
    -- The loop over the messages returns: it checks each length before it reads.
    deliver_messages_returns :
        (left offset seq received : ℕ) (w : W)
        → offset ≤ len
        → J w
        → Post (λ r. J r.1) (deliver_messages cb left ptr len offset seq received w)
    unfolding deliver_messages
    deliver_messages_returns zero offset seq received w h j = ((received, w), refl, j)
    deliver_messages_returns (suc left) offset seq received w h j =
        if-Post _ (ltb len (add64 offset 2)) (λ cut. ((received, w), refl, j))
          λ room.
            bind-Post _ _
              (read_message_length_returns (drop offset ptr) (All-drop _ offset ptr bytes)
                (omega (arith, length-drop offset ptr, ltb→le _ _ room)))
              λ n below.
                if-Post _ (ltb len (add64 (add64 offset 2) n)) (λ past. ((received, w), refl, j))
                  λ fits.
                    bind-Post _ _
                      (keep (drop (add64 offset 2) ptr) n seq w
                        (omega (
                          arith,
                          length-drop (add64 offset 2) ptr,
                          ltb→le _ _ room,
                          ltb→le _ _ fits,
                        ))
                        (All-drop _ (add64 offset 2) ptr bytes) j)
                      λ w' j'.
                        deliver_messages_returns left (add64 (add64 offset 2) n) (inc64 seq)
                          (inc64 received) w' (ltb→le _ _ fits) j'

  -- A gap callback that keeps the invariant.
  abbrev pub KeepsGap : Option (Gap → W → W) → Type (ℓ ⊔ κ)
  KeepsGap none = Unit
  KeepsGap (some cb) = (g : Gap) (w : W) → J w → J (cb g w)

  notify_gap_keeps :
      (o : Option (Gap → W → W)) (g : Gap) (w : W) → KeepsGap o → J w → J (notify_gap o g w)
  unfolding notify_gap
  notify_gap_keeps none g w k j = j
  notify_gap_keeps (some cb) g w k j = k g w j

module _ {ℓ} {W : Type ℓ} where
  -- The callbacks stay as they are.
  pub record Wired (s r : Session W) : Type ℓ where
    pub message : r.message_callback ≡ s.message_callback
    pub gap : r.gap_callback ≡ s.gap_callback

  Wired-trans : {s t r : Session W} → Wired s t → Wired t r → Wired s r
  Wired-trans a b = record { message = b.message ∙ a.message; gap = b.gap ∙ a.gap }

  check_gaps-Wired : (s : Session W) (h : Header) (w : W) → Wired s (check_gaps s h w).0
  unfolding check_gaps
  check_gaps-Wired s h w = ground arith

  advance-Wired : (s : Session W) (h : Header) → Wired s (advance s h)
  unfolding advance
  advance-Wired s h = ground arith

  check_session_id-Wired : (s : Session W) (h : Header) → Wired s (check_session_id s h).0
  unfolding check_session_id
  check_session_id-Wired s h = ground arith

module _ {ℓ κ} {W : Type ℓ} (J : W → Type κ) (ptr : Bytes) (len : ℕ) (bytes : AreBytes ptr)
    (readable : len ≤ length ptr) (small : len < 2 ^ 63) where
  check_gaps_keeps :
      (s : Session W) (h : Header) (w : W)
      → KeepsGap J s.gap_callback
      → J w
      → J (check_gaps s h w).1
  unfolding check_gaps
  check_gaps_keeps s h w k j =
      if_holds {A = Session W × W} (λ t. J t.1) (ltb s.expected_sequence h.sequence_number)
        (notify_gap_keeps J s.gap_callback _ w k j)
        (if_holds {A = Session W × W} (λ t. J t.1) (ltb h.sequence_number s.expected_sequence) j j)

  bind-Wired :
      (s t : Session W) {m : Option (Bool × Session W × W)}
      → Wired s t
      → Post (λ r. Wired t r.1 × J r.2) m
      → Post (λ r. Wired s r.1 × J r.2) m
  bind-Wired s t q (r, e, p) = (r, e, (Wired-trans q p.0, p.1))

  deliver_or_count_returns :
      (o : Option (Bytes → ℕ → ℕ → W → Option W)) (h : Header) (received : ℕ) (w : W)
      → KeepsMessage J o
      → 20 ≤ len
      → J w
      → Post (λ r. J r.1) (deliver_or_count o h ptr len received w)
  unfolding deliver_or_count
  deliver_or_count_returns none h received w k fits j = ((_, w), refl, j)
  deliver_or_count_returns (some cb) h received w k fits j =
      deliver_messages_returns J cb k ptr len bytes readable small h.message_count 20
        h.sequence_number received w fits j

  process_messages_returns :
      (s : Session W) (h : Header) (w : W)
      → KeepsMessage J s.message_callback
      → 20 ≤ len
      → J w
      → Post (λ r. Wired s r.0 × J r.1) (process_messages s h ptr len w)
  unfolding process_messages
  process_messages_returns s h w k fits j =
      bind-Post _ _ (deliver_or_count_returns s.message_callback h s.messages_received w k fits j)
        λ r j'. (
          (record s { messages_received = r.0 }, r.1),
          refl,
          (record { message = refl; gap = refl }, j'),
        )

  process_header_returns :
      (s : Session W) (h : Header) (w : W)
      → KeepsMessage J s.message_callback
      → KeepsGap J s.gap_callback
      → 20 ≤ len
      → J w
      → Post (λ r. Wired s r.1 × J r.2) (process_header s h ptr len w)
  unfolding process_header
  process_header_returns s h w k g fits j =
      if-Post _ (is_heartbeat h)
        (λ _. (
          (true, record s { heartbeats_received = inc64 s.heartbeats_received }, w),
          refl,
          (record { message = refl; gap = refl }, j),
        ))
        λ _.
          if-Post _ (is_end_of_session h)
            (λ _. (
              (true, record s { state = SessionState.end_of_session }, w),
              refl,
              (record { message = refl; gap = refl }, j),
            ))
            λ _.
              (let wired = check_gaps-Wired s h w in
                bind-Post _ _
                  (process_messages_returns (check_gaps s h w).0 h (check_gaps s h w).1
                    (subst (KeepsMessage J) (sym wired.message) k) fits
                    (check_gaps_keeps s h w g j))
                  λ r p. (
                    (true, advance r.0 h, r.1),
                    refl,
                    (Wired-trans wired (Wired-trans p.0 (advance-Wired r.0 h)), p.1),
                  ))

  process_parsed_returns :
      (s : Session W) (o : Option Header) (w : W)
      → KeepsMessage J s.message_callback
      → KeepsGap J s.gap_callback
      → (o ≢ none → 20 ≤ len)
      → J w
      → Post (λ r. Wired s r.1 × J r.2) (process_parsed s o ptr len w)
  unfolding process_parsed
  process_parsed_returns s none w k g fits j =
      ((false, s, w), refl, (record { message = refl; gap = refl }, j))
  process_parsed_returns s (some h) w k g fits j =
      let s0 : Session W = record s { packets_received = inc64 s.packets_received } in
      let same : Wired s s0 = record { message = refl; gap = refl } in
      let wired = Wired-trans same (check_session_id-Wired s0 h) in
      let s1 = (check_session_id s0 h).0 in
      if-Post _ (check_session_id s0 h).1
        (λ _. bind-Wired s s1 wired (
          process_header_returns s1 h w (subst (KeepsMessage J) (sym wired.message) k)
            (subst (KeepsGap J) (sym wired.gap) g) (fits (λ e. cc e)) j))
        λ _. ((false, s1, w), refl, (wired, j))

  -- On a readable buffer of bytes a call returns: it reads no byte past the packet, whatever the
  -- packet says of its messages, keeps the callbacks and keeps the invariant of their state.
  pub process_packet_returns :
      (s : Session W) (w : W)
      → KeepsMessage J s.message_callback
      → KeepsGap J s.gap_callback
      → J w
      → Post (λ r. Wired s r.1 × J r.2) (process_packet s ptr len w)
  unfolding process_packet
  process_packet_returns s w k g j =
      bind-Post _ _ (parse_returns ptr len bytes readable)
        λ o long. process_parsed_returns s o w k g long j
