-- ===== src/Mold/Session/Delivery.antt =====
-- `Session::process_packet` of include/moldudp64/session.hpp on a packet as the MoldUDP64 document
-- writes it: which messages the callback is given.
use dpdk_itch5_feedhandler.Prelude.{
  ℕ, ◌+◌, ◌^◌, ◌<◌, ◌≡◌, refl, ap, ◌∙◌, ◌⊎◌, List, [], ◌∷◌, ◌++◌, true, false, Option, none, some,
  Bytes, All, length, length-append, append_assoc, if◌then◌else◌, ◌>>=◌, add64, sub64, inc64,
  word64, same_bytes, ==_iff, arith,
}
use dpdk_itch5_feedhandler.Common.Endian.Laws.{be, length-be}
use dpdk_itch5_feedhandler.Mold.Header.{Header, parse, is_heartbeat, is_end_of_session}
use dpdk_itch5_feedhandler.Mold.Header.Wire.{wire, parse-wire}
use dpdk_itch5_feedhandler.Mold.Gap.{Gap, check_gap_fill}
use dpdk_itch5_feedhandler.Mold.Session.{
  Session, SessionState, check_session_id, check_gaps, notify_gap, deliver_messages,
  deliver_or_count, process_messages, reprocess_messages, process_retransmission, is_empty, advance,
  process_header, process_parsed, process_packet,
}
use dpdk_itch5_feedhandler.Mold.Session.Tracking.{carries}
use dpdk_itch5_feedhandler.Mold.Session.Blocks.{
  blocks, packet_of, IsShort, length-blocks-le, ActsAs, replay, deliver_messages-replay,
  redeliver_messages-replay,
}

-- The session takes the packet as its own: it is new, or the id is the one that it has.
abbrev pub Admits {ℓ} : {W : Type ℓ} → Session W → Header → Type 0
Admits s h = (s.state ≡ SessionState.unknown) ⊎ (s.session_id ≡ h.session)

-- A header that the document can write for these messages, of a packet that carries messages.
pub record Announces {ℓ} {X : Type ℓ} (enc : X → Bytes) (h : Header) (xs : List X) : Type 0 where
  pub session : length h.session ≡ 10
  pub sequence : h.sequence_number < 2 ^ 64
  pub count : h.message_count ≡ length xs
  pub few : length xs < 2 ^ 16
  pub short : All (λ x. IsShort (enc x)) xs
  pub carried : carries h ≡ true

length-wire : (h : Header) → length h.session ≡ 10 → length (wire h) ≡ 20
length-wire h e = omega (
  arith,
  length-append h.session (be 8 h.sequence_number ++ be 2 h.message_count),
  length-append (be 8 h.sequence_number) (be 2 h.message_count),
  length-be 8 h.sequence_number,
  length-be 2 h.message_count,
)

pub parse-packet_of {ℓ} :
    {X : Type ℓ} (enc : X → Bytes) (h : Header) (xs : List X) (rest : Bytes)
    → Announces enc h xs
    → parse (packet_of enc h xs ++ rest) (length (packet_of enc h xs)) ≡ some (some h)
parse-packet_of enc h xs rest a =
    ap (λ p. parse p (length (packet_of enc h xs))) (append_assoc (wire h) (blocks enc xs) rest)
    ∙ parse-wire h (blocks enc xs ++ rest) _ a.session a.sequence (omega (arith, a.count, a.few))
        (omega (arith, length-append (wire h) (blocks enc xs), length-wire h a.session))

pub same_bytes_refl : (p : Bytes) → same_bytes p p ≡ true
unfolding same_bytes
same_bytes_refl [] = refl
same_bytes_refl (b ∷ p) = rw ((==_iff b b).1 refl, same_bytes_refl p)

module _ {ℓ} {W : Type ℓ} where
  pub check_session_id-Admits :
      (s : Session W) (h : Header) → Admits s h → (check_session_id s h).1 ≡ true
  unfolding check_session_id
  check_session_id-Admits s h a = ground (arith, same_bytes_refl h.session)

  -- A session that follows the session `id`, gives its messages to `cb`, and has counted `received` of
  -- them. No gap callback is set.
  pub record Tuned (cb : Bytes → ℕ → ℕ → W → Option W) (id : Bytes) (received : ℕ) (s : Session W)
      : Type ℓ where
    pub message : s.message_callback ≡ some cb
    pub gap : s.gap_callback ≡ none
    pub counted : s.messages_received ≡ received
    pub session : s.session_id ≡ id

  check_session_id-Tuned :
      (cb : Bytes → ℕ → ℕ → W → Option W) (received : ℕ) (s : Session W) (h : Header)
      → s.message_callback ≡ some cb
      → s.gap_callback ≡ none
      → s.messages_received ≡ received
      → Admits s h
      → Tuned cb h.session received (check_session_id s h).0
  unfolding check_session_id
  check_session_id-Tuned cb received s h message gap counted own =
      ground (arith, same_bytes_refl h.session)

  advance-Tuned :
      (cb : Bytes → ℕ → ℕ → W → Option W) (id : Bytes) (received : ℕ) (s : Session W) (h : Header)
      → Tuned cb id received s
      → Tuned cb id received (advance s h)
  unfolding advance
  advance-Tuned cb id received s h k = ground arith

  check_gaps-Tuned :
      (cb : Bytes → ℕ → ℕ → W → Option W) (id : Bytes) (received : ℕ) (s : Session W) (h : Header)
      (w : W)
      → Tuned cb id received s
      → Tuned cb id received (check_gaps s h w).0 × ((check_gaps s h w).1 ≡ w)
  unfolding check_gaps notify_gap
  check_gaps-Tuned cb id received s h w k = (ground arith, ground arith)

  module _ {κ} {X : Type κ} (enc : X → Bytes) (f : X → ℕ → W → Option W)
      (cb : Bytes → ℕ → ℕ → W → Option W) (h : Header) (xs : List X) (a : Announces enc h xs)
      (acts : All (ActsAs enc f cb) xs) (rest : Bytes) (received : ℕ) (r : received < word64) where
    process_messages-replay :
        (s : Session W) (w w' : W)
        → Tuned cb h.session received s
        → replay f xs h.sequence_number w ≡ some w'
        → process_messages s h (packet_of enc h xs ++ rest) (length (packet_of enc h xs)) w
          ≡ some (record s { messages_received = add64 received (length xs) }, w')
    unfolding process_messages deliver_or_count
    process_messages-replay s w w' k e =
        ap (λ o. o >>= λ n. some (record s { messages_received = n.0 }, n.1))
          (ap (λ cb. deliver_or_count cb h ptr len s.messages_received w) k.message
            ∙ ap (λ n. deliver_or_count (some cb) h ptr len n w) k.counted
            ∙ ap (λ n. deliver_messages cb n ptr len 20 h.sequence_number received w) a.count
            ∙ deliver_messages-replay enc f cb xs (wire h) rest ptr len 20 h.sequence_number
                received w a.short acts (append_assoc (wire h) (blocks enc xs) rest)
                (omega (arith, header_size)) whole small r
            ∙ ap (λ o. o >>= λ v. some (add64 received (length xs), v)) e)
      where
        ptr : Bytes
        ptr = packet_of enc h xs ++ rest

        len : ℕ
        len = length (packet_of enc h xs)

        header_size : length (wire h) ≡ 20
        header_size = length-wire h a.session

        whole : len ≡ 20 + length (blocks enc xs)
        whole = omega (arith, length-append (wire h) (blocks enc xs), header_size)

        small : len < 2 ^ 63
        small = omega (arith, whole, length-blocks-le enc xs a.short, a.few)

    process_header-replay :
        (s : Session W) (w w' : W)
        → Tuned cb h.session received s
        → replay f xs h.sequence_number w ≡ some w'
        → (t : Session W) × (process_header s h
              (packet_of enc h xs ++ rest)
              (length (packet_of enc h xs))
              w
            ≡ some (true, t, w'))
          × Tuned cb h.session (add64 received (length xs)) t
    unfolding process_header
    process_header-replay s w w' k e =
        let g = check_gaps-Tuned cb h.session received s h w k in
        (
          advance (record (check_gaps s h w).0 { messages_received = add64 received (length xs) })
              h,
          rw (no_heartbeat, no_end, g.1, process_messages-replay (check_gaps s h w).0 w w' g.0 e)
              refl,
          advance-Tuned cb h.session (add64 received (length xs)) _ h (record {
            message = g.0.message;
            gap = g.0.gap;
            counted = refl;
            session = g.0.session;
          }),
        )
      where
        no_heartbeat : is_heartbeat h ≡ false
        no_heartbeat = ground (arith, a.carried)

        no_end : is_end_of_session h ≡ false
        no_end = ground (arith, a.carried)

    -- A packet as the document writes it, whatever memory follows it, of a session that takes it as
    -- its own: the call accepts it and acts on each of its messages in order, with consecutive
    -- sequence numbers, and counts them, and the session follows the packet's. The callback does `f` on
    -- each message, whatever follows it, and returns; no gap callback is set.
    pub process_packet-replay :
        (s : Session W) (w w' : W)
        → s.message_callback ≡ some cb
        → s.gap_callback ≡ none
        → s.messages_received ≡ received
        → Admits s h
        → replay f xs h.sequence_number w ≡ some w'
        → (t : Session W) × (process_packet s
              (packet_of enc h xs ++ rest)
              (length (packet_of enc h xs))
              w
            ≡ some (true, t, w'))
          × Tuned cb h.session (add64 received (length xs)) t
    unfolding process_packet process_parsed
    process_packet-replay s w w' message gap counted own e =
        let s0 : Session W = record s { packets_received = inc64 s.packets_received } in
        let (t, done, n) =
          process_header-replay (check_session_id s0 h).0 w w'
            (check_session_id-Tuned cb received s0 h message gap counted own) e in
        (t, rw (parse-packet_of enc h xs rest a, check_session_id-Admits s0 h own, done) refl, n)

  module _ {κ} {X : Type κ} (enc : X → Bytes) (f : X → ℕ → W → Option W)
      (cb : Bytes → ℕ → ℕ → W → Option W) (xs : List X) (acts : All (ActsAs enc f cb) xs) where
    -- A retransmission of messages from `start_seq` on, as the document writes them, whatever memory
    -- follows: the callback acts on each of them in order, with the numbers from `start_seq` on,
    -- where it does `f` on each message, whatever follows it, and returns; and what it covers is
    -- taken from the pending gaps.
    pub process_retransmission-replay :
        (rest : Bytes) (start_seq : ℕ) (s : Session W) (w w' : W)
        → length xs < 2 ^ 16
        → All (λ x. IsShort (enc x)) xs
        → s.message_callback ≡ some cb
        → replay f xs start_seq w ≡ some w'
        → (t : Session W) × (process_retransmission s start_seq
              (blocks enc xs ++ rest)
              (length (blocks enc xs))
              (length xs)
              w
            ≡ some (t, w'))
          × (t.pending_gaps
              ≡ check_gap_fill start_seq (sub64 (add64 start_seq (length xs)) 1) s.pending_gaps)
    unfolding process_retransmission reprocess_messages
    process_retransmission-replay rest start_seq s w w' few short message e =
        (settled, ap (λ o. o >>= λ v. some (settled, v)) sent, ground arith)
      where
        gaps : List Gap
        gaps = check_gap_fill start_seq (sub64 (add64 start_seq (length xs)) 1) s.pending_gaps

        settled : Session W
        settled =
            if is_empty gaps
            then record s { pending_gaps = gaps; state = SessionState.active }
            else record s { pending_gaps = gaps }

        sent :
            reprocess_messages s.message_callback start_seq
              (blocks enc xs ++ rest)
              (length (blocks enc xs))
              (length xs)
              w
            ≡ some w'
        sent =
            ap
              (λ o.
                reprocess_messages o start_seq (blocks enc xs ++ rest) (length (blocks enc xs))
                  (length xs) w)
              message
            ∙ redeliver_messages-replay enc f cb xs [] rest (blocks enc xs ++ rest)
                (length (blocks enc xs)) 0 start_seq w short acts refl refl (omega arith)
                (omega (arith, length-blocks-le enc xs short))
            ∙ e
