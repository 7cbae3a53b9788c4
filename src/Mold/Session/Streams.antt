-- ===== src/Mold/Session/Streams.antt =====
-- `Session::process_packet` of include/moldudp64/session.hpp on a stream of packets as the MoldUDP64
-- document writes them, in order.
use dpdk_itch5_feedhandler.Prelude.{
  ℕ, ◌+◌, ◌<◌, ◌≡◌, refl, sym, ap, ◌∙◌, subst₂, ◌&&◌, List, [], ◌∷◌, ◌++◌, Bool, true, Option, some,
  Bytes, All, length, length-append, map, ◌>>=◌, Option-cases, add64, word64, inl, inr, arith,
}
use dpdk_itch5_feedhandler.Mold.Header.{Header}
use dpdk_itch5_feedhandler.Mold.Session.{Session, is_healthy, process_packet}
use dpdk_itch5_feedhandler.Mold.Session.Blocks.{packet_of, ActsAs, replay}
use dpdk_itch5_feedhandler.Mold.Session.Delivery.{Announces}
use dpdk_itch5_feedhandler.Mold.Session.Steps.{
  At, Awaits, At-Awaits, replay-append, receive_in_order,
}

-- The messages of a list of packets, and the packets as the document writes them.
abbrev pub carried {ℓ} : {X : Type ℓ} → List (Header × List X) → List X
carried [] = []
carried ((h, xs) ∷ ps) = xs ++ carried ps

abbrev pub packets_of {ℓ} : {X : Type ℓ} → (X → Bytes) → List (Header × List X) → List Bytes
packets_of enc ps = map (λ p. packet_of enc p.0 p.1) ps

-- The packets carry consecutive messages from `next` on, of the session `id`.
abbrev pub IsStream {ℓ} : {X : Type ℓ} → (X → Bytes) → Bytes → ℕ → List (Header × List X) → Type 0
IsStream enc id next [] = Unit
IsStream enc id next ((h, xs) ∷ ps) =
    Announces enc h xs
    × (h.session ≡ id)
    × (h.sequence_number ≡ next)
    × (next + length xs < word64)
    × IsStream enc id (next + length xs) ps

module _ {ℓ} {W : Type ℓ} where
  -- The packets of a list, one after the other.
  abbrev pub process_packets : Session W → List Bytes → W → Option (Bool × Session W × W)
  process_packets s [] w = some (true, s, w)
  process_packets s (p ∷ ps) w = process_packet s p (length p) w >>= λ r.
      process_packets r.1 ps r.2 >>= λ t. some (r.0 && t.0, t.1, t.2)

  module _ {κ} {X : Type κ} (enc : X → Bytes) (f : X → ℕ → W → Option W)
      (cb : Bytes → ℕ → ℕ → W → Option W) where
    -- The first packet, and then whatever the others come to.
    first_in_order :
        (id : Bytes) (h : Header) (xs : List X) (ps : List (Header × List X)) (next received : ℕ)
        (s : Session W) (w w' : W)
        → IsStream enc id next ((h, xs) ∷ ps)
        → All (λ p. All (ActsAs enc f cb) p.1) ((h, xs) ∷ ps)
        → received < word64
        → Awaits cb id next received s
        → ((t : Session W) (w1 : W)
            → At cb id (next + length xs) [] (add64 received (length xs)) t
            → replay f (carried ps) (next + length xs) w1 ≡ some w'
            → (u : Session W) × (process_packets t (packets_of enc ps) w1 ≡ some (true, u, w'))
              × At cb id
                  (next + length xs + length (carried ps))
                  []
                  (add64 (add64 received (length xs)) (length (carried ps)))
                  u)
        → replay f (carried ((h, xs) ∷ ps)) next w ≡ some w'
        → (t : Session W) × (process_packets s (packets_of enc ((h, xs) ∷ ps)) w
            ≡ some (true, t, w'))
          × At cb id
              (next + length (carried ((h, xs) ∷ ps)))
              []
              (add64 received (length (carried ((h, xs) ∷ ps))))
              t
    first_in_order id h xs ps next received s w w' (a, own, here, fits, o) acts r at later e =
        elim (Option-cases (replay f xs next w)) [
          | inl stop ↦ absurd (cc (sym (ap others stop) ∙ both))
          | inr (w1, first) ↦
              (let (t, done, at1) =
                  receive_in_order enc f cb h xs next received s w w1 a acts.0 r here fits
                    (rw own at) first in
                let (u, rest, at2) =
                  later t w1 (rw (← own) at1) (rw step (sym (ap others first) ∙ both)) in
                (
                  u,
                  rw (done, rest) refl,
                  subst₂ (λ n k. At cb id n [] k u) (omega (arith, size)) (omega (arith, size)) at2,
                ))
        ]
      where
        others : Option W → Option W
        others k = k >>= λ v. replay f (carried ps) (add64 next (length xs)) v

        both : others (replay f xs next w) ≡ some w'
        both = sym (replay-append f xs (carried ps) next w (omega arith)) ∙ e

        step : next + length xs ≡ add64 next (length xs)
        step = omega arith

        size : length (carried ((h, xs) ∷ ps)) ≡ length xs + length (carried ps)
        size = length-append xs (carried ps)

    rest_in_order :
        (id : Bytes) (ps : List (Header × List X)) (next received : ℕ) (s : Session W) (w w' : W)
        → IsStream enc id next ps
        → All (λ p. All (ActsAs enc f cb) p.1) ps
        → received < word64
        → At cb id next [] received s
        → replay f (carried ps) next w ≡ some w'
        → (t : Session W) × (process_packets s (packets_of enc ps) w ≡ some (true, t, w'))
          × At cb id (next + length (carried ps)) [] (add64 received (length (carried ps))) t
    rest_in_order id [] next received s w w' o acts r at e = (
      s,
      ap (λ o. o >>= λ v. some (true, s, v)) e,
      subst₂ (λ n k. At cb id n [] k s) (omega arith) (omega arith) at,
    )
    rest_in_order id ((h, xs) ∷ ps) next received s w w' o acts r at e =
        first_in_order id h xs ps next received s w w' o acts r (At-Awaits cb id next received s at)
          (λ t w1.
            rest_in_order id ps (next + length xs) (add64 received (length xs)) t w1 w' o.4 acts.1
              (omega arith))
          e

    -- A session that is new or lacks nothing, given packets of consecutive messages from the expected
    -- number on, as the document writes them: every packet is accepted, the callback acts on all the
    -- messages in order with consecutive numbers, where it does `f` on each message, whatever
    -- follows it, and returns, and the session is then healthy, has counted each message, and expects
    -- the number after the last. No gap callback is set, and the numbers fit 64 bits.
    pub process_packets_in_order :
        (id : Bytes) (h : Header) (xs : List X) (ps : List (Header × List X)) (next received : ℕ)
        (s : Session W) (w w' : W)
        → IsStream enc id next ((h, xs) ∷ ps)
        → All (λ p. All (ActsAs enc f cb) p.1) ((h, xs) ∷ ps)
        → received < word64
        → Awaits cb id next received s
        → replay f (carried ((h, xs) ∷ ps)) next w ≡ some w'
        → let total = length (carried ((h, xs) ∷ ps)) in
          (t : Session W) × (process_packets s (packets_of enc ((h, xs) ∷ ps)) w
            ≡ some (true, t, w'))
          × (is_healthy t ≡ true)
          × (t.expected_sequence ≡ next + total)
          × (t.messages_received ≡ add64 received total)
    unfolding is_healthy
    process_packets_in_order id h xs ps next received s w w' o acts r a e =
        let (t, done, at) =
          first_in_order id h xs ps next received s w w' o acts r a
            (λ t w1. rest_in_order id ps _ _ t w1 w' o.4 acts.1 (omega arith)) e in
        (t, done, rw (at.state, at.gaps) refl, at.expected, at.tuned.counted)
