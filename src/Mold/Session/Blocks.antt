-- ===== src/Mold/Session/Blocks.antt =====
-- The message loops of include/moldudp64/session.hpp on messages as the MoldUDP64 document writes them,
-- each with its length in front.
use dpdk_itch5_feedhandler.Prelude.{
  ℕ, suc, ◌+◌, ◌*◌, ◌^◌, ◌≤◌, ◌<◌, ◌≡◌, refl, sym, ap, ◌∙◌, inl, inr, List, [], ◌∷◌, ◌++◌, true,
  false, Option, some, Bytes, All, length, drop, length-append, drop-append_of_length, append_assoc,
  ltb, ◌>>=◌, le→ltb, lt→ltb, add64, inc64, word64, Option-cases, arith,
}
use dpdk_itch5_feedhandler.Common.Endian.Laws.{be, length-be}
use dpdk_itch5_feedhandler.Common.Endian.Reads.{read_be-be}
use dpdk_itch5_feedhandler.Mold.Header.{Header, read_message_length}
use dpdk_itch5_feedhandler.Mold.Header.Wire.{wire}
use dpdk_itch5_feedhandler.Mold.Session.{deliver_messages, redeliver_messages}

-- A message with its length in front, and the messages `enc x` of a packet one behind the other.
abbrev pub block : Bytes → Bytes
block m = be 2 (length m) ++ m

abbrev pub blocks {ℓ} : {X : Type ℓ} → (X → Bytes) → List X → Bytes
blocks enc [] = []
blocks enc (x ∷ xs) = block (enc x) ++ blocks enc xs

abbrev pub packet_of {ℓ} : {X : Type ℓ} → (X → Bytes) → Header → List X → Bytes
packet_of enc h xs = wire h ++ blocks enc xs

-- A length that the two bytes of the prefix can say.
abbrev pub IsShort : Bytes → Type 0
IsShort m = length m < 2 ^ 16

pub length-block : (m : Bytes) → length (block m) ≡ length m + 2
length-block m = omega (arith, length-append (be 2 (length m)) m, length-be 2 (length m))

pub length-blocks-le {ℓ} :
    {X : Type ℓ} (enc : X → Bytes) (xs : List X)
    → All (λ x. IsShort (enc x)) xs
    → length (blocks enc xs) ≤ 65538 * length xs
length-blocks-le enc [] h = omega arith
length-blocks-le enc (x ∷ xs) h = omega (
  arith,
  length-append (block (enc x)) (blocks enc xs),
  length-block (enc x),
  length-blocks-le enc xs h.1,
)

-- A block behind `pre` and before `rest`, by its parts.
module _ (pre m tail ptr : Bytes) (offset : ℕ) (e : ptr ≡ pre ++ (block m ++ tail))
    (o : offset ≡ length pre) (h : IsShort m) (small : offset + (length m + 2) < 2 ^ 63) where
  at_prefix : ptr ≡ pre ++ (be 2 (length m) ++ (m ++ tail))
  at_prefix = e ∙ ap (λ p. pre ++ p) (append_assoc (be 2 (length m)) m tail)

  pub drop-prefix : drop offset ptr ≡ be 2 (length m) ++ (m ++ tail)
  drop-prefix = ap (drop offset) at_prefix ∙ drop-append_of_length offset pre _ (sym o)

  read_prefix : read_message_length (drop offset ptr) ≡ some (length m)
  unfolding read_message_length
  read_prefix = rw drop-prefix (read_be-be (length m) 0 (m ++ tail) h (omega arith)).0

  pub drop-body : drop (add64 offset 2) ptr ≡ m ++ tail
  drop-body =
      ap (drop (add64 offset 2)) (at_prefix ∙ sym (append_assoc pre (be 2 (length m)) (m ++ tail)))
      ∙ drop-append_of_length (add64 offset 2) (pre ++ be 2 (length m)) (m ++ tail)
          (omega (arith, length-append pre (be 2 (length m)), length-be 2 (length m)))

  pub at_next : ptr ≡ (pre ++ block m) ++ tail
  at_next = e ∙ sym (append_assoc pre (block m) tail)

  pub next_offset : add64 (add64 offset 2) (length m) ≡ length (pre ++ block m)
  next_offset = omega (arith, length-append pre (block m), length-block m)

-- The contents `x` acted on one by one, in order, with consecutive sequence numbers.
abbrev pub replay {ℓ κ} :
    {X : Type ℓ} {W : Type κ} → (X → ℕ → W → Option W) → List X → ℕ → W → Option W
replay f [] seq w = some w
replay f (x ∷ xs) seq w = f x seq w >>= λ w'. replay f xs (inc64 seq) w'

-- On the message of `x` in memory the callback does what `f` does with `x`, whatever follows it.
abbrev pub ActsAs {ℓ κ} :
    {X : Type ℓ} {W : Type κ}
    → (X → Bytes)
    → (X → ℕ → W → Option W)
    → (Bytes → ℕ → ℕ → W → Option W)
    → X
    → Type κ
ActsAs {W} enc f cb x =
    (tail : Bytes) (seq : ℕ) (w : W) → cb (enc x ++ tail) (length (enc x)) seq w ≡ f x seq w

module _ {ℓ κ} {X : Type ℓ} {W : Type κ} (enc : X → Bytes) (f : X → ℕ → W → Option W)
    (cb : Bytes → ℕ → ℕ → W → Option W) where
  pub deliver_messages-replay :
      (xs : List X) (pre rest ptr : Bytes) (len offset seq received : ℕ) (w : W)
      → All (λ x. IsShort (enc x)) xs
      → All (ActsAs enc f cb) xs
      → ptr ≡ pre ++ (blocks enc xs ++ rest)
      → offset ≡ length pre
      → len ≡ offset + length (blocks enc xs)
      → len < 2 ^ 63
      → received < word64
      → deliver_messages cb (length xs) ptr len offset seq received w
        ≡ (replay f xs seq w >>= λ w'. some (add64 received (length xs), w'))
  unfolding deliver_messages
  deliver_messages-replay [] pre rest ptr len offset seq received w h acts e o l small r =
      ap (λ k. some (k, w)) same
    where
      same : received ≡ add64 received 0
      same = omega arith
  deliver_messages-replay (x ∷ xs) pre rest ptr len offset seq received w h acts e o l small r =
      elim (Option-cases (f x seq w)) [
        | inl stop ↦ rw (room, read, fits, body, acts.0 tail seq w, stop)
        | inr (w', done) ↦
            rw (room, read, fits, body, acts.0 tail seq w, done)
              (deliver_messages-replay xs (pre ++ block (enc x)) rest ptr len
                  (add64 (add64 offset 2) (length (enc x))) (inc64 seq) (inc64 received) w' h.1
                  acts.1 next (next_offset pre (enc x) tail ptr offset start o h.0 bound) ends small
                  (omega arith)
                ∙ ap (λ k. replay f xs (inc64 seq) w' >>= λ v. some (k, v)) counted)
      ]
    where
      tail : Bytes
      tail = blocks enc xs ++ rest

      start : ptr ≡ pre ++ (block (enc x) ++ tail)
      start = e ∙ ap (λ p. pre ++ p) (append_assoc (block (enc x)) (blocks enc xs) rest)

      size : length (blocks enc (x ∷ xs)) ≡ length (enc x) + 2 + length (blocks enc xs)
      size = omega (arith, length-append (block (enc x)) (blocks enc xs), length-block (enc x))

      bound : offset + (length (enc x) + 2) < 2 ^ 63
      bound = omega (arith, size)

      room : ltb len (add64 offset 2) ≡ false
      room = le→ltb _ _ (omega (arith, size))

      read : read_message_length (drop offset ptr) ≡ some (length (enc x))
      read = read_prefix pre (enc x) tail ptr offset start o h.0 bound

      fits : ltb len (add64 (add64 offset 2) (length (enc x))) ≡ false
      fits = le→ltb _ _ (omega (arith, size))

      body : drop (add64 offset 2) ptr ≡ enc x ++ tail
      body = drop-body pre (enc x) tail ptr offset start o h.0 bound

      next : ptr ≡ (pre ++ block (enc x)) ++ tail
      next = at_next pre (enc x) tail ptr offset start o h.0 bound

      ends : len ≡ add64 (add64 offset 2) (length (enc x)) + length (blocks enc xs)
      ends = omega (arith, size)

      counted : add64 (inc64 received) (length xs) ≡ add64 received (suc (length xs))
      counted = omega arith

  -- The loop over retransmitted messages gives the same calls.
  pub redeliver_messages-replay :
      (xs : List X) (pre rest ptr : Bytes) (len offset seq : ℕ) (w : W)
      → All (λ x. IsShort (enc x)) xs
      → All (ActsAs enc f cb) xs
      → ptr ≡ pre ++ (blocks enc xs ++ rest)
      → offset ≡ length pre
      → len ≡ offset + length (blocks enc xs)
      → len < 2 ^ 63
      → redeliver_messages cb (length xs) ptr len offset seq w ≡ replay f xs seq w
  unfolding redeliver_messages
  redeliver_messages-replay [] pre rest ptr len offset seq w h acts e o l small = refl
  redeliver_messages-replay (x ∷ xs) pre rest ptr len offset seq w h acts e o l small =
      elim (Option-cases (f x seq w)) [
        | inl stop ↦ rw (room, read, fits, body, acts.0 tail seq w, stop)
        | inr (w', done) ↦
            rw (room, read, fits, body, acts.0 tail seq w, done)
              (redeliver_messages-replay xs (pre ++ block (enc x)) rest ptr len
                (add64 (add64 offset 2) (length (enc x))) (inc64 seq) w' h.1 acts.1
                (at_next pre (enc x) tail ptr offset start o h.0 bound)
                (next_offset pre (enc x) tail ptr offset start o h.0 bound) (omega (arith, size))
                small)
      ]
    where
      tail : Bytes
      tail = blocks enc xs ++ rest

      start : ptr ≡ pre ++ (block (enc x) ++ tail)
      start = e ∙ ap (λ p. pre ++ p) (append_assoc (block (enc x)) (blocks enc xs) rest)

      size : length (blocks enc (x ∷ xs)) ≡ length (enc x) + 2 + length (blocks enc xs)
      size = omega (arith, length-append (block (enc x)) (blocks enc xs), length-block (enc x))

      bound : offset + (length (enc x) + 2) < 2 ^ 63
      bound = omega (arith, size)

      room : ltb offset len ≡ true
      room = lt→ltb _ _ (omega (arith, size))

      read : read_message_length (drop offset ptr) ≡ some (length (enc x))
      read = read_prefix pre (enc x) tail ptr offset start o h.0 bound

      fits : ltb len (add64 (add64 offset 2) (length (enc x))) ≡ false
      fits = le→ltb _ _ (omega (arith, size))

      body : drop (add64 offset 2) ptr ≡ enc x ++ tail
      body = drop-body pre (enc x) tail ptr offset start o h.0 bound
