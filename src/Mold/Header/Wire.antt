-- ===== src/Mold/Header/Wire.antt =====
-- `HeaderParser` of include/moldudp64/header.hpp on the bytes of a packet.
use dpdk_itch5_feedhandler.Prelude.{
  ℕ, ◌^◌, ◌≤◌, ◌<◌, ◌≡◌, ◌≢◌, refl, ap, ◌∙◌, ◌++◌, Option, none, some, Bytes, AreBytes, length,
  take, drop, load-eq-take, length-drop, drop-append_of_length, load-append, drop-drop,
  append_assoc, All-drop, ltb, le→ltb, inl, inr, Bool-cases, ltb→le, arith,
}
use dpdk_itch5_feedhandler.Common.Endian.{from_be}
use dpdk_itch5_feedhandler.Common.Endian.Laws.{be, length-be}
use dpdk_itch5_feedhandler.Common.Endian.Reads.{
  read_be16-eq, read_be64-eq, read_be-be, read_be16-lt,
}
use dpdk_itch5_feedhandler.Mold.Header.{Header, parse, read_message_length}

-- A header as the MoldUDP64 document writes it: session, sequence number and message count.
abbrev pub wire : Header → Bytes
wire h = h.session ++ (be 8 h.sequence_number ++ be 2 h.message_count)

-- On readable memory the parser returns, whatever it holds.
pub parse_returns :
    (ptr : Bytes) (len : ℕ)
    → AreBytes ptr
    → len ≤ length ptr
    → (o : Option Header) × (parse ptr len ≡ some o) × (o ≢ none → 20 ≤ len)
unfolding parse
parse_returns ptr len b h = elim (Bool-cases (ltb len 20)) [
  | inl short ↦ (none, rw short, λ n. absurd (n refl))
  | inr long ↦ (
    some (record {
      session = take 10 ptr;
      sequence_number = from_be (take 8 (drop 10 ptr));
      message_count = from_be (take 2 (drop 18 ptr));
    }),
    rw (
      long,
      load-eq-take 10 ptr (omega (arith, ltb→le _ _ long)),
      read_be64-eq (drop 10 ptr) (All-drop _ 10 ptr b)
          (omega (arith, ltb→le _ _ long, length-drop 10 ptr)),
      read_be16-eq (drop 18 ptr) (All-drop _ 18 ptr b)
          (omega (arith, ltb→le _ _ long, length-drop 18 ptr)),
    ),
    λ _. ltb→le _ _ long,
  )
]

-- A length prefix is below 2 ^ 16.
pub read_message_length_returns :
    (p : Bytes)
    → AreBytes p
    → 2 ≤ length p
    → (n : ℕ) × (read_message_length p ≡ some n) × (n < 2 ^ 16)
unfolding read_message_length
read_message_length_returns p b h = read_be16-lt p b h

-- Parsing the bytes of a header gives the header back, whatever follows it, if its session has ten
-- bytes, its numbers fit their fields and the length covers it.
pub parse-wire :
    (h : Header) (rest : Bytes) (len : ℕ)
    → length h.session ≡ 10
    → h.sequence_number < 2 ^ 64
    → h.message_count < 2 ^ 16
    → 20 ≤ len
    → parse (wire h ++ rest) len ≡ some (some h)
unfolding parse
parse-wire h rest len s q c l =
    let tail = be 2 h.message_count ++ rest in
    let whole : wire h ++ rest ≡ h.session ++ (be 8 h.sequence_number ++ tail) =
      append_assoc h.session _ rest
      ∙ ap (λ p. h.session ++ p)
          (append_assoc (be 8 h.sequence_number) (be 2 h.message_count) rest) in
    let back = drop-append_of_length 10 h.session (be 8 h.sequence_number ++ tail) s in
    rw (
      whole,
      le→ltb len 20 l,
      load-append 10 h.session (be 8 h.sequence_number ++ tail) s,
      back,
      (read_be-be 0 h.sequence_number tail (omega arith) q).1,
      drop-drop 10 8 (h.session ++ (be 8 h.sequence_number ++ tail)),
      back,
      drop-append_of_length 8 (be 8 h.sequence_number) tail (length-be 8 h.sequence_number),
      (read_be-be h.message_count 0 rest c (omega arith)).0,
    )
