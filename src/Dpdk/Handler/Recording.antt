-- ===== src/Dpdk/Handler/Recording.antt =====
-- `process_itch_file_data` of include/dpdk/packet_handler.hpp on a file of order messages as the ITCH
-- document writes them, each with its length in front.
use dpdk_itch5_feedhandler.Prelude.{
  ℕ, zero, suc, ◌+◌, ◌^◌, ◌≤◌, ◌<◌, ◌≡◌, refl, ap, ◌∙◌, List, [], ◌∷◌, ◌++◌, append_assoc, true,
  false, some, Bytes, All, length, length-append, drop, ltb, le→ltb, lt→ltb, add64, inc64, word64,
  arith,
}
use dpdk_itch5_feedhandler.Common.Types.{NormalizedMessage}
use dpdk_itch5_feedhandler.Common.Endian.{read_be16}
use dpdk_itch5_feedhandler.Common.Endian.Reads.{read_be-be}
use dpdk_itch5_feedhandler.Spsc.Refine.{Represents}
use dpdk_itch5_feedhandler.Mold.Session.Blocks.{
  block, blocks, length-block, drop-prefix, drop-body, at_next, next_offset,
}
use dpdk_itch5_feedhandler.Itch.Layout.{sizeof}
use dpdk_itch5_feedhandler.Itch.Wire.{Order, encode, layout_of, IsOrder}
use dpdk_itch5_feedhandler.Dpdk.Output.{buffer_capacity}
use dpdk_itch5_feedhandler.Dpdk.Output.Normalized.{normalized}
use dpdk_itch5_feedhandler.Dpdk.Output.Orders.{layout_positive, parse_message-normalized}
use dpdk_itch5_feedhandler.Dpdk.Handler.{Handler, process_file_from, process_itch_file_data}
use dpdk_itch5_feedhandler.Dpdk.Handler.Accept.{
  counted, length-encode, encode-IsShort, accept, count_all, push_normalized_refines,
}

length-le-blocks : (os : List Order) → length os ≤ length (blocks encode os)
length-le-blocks [] = omega arith
length-le-blocks (o ∷ os) = omega (
  arith,
  length-append (block (encode o)) (blocks encode os),
  length-block (encode o),
  length-le-blocks os,
)

process_file_from-orders :
    (rounds : ℕ) (os : List Order) (h : Handler) (q : List NormalizedMessage) (pre rest ptr : Bytes)
    (len offset processed : ℕ)
    → All IsOrder os
    → Represents buffer_capacity h.sink.output.buffer q
    → ptr ≡ pre ++ (blocks encode os ++ rest)
    → offset ≡ length pre
    → len ≡ offset + length (blocks encode os)
    → len < 2 ^ 63
    → length os < rounds
    → processed < word64
    → (r : Handler) × (process_file_from rounds h ptr len offset processed
        ≡ some (add64 processed (length os), r))
      × Represents buffer_capacity r.sink.output.buffer (accept q os)
      × (r.sink.stats ≡ count_all h.sink.stats os)
unfolding process_file_from
process_file_from-orders zero os h q pre rest ptr len offset processed v held e o l small enough p =
    absurd (omega arith)
process_file_from-orders (suc rounds) [] h q pre rest ptr len offset processed v held e o l small
      enough p =
    (h, rw (done, same) refl, held, refl)
  where
    done : ltb (add64 offset 2) len ≡ false
    done = le→ltb _ _ (omega arith)

    same : add64 processed 0 ≡ processed
    same = omega arith
process_file_from-orders (suc rounds) (x ∷ os) h q pre rest ptr len offset processed v held e o l
      small enough p =
    let (out, pushed, w) = push_normalized_refines h.sink.output q (normalized x) held in
    let (r, run, w', c) =
      process_file_from-orders rounds os
        (record h { sink = record { stats = counted x h.sink.stats; output = out } }) _
        (pre ++ block (encode x)) rest ptr len (add64 (add64 offset 2) (length (encode x)))
        (inc64 processed) v.1 w (at_next pre (encode x) tail ptr offset start o short bound)
        (next_offset pre (encode x) tail ptr offset start o short bound) (omega (arith, size)) small
        (omega arith) (omega arith) in
    (
      r,
      rw (more, read, fits, body)
          (rw
            (
              parse_message-normalized x tail h.sink.stats h.sink.output (length (encode x)) v.0
                  (omega (arith, length-encode x v.0)),
              pushed,
              grown,
            )
            (run ∙ ap (λ n. some (n, r)) one_more)),
      w',
      c,
    )
  where
    tail : Bytes
    tail = blocks encode os ++ rest

    short : length (encode x) < 2 ^ 16
    short = encode-IsShort x v.0

    start : ptr ≡ pre ++ (block (encode x) ++ tail)
    start = e ∙ ap (λ p. pre ++ p) (append_assoc (block (encode x)) (blocks encode os) rest)

    size : length (blocks encode (x ∷ os)) ≡ length (encode x) + 2 + length (blocks encode os)
    size =
        omega (arith, length-append (block (encode x)) (blocks encode os), length-block (encode x))

    bound : offset + (length (encode x) + 2) < 2 ^ 63
    bound = omega (arith, size)

    more : ltb (add64 offset 2) len ≡ true
    more = lt→ltb _ _ (omega (arith, size, length-encode x v.0, layout_positive x))

    read : read_be16 (drop offset ptr) ≡ some (length (encode x))
    read =
        rw (drop-prefix pre (encode x) tail ptr offset start o short bound)
          (read_be-be (length (encode x)) 0 (encode x ++ tail) short (omega arith)).0

    fits : ltb len (add64 (add64 offset 2) (length (encode x))) ≡ false
    fits = le→ltb _ _ (omega (arith, size))

    body : drop (add64 offset 2) ptr ≡ encode x ++ tail
    body = drop-body pre (encode x) tail ptr offset start o short bound

    grown : ltb 0 (sizeof (layout_of x)) ≡ true
    grown = lt→ltb _ _ (layout_positive x)

    one_more : add64 (inc64 processed) (length os) ≡ add64 processed (length (x ∷ os))
    one_more = omega arith

-- A file of order messages as the document writes them, whatever memory follows it: each message is
-- counted, and each that has a normalized one (all but an add order with an MPID and an execution
-- with a price) is pushed in order, or dropped where the ring is full; the result is the number of all
-- the messages.
pub process_itch_file_data-orders :
    (h : Handler) (os : List Order) (q : List NormalizedMessage) (rest : Bytes)
    → All IsOrder os
    → Represents buffer_capacity h.sink.output.buffer q
    → length (blocks encode os) < 2 ^ 63
    → (r : Handler) × (process_itch_file_data h
          (blocks encode os ++ rest)
          (length (blocks encode os))
        ≡ some (length os, r))
      × Represents buffer_capacity r.sink.output.buffer (accept q os)
      × (r.sink.stats ≡ count_all h.sink.stats os)
unfolding process_itch_file_data
process_itch_file_data-orders h os q rest v held small =
    let (r, run, w, c) =
      process_file_from-orders (length (blocks encode os) + 1) os h q [] rest
        (blocks encode os ++ rest) (length (blocks encode os)) 0 0 v held refl refl (omega arith)
        small (omega (arith, length-le-blocks os)) (omega arith) in
    (r, run ∙ ap (λ n. some (n, r)) number, w, c)
  where
    number : add64 0 (length os) ≡ length os
    number = omega (arith, length-le-blocks os)
