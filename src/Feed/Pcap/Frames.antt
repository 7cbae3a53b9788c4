-- ===== src/Feed/Pcap/Frames.antt =====
-- `process_pcap_file` of src/feed_handler.hpp on the PCAP file of some frames.
use dpdk_itch5_feedhandler.Prelude.{
  ℕ, zero, suc, ◌<◌, ◌≡◌, refl, sym, ap, ◌∙◌, List, [], ◌∷◌, ◌++◌, append_assoc, Bool, true, false,
  Option, some, Bytes, All, length, take, drop, load, load-append, length-append, take-append,
  drop-append_of_length, ltb, le→ltb, if◌then◌else◌, ◌>>=◌, inc64, Option-cases, inl, inr, arith,
}
use dpdk_itch5_feedhandler.Common.Endian.{from_le, swap32}
use dpdk_itch5_feedhandler.Dpdk.Handler.{Handler, process_raw_packet}
use dpdk_itch5_feedhandler.Feed.Pcap.{included_length, read_packets, process_pcap_file}
use dpdk_itch5_feedhandler.Feed.Pcap.Format.{
  PcapPacket, IsPcapPacket, word_field, packet_header, pcap_packets, pcap_file, length-word_field,
  read_word_field, length-packet_header, length-le-pcap_packets, magic_other, magic_own,
}

-- The frames given to the packet handler one by one, with the number of those that it accepts.
abbrev pub feed_all : Handler → List PcapPacket → ℕ → Option (ℕ × Handler)
feed_all h [] processed = some (processed, h)
feed_all h (p ∷ ps) processed = process_raw_packet h p.frame (length p.frame) >>= λ r.
    feed_all r.1 ps (if r.0 then inc64 processed else processed)

included_length_lem :
    (swap_bytes : Bool) (p : PcapPacket) (tail : Bytes)
    → IsPcapPacket p
    → included_length swap_bytes (packet_header swap_bytes p ++ tail) ≡ length p.frame
unfolding included_length
included_length_lem swap_bytes p tail v =
    ap (λ b. let value = from_le b in if swap_bytes then swap32 value else value) bytes
    ∙ read_word_field swap_bytes (length p.frame) v.frame
  where
    field : Bytes
    field = word_field swap_bytes (length p.frame)

    bytes : take 4 (drop 8 (packet_header swap_bytes p ++ tail)) ≡ field
    bytes =
        ap (λ b. take 4 (drop 8 b)) (append_assoc p.stamp (field ++ p.original) tail)
        ∙ ap (take 4) (drop-append_of_length 8 p.stamp ((field ++ p.original) ++ tail) v.stamp)
        ∙ ap (take 4) (append_assoc field p.original tail)
        ∙ ap (λ n. take n (field ++ (p.original ++ tail)))
            (sym (length-word_field swap_bytes (length p.frame)))
        ∙ take-append field (p.original ++ tail)

read_packets-feed_all :
    (swap_bytes : Bool) (ps : List PcapPacket) (rounds : ℕ) (h : Handler) (processed : ℕ)
    → All IsPcapPacket ps
    → length ps < rounds
    → read_packets rounds swap_bytes h (pcap_packets swap_bytes ps) processed
      ≡ feed_all h ps processed
unfolding read_packets
read_packets-feed_all swap_bytes ps zero h processed v enough = absurd (omega arith)
read_packets-feed_all swap_bytes [] (suc rounds) h processed v enough = refl
read_packets-feed_all swap_bytes (p ∷ ps) (suc rounds) h processed v enough =
    elim (Option-cases (process_raw_packet h p.frame (length p.frame))) [
      | inl stop ↦ rw (header, included, behind, whole, taken, stop) refl
      | inr (r, done) ↦
          rw (header, included, behind, whole, taken, dropped, done)
            (read_packets-feed_all swap_bytes ps rounds r.1 _ v.1 (omega arith))
    ]
  where
    tail : Bytes
    tail = p.frame ++ pcap_packets swap_bytes ps

    stream : Bytes
    stream = packet_header swap_bytes p ++ tail

    header : ltb (length stream) 16 ≡ false
    header = le→ltb _ _ (
        omega (
          arith,
          length-append (packet_header swap_bytes p) tail,
          length-packet_header swap_bytes p v.0,
        ))

    included : included_length swap_bytes stream ≡ length p.frame
    included = included_length_lem swap_bytes p tail v.0

    behind : drop 16 stream ≡ tail
    behind =
        drop-append_of_length 16 (packet_header swap_bytes p) tail
          (length-packet_header swap_bytes p v.0)

    whole : ltb (length tail) (length p.frame) ≡ false
    whole = le→ltb _ _ (omega (arith, length-append p.frame (pcap_packets swap_bytes ps)))

    taken : take (length p.frame) tail ≡ p.frame
    taken = take-append p.frame (pcap_packets swap_bytes ps)

    dropped : drop (length p.frame) tail ≡ pcap_packets swap_bytes ps
    dropped = drop-append_of_length (length p.frame) p.frame (pcap_packets swap_bytes ps) refl

module _ (swap_bytes : Bool) (rest : Bytes) (ps : List PcapPacket) (size : length rest ≡ 20) where
  load_magic : load 4 (pcap_file swap_bytes rest ps) ≡ some (word_field swap_bytes 0xa1b2c3d4)
  load_magic = load-append 4 (word_field swap_bytes 0xa1b2c3d4) _ (length-word_field swap_bytes _)

  whole_header : ltb (length (pcap_file swap_bytes rest ps)) 24 ≡ false
  whole_header = le→ltb _ _ (
      omega (
        arith,
        size,
        length-append (word_field swap_bytes 0xa1b2c3d4) (rest ++ pcap_packets swap_bytes ps),
        length-append rest (pcap_packets swap_bytes ps),
        length-word_field swap_bytes 0xa1b2c3d4,
      ))

  drop-header : drop 24 (pcap_file swap_bytes rest ps) ≡ pcap_packets swap_bytes ps
  drop-header =
      ap (drop 24)
        (sym (append_assoc (word_field swap_bytes 0xa1b2c3d4) rest (pcap_packets swap_bytes ps)))
      ∙ drop-append_of_length 24 (word_field swap_bytes 0xa1b2c3d4 ++ rest)
          (pcap_packets swap_bytes ps)
          (omega (
            arith,
            size,
            length-append (word_field swap_bytes 0xa1b2c3d4) rest,
            length-word_field swap_bytes 0xa1b2c3d4,
          ))

-- The PCAP file of any captured packets, written in either byte order: reading it gives the packet
-- handler each captured frame, whole and in order, and the result is the number of frames that the
-- handler accepts.
pub process_pcap_file-feed_all :
    (swap_bytes : Bool) (rest : Bytes) (ps : List PcapPacket) (h : Handler)
    → length rest ≡ 20
    → All IsPcapPacket ps
    → process_pcap_file h (some (pcap_file swap_bytes rest ps)) ≡ feed_all h ps 0
unfolding process_pcap_file
process_pcap_file-feed_all true rest ps h size v =
    rw
      (
        load_magic true rest ps size,
        whole_header true rest ps size,
        drop-header true rest ps size,
        magic_other,
      )
      (read_packets-feed_all true ps _ h 0 v (omega (arith, length-le-pcap_packets true ps v)))
process_pcap_file-feed_all false rest ps h size v =
    rw
      (
        load_magic false rest ps size,
        whole_header false rest ps size,
        drop-header false rest ps size,
        magic_own,
      )
      (read_packets-feed_all false ps _ h 0 v (omega (arith, length-le-pcap_packets false ps v)))
