-- ===== src/Feed/Pcap.antt =====
-- `FeedHandler::process_pcap_file` of src/feed_handler.hpp. The stream is the bytes that are left in
-- the file; a read that gets fewer bytes than it asks for leaves the rest of its array unset.
pub mod Rounds
pub mod Safety
pub mod Format
pub mod Frames
pub mod Orders
use dpdk_itch5_feedhandler.Prelude.{
  ℕ, zero, suc, ◌+◌, Bool, true, false, Option, none, some, Bytes, length, take, drop, load, ltb,
  ◌==◌, if◌then◌else◌, ◌>>=◌, inc64,
}
use dpdk_itch5_feedhandler.Common.Endian.{from_le, swap32}
use dpdk_itch5_feedhandler.Dpdk.Handler.{Handler, process_raw_packet}

-- `incl_len`, the four bytes from place 8 of a packet's header.
unfoldable pub included_length : Bool → Bytes → ℕ
included_length swap_bytes stream =
    let value = from_le (take 4 (drop 8 stream)) in if swap_bytes then swap32 value else value

-- The `while (file)` loop. Each round that goes on takes 16 bytes or more.
unfoldable pub read_packets : ℕ → Bool → Handler → Bytes → ℕ → Option (ℕ × Handler)
read_packets zero swap_bytes h stream processed = none
read_packets (suc rounds) swap_bytes h stream processed =
    if ltb (length stream) 16
    then some (processed, h)
    else (let incl_len = included_length swap_bytes stream in
        let rest = drop 16 stream in
        if ltb (length rest) incl_len
        then some (processed, h)
        else (process_raw_packet h (take incl_len rest) incl_len >>= λ r.
            read_packets rounds swap_bytes r.1 (drop incl_len rest)
              (if r.0 then inc64 processed else processed)))

-- Where the global header is cut off, the stream has failed and the loop does not begin.
unfoldable pub process_pcap_file : Handler → Option Bytes → Option (ℕ × Handler)
process_pcap_file h none = some (0, h)
process_pcap_file h (some file) = load 4 file >>= λ raw.
    let magic = from_le raw in
    let stream = drop 24 file in
    let packets = λ (swap_bytes : Bool).
      (if ltb (length file) 24
        then some (0, h)
        else read_packets (length stream + 1) swap_bytes h stream 0) in
    if magic == 0xd4c3b2a1
    then packets true
    else if magic == 0xa1b2c3d4
    then packets false
    else some (0, h)
