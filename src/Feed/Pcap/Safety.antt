-- ===== src/Feed/Pcap/Safety.antt =====
-- `process_pcap_file` of src/feed_handler.hpp on any file: the loop ends, and reads nothing past a
-- frame.
use dpdk_itch5_feedhandler.Prelude.{
  ℕ, zero, suc, ◌+◌, ◌^◌, ◌≤◌, ◌<◌, ◌≡◌, refl, sym, ap, subst, List, [], ◌∷◌, Bool, true, false,
  some, Bytes, AreBytes, All, All-take, All-drop, length, length-take, length-drop, take, drop,
  load-eq-take, ltb, ltb→le, ◌==◌, if◌then◌else◌, Post, bind-Post, if-Post, Bool-cases, inl, inr,
  inc64, arith,
}
use dpdk_itch5_feedhandler.Common.Endian.{from_le}
use dpdk_itch5_feedhandler.Dpdk.Config.{total_min}
use dpdk_itch5_feedhandler.Dpdk.Handler.{Handler}
use dpdk_itch5_feedhandler.Dpdk.Handler.Safety.{IsHandler, payload_offset, process_raw_packet_keeps}
use dpdk_itch5_feedhandler.Feed.Pcap.{included_length, read_packets, process_pcap_file}

-- The frames of a stream, as their headers give their lengths, up to the first that is cut off.
unfoldable pub frames_in : ℕ → Bool → Bytes → List Bytes
frames_in zero swap_bytes stream = []
frames_in (suc rounds) swap_bytes stream =
    let rest = drop 16 stream in
    let size = included_length swap_bytes stream in
    let later = frames_in rounds swap_bytes (drop size rest) in
    if ltb (length stream) 16
    then []
    else if ltb (length rest) size
    then []
    else take size rest ∷ later

-- A frame that is below the minimal length, or whose headers lie within it.
abbrev pub IsInside : Bytes → Type 0
IsInside frame = total_min ≤ length frame → payload_offset frame ≤ length frame

frames_in-more :
    (rounds : ℕ) (swap_bytes : Bool) (stream : Bytes)
    → ltb (length stream) 16 ≡ false
    → ltb (length (drop 16 stream)) (included_length swap_bytes stream) ≡ false
    → frames_in (suc rounds) swap_bytes stream
      ≡ take (included_length swap_bytes stream) (drop 16 stream)
        ∷ frames_in rounds swap_bytes (drop (included_length swap_bytes stream) (drop 16 stream))
unfolding frames_in
frames_in-more rounds swap_bytes stream more whole = rw (more, whole) refl

module _ (taken : ℕ) (swap_bytes : Bool) where
  read_packets_returns :
      (rounds : ℕ) (h : Handler) (stream : Bytes) (processed : ℕ)
      → length stream < rounds
      → length stream < 2 ^ 63
      → AreBytes stream
      → All IsInside (frames_in rounds swap_bytes stream)
      → IsHandler taken h
      → Post
          (λ r.
            (r.0 ≤ processed + length (frames_in rounds swap_bytes stream)) × IsHandler taken r.1)
          (read_packets rounds swap_bytes h stream processed)
  unfolding read_packets
  read_packets_returns zero h stream processed enough small bytes inside v = absurd (omega arith)
  read_packets_returns (suc rounds) h stream processed enough small bytes inside v =
      elim (Bool-cases (ltb (length stream) 16)) [
        | inl short ↦ ((processed, h), rw short refl, (omega arith, v))
        | inr more ↦ elim (Bool-cases (ltb (length rest) size)) [
          | inl cut ↦ ((processed, h), rw (more, cut) refl, (omega arith, v))
          | inr whole ↦
              (let cut = frames_in-more rounds swap_bytes stream more whole in
                let all = subst (All IsInside) cut inside in
                let fits : size ≤ length rest = ltb→le _ _ whole in
                let full : length (take size rest) ≡ size =
                  omega (arith, length-take size rest, fits) in
                let (r, done, w) =
                  process_raw_packet_keeps taken h (take size rest) size v
                    (All-take _ size rest (All-drop _ 16 stream bytes)) (omega (arith, full))
                    (omega (arith, fits, length-drop 16 stream))
                    (λ long. omega (arith, all.0 (omega (arith, long, full)), full)) in
                let (t, run, (count, u)) =
                  read_packets_returns rounds r.1 (drop size rest)
                    (if r.0 then inc64 processed else processed)
                    (omega (arith, length-drop size rest, length-drop 16 stream, ltb→le _ _ more))
                    (omega (arith, length-drop size rest, length-drop 16 stream))
                    (All-drop _ size rest (All-drop _ 16 stream bytes)) all.1 w in
                (t, rw (more, whole, done) run, (one_more r.0 t.0 _ count (ap length cut), u)))
        ]
      ]
    where
      rest : Bytes
      rest = drop 16 stream

      size : ℕ
      size = included_length swap_bytes stream

      one_more :
          (b : Bool) (n later : ℕ)
          → n ≤ (if b then inc64 processed else processed) + later
          → length (frames_in (suc rounds) swap_bytes stream) ≡ suc later
          → n ≤ processed + length (frames_in (suc rounds) swap_bytes stream)
      one_more b n later h e = ground (arith, e)

-- The file is of the other byte order, by the first four bytes.
abbrev pub is_swapped : Bytes → Bool
is_swapped file = from_le (take 4 file) == 0xd4c3b2a1

-- The frames behind the global header.
abbrev pub file_frames : Bytes → List Bytes
file_frames file = frames_in (length (drop 24 file) + 1) (is_swapped file) (drop 24 file)

-- Reading any file of at least four bytes, each of whose frames is below the minimal length or has its headers within it, ends with
-- no read past a frame, whatever the file holds: cut off, of another format, or with frames that are
-- no packets of the session. No more frames are accepted than the file holds, and the handler stays in
-- order, every message counted as pushed being in the ring or taken from it.
pub process_pcap_file_returns :
    (taken : ℕ) (h : Handler) (file : Bytes)
    → AreBytes file
    → 4 ≤ length file
    → length file < 2 ^ 63
    → All IsInside (file_frames file)
    → IsHandler taken h
    → (r : ℕ × Handler) × (process_pcap_file h (some file) ≡ some r)
      × (r.0 ≤ length (file_frames file))
      × IsHandler taken r.1
unfolding process_pcap_file
process_pcap_file_returns taken h file bytes long small inside v =
    let (r, run, good) =
      bind-Post (λ raw. raw ≡ take 4 file) Good (_, load-eq-take 4 file long, refl)
        λ raw same. rw same (
          if-Post Good (is_swapped file) (λ swapped. packets true (sym swapped))
            λ own.
              if-Post Good (from_le (take 4 file) == 0xa1b2c3d4) (λ _. packets false (sym own))
                λ _. ((0, h), refl, (omega arith, v))) in
    (r, run, good.0, good.1)
  where
    Good : ℕ × Handler → Type 0
    Good r = (r.0 ≤ length (file_frames file)) × IsHandler taken r.1

    packets :
        (swap_bytes : Bool)
        → swap_bytes ≡ is_swapped file
        → Post Good (
            if ltb (length file) 24
            then some (0, h)
            else read_packets (length (drop 24 file) + 1) swap_bytes h (drop 24 file) 0)
    packets swap_bytes e =
        if-Post Good (ltb (length file) 24) (λ _. ((0, h), refl, (omega arith, v)))
          λ _. rw e (
            let (r, run, good) =
              read_packets_returns taken (is_swapped file) (length (drop 24 file) + 1) h
                (drop 24 file) 0 (omega arith) (omega (arith, length-drop 24 file))
                (All-drop _ 24 file bytes) inside v in
            (r, run, (omega (arith, good.0), good.1)))
