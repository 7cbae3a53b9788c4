-- ===== src/Common/Endian/Reads.antt =====
-- What the conversions and the reads of include/common/endian.hpp return.
use dpdk_itch5_feedhandler.Prelude.{
  ℕ, ◌+◌, ◌*◌, ◌^◌, ◌≤◌, ◌<◌, ◌≡◌, sym, ap, ◌∙◌, [], ◌∷◌, ◌++◌, some, Bytes, AreBytes, length, take,
  length-take, All-take, load, load-eq-take, load-append, subst, ◌>>=◌, arith,
}
use Prim.Native.Nat.{bit_or}
use dpdk_itch5_feedhandler.Prelude.Bits.{bit_or-eq-add}
use dpdk_itch5_feedhandler.Common.Endian.{
  from_le, from_be, swap_bytes, read_be16, read_be32, read_be64, read_be48, join48, shift_left,
  ntoh16, ntoh32, ntoh64, hton16, hton32, hton64,
}
use dpdk_itch5_feedhandler.Common.Endian.Laws.{
  be, length-be, swap_bytes_twice, swap_bytes-from_le, swap_bytes-be, from_be-lt, swap_bytes-lt,
}

-- Converting to network order and back is the identity on 16, 32 and 64 bits.
pub ntoh-hton :
    (a b c : ℕ)
    → a < 2 ^ 16
    → b < 2 ^ 32
    → c < 2 ^ 64
    → (ntoh16 (hton16 a) ≡ a) × (ntoh32 (hton32 b) ≡ b) × (ntoh64 (hton64 c) ≡ c)
unfolding ntoh16 hton16 ntoh32 hton32 ntoh64 hton64
ntoh-hton a b c ha hb hc =
    (swap_bytes_twice 2 a ha, swap_bytes_twice 4 b hb, swap_bytes_twice 8 c hc)

-- A load of `n` bytes and a byte swap read the number that stands there.
loaded :
    (n : ℕ) (p : Bytes)
    → AreBytes p
    → n ≤ length p
    → (load n p >>= λ val. some (swap_bytes n (from_le val))) ≡ some (from_be (take n p))
loaded n p h fits = rw (load-eq-take n p fits) (
    ap some (
      ap (λ k. swap_bytes k (from_le (take n p))) (sym size)
      ∙ swap_bytes-from_le (take n p) (All-take _ n p h)))
  where
    size : length (take n p) ≡ n
    size = omega (arith, length-take n p)

or_field : (k q x r : ℕ) → x ≡ q * 2 ^ k → r < 2 ^ k → bit_or x r ≡ x + r
or_field k q x r e h = rw e (bit_or-eq-add k q r h)

join48-eq-from_be :
    (b0 b1 b2 b3 b4 b5 : ℕ)
    → AreBytes (b0 ∷ b1 ∷ b2 ∷ b3 ∷ b4 ∷ b5 ∷ [])
    → join48 (b0 ∷ b1 ∷ b2 ∷ b3 ∷ b4 ∷ b5 ∷ []) ≡ from_be (b0 ∷ b1 ∷ b2 ∷ b3 ∷ b4 ∷ b5 ∷ [])
unfolding join48 from_be
join48-eq-from_be b0 b1 b2 b3 b4 b5 h =
    rw
      (
        or_field 40 b0 (shift_left b0 40) (shift_left b1 32) (omega arith) (omega arith),
        or_field 32 (b0 * 256 + b1) (shift_left b0 40 + shift_left b1 32) (shift_left b2 24)
            (omega arith) (omega arith),
        or_field 24 ((b0 * 256 + b1) * 256 + b2)
            (shift_left b0 40 + shift_left b1 32 + shift_left b2 24) (shift_left b3 16)
            (omega arith) (omega arith),
        or_field 16 (((b0 * 256 + b1) * 256 + b2) * 256 + b3)
            (shift_left b0 40 + shift_left b1 32 + shift_left b2 24 + shift_left b3 16)
            (shift_left b4 8) (omega arith) (omega arith),
        or_field 8 ((((b0 * 256 + b1) * 256 + b2) * 256 + b3) * 256 + b4)
            (shift_left b0 40
              + shift_left b1 32
              + shift_left b2 24
              + shift_left b3 16
              + shift_left b4 8)
            (b5) (omega arith) (omega arith),
      )
      (omega arith)

join48-take : (p : Bytes) → AreBytes p → 6 ≤ length p → join48 (take 6 p) ≡ from_be (take 6 p)
join48-take (a ∷ b ∷ c ∷ d ∷ e ∷ f ∷ p) h fits = join48-eq-from_be a b c d e f (omega arith)
join48-take [] h fits = absurd (omega arith)
join48-take (a ∷ []) h fits = absurd (omega arith)
join48-take (a ∷ b ∷ []) h fits = absurd (omega arith)
join48-take (a ∷ b ∷ c ∷ []) h fits = absurd (omega arith)
join48-take (a ∷ b ∷ c ∷ d ∷ []) h fits = absurd (omega arith)
join48-take (a ∷ b ∷ c ∷ d ∷ e ∷ []) h fits = absurd (omega arith)

pub read_be16-eq : (p : Bytes) → AreBytes p → 2 ≤ length p → read_be16 p ≡ some (from_be (take 2 p))
unfolding read_be16
read_be16-eq p h fits = loaded 2 p h fits

pub read_be48-eq : (p : Bytes) → AreBytes p → 6 ≤ length p → read_be48 p ≡ some (from_be (take 6 p))
unfolding read_be48
read_be48-eq p h fits = rw (load-eq-take 6 p fits) (ap some (join48-take p h fits))

pub read_be64-eq : (p : Bytes) → AreBytes p → 8 ≤ length p → read_be64 p ≡ some (from_be (take 8 p))
unfolding read_be64
read_be64-eq p h fits = loaded 8 p h fits

-- Each read takes its bytes, highest first, from readable memory, unaligned or not.
pub read_be-eq-from_be :
    (p : Bytes)
    → AreBytes p
    → 8 ≤ length p
    → (read_be16 p ≡ some (from_be (take 2 p)))
      × (read_be32 p ≡ some (from_be (take 4 p)))
      × (read_be48 p ≡ some (from_be (take 6 p)))
      × (read_be64 p ≡ some (from_be (take 8 p)))
read_be-eq-from_be p h fits = (
  read_be16-eq p h (omega arith),
  unfold read_be32 in loaded 4 p h (omega arith),
  read_be48-eq p h (omega arith),
  read_be64-eq p h fits,
)

-- Reading what was written in wire order, whatever follows.
pub read_be-be :
    (a b : ℕ) (rest : Bytes)
    → a < 2 ^ 16
    → b < 2 ^ 64
    → (read_be16 (be 2 a ++ rest) ≡ some a) × (read_be64 (be 8 b ++ rest) ≡ some b)
unfolding read_be16 read_be64
read_be-be a b rest ha hb = (
  rw (load-append 2 (be 2 a) rest (length-be 2 a)) (ap some (swap_bytes-be 2 a ha)),
  rw (load-append 8 (be 8 b) rest (length-be 8 b)) (ap some (swap_bytes-be 8 b hb)),
)

from_be-take-lt : (n : ℕ) (p : Bytes) → AreBytes p → n ≤ length p → from_be (take n p) < 256 ^ n
from_be-take-lt n p h fits =
    subst (λ k. from_be (take n p) < 256 ^ k) size (from_be-lt (take n p) (All-take _ n p h))
  where
    size : length (take n p) ≡ n
    size = omega (arith, length-take n p)

pub read_be16-lt :
    (p : Bytes) → AreBytes p → 2 ≤ length p → (n : ℕ) × (read_be16 p ≡ some n) × (n < 2 ^ 16)
read_be16-lt p h fits = (from_be (take 2 p), read_be16-eq p h fits, from_be-take-lt 2 p h fits)

pub read_be48-lt :
    (p : Bytes) → AreBytes p → 6 ≤ length p → (n : ℕ) × (read_be48 p ≡ some n) × (n < 2 ^ 48)
read_be48-lt p h fits = (from_be (take 6 p), read_be48-eq p h fits, from_be-take-lt 6 p h fits)

pub ntoh32-lt : (v : ℕ) → ntoh32 v < 2 ^ 32
unfolding ntoh32
ntoh32-lt v = swap_bytes-lt 4 v

pub ntoh64-lt : (v : ℕ) → ntoh64 v < 2 ^ 64
unfolding ntoh64
ntoh64-lt v = swap_bytes-lt 8 v
