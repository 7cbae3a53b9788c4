-- ===== src/Common/Endian.antt =====
-- include/common/endian.hpp, on a little-endian host with GCC or Clang. `swap16` and its wider kin
-- are the compiler's byte swaps: the bytes of the value, lowest first, read highest first.
pub mod Laws
pub mod Reads
use Prim.Native.Nat.{bit_or}
use dpdk_itch5_feedhandler.Prelude.{
  ℕ, zero, suc, ◌+◌, ◌*◌, ◌/◌, ◌%◌, ◌^◌, [], ◌∷◌, some, Option, Bytes, word64, length, load, ◌>>=◌,
}

-- The `n` bytes of a value in memory, lowest first, and the value that such bytes hold.
unfoldable pub to_le : ℕ → ℕ → Bytes
to_le zero v = []
to_le (suc n) v = (v % 256) ∷ to_le n (v / 256)

unfoldable pub from_le : Bytes → ℕ
from_le [] = 0
from_le (b ∷ bs) = b + 256 * from_le bs

-- The value of bytes that stand highest first.
unfoldable pub from_be : Bytes → ℕ
from_be [] = 0
from_be (b ∷ bs) = b * 256 ^ length bs + from_be bs

unfoldable pub swap_bytes : ℕ → ℕ → ℕ
swap_bytes n v = from_be (to_le n v)

unfoldable pub swap16 : ℕ → ℕ
swap16 v = swap_bytes 2 v

unfoldable pub swap32 : ℕ → ℕ
swap32 v = swap_bytes 4 v

unfoldable pub swap64 : ℕ → ℕ
swap64 v = swap_bytes 8 v

unfoldable pub ntoh16 : ℕ → ℕ
unfolding swap16
ntoh16 net = swap16 net

unfoldable pub ntoh32 : ℕ → ℕ
unfolding swap32
ntoh32 net = swap32 net

unfoldable pub ntoh64 : ℕ → ℕ
unfolding swap64
ntoh64 net = swap64 net

unfoldable pub hton16 : ℕ → ℕ
unfolding swap16
hton16 host = swap16 host

unfoldable pub hton32 : ℕ → ℕ
unfolding swap32
hton32 host = swap32 host

unfoldable pub hton64 : ℕ → ℕ
unfolding swap64
hton64 host = swap64 host

unfoldable pub read_be16 : Bytes → Option ℕ
unfolding swap16
read_be16 ptr = do val ← load 2 ptr; some (swap16 (from_le val))

unfoldable pub read_be32 : Bytes → Option ℕ
unfolding swap32
read_be32 ptr = do val ← load 4 ptr; some (swap32 (from_le val))

unfoldable pub read_be64 : Bytes → Option ℕ
unfolding swap64
read_be64 ptr = do val ← load 8 ptr; some (swap64 (from_le val))

-- `static_cast<uint64_t>(b) << k`
abbrev pub shift_left : ℕ → ℕ → ℕ
shift_left b k = b * 2 ^ k % word64

-- The six shifted bytes, joined by `|` from the left.
unfoldable pub join48 : Bytes → ℕ
join48 (b0 ∷ b1 ∷ b2 ∷ b3 ∷ b4 ∷ b5 ∷ _) =
    bit_or
      (bit_or
        (bit_or (bit_or (bit_or (shift_left b0 40) (shift_left b1 32)) (shift_left b2 24))
          (shift_left b3 16))
        (shift_left b4 8))
      b5
join48 _ = 0

unfoldable pub read_be48 : Bytes → Option ℕ
unfolding join48
read_be48 ptr = do bytes ← load 6 ptr; some (join48 bytes)
