-- ===== src/Tests/Common.antt =====
-- Runs of include/common/endian.hpp.
use dpdk_itch5_feedhandler.Prelude.{◌≡◌, [], ◌∷◌, some, Bytes, take, arith}
use dpdk_itch5_feedhandler.Common.Endian.{from_be, read_be16, read_be32, read_be48, read_be64}
use dpdk_itch5_feedhandler.Common.Endian.Reads.{read_be-eq-from_be}

abbrev eight_bytes : Bytes
eight_bytes = 1 ∷ 2 ∷ 3 ∷ 4 ∷ 5 ∷ 6 ∷ 7 ∷ 255 ∷ []

read_be-eq-from_be_example :
    (read_be16 eight_bytes ≡ some (from_be (take 2 eight_bytes)))
    × (read_be32 eight_bytes ≡ some (from_be (take 4 eight_bytes)))
    × (read_be48 eight_bytes ≡ some (from_be (take 6 eight_bytes)))
    × (read_be64 eight_bytes ≡ some (from_be (take 8 eight_bytes)))
read_be-eq-from_be_example = read_be-eq-from_be eight_bytes (omega arith) (omega arith)
