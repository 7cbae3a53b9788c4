-- ===== src/Prelude/Words.antt =====
-- Machine words: `size_t` and `uint64_t` are 64 bits wide and wrap.
use Prim.Native.Nat.{ℕ, ◌+◌, ◌-◌, ◌%◌, ◌^◌, ◌<◌}
use mathlib.Core.Path.{◌≡◌}
use native.Mathlib.Omega.{arith}

abbrev pub word64 : ℕ
word64 = 2 ^ 64

-- Addition and subtraction of `uint64_t` or `size_t` values.
abbrev pub add64 : ℕ → ℕ → ℕ
add64 a b = (a + b) % word64

abbrev pub sub64 : ℕ → ℕ → ℕ
sub64 a b = (a + word64 - b % word64) % word64

-- `++x` on a 64-bit counter.
abbrev pub inc64 : ℕ → ℕ
inc64 a = add64 a 1

pub add64-sub64 : (a b : ℕ) → a < word64 → b < word64 → sub64 (add64 a b) b ≡ a
add64-sub64 a b h k = omega arith
