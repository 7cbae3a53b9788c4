-- ===== src/Prelude/Bits.antt =====
-- `|` of fields that share no bit and `&` with a mask of low bits, as arithmetic. The native
-- operations are recursions on binary digits with fuel, which the first lemmas drop.
use Prim.Native.Nat.{
  ℕ, zero, suc, ◌+◌, ◌-◌, ◌*◌, ◌/◌, ◌%◌, ◌^◌, ◌≤◌, ◌<◌, min, max, digits, bitwise, bit_and, bit_or,
  bit_and-bitwise, bit_or-bitwise,
}
use mathlib.Core.Path.{◌≡◌, refl, ap}
use mathlib.Core.WellFounded
use mathlib.Core.WellFounded.{Acc, WellFounded}
use native.Mathlib.Nat.{le_refl, pow-suc, one-le-pow}
use native.Mathlib.Omega.{arith}

accessible : (bound n : ℕ) → n < bound → Acc ◌<◌ n
accessible zero n h = absurd (omega arith)
accessible (suc bound) n h = Acc.intro n (λ m below. accessible bound m (omega arith))

lt_wf : WellFounded ◌<◌
lt_wf = record { apply = λ n. accessible (suc n) n (le_refl _) }

-- More fuel than digits changes nothing.
digits_stable :
    (z : ℕ → ℕ) (f : ℕ → ℕ → ℕ) (k l a b : ℕ) → a ≤ k → a ≤ l → digits z f k a b ≡ digits z f l a b
digits_stable z f zero zero a b p q = refl
digits_stable z f zero (suc l) zero b p q = refl
digits_stable z f zero (suc l) (suc a) b p q = absurd (omega arith)
digits_stable z f (suc k) zero zero b p q = refl
digits_stable z f (suc k) zero (suc a) b p q = absurd (omega arith)
digits_stable z f (suc k) (suc l) zero b p q = refl
digits_stable z f (suc k) (suc l) (suc a) b p q =
    rw (digits_stable z f k l (suc a / 2) (b / 2) (omega arith) (omega arith))

lowest_digit :
    (z : ℕ → ℕ) (f : ℕ → ℕ → ℕ) (a b : ℕ)
    → bitwise z f (suc a) b ≡ bitwise z f (suc a / 2) (b / 2) * 2 + f (suc a % 2) (b % 2)
lowest_digit z f a b =
    omega (arith, digits_stable z f a (suc a / 2) (suc a / 2) (b / 2) (omega arith) (le_refl _))

bit_or-halve : (a b : ℕ) → bit_or a b ≡ bit_or (a / 2) (b / 2) * 2 + max (a % 2) (b % 2)
bit_or-halve zero b = simp bit_or-bitwise (omega arith)
bit_or-halve (suc a) b = simp bit_or-bitwise (lowest_digit (λ y. y) max a b)

bit_and-halve : (a b : ℕ) → bit_and a b ≡ bit_and (a / 2) (b / 2) * 2 + min (a % 2) (b % 2)
bit_and-halve zero b = simp bit_and-bitwise (omega arith)
bit_and-halve (suc a) b = simp bit_and-bitwise (lowest_digit (λ y. 0) min a b)

bit_or_zero_step : (n : ℕ) → ((m : ℕ) → m < n → bit_or m 0 ≡ m) → bit_or n 0 ≡ n
bit_or_zero_step zero ih = refl
bit_or_zero_step (suc n) ih = omega (arith, bit_or-halve (suc n) 0, ih (suc n / 2) (omega arith))

bit_and_zero_step : (n : ℕ) → ((m : ℕ) → m < n → bit_and m 0 ≡ 0) → bit_and n 0 ≡ 0
bit_and_zero_step zero ih = refl
bit_and_zero_step (suc n) ih = omega (arith, bit_and-halve (suc n) 0, ih (suc n / 2) (omega arith))

bit_or-zero : (a : ℕ) → bit_or a 0 ≡ a
bit_or-zero a = WellFounded.induction lt_wf a bit_or_zero_step

bit_and-zero : (a : ℕ) → bit_and a 0 ≡ 0
bit_and-zero a = WellFounded.induction lt_wf a bit_and_zero_step

scale : (q k : ℕ) → q * 2 ^ suc k ≡ 2 * (q * 2 ^ k)
scale q k = omega (arith, ap (λ (t : ℕ). q * t) (pow-suc 2 k))

-- `(q << k) | r` adds a field of `k` bits.
pub bit_or-eq-add : (k q r : ℕ) → r < 2 ^ k → bit_or (q * 2 ^ k) r ≡ q * 2 ^ k + r
bit_or-eq-add zero q r fits = ground (arith, bit_or-zero q)
bit_or-eq-add (suc k) q r fits =
    ground
      (arith, bit_or-halve (q * 2 ^ suc k) r, scale q k, bit_or-eq-add k q (r / 2) (omega arith))

low_bits_kept : (k q r : ℕ) → r < 2 ^ k → bit_and (q * 2 ^ k + r) (2 ^ k - 1) ≡ r
low_bits_kept zero q r fits = ground (arith, bit_and-zero (q * 1 + r))
low_bits_kept (suc k) q r fits = ground (
  arith,
  bit_and-halve (q * 2 ^ suc k + r) (2 ^ suc k - 1),
  scale q k,
  pow-suc 2 k,
  low_bits_kept k q (r / 2) (omega arith),
)

-- `a & (2 ^ k - 1)` is the remainder by `2 ^ k`.
pub bit_and-eq-mod : (k a : ℕ) → bit_and a (2 ^ k - 1) ≡ a % 2 ^ k
bit_and-eq-mod k a = ground (arith, one-le-pow k 2, low_bits_kept k (a / 2 ^ k) (a % 2 ^ k))
