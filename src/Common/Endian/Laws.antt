-- ===== src/Common/Endian/Laws.antt =====
-- What the byte swaps and the reads of endian.hpp compute, at every width.
use native.Mathlib.Nat.{pow-suc}
use mathlib.Core.List.{reverse-cons, reverse-reverse}
use dpdk_itch5_feedhandler.Prelude.{
  subst, ℕ, zero, suc, ◌+◌, ◌*◌, ◌/◌, ◌%◌, ◌^◌, ◌<◌, ◌≡◌, refl, sym, ap, ap₂, ◌∙◌, [], ◌∷◌, ◌++◌,
  Bytes, AreBytes, length, length-append, All-append, reverse, arith,
}
use dpdk_itch5_feedhandler.Common.Endian.{to_le, from_le, from_be, swap_bytes}

-- The `n` bytes of a number as a document writes them on the wire: highest first.
unfoldable pub be : ℕ → ℕ → Bytes
be zero v = []
be (suc n) v = be n (v / 256) ++ (v % 256) ∷ []

pub length-be : (n v : ℕ) → length (be n v) ≡ n
unfolding be
length-be zero v = refl
length-be (suc n) v =
    omega (arith, length-append (be n (v / 256)) ((v % 256) ∷ []), length-be n (v / 256))

pub be-AreBytes : (n v : ℕ) → AreBytes (be n v)
unfolding be
be-AreBytes zero v = tt
be-AreBytes (suc n) v = All-append _ (be n (v / 256)) _ (be-AreBytes n (v / 256)) (omega arith, tt)

length-reverse : (bs : Bytes) → length (reverse bs) ≡ length bs
length-reverse [] = refl
length-reverse (b ∷ bs) =
    rw (reverse-cons b bs) (omega (arith, length-append (reverse bs) (b ∷ []), length-reverse bs))

from_be-snoc : (bs : Bytes) (b : ℕ) → from_be (bs ++ b ∷ []) ≡ from_be bs * 256 + b
unfolding from_be
from_be-snoc [] b = omega arith
from_be-snoc (x ∷ bs) b = omega (
  arith,
  from_be-snoc bs b,
  ap (λ (k : ℕ). x * 256 ^ k) (longer bs b),
  ap (λ (k : ℕ). x * k) (pow-suc 256 (length bs)),
)
  where
    longer : (bs : Bytes) (b : ℕ) → length (bs ++ b ∷ []) ≡ suc (length bs)
    longer bs b = omega (arith, length-append bs (b ∷ []))

pub from_be-be : (n v : ℕ) → v < 256 ^ n → from_be (be n v) ≡ v
unfolding be
from_be-be zero v h = unfold from_be in omega arith
from_be-be (suc n) v h =
    from_be-snoc (be n (v / 256)) (v % 256)
    ∙ omega (arith, from_be-be n (v / 256) (omega (arith, pow-suc 256 n)))

pub length-to_le : (n v : ℕ) → length (to_le n v) ≡ n
unfolding to_le
length-to_le zero v = refl
length-to_le (suc n) v = ap suc (length-to_le n (v / 256))

to_le-from_le : (bs : Bytes) → AreBytes bs → to_le (length bs) (from_le bs) ≡ bs
unfolding to_le from_le
to_le-from_le [] h = refl
to_le-from_le (b ∷ bs) h =
    ap₂ ◌∷◌ (omega arith) (ap (to_le (length bs)) (omega arith) ∙ to_le-from_le bs h.1)

pub from_le-to_le : (n v : ℕ) → v < 256 ^ n → from_le (to_le n v) ≡ v
unfolding to_le from_le
from_le-to_le zero v h = omega arith
from_le-to_le (suc n) v h = omega (arith, from_le-to_le n (v / 256) (omega (arith, pow-suc 256 n)))

-- A byte swap of the loaded value gives the number that the bytes stand for on the wire.
pub swap_bytes-from_le :
    (bs : Bytes) → AreBytes bs → swap_bytes (length bs) (from_le bs) ≡ from_be bs
unfolding swap_bytes
swap_bytes-from_le bs h = ap from_be (to_le-from_le bs h)

from_le-snoc : (bs : Bytes) (b : ℕ) → from_le (bs ++ b ∷ []) ≡ from_le bs + b * 256 ^ length bs
unfolding from_le
from_le-snoc [] b = omega arith
from_le-snoc (x ∷ bs) b =
    omega (arith, from_le-snoc bs b, ap (λ (k : ℕ). b * k) (pow-suc 256 (length bs)))

from_le-reverse : (bs : Bytes) → from_le (reverse bs) ≡ from_be bs
unfolding from_be
from_le-reverse [] = unfold from_le in refl
from_le-reverse (b ∷ bs) =
    rw (reverse-cons b bs) (from_le-snoc (reverse bs) b ∙ omega (arith, from_le-reverse bs, place))
  where
    place : b * 256 ^ length (reverse bs) ≡ b * 256 ^ length bs
    place = ap (λ (k : ℕ). b * 256 ^ k) (length-reverse bs)

AreBytes-reverse : (bs : Bytes) → AreBytes bs → AreBytes (reverse bs)
AreBytes-reverse [] h = tt
AreBytes-reverse (b ∷ bs) h =
    rw (reverse-cons b bs) (All-append _ (reverse bs) _ (AreBytes-reverse bs h.1) (h.0, tt))

to_le-AreBytes : (n v : ℕ) → AreBytes (to_le n v)
unfolding to_le
to_le-AreBytes zero v = tt
to_le-AreBytes (suc n) v = (omega arith, to_le-AreBytes n (v / 256))

-- Swapping the bytes twice gives the value back.
pub swap_bytes_twice : (n v : ℕ) → v < 256 ^ n → swap_bytes n (swap_bytes n v) ≡ v
unfolding swap_bytes
swap_bytes_twice n v h = rw (← from_le-reverse (to_le n v)) (ap from_be turned ∙ back)
  where
    size : length (reverse (to_le n v)) ≡ n
    size = length-reverse (to_le n v) ∙ length-to_le n v

    turned : to_le n (from_le (reverse (to_le n v))) ≡ reverse (to_le n v)
    turned =
        ap (λ k. to_le k (from_le (reverse (to_le n v)))) (sym size)
        ∙ to_le-from_le (reverse (to_le n v)) (AreBytes-reverse _ (to_le-AreBytes n v))

    back : from_be (reverse (to_le n v)) ≡ v
    back =
        sym (from_le-reverse (reverse (to_le n v)))
        ∙ ap from_le (reverse-reverse (to_le n v))
        ∙ from_le-to_le n v h

digit_fits : (b k low : ℕ) → b < 256 → low < k → b * k + low < k * 256
digit_fits b k low h l = grind arith

pub from_be-lt : (bs : Bytes) → AreBytes bs → from_be bs < 256 ^ length bs
unfolding from_be
from_be-lt [] h = omega arith
from_be-lt (b ∷ bs) h =
    rw (pow-suc 256 (length bs))
      (digit_fits b (256 ^ length bs) (from_be bs) h.0 (from_be-lt bs h.1))

-- The host's value of `n` wire bytes, swapped, is the number that they write.
pub swap_bytes-be : (n v : ℕ) → v < 256 ^ n → swap_bytes n (from_le (be n v)) ≡ v
swap_bytes-be n v h =
    ap (λ k. swap_bytes k (from_le (be n v))) (sym (length-be n v))
    ∙ swap_bytes-from_le (be n v) (be-AreBytes n v)
    ∙ from_be-be n v h

-- A byte swap gives a number of its width, whatever the value was.
pub swap_bytes-lt : (n v : ℕ) → swap_bytes n v < 256 ^ n
unfolding swap_bytes
swap_bytes-lt n v =
    subst (λ k. from_be (to_le n v) < 256 ^ k) (length-to_le n v)
      (from_be-lt (to_le n v) (to_le-AreBytes n v))
