-- ===== src/Prelude/Memory.antt =====
-- Raw memory: a pointer is the list of the bytes that may still be read through it, so `p + n` is
-- `drop n p`. A read past the end is undefined behaviour and gives `none`.
use Prim.Native.Nat.{ℕ, zero, suc, ◌≤◌, ◌<◌}
use mathlib.Core.Path.{◌≡◌, refl, ap, ◌∙◌}
use mathlib.Core.Bool.{Bool, true, false, ◌&&◌}
use mathlib.Core.List.{List, [], ◌∷◌, ◌++◌}
use mathlib.Core.Option.{Option, none, some}
use native.Mathlib.Omega.{arith}
use dpdk_itch5_feedhandler.Prelude.Lists.{length, take, All}
use dpdk_itch5_feedhandler.Prelude.Tests.{◌==◌, if◌then◌else◌}

abbrev pub Bytes : Type 0
Bytes = List ℕ

abbrev pub IsByte : ℕ → Type 0
IsByte b = b < 256

abbrev pub AreBytes : Bytes → Type 0
AreBytes = All IsByte

-- A computation that may stop at undefined behaviour.
infixl 5 ◌>>=◌
abbrev pub ◌>>=◌ {ℓ κ} : {A : Type ℓ} {B : Type κ} → Option A → (A → Option B) → Option B
none >>= f = none
some a >>= f = f a

-- Reads `n` bytes.
unfoldable pub load : ℕ → Bytes → Option Bytes
load zero p = some []
load (suc n) [] = none
load (suc n) (b ∷ p) = load n p >>= λ bs. some (b ∷ bs)

pub load-eq-take : (n : ℕ) (p : Bytes) → n ≤ length p → load n p ≡ some (take n p)
unfolding load
load-eq-take zero p h = refl
load-eq-take (suc n) [] h = absurd (omega arith)
load-eq-take (suc n) (b ∷ p) h =
    ap (λ m. m >>= λ bs. some (b ∷ bs)) (load-eq-take n p (omega arith))

pub load-short : (n : ℕ) (p : Bytes) → length p < n → load n p ≡ none
unfolding load
load-short zero p h = absurd (omega arith)
load-short (suc n) [] h = refl
load-short (suc n) (b ∷ p) h = ap (λ m. m >>= λ bs. some (b ∷ bs)) (load-short n p (omega arith))

pub load-append : (n : ℕ) (xs ys : Bytes) → length xs ≡ n → load n (xs ++ ys) ≡ some xs
unfolding load
load-append zero [] ys h = refl
load-append zero (x ∷ xs) ys h = absurd (omega arith)
load-append (suc n) [] ys h = absurd (omega arith)
load-append (suc n) (x ∷ xs) ys h =
    ap (λ m. m >>= λ bs. some (x ∷ bs)) (load-append n xs ys (omega arith))

-- `memcmp(a, b, n) == 0` for two blocks of the same size.
unfoldable pub same_bytes : Bytes → Bytes → Bool
same_bytes [] [] = true
same_bytes [] (y ∷ ys) = false
same_bytes (x ∷ xs) [] = false
same_bytes (x ∷ xs) (y ∷ ys) = x == y && same_bytes xs ys

-- The computation returns, with a value of which `P` holds.
abbrev pub Post {ℓ κ} : {A : Type ℓ} → (A → Type κ) → Option A → Type (ℓ ⊔ κ)
Post {A} P o = (a : A) × (o ≡ some a) × P a

pub bind-Post {ℓ ℓ' κ κ'} :
    {A : Type ℓ} {B : Type ℓ'} (P : A → Type κ) (Q : B → Type κ') {m : Option A} {f : A → Option B}
    → Post P m
    → ((a : A) → P a → Post Q (f a))
    → Post Q (m >>= f)
bind-Post P Q {f} (a, e, p) k = let (b, e', q) = k a p in (b, ap (λ o. o >>= f) e ∙ e', q)

pub if-Post {ℓ κ} :
    {A : Type ℓ} (P : A → Type κ) (b : Bool) {x y : Option A}
    → (b ≡ true → Post P x)
    → (b ≡ false → Post P y)
    → Post P (if b then x else y)
if-Post P true h k = h refl
if-Post P false h k = k refl

pub if_holds {ℓ κ} :
    {A : Type ℓ} (P : A → Type κ) (b : Bool) {x y : A} → P x → P y → P (if b then x else y)
if_holds P true h k = h
if_holds P false h k = k

-- A result that is worked on further.
pub >>=_assoc {ℓ κ ν} :
    {A : Type ℓ} {B : Type κ} {C : Type ν} (m : Option A) (f : A → B) (g : B → Option C)
    → ((m >>= λ a. some (f a)) >>= g) ≡ (m >>= λ a. g (f a))
>>=_assoc none f g = refl
>>=_assoc (some a) f g = refl
