-- ===== src/Spsc/Ring.antt =====
-- `RingBuffer<T, Capacity>` of include/spsc/ring_buffer.hpp, its calls one after the other. An
-- access outside of the array is undefined behaviour and gives `none`.
use Prim.Native.Nat.{bit_and}
use dpdk_itch5_feedhandler.Prelude.{
  ℕ, List, Bool, true, false, Option, none, some, length, get_elem?, set, replicate, ltb, leb, ◌==◌,
  if◌then◌else◌, ◌>>=◌, add64, sub64,
}

pub record RingBuffer {ℓ} (A : Type ℓ) : Type ℓ where
  pub buffer : List A
  pub head : ℕ
  pub tail : ℕ

-- `buffer_[index] = item`
unfoldable pub store {ℓ} : {A : Type ℓ} → List A → ℕ → A → Option (List A)
store buffer index item = if ltb index (length buffer) then some (set buffer index item) else none

-- `Capacity` is the template's argument.
module _ (capacity : ℕ) where
  unfoldable pub increment : ℕ → ℕ
  increment index = bit_and (add64 index 1) (sub64 capacity 1)

  module _ {ℓ} {A : Type ℓ} where
    -- The constructor; every slot holds `T{}`.
    unfoldable pub new_ring : A → RingBuffer A
    new_ring default = record { buffer = replicate capacity default; head = 0; tail = 0 }

    unfoldable pub try_push : RingBuffer A → A → Option (Bool × RingBuffer A)
    try_push r item =
        let next_head = increment r.head in
        if next_head == r.tail
        then some (false, r)
        else (store r.buffer r.head item >>= λ buffer.
            some (true, record r { buffer = buffer; head = next_head }))

    unfoldable pub try_pop : RingBuffer A → Option (Option A × RingBuffer A)
    try_pop r =
        if r.tail == r.head
        then some (none, r)
        else (get_elem? r.buffer r.tail >>= λ item.
            some (some item, record r { tail = increment r.tail }))

    unfoldable pub peek : RingBuffer A → Option (Option A)
    peek r =
        if r.tail == r.head
        then some none
        else (get_elem? r.buffer r.tail >>= λ item. some (some item))

    unfoldable pub empty : RingBuffer A → Bool
    empty r = r.head == r.tail

    unfoldable pub full : RingBuffer A → Bool
    full r = increment r.head == r.tail

    unfoldable pub size : RingBuffer A → ℕ
    size r = if leb r.tail r.head then sub64 r.head r.tail else add64 (sub64 capacity r.tail) r.head

    unfoldable pub available : RingBuffer A → ℕ
    unfolding size
    available r = sub64 (sub64 capacity (size r)) 1
