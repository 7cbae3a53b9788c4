-- ===== src/Spsc/Refine.antt =====
-- The calls of `RingBuffer` in include/spsc/ring_buffer.hpp are those of the queue of its items.
use Prim.Native.Nat.{bit_and}
use native.Mathlib.Nat.{mod-eq_of_lt, mod-eq-sub-mod}
use dpdk_itch5_feedhandler.Prelude.{
  ℕ, zero, suc, ◌+◌, ◌-◌, ◌%◌, ◌^◌, ◌≤◌, ◌<◌, ◌≡◌, ◌≢◌, refl, ap, ap₂, sym, ◌∙◌, List, [], ◌∷◌,
  ◌++◌, true, false, some, length, get_elem?, set, length-set, length-append, length-replicate, ltb,
  ◌==◌, if◌then◌else◌, add64, sub64, inl, inr, Bool-cases, ltb→lt, ltb→le, arith,
}
use dpdk_itch5_feedhandler.Prelude.Bits.{bit_and-eq-mod}
use dpdk_itch5_feedhandler.Spsc.Queue
use dpdk_itch5_feedhandler.Spsc.Ring.{
  RingBuffer, store, increment, new_ring, try_push, try_pop, peek, empty, full, size, available,
}

-- The slot `n` places after slot `t`, for `n` at most the capacity.
abbrev pub place : ℕ → ℕ → ℕ → ℕ
place capacity t n = if ltb (t + n) capacity then t + n else t + n - capacity

-- The capacities that the template accepts and a 64-bit address space holds: powers of two.
pub record IsCapacity (capacity : ℕ) : Type 0 where
  pub log : ℕ
  pub power : capacity ≡ 2 ^ log
  pub positive : 0 < capacity
  pub small : capacity ≤ 2 ^ 63

mod_once : (c x : ℕ) → x < c + c → x % c ≡ (if ltb x c then x else x - c)
mod_once c x h = elim (Bool-cases (ltb x c)) [
  | inl e ↦ rw e (mod-eq_of_lt (ltb→lt x c e))
  | inr e ↦ rw e (
      mod-eq-sub-mod {n = x} {m = c} (ltb→le x c e)
      ∙ mod-eq_of_lt {n = x - c} {m = c} (omega (arith, ltb→le x c e)))
]

pub increment-eq-place : (c i : ℕ) → IsCapacity c → i < c → increment c i ≡ place c i 1
unfolding increment
increment-eq-place c i k h =
    ap₂ bit_and next mask
    ∙ bit_and-eq-mod k.log (i + 1)
    ∙ ap (λ m. (i + 1) % m) (sym k.power)
    ∙ mod_once c (i + 1) (omega arith)
  where
    next : add64 i 1 ≡ i + 1
    next = omega arith

    mask : sub64 c 1 ≡ 2 ^ k.log - 1
    mask = omega arith

module _ {ℓ} {A : Type ℓ} where
  pub get_elem?-set_self :
      (xs : List A) (i : ℕ) (v : A) → i < length xs → get_elem? (set xs i v) i ≡ some v
  get_elem?-set_self [] i v h = absurd (omega arith)
  get_elem?-set_self (x ∷ xs) zero v h = refl
  get_elem?-set_self (x ∷ xs) (suc i) v h = get_elem?-set_self xs i v (omega arith)

  pub get_elem?-set_ne :
      (xs : List A) (i j : ℕ) (v : A) → i ≢ j → get_elem? (set xs i v) j ≡ get_elem? xs j
  get_elem?-set_ne [] i j v h = refl
  get_elem?-set_ne (x ∷ xs) zero zero v h = absurd (h refl)
  get_elem?-set_ne (x ∷ xs) zero (suc j) v h = refl
  get_elem?-set_ne (x ∷ xs) (suc i) zero v h = refl
  get_elem?-set_ne (x ∷ xs) (suc i) (suc j) v h = get_elem?-set_ne xs i j v (λ e. h (ap suc e))

  -- The items stand in the slots from `t` on, going round at the capacity.
  abbrev pub Holds : List A → ℕ → ℕ → List A → Type ℓ
  Holds buffer c t [] = Unit
  Holds buffer c t (x ∷ q) = (get_elem? buffer t ≡ some x) × Holds buffer c (place c t 1) q

  pub Holds-store :
      (buffer : List A) (c t i : ℕ) (q : List A) (x : A)
      → length buffer ≡ c
      → t < c
      → length q < c
      → i ≡ place c t (length q)
      → Holds buffer c t q
      → Holds (set buffer i x) c t (q ++ x ∷ [])
  Holds-store buffer c t i [] x b h k e held = (
    ap (λ j. get_elem? (set buffer j x) t) same ∙ get_elem?-set_self buffer t x (omega arith),
    tt,
  )
    where
      same : i ≡ t
      same = ground arith
  Holds-store buffer c t i (y ∷ q) x b h k e held = (
    get_elem?-set_ne buffer i t x (ground arith) ∙ held.0,
    Holds-store buffer c (place c t 1) i q x b (ground arith) (omega arith) (ground arith) held.1,
  )

  -- The ring `r` of capacity `c` holds the items of `q`, oldest first.
  pub record Represents (c : ℕ) (r : RingBuffer A) (q : List A) : Type ℓ where
    pub slots : length r.buffer ≡ c
    pub tail_in : r.tail < c
    pub fits : length q < c
    pub head_at : r.head ≡ place c r.tail (length q)
    pub held : Holds r.buffer c r.tail q

  -- A fresh ring is empty.
  pub new_ring-Represents : (c : ℕ) (default : A) → 0 < c → Represents c (new_ring c default) []
  unfolding new_ring
  new_ring-Represents c default h = record {
    slots = length-replicate c default;
    tail_in = h;
    fits = h;
    head_at = ground arith;
    held = tt;
  }

  -- `try_push` succeeds exactly when the queue has room, never writes outside of the array, and
  -- leaves the ring holding what the queue holds after its push.
  pub try_push_refines :
      (c : ℕ) (r : RingBuffer A) (q : List A) (x : A)
      → IsCapacity c
      → Represents c r q
      → (r' : RingBuffer A) × (try_push c r x ≡ some ((Queue.push c q x).0, r'))
        × Represents c r' (Queue.push c q x).1
  unfolding try_push store Queue.push
  try_push_refines c r q x k v =
      let head_in : r.head < c = ground arith in
      let next = increment-eq-place c r.head k head_in in
      let pushed : RingBuffer A = record r {
        buffer = set r.buffer r.head x;
        head = place c r.head 1;
      } in
      elim (Bool-cases (ltb (length q + 1) c)) [
        | inl room ↦ (
          pushed,
          rw (not_full room, in_bounds, next, room),
          rw room (record {
            slots = length-set r.buffer r.head x ∙ v.slots;
            tail_in = v.tail_in;
            fits = omega (arith, length-append q (x ∷ []), ltb→lt _ _ room);
            head_at = ground (arith, length-append q (x ∷ []));
            held =
                Holds-store r.buffer c r.tail r.head q x v.slots v.tail_in v.fits v.head_at v.held;
          }),
        )
        | inr no_room ↦ (r, rw (is_full no_room, no_room), rw no_room v)
      ]
    where
      not_full : ltb (length q + 1) c ≡ true → (increment c r.head == r.tail) ≡ false
      not_full room = ground (arith, increment-eq-place c r.head k (ground arith))

      is_full : ltb (length q + 1) c ≡ false → (increment c r.head == r.tail) ≡ true
      is_full no_room = ground (arith, increment-eq-place c r.head k (ground arith))

      in_bounds : ltb r.head (length r.buffer) ≡ true
      in_bounds = ground arith

  -- `try_pop` returns the oldest item, or nothing when there is none, never reads outside of the
  -- array, and leaves the ring holding the rest.
  pub try_pop_refines :
      (c : ℕ) (r : RingBuffer A) (q : List A)
      → IsCapacity c
      → Represents c r q
      → (r' : RingBuffer A) × (try_pop c r ≡ some ((Queue.pop q).0, r'))
        × Represents c r' (Queue.pop q).1
  unfolding try_pop Queue.pop
  try_pop_refines c r [] k v = (r, ground arith, v)
  try_pop_refines c r (x ∷ q) k v =
      let next = increment-eq-place c r.tail k v.tail_in in
      (
        record r { tail = place c r.tail 1 },
        ground (arith, next),
        record {
          slots = v.slots;
          tail_in = ground arith;
          fits = omega arith;
          head_at = ground arith;
          held = v.held.1;
        },
      )

  peek-front :
      (c : ℕ) (r : RingBuffer A) (q : List A) → Represents c r q → peek c r ≡ some (Queue.front q)
  unfolding peek
  peek-front c r [] v = rw same
    where
      same : (r.tail == r.head) ≡ true
      same = ground arith
  peek-front c r (x ∷ q) v = rw (other, v.held.0)
    where
      other : (r.tail == r.head) ≡ false
      other = ground arith

  -- The observers see the queue: its front, its length, whether it is empty or full, and the room.
  pub observers_agree :
      (c : ℕ) (r : RingBuffer A) (q : List A)
      → IsCapacity c
      → Represents c r q
      → (peek c r ≡ some (Queue.front q))
        × (size c r ≡ length q)
        × (available c r + length q + 1 ≡ c)
        × (empty c r ≡ (length q == 0))
        × (full c r ≡ (length q + 1 == c))
  unfolding size available empty full
  observers_agree c r q k v = (
    peek-front c r q v,
    counted,
    ground (arith, counted),
    ground arith,
    ground (arith, increment-eq-place c r.head k (ground arith)),
  )
    where
      counted : size c r ≡ length q
      counted = ground arith
