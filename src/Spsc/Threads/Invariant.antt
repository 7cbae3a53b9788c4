-- ===== src/Spsc/Threads/Invariant.antt =====
-- What holds of a ring buffer of include/spsc/ring_buffer.hpp between the steps of its two threads.
use dpdk_itch5_feedhandler.Prelude.{
  ℕ, suc, ◌+◌, ◌<◌, ◌≡◌, ◌∙◌, List, [], ◌∷◌, ◌++◌, false, some, length, get_elem?, set, length-set,
  length-append, ◌==◌, subst, arith,
}
use dpdk_itch5_feedhandler.Spsc.Ring.{RingBuffer, increment}
use dpdk_itch5_feedhandler.Spsc.Queue
use dpdk_itch5_feedhandler.Spsc.Refine.{
  IsCapacity, Represents, Holds, place, increment-eq-place, Holds-store,
}
use dpdk_itch5_feedhandler.Spsc.Threads.{Producer, Consumer, Machine}

module _ {ℓ} {A : Type ℓ} where
  Holds-init :
      (buffer : List A) (c t : ℕ) (q : List A) (x : A)
      → Holds buffer c t (q ++ x ∷ [])
      → Holds buffer c t q
  Holds-init buffer c t [] x h = tt
  Holds-init buffer c t (y ∷ q) x h = (h.0, Holds-init buffer c (place c t 1) q x h.1)

  Holds-append :
      (buffer : List A) (c t : ℕ) (q : List A) (x : A)
      → t < c
      → length q < c
      → Holds buffer c t q
      → get_elem? buffer (place c t (length q)) ≡ some x
      → Holds buffer c t (q ++ x ∷ [])
  Holds-append buffer c t [] x h k held e = (subst (λ i. get_elem? buffer i ≡ some x) same e, tt)
    where
      same : place c t 0 ≡ t
      same = ground arith
  Holds-append buffer c t (y ∷ q) x h k held e = (
    held.0,
    Holds-append buffer c (place c t 1) q x (ground arith) (omega arith) held.1
        (subst (λ i. get_elem? buffer i ≡ some x) same e),
  )
    where
      same : place c t (suc (length q)) ≡ place c (place c t 1) (length q)
      same = ground arith

  -- What the producer knows while the queue is `q`: its copy of the head is right, there is room,
  -- and the slot is written.
  abbrev pub Producing : ℕ → Producer A → RingBuffer A → List A → Type ℓ
  Producing c Producer.idle r q = Unit
  Producing c (Producer.loaded x head) r q = (head ≡ r.head) × Unit {ℓ}
  Producing c (Producer.checked x head) r q = (head ≡ r.head) × (length q + 1 < c) × Unit {ℓ}
  Producing c (Producer.written x head) r q =
      (head ≡ r.head) × (length q + 1 < c) × (get_elem? r.buffer head ≡ some x)

  -- What the consumer knows: its copy of the tail is right, there is an item, and it has read it.
  abbrev pub Consuming : Consumer A → RingBuffer A → List A → Type ℓ
  Consuming Consumer.idle r q = Unit
  Consuming (Consumer.loaded tail) r q = (tail ≡ r.tail) × Unit {ℓ}
  Consuming (Consumer.checked tail) r q = (tail ≡ r.tail) × (0 < length q) × Unit {ℓ}
  Consuming (Consumer.taken tail x) r q = (tail ≡ r.tail) × (Queue.front q ≡ some x)

  -- What holds between the steps: the ring holds what was pushed and not yet popped, in order.
  pub record IsMachine (c : ℕ) (m : Machine A) : Type ℓ where
    pub queue : List A
    pub represents : Represents c m.ring queue
    pub in_order : m.sent ≡ m.received ++ queue
    pub producing : Producing c m.producer m.ring queue
    pub consuming : Consuming m.consumer m.ring queue

  -- Publishing an item behind the others.
  front-append :
      (q : List A) (x y : A) → Queue.front q ≡ some x → Queue.front (q ++ y ∷ []) ≡ some x
  front-append [] x y e = absurd (cc e)
  front-append (z ∷ q) x y e = e

  pub Consuming-append :
      (k : Consumer A) (r : RingBuffer A) (head : ℕ) (q : List A) (x : A)
      → Consuming k r q
      → Consuming k (record r { head = head }) (q ++ x ∷ [])
  Consuming-append Consumer.idle r head q x h = tt
  Consuming-append (Consumer.loaded tail) r head q x h = h
  Consuming-append (Consumer.checked tail) r head q x h =
      (h.0, omega (arith, length-append q (x ∷ [])), tt)
  Consuming-append (Consumer.taken tail y) r head q x h = (h.0, front-append q y x h.1)

  pub Consuming-write :
      (k : Consumer A) (r : RingBuffer A) (buffer q : List A)
      → Consuming k r q
      → Consuming k (record r { buffer = buffer }) q
  Consuming-write Consumer.idle r buffer q h = tt
  Consuming-write (Consumer.loaded tail) r buffer q h = h
  Consuming-write (Consumer.checked tail) r buffer q h = h
  Consuming-write (Consumer.taken tail y) r buffer q h = h

  pub Producing-pop :
      (c : ℕ) (p : Producer A) (r : RingBuffer A) (tail : ℕ) (x : A) (q : List A)
      → Producing c p r (x ∷ q)
      → Producing c p (record r { tail = tail }) q
  Producing-pop c Producer.idle r tail x q h = tt
  Producing-pop c (Producer.loaded y head) r tail x q h = h
  Producing-pop c (Producer.checked y head) r tail x q h = (h.0, omega arith, tt)
  Producing-pop c (Producer.written y head) r tail x q h = (h.0, omega arith, h.2)

  pub room_left :
      (c : ℕ) (r : RingBuffer A) (q : List A)
      → IsCapacity c
      → Represents c r q
      → (increment c r.head == r.tail) ≡ false
      → length q + 1 < c
  room_left c r q k v e = ground (arith, increment-eq-place c r.head k (ground arith))

  pub item_there :
      (c : ℕ) (r : RingBuffer A) (q : List A)
      → Represents c r q
      → (r.tail == r.head) ≡ false
      → 0 < length q
  item_there c r [] v e = ground arith
  item_there c r (x ∷ q) v e = omega arith

  -- The write into the free slot behind the items.
  pub written-Represents :
      (c : ℕ) (r : RingBuffer A) (q : List A) (x : A)
      → Represents c r q
      → Represents c (record r { buffer = set r.buffer r.head x }) q
  written-Represents c r q x v = record {
    slots = length-set r.buffer r.head x ∙ v.slots;
    tail_in = v.tail_in;
    fits = v.fits;
    head_at = v.head_at;
    held =
        Holds-init (set r.buffer r.head x) c r.tail q x
          (Holds-store r.buffer c r.tail r.head q x v.slots v.tail_in v.fits v.head_at v.held);
  }

  pub published-Represents :
      (c : ℕ) (r : RingBuffer A) (q : List A) (x : A)
      → IsCapacity c
      → Represents c r q
      → length q + 1 < c
      → get_elem? r.buffer r.head ≡ some x
      → Represents c (record r { head = increment c r.head }) (q ++ x ∷ [])
  published-Represents c r q x k v room e = record {
    slots = v.slots;
    tail_in = v.tail_in;
    fits = omega (arith, length-append q (x ∷ []));
    head_at =
        increment-eq-place c r.head k (ground arith) ∙ ground (arith, length-append q (x ∷ []));
    held =
        Holds-append r.buffer c r.tail q x v.tail_in v.fits v.held
          (subst (λ i. get_elem? r.buffer i ≡ some x) v.head_at e);
  }

  pub released-Represents :
      (c : ℕ) (r : RingBuffer A) (x : A) (q : List A)
      → IsCapacity c
      → Represents c r (x ∷ q)
      → Represents c (record r { tail = increment c r.tail }) q
  released-Represents c r x q k v = rw (increment-eq-place c r.tail k v.tail_in) (record {
    slots = v.slots;
    tail_in = ground arith;
    fits = omega arith;
    head_at = ground arith;
    held = v.held.1;
  })
