-- ===== src/Spsc/Spin/Returns.antt =====
-- The spinning calls of include/spsc/ring_buffer.hpp return as soon as the other thread has done its
-- part.
use dpdk_itch5_feedhandler.Prelude.{
  ℕ, zero, suc, ◌+◌, ◌≤◌, ◌<◌, ◌≡◌, refl, ap, ◌∙◌, sym, List, [], ◌∷◌, ◌++◌, append_assoc,
  append-nil, true, false, some, length, length-drop, drop, ltb, Bool-cases, lt→ltb, inl, inr,
  some-inj, subst, arith,
}
use dpdk_itch5_feedhandler.Spsc.Ring.{RingBuffer, try_push}
use dpdk_itch5_feedhandler.Spsc.Queue
use dpdk_itch5_feedhandler.Spsc.Refine.{IsCapacity, Represents, try_push_refines, try_pop_refines}
use dpdk_itch5_feedhandler.Spsc.Spin.{pops, pushes, push, pop}

abbrev pub sum : List ℕ → ℕ
sum [] = 0
sum (n ∷ ns) = n + sum ns

one-IsCapacity : IsCapacity 1
one-IsCapacity = record { log = 0; power = refl; positive = omega arith; small = omega arith }

module _ {ℓ} {A : Type ℓ} where
  abbrev pub concat : List (List A) → List A
  concat [] = []
  concat (xs ∷ xss) = xs ++ concat xss

  drop-nil : (n : ℕ) → drop {A = A} n [] ≡ []
  drop-nil zero = refl
  drop-nil (suc n) = refl

  drop-drop : (n k : ℕ) (q : List A) → drop n (drop k q) ≡ drop (k + n) q
  drop-drop n zero q = ap (λ i. drop i q) (omega arith)
  drop-drop n (suc k) [] = drop-nil n ∙ ap (λ i. drop i []) next
    where
      next : suc (k + n) ≡ suc k + n
      next = omega arith
  drop-drop n (suc k) (x ∷ q) = drop-drop n k q ∙ ap (λ i. drop i (x ∷ q)) next
    where
      next : suc (k + n) ≡ suc k + n
      next = omega arith

  push_room :
      (c : ℕ) (q : List A) (x : A)
      → ltb (length q + 1) c ≡ true
      → Queue.push c q x ≡ (true, q ++ x ∷ [])
  unfolding Queue.push
  push_room c q x room = rw room

  push_full :
      (c : ℕ) (q : List A) (x : A) → ltb (length q + 1) c ≡ false → Queue.push c q x ≡ (false, q)
  unfolding Queue.push
  push_full c q x full = rw full

  module _ (c : ℕ) (k : IsCapacity c) where
    pops_refines :
        (n : ℕ) (r : RingBuffer A) (q : List A)
        → Represents c r q
        → (r' : RingBuffer A) × (pops c n r ≡ some r') × Represents c r' (drop n q)
    unfolding pops Queue.pop
    pops_refines zero r q v = (r, refl, v)
    pops_refines (suc n) r [] v =
        let (r1, e, w) = try_pop_refines c r [] k v in
        let (r', e', w') = pops_refines n r1 [] w in
        (r', rw e e', subst (Represents c r') (drop-nil n) w')
    pops_refines (suc n) r (x ∷ q) v =
        let (r1, e, w) = try_pop_refines c r (x ∷ q) k v in
        let (r', e', w') = pops_refines n r1 q w in (r', rw e e', w')

    push_now :
        (turns : List ℕ) (r : RingBuffer A) (q : List A) (x : A)
        → ltb (length q + 1) c ≡ true
        → Represents c r q
        → (r' : RingBuffer A) × (push c turns r x ≡ some (true, r')) × Represents c r' (q ++ x ∷ [])
    unfolding push
    push_now turns r q x room v =
        let (r1, e, w) = try_push_refines c r q x k v in
        (
          r1,
          at_once turns (subst (λ p. try_push c r x ≡ some (p.0, r1)) (push_room c q x room) e),
          subst (λ p. Represents c r1 p.1) (push_room c q x room) w,
        )
      where
        at_once :
            {r1 : RingBuffer A} (turns : List ℕ)
            → try_push c r x ≡ some (true, r1)
            → push c turns r x ≡ some (true, r1)
        at_once [] e = e
        at_once (n ∷ turns) e = rw e refl

    -- A spinning push returns, with the item behind what is left of the queue, once the queue had
    -- room or the consumer has popped from it.
    pub push_returns :
        (turns : List ℕ) (r : RingBuffer A) (q : List A) (x : A)
        → 1 < c
        → Represents c r q
        → length q + 1 < c + sum turns
        → (n : ℕ) × (n ≤ sum turns)
          × (r' : RingBuffer A) × (push c turns r x ≡ some (true, r'))
          × Represents c r' (drop n q ++ x ∷ [])
    unfolding push
    push_returns [] r q x one v h =
        let (r', e, w) = push_now [] r q x (lt→ltb _ _ (omega arith)) v in
        (0, omega arith, r', e, w)
    push_returns (m ∷ turns) r q x one v h = elim (Bool-cases (ltb (length q + 1) c)) [
      | inl room ↦
          (let (r', e, w) = push_now (m ∷ turns) r q x room v in (0, omega arith, r', e, w))
      | inr full ↦
          (let (r1, e1, w1) = try_push_refines c r q x k v in
            let (r2, e2, w2) =
              pops_refines m r1 q (subst (λ p. Represents c r1 p.1) (push_full c q x full) w1) in
            let (n, few, r', e, w) =
              push_returns turns r2 (drop m q) x one w2 (omega (arith, length-drop m q, v.fits)) in
            (
              m + n,
              omega arith,
              r',
              rw (subst (λ p. try_push c r x ≡ some (p.0, r1)) (push_full c q x full) e1, e2) e,
              subst (λ q'. Represents c r' (q' ++ x ∷ [])) (drop-drop n m q) w,
            ))
    ]

    -- Pushes put nothing in front of what is in the queue.
    pushes_behind :
        (xs : List A) (r : RingBuffer A) (q : List A)
        → Represents c r q
        → (r' : RingBuffer A) × (pushes c xs r ≡ some r')
          × (more : List A) × Represents c r' (q ++ more)
    unfolding pushes
    pushes_behind [] r q v = (r, refl, [], subst (Represents c r) (sym (append-nil q)) v)
    pushes_behind (x ∷ xs) r q v =
        let (r1, e1, w1) = try_push_refines c r q x k v in
        elim (Bool-cases (ltb (length q + 1) c)) [
          | inl room ↦
              (let (r', e, more, w) =
                  pushes_behind xs r1 (q ++ x ∷ [])
                    (subst (λ p. Represents c r1 p.1) (push_room c q x room) w1) in
                (r', rw e1 e, x ∷ more, subst (Represents c r') (append_assoc q (x ∷ []) more) w))
          | inr full ↦
              (let (r', e, more, w) =
                  pushes_behind xs r1 q
                    (subst (λ p. Represents c r1 p.1) (push_full c q x full) w1) in
                (r', rw e1 e, more, w))
        ]

    pop_now :
        (turns : List (List A)) (r : RingBuffer A) (x : A) (q : List A)
        → Represents c r (x ∷ q)
        → (r' : RingBuffer A) × (pop c turns r ≡ some (some x, r')) × Represents c r' q
    unfolding pop Queue.pop
    pop_now [] r x q v = try_pop_refines c r (x ∷ q) k v
    pop_now (xs ∷ turns) r x q v =
        let (r1, e, w) = try_pop_refines c r (x ∷ q) k v in (r1, rw e refl, w)

    -- A spinning pop returns the oldest item of the queue, or where the queue is empty the first that
    -- the producer then pushes, as soon as there is one.
    pub pop_returns :
        (turns : List (List A)) (r : RingBuffer A) (q : List A) (x : A)
        → 1 < c
        → Represents c r q
        → Queue.front (q ++ concat turns) ≡ some x
        → (r' : RingBuffer A) × (pop c turns r ≡ some (some x, r'))
          × (rest : List A) × Represents c r' rest
    unfolding pop Queue.pop Queue.push pushes
    pop_returns turns r (y ∷ q) x one v h =
        let (r', e, w) = pop_now turns r y q v in
        (r', subst (λ z. pop c turns r ≡ some (some z, r')) (some-inj h) e, q, w)
    pop_returns [] r [] x one v h = absurd (cc h)
    pop_returns ([] ∷ turns) r [] x one v h =
        let (r1, e1, w1) = try_pop_refines c r [] k v in
        let (r', e, rest, w) = pop_returns turns r1 [] x one w1 h in (r', rw e1 e, rest, w)
    pop_returns ((y ∷ ys) ∷ turns) r [] x one v h =
        let (r1, e1, w1) = try_pop_refines c r [] k v in
        let (r2, e2, w2) = try_push_refines c r1 [] y k w1 in
        let (r3, e3, more, w3) =
          pushes_behind ys r2 (y ∷ [])
            (subst (λ p. Represents c r2 p.1) (push_room c [] y (lt→ltb _ _ (omega arith))) w2) in
        let (r', e, w) = pop_now turns r3 y more w3 in
        (
          r',
          subst (λ z. pop c ((y ∷ ys) ∷ turns) r ≡ some (some z, r')) (some-inj h)
              (rw (e1, e2, e3) e),
          more,
          w,
        )

  -- A ring of capacity 1, which the class allows, has no room for an item, so a spinning push never
  -- returns, whatever the consumer does.
  pub push_one_slot :
      (turns : List ℕ) (r : RingBuffer A) (x : A)
      → Represents 1 r []
      → (r' : RingBuffer A) × (push 1 turns r x ≡ some (false, r')) × Represents 1 r' []
  unfolding push Queue.push
  push_one_slot [] r x v = try_push_refines 1 r [] x one-IsCapacity v
  push_one_slot (n ∷ turns) r x v =
      let (r1, e1, w1) = try_push_refines 1 r [] x one-IsCapacity v in
      let (r2, e2, w2) = pops_refines 1 one-IsCapacity n r1 [] w1 in
      let (r', e, w) = push_one_slot turns r2 x (subst (Represents 1 r2) (drop-nil n) w2) in
      (r', rw (e1, e2) e, w)
