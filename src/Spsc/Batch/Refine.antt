-- ===== src/Spsc/Batch/Refine.antt =====
-- The batch calls of include/spsc/ring_buffer.hpp take as many items as there are and as fit.
use dpdk_itch5_feedhandler.Prelude.{
  ℕ, zero, suc, ◌+◌, ◌-◌, ◌^◌, ◌≤◌, ◌<◌, ◌≡◌, refl, sym, ap, ◌∙◌, List, [], ◌∷◌, ◌++◌, append_assoc,
  append-nil, Option, some, true, false, min, length, get_elem?, set, take, drop, length-append,
  ltb, ltb→lt, ltb→le, lt→ltb, inc64, Bool-cases, inl, inr, subst, arith,
}
use dpdk_itch5_feedhandler.Spsc.Ring.{RingBuffer, store, try_push}
use dpdk_itch5_feedhandler.Spsc.Queue
use dpdk_itch5_feedhandler.Spsc.Refine.{IsCapacity, Represents, try_push_refines, try_pop_refines}
use dpdk_itch5_feedhandler.Spsc.Batch.{push_from, try_push_batch, pop_from, try_pop_batch}

module _ {ℓ} {A : Type ℓ} where
  drop-eq-cons :
      (xs : List A) (i : ℕ)
      → i < length xs
      → (x : A) × (get_elem? xs i ≡ some x) × (drop i xs ≡ x ∷ drop (suc i) xs)
  drop-eq-cons [] i h = absurd (omega arith)
  drop-eq-cons (x ∷ xs) zero h = (x, refl, refl)
  drop-eq-cons (x ∷ xs) (suc i) h = drop-eq-cons xs i (omega arith)

  -- The room in a ring that holds `q`: one slot stays free.
  abbrev pub room : ℕ → List A → ℕ
  room c q = c - 1 - length q

  module _ (c : ℕ) (k : IsCapacity c) where
    push_more :
        (left i n : ℕ) (r r1 r' : RingBuffer A) (items : List A) (x : A)
        → i < 2 ^ 64 - 1
        → 0 < n
        → get_elem? items i ≡ some x
        → try_push c r x ≡ some (true, r1)
        → push_from c left r1 items (suc i) (suc i) ≡ some (suc i + (n - 1), r')
        → push_from c (suc left) r items i i ≡ some (i + n, r')
    unfolding push_from
    push_more left i n r r1 r' items x small pos got pushed done =
        rw (got, pushed, next) (done ∙ ap (λ m. some (m, r')) same)
      where
        next : inc64 i ≡ suc i
        next = omega arith

        same : suc i + (n - 1) ≡ i + n
        same = omega arith

    push_stop :
        (left i n : ℕ) (r r1 : RingBuffer A) (items : List A) (x : A)
        → n ≡ 0
        → get_elem? items i ≡ some x
        → try_push c r x ≡ some (false, r1)
        → push_from c (suc left) r items i i ≡ some (i + n, r1)
    unfolding push_from
    push_stop left i n r r1 items x nothing got pushed =
        rw (got, pushed) (ap (λ m. some (m, r1)) same)
      where
        same : i ≡ i + n
        same = omega arith

    Represents-more :
        (r : RingBuffer A) (q xs ys : List A) (x : A) (n : ℕ)
        → 0 < n
        → xs ≡ x ∷ ys
        → Represents c r ((q ++ x ∷ []) ++ take (n - 1) ys)
        → Represents c r (q ++ take n xs)
    Represents-more r q xs ys x n pos e v = subst (Represents c r) same v
      where
        one_more : suc (n - 1) ≡ n
        one_more = omega arith

        same : (q ++ x ∷ []) ++ take (n - 1) ys ≡ q ++ take n xs
        same =
            append_assoc q (x ∷ []) (take (n - 1) ys)
            ∙ ap (λ m. q ++ take m (x ∷ ys)) one_more
            ∙ ap (λ l. q ++ take n l) (sym e)

    Represents-none :
        (r : RingBuffer A) (q xs : List A) (n : ℕ)
        → n ≡ 0
        → Represents c r q
        → Represents c r (q ++ take n xs)
    Represents-none r q xs n nothing v =
        subst (λ m. Represents c r (q ++ take m xs)) (sym nothing)
          (subst (Represents c r) (sym (append-nil q)) v)

    push_from_refines :
        (left : ℕ) (r : RingBuffer A) (q items : List A) (i n : ℕ)
        → n ≡ min left (room c q)
        → i + left ≤ length items
        → i + left < 2 ^ 64
        → Represents c r q
        → (r' : RingBuffer A) × (push_from c left r items i i ≡ some (i + n, r'))
          × Represents c r' (q ++ take n (drop i items))
    unfolding push_from Queue.push
    push_from_refines zero r q items i n e h small v =
        (r, ap (λ m. some (m, r)) same, Represents-none r q (drop i items) n (omega arith) v)
      where
        same : i ≡ i + n
        same = omega arith
    push_from_refines (suc left) r q items i n e h small v =
        let (x, got, suffix) = drop-eq-cons items i (omega arith) in
        let (r1, pushed, v1) = try_push_refines c r q x k v in
        elim (Bool-cases (ltb (length q + 1) c)) [
          | inl free ↦
              (let (r', done, v') =
                  push_from_refines left r1 (q ++ x ∷ []) items (suc i) (n - 1)
                    (omega (arith, length-append q (x ∷ []), ltb→lt _ _ free)) (omega arith)
                    (omega arith) (rw free at v1) in
                (
                  r',
                  push_more left i n r r1 r' items x (omega arith) (omega (arith, ltb→lt _ _ free))
                      got (rw free at pushed) done,
                  Represents-more r' q (drop i items) (drop (suc i) items) x n
                      (omega (arith, ltb→lt _ _ free)) suffix v',
                ))
          | inr full ↦ (
            r1,
            push_stop left i n r r1 items x (omega (arith, ltb→le _ _ full)) got
                (rw full at pushed),
            Represents-none r1 q (drop i items) n (omega (arith, ltb→le _ _ full)) (rw full at v1),
          )
        ]

    -- `try_push_batch` on an array of at least `count` items pushes the first of them, in order, as
    -- many as are asked for and fit, and returns their number.
    pub try_push_batch_refines :
        (r : RingBuffer A) (q items : List A) (count : ℕ)
        → count ≤ length items
        → count < 2 ^ 64
        → Represents c r q
        → let n = min count (room c q) in
          (r' : RingBuffer A) × (try_push_batch c r items count ≡ some (n, r'))
          × Represents c r' (q ++ take n items)
    unfolding try_push_batch
    try_push_batch_refines r q items count h small v =
        let (r', e, w) =
          push_from_refines count r q items 0 (min count (room c q)) refl (omega arith)
            (omega arith) v in
        (r', e ∙ ap (λ m. some (m, r')) (omega arith), w)

    store_lem :
        (pre post : List A) (y x : A)
        → store (pre ++ y ∷ post) (length pre) x ≡ some (pre ++ x ∷ post)
    unfolding store
    store_lem pre post y x = rw inside (ap some (set-append pre))
      where
        inside : ltb (length pre) (length (pre ++ y ∷ post)) ≡ true
        inside = lt→ltb _ _ (omega (arith, length-append pre (y ∷ post)))

        set-append : (pre : List A) → set (pre ++ y ∷ post) (length pre) x ≡ pre ++ x ∷ post
        set-append [] = refl
        set-append (z ∷ pre) = ap (λ l. z ∷ l) (set-append pre)

    -- The array's items up to `pre` are written; the loop goes on in `post`.
    pop_from_refines :
        (left : ℕ) (r : RingBuffer A) (q pre post : List A) (i n : ℕ)
        → i ≡ length pre
        → n ≡ min left (length q)
        → left ≤ length post
        → i + left < 2 ^ 64
        → Represents c r q
        → (r' : RingBuffer A) × (pop_from c left r (pre ++ post) i i
            ≡ some (i + n, r', pre ++ (take n q ++ drop n post)))
          × Represents c r' (drop n q)
    unfolding pop_from Queue.pop
    pop_from_refines zero r q pre post i zero o e h small v =
        (r, ap (λ m. some (m, r, pre ++ post)) (omega arith), v)
    pop_from_refines zero r q pre post i (suc n) o e h small v = absurd (omega arith)
    pop_from_refines (suc left) r [] pre post i zero o e h small v =
        let (r1, popped, v1) = try_pop_refines c r [] k v in
        (r1, rw popped (ap (λ m. some (m, r1, pre ++ post)) (omega arith)), v1)
    pop_from_refines (suc left) r [] pre post i (suc n) o e h small v = absurd (omega arith)
    pop_from_refines (suc left) r (x ∷ q) pre [] i n o e h small v = absurd (omega arith)
    pop_from_refines (suc left) r (x ∷ q) pre (y ∷ post) i zero o e h small v = absurd (omega arith)
    pop_from_refines (suc left) r (x ∷ q) pre (y ∷ post) i (suc n) o e h small v =
        let (r1, popped, v1) = try_pop_refines c r (x ∷ q) k v in
        let (r', done, v') =
          pop_from_refines left r1 q (pre ++ x ∷ []) post (suc i) n
            (omega (arith, length-append pre (x ∷ []))) (omega arith) (omega arith) (omega arith)
            v1 in
        (
          r',
          rw (popped, written, next, sym (append_assoc pre (x ∷ []) post)) (done ∙ result r'),
          v',
        )
      where
        written : store (pre ++ y ∷ post) i x ≡ some (pre ++ x ∷ post)
        written = ap (λ m. store (pre ++ y ∷ post) m x) o ∙ store_lem pre post y x

        next : inc64 i ≡ suc i
        next = omega arith

        count : suc i + n ≡ i + suc n
        count = omega arith

        result :
            (r' : RingBuffer A)
            → ◌≡◌ {A = Option (ℕ × RingBuffer A × List A)}
                (some (suc i + n, r', (pre ++ x ∷ []) ++ (take n q ++ drop n post)))
                (some (i + suc n, r', pre ++ (take (suc n) (x ∷ q) ++ drop (suc n) (y ∷ post))))
        result r' =
            ap (λ m. some (m, r', (pre ++ x ∷ []) ++ (take n q ++ drop n post))) count
            ∙ ap (λ l. some (i + suc n, r', l))
                (append_assoc pre (x ∷ []) (take n q ++ drop n post))

    -- `try_pop_batch` on an array of at least `max_count` places takes the oldest items, in order, as
    -- many as are asked for and there are, writes them to the array's first places, leaves its other
    -- places alone, and returns their number.
    pub try_pop_batch_refines :
        (r : RingBuffer A) (q items : List A) (max_count : ℕ)
        → max_count ≤ length items
        → max_count < 2 ^ 64
        → Represents c r q
        → let n = min max_count (length q) in
          (r' : RingBuffer A) × (try_pop_batch c r items max_count
            ≡ some (n, r', take n q ++ drop n items))
          × Represents c r' (drop n q)
    unfolding try_pop_batch
    try_pop_batch_refines r q items max_count h small v =
        let (r', e, w) =
          pop_from_refines max_count r q [] items 0 (min max_count (length q)) refl refl h
            (omega arith) v in
        (
          r',
          e
              ∙ ap
                  (λ m. some (
                    m,
                    r',
                    take (min max_count (length q)) q ++ drop (min max_count (length q)) items,
                  ))
                  (omega arith),
          w,
        )
