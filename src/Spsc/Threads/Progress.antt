-- ===== src/Spsc/Threads/Progress.antt =====
-- The calls of include/spsc/ring_buffer.hpp are wait-free: each ends after a bounded number of its own
-- thread's steps, whatever the other thread does meanwhile.
use dpdk_itch5_feedhandler.Prelude.{
  ℕ, suc, ◌+◌, ◌≤◌, ◌<◌, ◌≡◌, ◌≢◌, refl, List, [], ◌∷◌, Bool, true, false, not, Option, none, some,
  length, take, ◌==◌, if◌then◌else◌, Bool-cases, ==_iff, inl, inr, arith,
}
use dpdk_itch5_feedhandler.Spsc.Refine.{IsCapacity}
use dpdk_itch5_feedhandler.Spsc.Threads.{Producer, Consumer, Machine, step, run}
use dpdk_itch5_feedhandler.Spsc.Threads.Invariant.{IsMachine}
use dpdk_itch5_feedhandler.Spsc.Threads.Safety.{step_returns}

module _ {ℓ} {A : Type ℓ} where
  -- The steps that a call still has to make.
  abbrev pub push_left : Producer A → ℕ
  push_left Producer.idle = 0
  push_left (Producer.loaded item head) = 3
  push_left (Producer.checked item head) = 2
  push_left (Producer.written item head) = 1

  abbrev pub pop_left : Consumer A → ℕ
  pop_left Consumer.idle = 0
  pop_left (Consumer.loaded tail) = 3
  pop_left (Consumer.checked tail) = 2
  pop_left (Consumer.taken tail item) = 1

  abbrev is_push : Option A → Bool
  is_push none = false
  is_push (some next) = true

  abbrev count_turns : (Option A → Bool) → List (Option A) → ℕ
  count_turns mine [] = 0
  count_turns mine (turn ∷ turns) =
      if mine turn then count_turns mine turns + 1 else count_turns mine turns

  -- The producer's turns, and the consumer's.
  abbrev pub push_turns : List (Option A) → ℕ
  push_turns = count_turns is_push

  abbrev pub pop_turns : List (Option A) → ℕ
  pop_turns = count_turns (λ turn. not (is_push turn))

  module _ (c : ℕ) where
    push_left-step :
        (turn : Option A) (m m' : Machine A)
        → step c turn m ≡ some m'
        → (is_push turn ≡ true
            → push_left m.producer ≢ 0
            → push_left m'.producer < push_left m.producer)
          × (is_push turn ≡ false → push_left m'.producer ≡ push_left m.producer)
    unfolding step
    push_left-step turn m m' e = (ground arith, ground arith)

    pop_left-step :
        (turn : Option A) (m m' : Machine A)
        → step c turn m ≡ some m'
        → (not (is_push turn) ≡ true
            → pop_left m.consumer ≢ 0
            → pop_left m'.consumer < pop_left m.consumer)
          × (not (is_push turn) ≡ false → pop_left m'.consumer ≡ pop_left m.consumer)
    unfolding step
    pop_left-step turn m m' e = (ground arith, ground arith)

  -- A call ends if each turn of its own thread brings it nearer to its end, and the other's turns
  -- leave it where it is.
  module _ (c : ℕ) (k : IsCapacity c) (mine : Option A → Bool) (left : Machine A → ℕ)
      (falls : (turn : Option A) (m m' : Machine A)
        → step c turn m ≡ some m'
        → (mine turn ≡ true → left m ≢ 0 → left m' < left m)
          × (mine turn ≡ false → left m' ≡ left m)) where
    next_left :
        (turn : Option A) (turns : List (Option A)) (m m' : Machine A)
        → step c turn m ≡ some m'
        → left m ≢ 0
        → left m ≤ count_turns mine (turn ∷ turns)
        → left m' ≤ count_turns mine turns
    next_left turn turns m m' e busy h = elim (Bool-cases (mine turn)) [
      | inl own ↦ omega (arith, (falls turn m m' e).0 own busy, rw own at h)
      | inr other ↦ omega (arith, (falls turn m m' e).1 other, rw other at h)
    ]

    ends :
        (turns : List (Option A)) (m : Machine A)
        → IsMachine c m
        → left m ≤ count_turns mine turns
        → (n : ℕ) × (n ≤ length turns)
          × (m' : Machine A) × (run c (take n turns) m ≡ some m')
          × (left m' ≡ 0)
    unfolding run
    ends [] m v h = (0, omega arith, m, refl, omega arith)
    ends (turn ∷ turns) m v h = elim (Bool-cases (left m == 0)) [
      | inl done ↦ (0, omega arith, m, refl, (==_iff (left m) 0).0 done)
      | inr busy ↦
          (let (m1, e, v1) = step_returns c k turn m v in
            let (n, inside, m2, e2, z) =
              ends turns m1 v1 (next_left turn turns m m1 e (λ q. not_zero busy q) h) in
            (suc n, omega (arith, inside), m2, rw e e2, z))
    ]
      where
        not_zero : (left m == 0) ≡ false → left m ≢ 0
        not_zero e q = ground arith

  module _ (c : ℕ) (k : IsCapacity c) where
    push_done : (p : Producer A) → push_left p ≡ 0 → p ≡ Producer.idle
    push_done Producer.idle h = refl
    push_done (Producer.loaded item head) h = absurd (omega arith)
    push_done (Producer.checked item head) h = absurd (omega arith)
    push_done (Producer.written item head) h = absurd (omega arith)

    pop_done : (p : Consumer A) → pop_left p ≡ 0 → p ≡ Consumer.idle
    pop_done Consumer.idle h = refl
    pop_done (Consumer.loaded tail) h = absurd (omega arith)
    pop_done (Consumer.checked tail) h = absurd (omega arith)
    pop_done (Consumer.taken tail item) h = absurd (omega arith)

    -- A call of `try_push` ends, with the item pushed or refused, within the at most three further
    -- turns of the producer that it needs, however many turns of the consumer lie between them.
    pub try_push_wait_free :
        (turns : List (Option A)) (m : Machine A)
        → IsMachine c m
        → push_left m.producer ≤ push_turns turns
        → (n : ℕ) × (n ≤ length turns)
          × (m' : Machine A) × (run c (take n turns) m ≡ some m')
          × (m'.producer ≡ Producer.idle)
    try_push_wait_free turns m v h =
        let (n, inside, m', e, z) =
          ends c k is_push (λ t. push_left t.producer) (push_left-step c) turns m v h in
        (n, inside, m', e, push_done m'.producer z)

    -- A call of `try_pop` ends within the at most three further turns of the consumer that it needs,
    -- however many turns of the producer lie between them.
    pub try_pop_wait_free :
        (turns : List (Option A)) (m : Machine A)
        → IsMachine c m
        → pop_left m.consumer ≤ pop_turns turns
        → (n : ℕ) × (n ≤ length turns)
          × (m' : Machine A) × (run c (take n turns) m ≡ some m')
          × (m'.consumer ≡ Consumer.idle)
    try_pop_wait_free turns m v h =
        let (n, inside, m', e, z) =
          ends c k (λ turn. not (is_push turn)) (λ t. pop_left t.consumer) (pop_left-step c) turns m
            v h in
        (n, inside, m', e, pop_done m'.consumer z)
