-- ===== src/Spsc/Threads/Safety.antt =====
-- Whatever the threads of include/spsc/ring_buffer.hpp do, the ring is a queue between them.
use dpdk_itch5_feedhandler.Prelude.{
  ℕ, ◌<◌, ◌≡◌, ◌≢◌, refl, sym, ap, ◌∙◌, List, [], ◌∷◌, ◌++◌, true, false, Option, none, some,
  length, get_elem?, set, append_assoc, ltb, ◌==◌, Post, bind-Post, if-Post, subst, some-inj, arith,
}
use dpdk_itch5_feedhandler.Spsc.Ring.{RingBuffer, store, increment}
use dpdk_itch5_feedhandler.Spsc.Refine.{
  IsCapacity, Represents, new_ring-Represents, get_elem?-set_self,
}
use dpdk_itch5_feedhandler.Spsc.Threads.{
  Producer, Consumer, Machine, new_machine, step_producer, step_consumer, step, run,
}
use dpdk_itch5_feedhandler.Spsc.Threads.Invariant.{
  IsMachine, Producing, Consuming, room_left, item_there, written-Represents, published-Represents,
  released-Represents, Consuming-append, Consuming-write, Producing-pop,
}

module _ {ℓ} {A : Type ℓ} where
  module _ (c : ℕ) (k : IsCapacity c) (r : RingBuffer A) (s t : List A) where
    producer_returns :
        (next : A) (p : Producer A) (w : Consumer A) (q : List A)
        → Represents c r q
        → s ≡ t ++ q
        → Producing c p r q
        → Consuming w r q
        → Post (IsMachine c) (
            step_producer c next
              (record { ring = r; producer = p; consumer = w; sent = s; received = t }))
    unfolding step_producer store
    producer_returns next Producer.idle w q v o a b = (
      _,
      refl,
      record { queue = q; represents = v; in_order = o; producing = (refl, tt); consuming = b },
    )
    producer_returns next (Producer.loaded x head) w q v o a b =
        if-Post (IsMachine c) (increment c head == r.tail)
          (λ full. (
            _,
            refl,
            record { queue = q; represents = v; in_order = o; producing = tt; consuming = b },
          ))
          λ room. (
            _,
            refl,
            record {
              queue = q;
              represents = v;
              in_order = o;
              producing = (
                a.0,
                room_left c r q k v (subst (λ i. (increment c i == r.tail) ≡ false) a.0 room),
                tt,
              );
              consuming = b;
            },
          )
    producer_returns next (Producer.checked x head) w q v o a b =
        bind-Post (λ buffer. buffer ≡ set r.buffer r.head x) (IsMachine c)
          {m = store r.buffer head x}
          (set r.buffer head x, rw (a.0, in_bounds), ap (λ i. set r.buffer i x) a.0)
          λ buffer e. (
            _,
            refl,
            record {
              queue = q;
              represents =
                  subst (λ b. Represents c (record r { buffer = b }) q) (sym e)
                    (written-Represents c r q x v);
              in_order = o;
              producing =
                  (a.0, a.1, rw (e, a.0) (get_elem?-set_self r.buffer r.head x (ground arith)));
              consuming = Consuming-write w r buffer q b;
            },
          )
      where
        in_bounds : ltb r.head (length r.buffer) ≡ true
        in_bounds = ground arith
    producer_returns next (Producer.written x head) w q v o a b = (
      _,
      refl,
      record {
        queue = q ++ x ∷ [];
        represents =
            subst (λ i. Represents c (record r { head = increment c i }) (q ++ x ∷ [])) (sym a.0)
              (published-Represents c r q x k v a.1
                (subst (λ i. get_elem? r.buffer i ≡ some x) a.0 a.2));
        in_order = ap (λ xs. xs ++ x ∷ []) o ∙ append_assoc t q (x ∷ []);
        producing = tt;
        consuming = Consuming-append w r _ q x b;
      },
    )

    consumer_returns :
        (p : Producer A) (w : Consumer A) (q : List A)
        → Represents c r q
        → s ≡ t ++ q
        → Producing c p r q
        → Consuming w r q
        → Post (IsMachine c) (
            step_consumer c
              (record { ring = r; producer = p; consumer = w; sent = s; received = t }))
    unfolding step_consumer
    consumer_returns p Consumer.idle q v o a b = (
      _,
      refl,
      record { queue = q; represents = v; in_order = o; producing = a; consuming = (refl, tt) },
    )
    consumer_returns p (Consumer.loaded tail) q v o a b =
        if-Post (IsMachine c) (tail == r.head)
          (λ none_left. (
            _,
            refl,
            record { queue = q; represents = v; in_order = o; producing = a; consuming = tt },
          ))
          λ some_left. (
            _,
            refl,
            record {
              queue = q;
              represents = v;
              in_order = o;
              producing = a;
              consuming =
                  (b.0, item_there c r q v (subst (λ i. (i == r.head) ≡ false) b.0 some_left), tt);
            },
          )
    consumer_returns p (Consumer.checked tail) [] v o a b = absurd (omega (arith, b.1))
    consumer_returns p (Consumer.checked tail) (x ∷ q) v o a b =
        bind-Post (λ y. some x ≡ some y) (IsMachine c)
          (x, subst (λ i. get_elem? r.buffer i ≡ some x) (sym b.0) v.held.0, refl)
          λ y e. (
            _,
            refl,
            record {
              queue = x ∷ q;
              represents = v;
              in_order = o;
              producing = a;
              consuming = (b.0, e);
            },
          )
    consumer_returns p (Consumer.taken tail x) [] v o a b = absurd (cc b.1)
    consumer_returns p (Consumer.taken tail x) (y ∷ q) v o a b = (
      _,
      refl,
      record {
        queue = q;
        represents =
            subst (λ i. Represents c (record r { tail = increment c i }) q) (sym b.0)
              (released-Represents c r y q k v);
        in_order = o ∙ ap (λ z. t ++ z ∷ q) (some-inj b.1) ∙ sym (append_assoc t (x ∷ []) q);
        producing = Producing-pop c p r _ y q a;
        consuming = tt;
      },
    )

  module _ (c : ℕ) (k : IsCapacity c) where
    pub step_returns :
        (turn : Option A) (m : Machine A) → IsMachine c m → Post (IsMachine c) (step c turn m)
    unfolding step
    step_returns none m v =
        consumer_returns c k m.ring m.sent m.received m.producer m.consumer v.queue v.represents
          v.in_order v.producing v.consuming
    step_returns (some next) m v =
        producer_returns c k m.ring m.sent m.received next m.producer m.consumer v.queue
          v.represents v.in_order v.producing v.consuming

    run_returns :
        (turns : List (Option A)) (m : Machine A)
        → IsMachine c m
        → Post (IsMachine c) (run c turns m)
    unfolding run
    run_returns [] m v = (m, refl, v)
    run_returns (turn ∷ turns) m v =
        bind-Post (IsMachine c) (IsMachine c) (step_returns turn m v) (run_returns turns)

    new_machine-IsMachine : (default : A) → IsMachine c (new_machine c default)
    new_machine-IsMachine default = record {
      queue = [];
      represents = new_ring-Represents c default k.positive;
      in_order = refl;
      producing = tt;
      consuming = tt;
    }

    -- Under every interleaving of the threads' steps, no slot outside of the array is accessed, and
    -- what was popped is, in order, the first part of what was pushed; the ring holds the rest, one
    -- item less than the capacity at most.
    pub run_in_order :
        (turns : List (Option A)) (default : A)
        → (m : Machine A) × (run c turns (new_machine c default) ≡ some m)
          × (q : List A) × (m.sent ≡ m.received ++ q)
          × (length q < c)
          × Represents c m.ring q
    run_in_order turns default =
        let (m, e, v) = run_returns turns _ (new_machine-IsMachine default) in
        (m, e, v.queue, v.in_order, v.represents.fits, v.represents)

    -- Under every interleaving, the slot that the producer is about to write is never the slot that
    -- the consumer is about to read.
    pub run_race_free :
        (turns : List (Option A)) (default : A) (m : Machine A) (item : A) (head tail : ℕ)
        → run c turns (new_machine c default) ≡ some m
        → m.producer ≡ Producer.checked item head
        → m.consumer ≡ Consumer.checked tail
        → head ≢ tail
    run_race_free turns default m item head tail e p w same =
        let out = run_returns turns _ (new_machine-IsMachine default) in
        let v : IsMachine c m = subst (IsMachine c) (some-inj (sym out.1 ∙ e)) out.2 in
        apart v.queue m.ring v.represents (subst (λ a. Producing c a m.ring v.queue) p v.producing)
          (subst (λ a. Consuming a m.ring v.queue) w v.consuming)
      where
        apart :
            (q : List A) (r : RingBuffer A)
            → Represents c r q
            → Producing c (Producer.checked item head) r q
            → Consuming (Consumer.checked tail) r q
            → ⊥
        apart q r v a b = ground arith
