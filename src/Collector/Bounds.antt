-- ===== src/Collector/Bounds.antt =====
-- How many events and requests a reachable collector holds.
use entropy_tdc_gateway.Common.{
  ◌⊎◌, ℕ, ◌/◌, ◌≤◌, ◌<◌, max, ◌≡◌, refl, inl, inr, Bool-cases, Option-cases, false, none, List, [],
  ◌∷◌, ◌++◌, arith, length, is_empty, ltb, leb, length-append,
}
use entropy_tdc_gateway.Mqtt.{TdcEvent}
use entropy_tdc_gateway.Collector.{
  BatchCollector, SendRequest, Step, Reach, here, next, adds, auto_flushes, delivers, cancels,
  close_flushes, closes, new_batch_collector, send, flush, add, deliver, close_flush, close_queue,
  is_closed, queue_capacity, max_int,
}

-- The buffer is short of a full batch, the channel holds at most its capacity, the gauge shows the
-- buffer, and a sender waits only where the channel is full.
pub record IsBounded (max_size : ℕ) (bc : BatchCollector) : Type 0 where
  pub size : bc.max_size ≡ max_size
  pub room : length bc.events < max 1 max_size
  pub queue : length bc.send_queue ≤ max 1 (max_size / 2)
  pub gauge : bc.pool_size_gauge ≡ length bc.events
  pub waits : (bc.blocked ≡ none) ⊎ (length bc.send_queue ≡ max 1 (max_size / 2))

capacity : (m : ℕ) (bc : BatchCollector) → bc.max_size ≡ m → queue_capacity bc ≡ max 1 (m / 2)
unfolding queue_capacity max_int
capacity m bc e = ground arith

send-IsBounded :
    (m : ℕ) (request : SendRequest) (bc : BatchCollector)
    → IsBounded m bc
    → IsBounded m (send request bc)
unfolding send
send-IsBounded m request bc b = elim (Bool-cases (is_closed bc.phase)) [
  | inl c ↦
      rw c
        (record { size = b.size; room = b.room; queue = b.queue; gauge = b.gauge; waits = b.waits })
  | inr c ↦ rw c elim (Bool-cases (ltb (length bc.send_queue) (queue_capacity bc))) [
    | inl l ↦ rw l (record {
      size = b.size;
      room = b.room;
      queue = ground (arith, capacity m bc b.size, length-append bc.send_queue (request ∷ []));
      gauge = b.gauge;
      waits = elim b.waits [
        | inl n ↦ inl n
        | inr f ↦ absurd (ground (arith, capacity m bc b.size, f))
      ];
    })
    | inr l ↦ rw l (record {
      size = b.size;
      room = b.room;
      queue = b.queue;
      gauge = b.gauge;
      waits = inr ground (arith, capacity m bc b.size, b.queue);
    })
  ]
]

flush-IsBounded : (m : ℕ) (bc : BatchCollector) → IsBounded m bc → IsBounded m (flush bc)
unfolding flush
flush-IsBounded m bc b = elim (Bool-cases (is_empty bc.events)) [
  | inl e ↦ rw e b
  | inr e ↦ rw e (
      send-IsBounded m _ _ (record {
        size = b.size;
        room = omega arith;
        queue = b.queue;
        gauge = refl;
        waits = b.waits;
      }))
]

-- What is full is flushed; the buffer of the state before is one event short at most.
flush_full-IsBounded :
    (m : ℕ) (bc : BatchCollector)
    → is_empty bc.events ≡ false
    → IsBounded m (record bc { events = []; pool_size_gauge = 0 })
    → IsBounded m (flush bc)
unfolding flush
flush_full-IsBounded m bc f b = rw f (
    send-IsBounded m _ _
      (record { size = b.size; room = b.room; queue = b.queue; gauge = b.gauge; waits = b.waits }))

pub is_empty-append : {A : Type 0} (xs : List A) (x : A) → is_empty (xs ++ x ∷ []) ≡ false
is_empty-append [] x = refl
is_empty-append (y ∷ xs) x = refl

add-IsBounded :
    (m : ℕ) (event : TdcEvent) (bc : BatchCollector) → IsBounded m bc → IsBounded m (add event bc)
unfolding add
add-IsBounded m event bc b =
    elim (Bool-cases (leb bc.max_size (length (bc.events ++ event ∷ [])))) [
      | inl e ↦ rw e (
          flush_full-IsBounded m _ (is_empty-append bc.events event) (record {
            size = b.size;
            room = omega arith;
            queue = b.queue;
            gauge = refl;
            waits = b.waits;
          }))
      | inr e ↦ rw e (record {
        size = b.size;
        room = ground (arith, b.size);
        queue = b.queue;
        gauge = refl;
        waits = b.waits;
      })
    ]

deliver-IsBounded :
    (m : ℕ) (job : SendRequest) (rest : List SendRequest) (bc : BatchCollector)
    → bc.send_queue ≡ job ∷ rest
    → IsBounded m bc
    → IsBounded m (deliver job rest bc)
unfolding deliver
deliver-IsBounded m job rest bc q b =
    let shorter : length rest < length bc.send_queue = rw q omega arith in
    elim (Option-cases bc.blocked) [
      | inl e ↦ rw e (record {
        size = b.size;
        room = b.room;
        queue = omega (arith, shorter, b.queue);
        gauge = b.gauge;
        waits = inl refl;
      })
      | inr (request, e) ↦ rw e (record {
        size = b.size;
        room = b.room;
        queue = omega (arith, length-append rest (request ∷ []), shorter, b.queue);
        gauge = b.gauge;
        waits = inl refl;
      })
    ]

Step-IsBounded : (m : ℕ) {bc bc' : BatchCollector} → Step bc bc' → IsBounded m bc → IsBounded m bc'
unfolding close_flush close_queue
Step-IsBounded m (adds event free) b = add-IsBounded m event _ b
Step-IsBounded m (auto_flushes free) b = flush-IsBounded m _ b
Step-IsBounded m (delivers job rest alive q) b = deliver-IsBounded m job rest _ q b
Step-IsBounded m (cancels alive phase) b = record {
  size = b.size;
  room = b.room;
  queue = b.queue;
  gauge = b.gauge;
  waits = b.waits;
}
Step-IsBounded m {bc} (close_flushes phase free) b =
    let f : IsBounded m (flush bc) = flush-IsBounded m bc b in
    record { size = f.size; room = f.room; queue = f.queue; gauge = f.gauge; waits = f.waits }
Step-IsBounded m (closes alive phase) b = record {
  size = b.size;
  room = b.room;
  queue = b.queue;
  gauge = b.gauge;
  waits = b.waits;
}

new-IsBounded : (m : ℕ) → IsBounded m (new_batch_collector m)
unfolding new_batch_collector
new-IsBounded m = record {
  size = refl;
  room = omega arith;
  queue = omega arith;
  gauge = refl;
  waits = inl refl;
}

-- In every reachable state the collector keeps its size m, buffers fewer than max 1 m events,
-- queues at most max 1 (m / 2) requests, its gauge shows the number of buffered events, and a
-- sender waits only where the channel is full.
pub Reach-IsBounded :
    (max_size : ℕ) (added : List TdcEvent) (bc : BatchCollector)
    → Reach (new_batch_collector max_size) added bc
    → IsBounded max_size bc
Reach-IsBounded m added bc here = new-IsBounded m
Reach-IsBounded m added bc (next r step) = Step-IsBounded m step (Reach-IsBounded m _ _ r)
