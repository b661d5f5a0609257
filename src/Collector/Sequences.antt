-- ===== src/Collector/Sequences.antt =====
-- The sequence numbers and the sizes of the batches, in the order in which they are sent.
use entropy_tdc_gateway.Common.{
  ℕ, ◌+◌, ◌%◌, ◌^◌, ◌≤◌, ◌<◌, max, ◌≡◌, refl, ap, ◌∙◌, inl, inr, Bool-cases, Option-cases, false,
  none, List, [], ◌∷◌, ◌++◌, arith, length, is_empty, leb, length-append, All, All-append,
}
use entropy_tdc_gateway.Mqtt.{TdcEvent}
use entropy_tdc_gateway.Collector.{
  BatchCollector, SendRequest, Step, Reach, here, next, adds, auto_flushes, delivers, cancels,
  close_flushes, closes, new_batch_collector, send, flush, add, deliver, close_flush, close_queue,
  next_sequence,
}
use entropy_tdc_gateway.Collector.Conservation.{
  requests, requests-send, requests-deliver, alive_before,
}
use entropy_tdc_gateway.Collector.Bounds.{Reach-IsBounded}

-- The requests carry the numbers n+1, n+2, ... as a uint32.
abbrev pub IsNumbered : ℕ → List SendRequest → Type 0
IsNumbered n [] = Unit
IsNumbered n (r ∷ rs) = (r.seq ≡ (n + 1) % 2 ^ 32) × IsNumbered (n + 1) rs

IsNumbered-append :
    (n : ℕ) (rs : List SendRequest) (r : SendRequest)
    → IsNumbered n rs
    → r.seq ≡ (n + length rs + 1) % 2 ^ 32
    → IsNumbered n (rs ++ r ∷ [])
IsNumbered-append n [] r h e = (omega (arith, e), tt)
IsNumbered-append n (s ∷ rs) r h e = (h.0, IsNumbered-append (n + 1) rs r h.1 (omega (arith, e)))

-- A request holds at least one event and at most max 1 m.
abbrev pub HasSize : ℕ → SendRequest → Type 0
HasSize m r = (1 ≤ length r.batch) × (length r.batch ≤ max 1 m)

pub record IsSequenced (m : ℕ) (bc : BatchCollector) : Type 0 where
  pub numbered : IsNumbered 0 (requests bc)
  pub counter : bc.sequence ≡ length (requests bc) % 2 ^ 32
  pub sized : All (HasSize m) (requests bc)

sequence-send :
    (request : SendRequest) (bc : BatchCollector) → (send request bc).sequence ≡ bc.sequence
unfolding send
sequence-send request bc = ground arith

add_requests :
    (m : ℕ) (rs : List SendRequest) (r : SendRequest) (s : ℕ)
    → IsNumbered 0 rs × (s ≡ length rs % 2 ^ 32) × All (HasSize m) rs
    → r.seq ≡ (s + 1) % 2 ^ 32
    → HasSize m r
    → IsNumbered 0 (rs ++ r ∷ [])
      × ((s + 1) % 2 ^ 32 ≡ length (rs ++ r ∷ []) % 2 ^ 32)
      × All (HasSize m) (rs ++ r ∷ [])
add_requests m rs r s (n, c, z) e h =
    let step : (s + 1) % 2 ^ 32 ≡ (length rs + 1) % 2 ^ 32 = omega (arith, c) in
    (
      IsNumbered-append 0 rs r n (omega (arith, e, step)),
      step ∙ ap (λ k. k % 2 ^ 32) (omega (arith, length-append rs (r ∷ []))),
      All-append (HasSize m) rs (r ∷ []) z (h, tt),
    )

nonempty : {A : Type 0} (xs : List A) → is_empty xs ≡ false → 1 ≤ length xs
nonempty [] h = absurd (ground (arith, h))
nonempty (x ∷ xs) h = omega arith

flush-IsSequenced :
    (m : ℕ) (bc : BatchCollector)
    → bc.blocked ≡ none
    → (flush bc).panicked ≡ false
    → length bc.events ≤ max 1 m
    → IsSequenced m bc
    → IsSequenced m (flush bc)
unfolding flush next_sequence
flush-IsSequenced m bc b p small s = elim (Bool-cases (is_empty bc.events)) [
  | inl e ↦ rw e s
  | inr e ↦
      let request : SendRequest = record { batch = bc.events; seq = (bc.sequence + 1) % 2 ^ 32 } in
      let emptied : BatchCollector = record bc {
        events = [];
        sequence = (bc.sequence + 1) % 2 ^ 32;
        pool_size_gauge = 0;
      } in
      let more =
        add_requests m (requests bc) request bc.sequence (s.numbered, s.counter, s.sized) refl
          (nonempty bc.events e, small) in
      let eq : requests (send request emptied) ≡ requests bc ++ request ∷ [] =
        requests-send request emptied b (rw e at p) in
      rw e (record {
        numbered = rw eq more.0;
        counter = rw (eq, sequence-send request emptied) more.1;
        sized = rw eq more.2;
      })
]

add-IsSequenced :
    (m : ℕ) (event : TdcEvent) (bc : BatchCollector)
    → bc.blocked ≡ none
    → (add event bc).panicked ≡ false
    → length bc.events < max 1 m
    → IsSequenced m bc
    → IsSequenced m (add event bc)
unfolding add
add-IsSequenced m event bc b p small s =
    let kept : (g : ℕ) (es : List TdcEvent)
        → IsSequenced m (record bc { events = es; pool_size_gauge = g }) =
      λ g es. record { numbered = s.numbered; counter = s.counter; sized = s.sized } in
    elim (Bool-cases (leb bc.max_size (length (bc.events ++ event ∷ [])))) [
      | inl e ↦ rw e (
          flush-IsSequenced m _ b (rw e at p)
            (omega (arith, small, length-append bc.events (event ∷ []))) (kept _ _))
      | inr e ↦ rw e (kept _ _)
    ]

sequence-deliver :
    (job : SendRequest) (rest : List SendRequest) (bc : BatchCollector)
    → (deliver job rest bc).sequence ≡ bc.sequence
unfolding deliver
sequence-deliver job rest bc = elim (Option-cases bc.blocked) [
  | inl e ↦ rw e refl
  | inr (request, e) ↦ rw e refl
]

deliver-IsSequenced :
    (m : ℕ) (job : SendRequest) (rest : List SendRequest) (bc : BatchCollector)
    → bc.send_queue ≡ job ∷ rest
    → IsSequenced m bc
    → IsSequenced m (deliver job rest bc)
deliver-IsSequenced m job rest bc q s =
    let eq = requests-deliver job rest bc q in
    record {
      numbered = rw eq s.numbered;
      counter = rw (eq, sequence-deliver job rest bc) s.counter;
      sized = rw eq s.sized;
    }

Step-IsSequenced :
    (m : ℕ) {bc bc' : BatchCollector}
    → Step bc bc'
    → bc'.panicked ≡ false
    → length bc.events < max 1 m
    → IsSequenced m bc
    → IsSequenced m bc'
unfolding close_flush close_queue
Step-IsSequenced m (adds event free) p small s = add-IsSequenced m event _ free.unlocked p small s
Step-IsSequenced m (auto_flushes free) p small s =
    flush-IsSequenced m _ free.unlocked p (omega (arith, small)) s
Step-IsSequenced m (delivers job rest alive q) p small s = deliver-IsSequenced m job rest _ q s
Step-IsSequenced m (cancels alive phase) p small s = record {
  numbered = s.numbered;
  counter = s.counter;
  sized = s.sized;
}
Step-IsSequenced m {bc} (close_flushes phase free) p small s =
    let f : IsSequenced m (flush bc) =
      flush-IsSequenced m bc free.unlocked p (omega (arith, small)) s in
    record { numbered = f.numbered; counter = f.counter; sized = f.sized }
Step-IsSequenced m (closes alive phase) p small s = record {
  numbered = s.numbered;
  counter = s.counter;
  sized = s.sized;
}

new-IsSequenced : (m : ℕ) → IsSequenced m (new_batch_collector m)
unfolding new_batch_collector
new-IsSequenced m = record { numbered = tt; counter = refl; sized = tt }

-- In every reachable state without a panic, the requests made so far, in the order in which the
-- sender gets them, carry the numbers 1, 2, 3, ... as a uint32, the counter is their number modulo
-- 2^32, and each holds at least one event and at most max 1 m, where m is the collector's size.
pub Reach-IsSequenced :
    (max_size : ℕ) (added : List TdcEvent) (bc : BatchCollector)
    → Reach (new_batch_collector max_size) added bc
    → bc.panicked ≡ false
    → IsSequenced max_size bc
Reach-IsSequenced m added bc here p = new-IsSequenced m
Reach-IsSequenced m added bc (next {added = before} {bc = from} r step) p =
    Step-IsSequenced m step p (Reach-IsBounded m before from r).room
      (Reach-IsSequenced m before from r (alive_before step))
