-- ===== src/Collector/Conservation.antt =====
-- No event is lost, made up, repeated or reordered between `Add` and the sender.
use entropy_tdc_gateway.Common.{
  ℕ, ◌≡◌, refl, sym, ap, ◌∙◌, inl, inr, Bool-cases, Option-cases, false, Option, none, some, List,
  [], ◌∷◌, ◌++◌, append_assoc, append-nil, arith, length, is_empty, leb,
}
use entropy_tdc_gateway.Mqtt.{TdcEvent}
use entropy_tdc_gateway.Collector.{
  BatchCollector, SendRequest, Step, Reach, here, next, adds, auto_flushes, delivers, cancels,
  close_flushes, closes, new_batch_collector, send, flush, add, deliver, close_flush, close_queue,
  added_by,
}

abbrev pub to_list : Option SendRequest → List SendRequest
to_list none = []
to_list (some request) = request ∷ []

-- The requests made so far, in order: those sent, those in the channel, and the one that waits.
abbrev pub requests : BatchCollector → List SendRequest
requests bc = bc.sent ++ (bc.send_queue ++ to_list bc.blocked)

abbrev pub batches : List SendRequest → List TdcEvent
batches [] = []
batches (r ∷ rs) = r.batch ++ batches rs

pub batches-append : (rs ts : List SendRequest) → batches (rs ++ ts) ≡ batches rs ++ batches ts
batches-append [] ts = refl
batches-append (r ∷ rs) ts = simp (batches-append rs ts, append_assoc)

-- All events in the collector and beyond it, in order.
abbrev pub held : BatchCollector → List TdcEvent
held bc = batches (requests bc) ++ bc.events

-- A send that does not panic adds its request at the end.
pub requests-send :
    (request : SendRequest) (bc : BatchCollector)
    → bc.blocked ≡ none
    → (send request bc).panicked ≡ false
    → requests (send request bc) ≡ requests bc ++ request ∷ []
unfolding send
requests-send request bc b p = ground (
  arith,
  append-nil (bc.send_queue),
  append-nil (bc.send_queue ++ request ∷ []),
  append_assoc bc.sent bc.send_queue (request ∷ []),
)

events-send : (request : SendRequest) (bc : BatchCollector) → (send request bc).events ≡ bc.events
unfolding send
events-send request bc = ground arith

held-send :
    (request : SendRequest) (bc : BatchCollector)
    → bc.blocked ≡ none
    → bc.events ≡ []
    → (send request bc).panicked ≡ false
    → held (send request bc) ≡ batches (requests bc) ++ request.batch
held-send request bc b e p =
    rw (requests-send request bc b p, events-send request bc, e)
      (append-nil _
        ∙ batches-append (requests bc) (request ∷ [])
        ∙ ap (λ l. batches (requests bc) ++ l) (append-nil request.batch))

-- A flush moves the buffered events into a request and keeps them all, unless it panics.
pub held-flush :
    (bc : BatchCollector)
    → bc.blocked ≡ none
    → (flush bc).panicked ≡ false
    → held (flush bc) ≡ held bc
unfolding flush
held-flush bc b p = elim (Bool-cases (is_empty bc.events)) [
  | inl e ↦ rw e
  | inr f ↦ rw f (held-send _ _ b refl (rw f at p))
]

held-add :
    (event : TdcEvent) (bc : BatchCollector)
    → bc.blocked ≡ none
    → (add event bc).panicked ≡ false
    → held (add event bc) ≡ held bc ++ event ∷ []
unfolding add
held-add event bc b p = elim (Bool-cases (leb bc.max_size (length (bc.events ++ event ∷ [])))) [
  | inl e ↦ rw e (
      held-flush _ b (rw e at p)
      ∙ sym (append_assoc (batches (requests bc)) bc.events (event ∷ [])))
  | inr e ↦ rw e (sym (append_assoc (batches (requests bc)) bc.events (event ∷ [])))
]

pub requests-deliver :
    (job : SendRequest) (rest : List SendRequest) (bc : BatchCollector)
    → bc.send_queue ≡ job ∷ rest
    → requests (deliver job rest bc) ≡ requests bc
unfolding deliver
requests-deliver job rest bc q = elim (Option-cases bc.blocked) [
  | inl e ↦ rw (e, q) (append_assoc bc.sent (job ∷ []) (rest ++ []))
  | inr (request, e) ↦
      rw (e, q)
        (append_assoc bc.sent (job ∷ []) ((rest ++ request ∷ []) ++ [])
          ∙ ap (λ l. bc.sent ++ job ∷ l) (append-nil (rest ++ request ∷ [])))
]

events-deliver :
    (job : SendRequest) (rest : List SendRequest) (bc : BatchCollector)
    → (deliver job rest bc).events ≡ bc.events
unfolding deliver
events-deliver job rest bc = elim (Option-cases bc.blocked) [
  | inl e ↦ rw e refl
  | inr (request, e) ↦ rw e refl
]

held-deliver :
    (job : SendRequest) (rest : List SendRequest) (bc : BatchCollector)
    → bc.send_queue ≡ job ∷ rest
    → held (deliver job rest bc) ≡ held bc
held-deliver job rest bc q = rw (requests-deliver job rest bc q, events-deliver job rest bc) refl

held-close_flush :
    (bc : BatchCollector)
    → bc.blocked ≡ none
    → (close_flush bc).panicked ≡ false
    → held (close_flush bc) ≡ held bc
unfolding close_flush
held-close_flush bc b p = held-flush bc b p

held-Step :
    {bc bc' : BatchCollector} (step : Step bc bc')
    → bc'.panicked ≡ false
    → held bc' ≡ held bc ++ added_by step
unfolding close_queue
held-Step {bc} (adds event free) p = held-add event bc free.unlocked p
held-Step {bc} (auto_flushes free) p = held-flush bc free.unlocked p ∙ sym (append-nil (held bc))
held-Step {bc} (delivers job rest alive q) p =
    held-deliver job rest bc q ∙ sym (append-nil (held bc))
held-Step {bc} (cancels alive phase) p = sym (append-nil (held bc))
held-Step {bc} (close_flushes phase free) p =
    held-close_flush bc free.unlocked p ∙ sym (append-nil (held bc))
held-Step {bc} (closes alive phase) p = sym (append-nil (held bc))

pub alive_before : {bc bc' : BatchCollector} → Step bc bc' → bc.panicked ≡ false
alive_before (adds event free) = free.alive
alive_before (auto_flushes free) = free.alive
alive_before (delivers job rest alive q) = alive
alive_before (cancels alive phase) = alive
alive_before (close_flushes phase free) = free.alive
alive_before (closes alive phase) = alive

held-start : (m : ℕ) → held (new_batch_collector m) ≡ []
unfolding new_batch_collector
held-start m = refl

-- In every reachable state without a panic, the batches handed to the sender, those in the channel,
-- the one that waits for room and the buffered events are, in this order, exactly the events that
-- were added, in the order of the calls of `Add`.
pub Reach-held :
    (max_size : ℕ) (added : List TdcEvent) (bc : BatchCollector)
    → Reach (new_batch_collector max_size) added bc
    → bc.panicked ≡ false
    → held bc ≡ added
Reach-held m added bc here p = held-start m
Reach-held m added bc (next {added = before} r step) p =
    held-Step step p ∙ ap (λ l. l ++ added_by step) (Reach-held m before _ r (alive_before step))

-- The events of the batches sent, and those that the collector still holds.
pub Reach-sent :
    (max_size : ℕ) (added : List TdcEvent) (bc : BatchCollector)
    → Reach (new_batch_collector max_size) added bc
    → bc.panicked ≡ false
    → added ≡ batches bc.sent ++ (batches (bc.send_queue ++ to_list bc.blocked) ++ bc.events)
Reach-sent m added bc reach p =
    sym (Reach-held m added bc reach p)
    ∙ ap (λ l. l ++ bc.events) (batches-append bc.sent (bc.send_queue ++ to_list bc.blocked))
    ∙ append_assoc (batches bc.sent) (batches (bc.send_queue ++ to_list bc.blocked)) bc.events
