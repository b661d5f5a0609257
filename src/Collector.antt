-- ===== src/Collector.antt =====
-- internal/collector/collector.go: BatchCollector. The goroutines are a step relation over the
-- shared state. `flush` sends on a bounded channel while it holds the mutex, so a send that finds
-- the channel full leaves its request with the holder, and nobody else gets the mutex until the
-- send loop makes room. A send on the closed channel panics. Time is the environment's choice of
-- steps; the capacity of the event slice and the measured durations are not part of the state.
pub mod Bounds
pub mod Conservation
pub mod Panics
pub mod Sequences
use entropy_tdc_gateway.Common.{
  ℕ, ◌+◌, ◌-◌, ◌/◌, ◌%◌, ◌^◌, ◌≡◌, ◌<◌, ◌≤◌, max, Bool, true, false, Option, none, some, List, [],
  ◌∷◌, ◌++◌, ltb, leb, if◌then◌else◌, length, is_empty,
}
use entropy_tdc_gateway.Mqtt.{TdcEvent}

pub record SendRequest : Type 0 where
  pub batch : List TdcEvent
  pub seq : ℕ

-- How far `Close` has come. A second call of it only flushes, which is the step of the timer.
pub data Phase : Type 0 where
  running cancelled flushing flushed closed : Phase

-- The collector with what its goroutines hold, and what the sender was given so far.
pub record BatchCollector : Type 0 where
  pub events : List TdcEvent
  pub max_size : ℕ
  pub sequence : ℕ
  pub send_queue : List SendRequest
  -- a send that waits for room; its goroutine holds the mutex
  pub blocked : Option SendRequest
  pub phase : Phase
  pub panicked : Bool
  -- the gauge of `metrics.SetCollectorPoolSize`
  pub pool_size_gauge : ℕ
  -- the arguments of the calls of `forwarder.SendBatch`
  pub sent : List SendRequest

unfoldable pub max_int : ℕ → ℕ → ℕ
max_int a b = if ltb b a then a else b

-- `make(chan sendRequest, maxInt(1, maxSize/2))`
unfoldable pub queue_capacity : BatchCollector → ℕ
queue_capacity bc = max_int 1 (bc.max_size / 2)

unfoldable pub new_batch_collector : ℕ → BatchCollector
new_batch_collector max_size = record {
  events = [];
  max_size = max_size;
  sequence = 0;
  send_queue = [];
  blocked = none;
  phase = running;
  panicked = false;
  pool_size_gauge = 0;
  sent = [];
}

abbrev pub is_closed : Phase → Bool
is_closed closed = true
is_closed _ = false

-- `bc.sendQueue <- request`
unfoldable pub send : SendRequest → BatchCollector → BatchCollector
send request bc =
    if is_closed bc.phase
    then record bc { panicked = true }
    else if ltb (length bc.send_queue) (queue_capacity bc)
    then record bc { send_queue = bc.send_queue ++ request ∷ [] }
    else record bc { blocked = some request }

-- `bc.sequence` is a uint32.
unfoldable pub next_sequence : BatchCollector → ℕ
next_sequence bc = (bc.sequence + 1) % 2 ^ 32

unfoldable pub flush : BatchCollector → BatchCollector
flush bc =
    if is_empty bc.events
    then bc
    else send (record { batch = bc.events; seq = next_sequence bc })
        (record bc { events = []; sequence = next_sequence bc; pool_size_gauge = 0 })

unfoldable pub add : TdcEvent → BatchCollector → BatchCollector
add event bc =
    let events = bc.events ++ event ∷ [] in
    let next = record bc { events = events; pool_size_gauge = length events } in
    if leb bc.max_size (length events) then flush next else next

-- The sender that waited can go on: if it was `Close`, its flush is over.
abbrev pub unblocked : Phase → Phase
unblocked flushing = flushed
unblocked phase = phase

-- `for job := range bc.sendQueue`: the send loop takes the oldest request; a sender that waited for
-- room then puts its own. An error of the sender is only logged.
unfoldable pub deliver : SendRequest → List SendRequest → BatchCollector → BatchCollector
deliver job rest bc = elim bc.blocked [
  | none ↦ record bc { send_queue = rest; sent = bc.sent ++ job ∷ [] }
  | some request ↦ record bc {
    send_queue = rest ++ request ∷ [];
    blocked = none;
    phase = unblocked bc.phase;
    sent = bc.sent ++ job ∷ [];
  }
]

-- The flush of `Close`, under the mutex.
unfoldable pub close_flush : BatchCollector → BatchCollector
close_flush bc =
    let next = flush bc in
    record next { phase = elim next.blocked [ none ↦ flushed | some request ↦ flushing ] }

-- `close(bc.sendQueue)`; a sender that waits on the channel panics.
unfoldable pub close_queue : BatchCollector → BatchCollector
close_queue bc = record bc {
  phase = closed;
  panicked = elim bc.blocked [ none ↦ bc.panicked | some r ↦ true ];
}

-- The mutex is free and no goroutine has panicked.
pub record IsFree (bc : BatchCollector) : Type 0 where
  pub unlocked : bc.blocked ≡ none
  pub alive : bc.panicked ≡ false

-- What the goroutines do between two states. `Close` cancels the context, flushes under the mutex
-- and closes the channel, in three steps.
pub data Step : BatchCollector → BatchCollector → Type 0 where
  adds : {bc : BatchCollector} (event : TdcEvent) → IsFree bc → Step bc (add event bc)
  -- the timer of `autoFlush`; its select may choose the timer also where the context is done
  auto_flushes : {bc : BatchCollector} → IsFree bc → Step bc (flush bc)
  delivers :
      {bc : BatchCollector} (job : SendRequest) (rest : List SendRequest)
      → bc.panicked ≡ false
      → bc.send_queue ≡ job ∷ rest
      → Step bc (deliver job rest bc)
  cancels :
      {bc : BatchCollector}
      → bc.panicked ≡ false
      → bc.phase ≡ running
      → Step bc (record bc { phase = cancelled })
  close_flushes :
      {bc : BatchCollector} → bc.phase ≡ cancelled → IsFree bc → Step bc (close_flush bc)
  closes :
      {bc : BatchCollector} → bc.panicked ≡ false → bc.phase ≡ flushed → Step bc (close_queue bc)

abbrev pub added_by : {bc bc' : BatchCollector} → Step bc bc' → List TdcEvent
added_by (adds event free) = event ∷ []
added_by (auto_flushes free) = []
added_by (delivers job rest alive queue) = []
added_by (cancels alive phase) = []
added_by (close_flushes phase free) = []
added_by (closes alive phase) = []

-- The states that can be reached, with the events that were added on the way.
pub data Reach (start : BatchCollector) : List TdcEvent → BatchCollector → Type 0 where
  here : Reach start [] start
  next :
      {added : List TdcEvent} {bc bc' : BatchCollector}
      → Reach start added bc
      → (step : Step bc bc') → Reach start (added ++ added_by step) bc'
