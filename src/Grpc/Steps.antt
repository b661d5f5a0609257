-- ===== src/Grpc/Steps.antt =====
-- internal/grpc/client.go: the steps of the goroutines of the client, and the states that they
-- reach. A step ends where the source takes or leaves a mutex, writes a field without one, asks the
-- network, or waits.
use entropy_tdc_gateway.Common.Int.{ℤ}
use entropy_tdc_gateway.Common.{
  ℕ, suc, ◌≡◌, Bool, true, false, Option, none, some, List, [], ◌∷◌, ◌++◌, if◌then◌else◌,
}
use entropy_tdc_gateway.Config.{CloudForwarder}
use entropy_tdc_gateway.Backoff.{next_delay}
use entropy_tdc_gateway.Metrics.Links.{set_grpc_connected, record_grpc_reconnect, record_grpc_error}
use entropy_tdc_gateway.Grpc.{
  Client, Loop, Receiver, Ack, EntropyBatch, looking, reading, receiving, failed, reporting,
  entering, opened, marked, published, leaving, checking, waiting, closing, dialing, streaming,
  tell, handle_ack, close_conn, dial, remove, start_receiver, connected_client, send_batch,
  initial_delay, max_delay, recv_failed,
}

-- `reconnect` with the `connect` in it: a loop at a point, in a client, goes on as the loops of the
-- list, which leave the client as the last argument.
pub data LoopMove (cfg : CloudForwarder) (c : Client) : Loop → List Loop → Client → Type 0 where
  enters :
      c.reconnecting ≡ false
      → LoopMove cfg c entering
          (checking (initial_delay cfg) ∷ [])
          (record c { reconnecting = true })
  yields : c.reconnecting ≡ true → LoopMove cfg c entering [] c
  stops : (delay : ℤ) → c.cancelled ≡ true → LoopMove cfg c (checking delay) (leaving ∷ []) c
  waits : (delay : ℤ) → c.cancelled ≡ false → LoopMove cfg c (checking delay) (waiting delay ∷ []) c
  gives_up : (delay : ℤ) → c.cancelled ≡ true → LoopMove cfg c (waiting delay) (leaving ∷ []) c
  wakes : (delay : ℤ) → LoopMove cfg c (waiting delay) (closing delay ∷ []) c
  closes : (delay : ℤ) → LoopMove cfg c (closing delay) (dialing delay ∷ []) (close_conn c)
  build_fails :
      (delay : ℤ)
      → LoopMove cfg c
          (dialing delay)
          (checking (next_delay (max_delay cfg) delay) ∷ [])
          (tell record_grpc_reconnect c)
  dials : (delay : ℤ) → LoopMove cfg c (dialing delay) (streaming delay c.dialed ∷ []) (dial c)
  stream_fails :
      (delay : ℤ) (id : ℕ)
      → LoopMove cfg c
          (streaming delay id)
          (checking (next_delay (max_delay cfg) delay) ∷ [])
          (tell record_grpc_reconnect (record c { open_conns = remove id c.open_conns }))
  -- a call on a cancelled context does not give a stream
  opens :
      (delay : ℤ) (id : ℕ)
      → c.cancelled ≡ false
      → LoopMove cfg c (streaming delay id) (opened ∷ []) (record c { stream = some id })
  marks : LoopMove cfg c opened (marked ∷ []) (record c { connected = true })
  publishes : LoopMove cfg c marked (published ∷ []) (tell (set_grpc_connected true) c)
  starts :
      LoopMove cfg c published (leaving ∷ []) (tell record_grpc_reconnect (start_receiver cfg c))
  leaves : LoopMove cfg c leaving [] (record c { reconnecting = false })

-- `receiveAcks`: the receiver goes on as those of the list.
pub data ReceiverMove (c : Client) : Receiver → List Receiver → Client → Type 0 where
  returns : c.cancelled ≡ true → ReceiverMove c looking [] c
  looks : c.cancelled ≡ false → ReceiverMove c looking (reading ∷ []) c
  reads : (id : ℕ) → c.stream ≡ some id → ReceiverMove c reading (receiving id ∷ []) c
  -- no stream yet: it sleeps
  sleeps : c.stream ≡ none → ReceiverMove c reading (looking ∷ []) c
  receives :
      (id : ℕ) (ack : Option Ack)
      → ReceiverMove c (receiving id) (looking ∷ []) (tell (handle_ack ack) c)
  -- the end of the stream, or another error
  fails :
      (id : ℕ) (is_eof : Bool)
      → ReceiverMove c
          (receiving id)
          (failed ∷ [])
          (tell (if is_eof then [] else record_grpc_error recv_failed) c)
  notes_failure :
      ReceiverMove c failed
        (reporting ∷ [])
        (tell (set_grpc_connected false) (record c { connected = false }))
  reports : ReceiverMove c reporting [] (record c { loops = c.loops ++ entering ∷ [] })

pub data Step (cfg : CloudForwarder) : Client → Client → Type 0 where
  loop_moves :
      {c c' : Client} (before after rest : List Loop) (p : Loop)
      → c.loops ≡ before ++ p ∷ after
      → LoopMove cfg c p rest c'
      → Step cfg c (record c' { loops = before ++ (rest ++ after) })
  receiver_moves :
      {c c' : Client} (before after rest : List Receiver) (p : Receiver)
      → c.receivers ≡ before ++ p ∷ after
      → ReceiverMove c p rest c'
      → Step cfg c (record c' { receivers = before ++ (rest ++ after) })
  sends :
      {c : Client} (accepted : Bool) (batch : EntropyBatch)
      → Step cfg c (send_batch accepted batch c).1
  -- the timer may fire also where it was stopped just now
  rotates :
      {c : Client} (n : ℕ)
      → c.timers ≡ suc n
      → Step cfg c (record c { timers = n; loops = c.loops ++ entering ∷ [] })
  timer_stops : {c : Client} (n : ℕ) → c.timers ≡ suc n → Step cfg c (record c { timers = n })
  -- `Close`, before and after it waits for the receivers and the timers
  cancels : {c : Client} → Step cfg c (record c { cancelled = true })
  finishes :
      {c : Client}
      → c.cancelled ≡ true
      → c.receivers ≡ []
      → c.timers ≡ 0
      → Step cfg c (close_conn (tell (set_grpc_connected false) c))

-- The states that a client made by `NewClient` reaches.
pub data Reach (cfg : CloudForwarder) : Client → Type 0 where
  here : Reach cfg (connected_client cfg)
  next : {c c' : Client} → Reach cfg c → Step cfg c c' → Reach cfg c'
