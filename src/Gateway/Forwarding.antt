-- ===== src/Gateway/Forwarding.antt =====
-- cmd/entropy-tdc-gateway/main.go: the forwarders, which the send loop of the collector calls. A
-- call is given what the network answers and how long it took, and returns the error, the state
-- after it and the calls of package metrics that main.go makes; those of the pool and of the gRPC
-- client stand in their models.
use entropy_tdc_gateway.Common.{
  ℕ, Bool, true, false, Option, none, some, List, [], ◌∷◌, ◌++◌, if◌then◌else◌, length, ◌==◌,
}
use entropy_tdc_gateway.Common.Int.{ℤ, pos_part}
use entropy_tdc_gateway.Common.Float.{Float64}
use entropy_tdc_gateway.Metrics.{Update}
use entropy_tdc_gateway.Metrics.Pipeline.{
  record_batch, record_dropped_count, set_collector_batch_size,
}
use entropy_tdc_gateway.Metrics.Links.{set_grpc_connected}
use entropy_tdc_gateway.Backoff.{scale, second}
use entropy_tdc_gateway.Mqtt.{TdcEvent}
use entropy_tdc_gateway.Validation.Frequency.{Entries}
use entropy_tdc_gateway.Collector.{BatchCollector, new_batch_collector}
use entropy_tdc_gateway.Entropy.Pool.{WhitenedPool, add_batch}
use entropy_tdc_gateway.Config.{Config}
use entropy_tdc_gateway.Grpc
use entropy_tdc_gateway.Grpc.{Client, SendError, EntropyBatch}
use entropy_tdc_gateway.Gateway.{to_proto_events, conversion_updates}

pub record CloudAwareForwarder : Type 0 where
  pub pool : WhitenedPool
  pub client : Option Client

unfoldable pub new_cloud_aware_forwarder : WhitenedPool → CloudAwareForwarder
new_cloud_aware_forwarder pool = record { pool = pool; client = none }

abbrev is_attached : Option Client → Bool
is_attached none = false
is_attached (some c) = true

-- "forwarder"
abbrev pub forwarder_reason : List ℕ
forwarder_reason = 102 ∷ 111 ∷ 114 ∷ 119 ∷ 97 ∷ 114 ∷ 100 ∷ 101 ∷ 114 ∷ []

module _ {F : Type 0} where
  unfoldable pub set_client :
      Option Client → CloudAwareForwarder → CloudAwareForwarder × List (Update F)
  set_client c f = (record f { client = c }, set_grpc_connected (is_attached c))

  -- The client that was attached is closed by the caller's steps of it.
  unfoldable pub close :
      CloudAwareForwarder → Option Client × (CloudAwareForwarder × List (Update F))
  close f = (f.client, (record f { client = none }, set_grpc_connected false))

  unfoldable pub increment_dropped : ℕ → List (Update F)
  increment_dropped count = if count == 0 then [] else record_dropped_count forwarder_reason count

-- The two senders of the collector.
pub data Sender : Type 0 where
  local_sender cloud_sender : Sender

-- float64 and its conversion to an int64, the order in which Go visits a map, SHA-256, and the text
-- of an error.
module _ (fl : Float64) (to_int : fl.F → ℤ) (range : Entries → Entries) (sum256 : List ℕ → List ℕ)
    (error_text : SendError → List ℕ) where
  abbrev pub Sent : Type 0 → Type 0
  Sent State = Option SendError × (State × List (Update fl.F))

  -- The calls of metrics while a batch is converted.
  unfoldable pub conversions : List TdcEvent → List (Update fl.F)
  conversions [] = []
  conversions (evt ∷ events) = conversion_updates sum256 evt ++ conversions events

  -- `RecordBatch` with the outcome.
  unfoldable pub record_outcome : List TdcEvent → fl.F → Option SendError → List (Update fl.F)
  record_outcome events duration none = record_batch (length events) duration true []
  record_outcome events duration (some e) =
      record_batch (length events) duration false (error_text e)

  -- `client.SendBatch` of the converted events.
  unfoldable pub send_to_client : Bool → List TdcEvent → ℕ → Client → Option SendError × Client
  send_to_client accepted events sequence c =
      Grpc.send_batch accepted
        (record { events = to_proto_events sum256 events; batch_sequence = sequence }) c

  -- `grpcForwarder`
  unfoldable pub grpc_forwarder_send_batch : Bool → fl.F → List TdcEvent → ℕ → Client → Sent Client
  grpc_forwarder_send_batch accepted duration events sequence c =
      let answer = send_to_client accepted events sequence c in
      (answer.0, (answer.1, conversions events ++ record_outcome events duration answer.0))

  -- `cloudAwareForwarder`: the duration is that of the local part.
  unfoldable pub cloud_aware_send_batch :
      Bool → fl.F → List TdcEvent → ℕ → CloudAwareForwarder → Sent CloudAwareForwarder
  cloud_aware_send_batch accepted duration events sequence f =
      let fed = record f { pool = (add_batch fl range sum256 f.pool events).0 } in
      elim f.client [
        | none ↦ (none, (fed, record_outcome events duration none))
        | some c ↦
            let answer = send_to_client accepted events sequence c in
            (
              answer.0,
              (
                record fed { client = some answer.1 },
                conversions events ++ record_outcome events duration answer.0,
              ),
            )
      ]

  -- The sender of `setupBatchCollector` where there is no forwarder.
  unfoldable pub local_send_batch : fl.F → List TdcEvent → ℕ → WhitenedPool → Sent WhitenedPool
  local_send_batch duration events sequence pool =
      (none, ((add_batch fl range sum256 pool events).0, record_outcome events duration none))

  -- `time.Duration(float64(batchSize)/184.0) * time.Second`
  unfoldable pub flush_interval : ℤ → ℤ
  flush_interval batch_size =
      scale second (to_int (fl.div (fl.of_int (pos_part batch_size)) (fl.literal 184 1)))

  -- The collector with its interval, the sender that it gets, and the calls of metrics.
  unfoldable pub setup_batch_collector :
      Config → Bool → BatchCollector × (ℤ × (Sender × List (Update fl.F)))
  setup_batch_collector config has_forwarder = (
    new_batch_collector (pos_part config.batch_size),
    (
      flush_interval config.batch_size,
      (
        if has_forwarder then cloud_sender else local_sender,
        set_collector_batch_size config.batch_size,
      ),
    ),
  )
