-- ===== src/Metrics.antt =====
-- internal/metrics/prometheus.go: the metrics, and what the package does to them. A call of one of
-- its functions is the list of updates that it makes, in order; a run is the list of those of its
-- calls. Creating and registering the metrics is the work of the Prometheus library.
pub mod Pipeline
pub mod Links
pub mod Calls
pub mod Accounts
pub mod Labels
pub mod Server
pub mod Definitions
pub mod Unregistered
pub mod Registry
pub mod Registering
use entropy_tdc_gateway.Common.{
  ℕ, ◌+◌, Bool, true, false, Option, none, some, List, [], ◌∷◌, ◌++◌, if◌then◌else◌,
}
use entropy_tdc_gateway.Common.Int.{ℤ, negsuc, pos}

-- The variables of the package, without ProcessingLatency, which no function of it updates.
pub data Metric : Type 0 where
  events_received events_processed events_dropped event_format_type events_per_channel : Metric
  validation_failures validation_frequency_ratio validation_runs_count : Metric
  batches_created batches_sent batches_failed batch_size batch_send_duration : Metric
  whitening_input_bytes whitening_output_bytes whitening_compression_ratio : Metric
  entropy_extractions entropy_extracted_bytes entropy_pool_size : Metric
  grpc_connected grpc_reconnects grpc_stream_errors : Metric
  mqtt_connected mqtt_reconnects mqtt_connects mqtt_disconnects mqtt_inbound_messages : Metric
  collector_pool_size collector_batch_size collector_flush_duration : Metric
  continuous_rct_failures continuous_apt_failures : Metric
  min_entropy_estimate_mcv min_entropy_estimate_collision : Metric
  cloud_acks_received cloud_nacks_received : Metric
  entropy_http_requests entropy_http503_total entropy_http_rate_limited entropy_http_latency :
      Metric
  forwarder_missing_seq_total forwarder_backpressure_total : Metric
  control_apply_total signature_fail_total : Metric
  grpc_server_connected_clients grpc_server_batches_sent grpc_server_batches_dropped : Metric
  grpc_server_acks_received : Metric

-- The value of the label of a vector; a metric without a label has `unlabelled`.
pub data Label : Type 0 where
  unlabelled : Label
  -- `strconv.Itoa` of a number, and the text "unknown"
  numeral : ℤ → Label
  unknown : Label
  -- the texts "frequency", "runs", "true" and "false"
  frequency runs success_true success_false : Label
  -- a text that the caller gives
  text : List ℕ → Label

-- What a histogram or a gauge is given: `float64` of an integer, the seconds of a duration in
-- nanoseconds, or a float64.
pub data Value (F : Type 0) : Type 0 where
  whole : ℤ → Value F
  seconds : ℤ → Value F
  float : F → Value F

-- `Inc` and `Add` of a counter, `Set` of a gauge, `Observe` of a histogram.
pub data Update (F : Type 0) : Type 0 where
  add_to : Metric → Label → ℕ → Update F
  assign : Metric → Value F → Update F
  observe : Metric → Value F → Update F

module _ {F : Type 0} where
  abbrev pub inc : Metric → Update F
  inc metric = add_to metric unlabelled 1

  abbrev pub inc_with : Metric → Label → Update F
  inc_with metric label = add_to metric label 1

  -- A counter that a test picks, after some updates: the sum over all values of its label.
  abbrev pub amount : (Metric → Bool) → Update F → ℕ
  amount picks (add_to metric label n) = if picks metric then n else 0
  amount picks (assign metric value) = 0
  amount picks (observe metric value) = 0

  abbrev pub total : (Metric → Bool) → List (Update F) → ℕ
  total picks [] = 0
  total picks (u ∷ us) = amount picks u + total picks us

  -- The gauge that a test picks, after some updates.
  abbrev pub gauge_after : (Metric → Bool) → Option (Value F) → Update F → Option (Value F)
  gauge_after picks old (add_to metric label n) = old
  gauge_after picks old (assign metric value) = if picks metric then some value else old
  gauge_after picks old (observe metric value) = old

  abbrev pub gauge : (Metric → Bool) → Option (Value F) → List (Update F) → Option (Value F)
  gauge picks old [] = old
  gauge picks old (u ∷ us) = gauge picks (gauge_after picks old u) us

  -- The labels that the counters picked by a test get, in order.
  abbrev pub labels_of : (Metric → Bool) → List (Update F) → List Label
  labels_of picks [] = []
  labels_of picks (add_to metric label n ∷ us) =
      if picks metric then label ∷ labels_of picks us else labels_of picks us
  labels_of picks (assign metric value ∷ us) = labels_of picks us
  labels_of picks (observe metric value ∷ us) = labels_of picks us

-- A duration that is negative counts as none.
abbrev pub not_negative : ℤ → ℤ
not_negative (pos n) = pos n
not_negative (negsuc n) = pos 0
