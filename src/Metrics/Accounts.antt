-- ===== src/Metrics/Accounts.antt =====
-- What the counters of package metrics show after any run of calls.
use entropy_tdc_gateway.Common.{◌+◌, ◌≡◌, refl, Bool, true, false, List, [], ◌∷◌, ◌++◌, arith}
use entropy_tdc_gateway.Common.Float.{Float64}
use entropy_tdc_gateway.Metrics.{
  events_received, events_processed, batches_created, batches_sent, batches_failed, Metric, Metric,
  Update, total,
}
use entropy_tdc_gateway.Metrics.Pipeline.{
  record_entropy_http_request, record_entropy_http503, record_entropy_http_rate_limited,
  record_event, record_event_dropped, record_dropped_count, record_format_type,
  record_channel_event, record_validation, record_batch, record_whitening,
  record_entropy_extraction, set_entropy_pool_size, set_collector_pool_size,
  set_collector_batch_size, record_collector_flush, record_continuous_rct_failure,
  record_continuous_apt_failure, record_min_entropy_mcv, record_min_entropy_collision,
}
use entropy_tdc_gateway.Metrics.Links.{
  set_grpc_connected, record_grpc_reconnect, record_grpc_error, set_mqtt_connected,
  record_mqtt_reconnect, record_mqtt_connect, record_mqtt_disconnect, record_mqtt_message,
  record_cloud_ack, record_missing_sequence, record_backpressure, record_control_apply,
  record_signature_fail, set_grpc_server_connected_clients, record_grpc_server_batch_sent,
  record_grpc_server_batch_dropped, record_grpc_server_ack_received,
}
use entropy_tdc_gateway.Metrics.Calls.{
  Call, updates_of, updates_of_all, calls_record_entropy_http_request, calls_record_entropy_http503,
  calls_record_entropy_http_rate_limited, calls_record_event, calls_record_event_dropped,
  calls_record_dropped_count, calls_record_format_type, calls_record_channel_event,
  calls_record_validation, calls_record_batch, calls_record_whitening,
  calls_record_entropy_extraction, calls_set_entropy_pool_size, calls_set_grpc_connected,
  calls_record_grpc_reconnect, calls_record_grpc_error, calls_set_mqtt_connected,
  calls_record_mqtt_reconnect, calls_record_mqtt_connect, calls_record_mqtt_disconnect,
  calls_record_mqtt_message, calls_set_collector_pool_size, calls_set_collector_batch_size,
  calls_record_collector_flush, calls_record_cloud_ack, calls_record_missing_sequence,
  calls_record_backpressure, calls_record_control_apply, calls_record_signature_fail,
  calls_record_continuous_rct_failure, calls_record_continuous_apt_failure,
  calls_record_min_entropy_mcv, calls_record_min_entropy_collision,
  calls_set_grpc_server_connected_clients, calls_record_grpc_server_batch_sent,
  calls_record_grpc_server_batch_dropped, calls_record_grpc_server_ack_received,
}

module _ where
  abbrev pub is_batches_created : Metric → Bool
  is_batches_created batches_created = true
  is_batches_created _ = false

  abbrev pub is_batches_sent : Metric → Bool
  is_batches_sent batches_sent = true
  is_batches_sent _ = false

  abbrev pub is_batches_failed : Metric → Bool
  is_batches_failed batches_failed = true
  is_batches_failed _ = false

  abbrev pub is_events_received : Metric → Bool
  is_events_received events_received = true
  is_events_received _ = false

  abbrev pub is_events_processed : Metric → Bool
  is_events_processed events_processed = true
  is_events_processed _ = false

module _ {F : Type 0} where
  pub total-append :
      (picks : Metric → Bool) (us vs : List (Update F))
      → total picks (us ++ vs) ≡ total picks us + total picks vs
  total-append picks [] vs = omega arith
  total-append picks (u ∷ us) vs = omega (arith, total-append picks us vs)

  -- Batches are sent or failed, and an event that is received is processed.
  abbrev pub IsBalanced : List (Update F) → Type 0
  IsBalanced us =
      (total is_batches_created us ≡ total is_batches_sent us + total is_batches_failed us)
      × (total is_events_received us ≡ total is_events_processed us)

  append-IsBalanced :
      (us vs : List (Update F)) → IsBalanced us → IsBalanced vs → IsBalanced (us ++ vs)
  append-IsBalanced us vs (b, e) (b', e') = (
    omega (
      arith,
      total-append is_batches_created us vs,
      total-append is_batches_sent us vs,
      total-append is_batches_failed us vs,
    ),
    omega (arith, total-append is_events_received us vs, total-append is_events_processed us vs),
  )

updates_of-IsBalanced : (fl : Float64) (call : Call fl.F) → IsBalanced (updates_of fl call)
unfolding updates_of record_entropy_http_request record_entropy_http503
    record_entropy_http_rate_limited record_event record_event_dropped record_dropped_count
    record_format_type record_channel_event record_validation record_batch record_whitening
    record_entropy_extraction set_entropy_pool_size set_grpc_connected record_grpc_reconnect
    record_grpc_error set_mqtt_connected record_mqtt_reconnect record_mqtt_connect
    record_mqtt_disconnect record_mqtt_message set_collector_pool_size set_collector_batch_size
    record_collector_flush record_cloud_ack record_missing_sequence record_backpressure
    record_control_apply record_signature_fail record_continuous_rct_failure
    record_continuous_apt_failure record_min_entropy_mcv record_min_entropy_collision
    set_grpc_server_connected_clients record_grpc_server_batch_sent record_grpc_server_batch_dropped
    record_grpc_server_ack_received
updates_of-IsBalanced fl (calls_record_entropy_http_request code duration) = (refl, refl)
updates_of-IsBalanced fl calls_record_entropy_http503 = (refl, refl)
updates_of-IsBalanced fl calls_record_entropy_http_rate_limited = (refl, refl)
updates_of-IsBalanced fl (calls_record_event channel) = (refl, refl)
updates_of-IsBalanced fl (calls_record_event_dropped reason) = (refl, refl)
updates_of-IsBalanced fl (calls_record_dropped_count reason count) = (ground arith, ground arith)
updates_of-IsBalanced fl (calls_record_format_type format) = (refl, refl)
updates_of-IsBalanced fl (calls_record_channel_event channel) = (refl, refl)
updates_of-IsBalanced fl (calls_record_validation ratio freq_passed runs_count runs_passed) =
    (ground arith, ground arith)
updates_of-IsBalanced fl (calls_record_batch size duration success reason) =
    (ground arith, ground arith)
updates_of-IsBalanced fl (calls_record_whitening input output ratio) = (ground arith, ground arith)
updates_of-IsBalanced fl (calls_record_entropy_extraction bytes) = (ground arith, ground arith)
updates_of-IsBalanced fl (calls_set_entropy_pool_size bytes) = (refl, refl)
updates_of-IsBalanced fl (calls_set_grpc_connected connected) = (refl, refl)
updates_of-IsBalanced fl calls_record_grpc_reconnect = (refl, refl)
updates_of-IsBalanced fl (calls_record_grpc_error error_type) = (refl, refl)
updates_of-IsBalanced fl (calls_set_mqtt_connected connected) = (refl, refl)
updates_of-IsBalanced fl calls_record_mqtt_reconnect = (refl, refl)
updates_of-IsBalanced fl calls_record_mqtt_connect = (refl, refl)
updates_of-IsBalanced fl calls_record_mqtt_disconnect = (refl, refl)
updates_of-IsBalanced fl calls_record_mqtt_message = (refl, refl)
updates_of-IsBalanced fl (calls_set_collector_pool_size size) = (refl, refl)
updates_of-IsBalanced fl (calls_set_collector_batch_size size) = (refl, refl)
updates_of-IsBalanced fl (calls_record_collector_flush duration) = (refl, refl)
updates_of-IsBalanced fl (calls_record_cloud_ack success reason) = (ground arith, ground arith)
updates_of-IsBalanced fl (calls_record_missing_sequence count) = (ground arith, ground arith)
updates_of-IsBalanced fl calls_record_backpressure = (refl, refl)
updates_of-IsBalanced fl (calls_record_control_apply field) = (refl, refl)
updates_of-IsBalanced fl calls_record_signature_fail = (refl, refl)
updates_of-IsBalanced fl calls_record_continuous_rct_failure = (refl, refl)
updates_of-IsBalanced fl calls_record_continuous_apt_failure = (refl, refl)
updates_of-IsBalanced fl (calls_record_min_entropy_mcv estimate) = (refl, refl)
updates_of-IsBalanced fl (calls_record_min_entropy_collision estimate) = (refl, refl)
updates_of-IsBalanced fl (calls_set_grpc_server_connected_clients count) = (refl, refl)
updates_of-IsBalanced fl calls_record_grpc_server_batch_sent = (refl, refl)
updates_of-IsBalanced fl (calls_record_grpc_server_batch_dropped reason) = (refl, refl)
updates_of-IsBalanced fl (calls_record_grpc_server_ack_received success reason) =
    (ground arith, ground arith)

-- After any run of calls, the batches created are the batches sent and those failed, over all
-- reasons, and the events received, over all channels, are the events processed.
pub updates_of_all-IsBalanced :
    (fl : Float64) (calls : List (Call fl.F)) → IsBalanced (updates_of_all fl calls)
unfolding updates_of_all
updates_of_all-IsBalanced fl [] = (refl, refl)
updates_of_all-IsBalanced fl (call ∷ calls) =
    append-IsBalanced (updates_of fl call) (updates_of_all fl calls) (updates_of-IsBalanced fl call)
      (updates_of_all-IsBalanced fl calls)
