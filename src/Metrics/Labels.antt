-- ===== src/Metrics/Labels.antt =====
-- The labels that channels get.
use entropy_tdc_gateway.Common.{
  ℕ, ◌≡◌, refl, Bool, true, false, Bool-cases, inl, inr, List, [], ◌∷◌, ◌++◌, ltb, arith, ap, All,
  All-append,
}
use entropy_tdc_gateway.Common.Int.{pos, negsuc}
use entropy_tdc_gateway.Common.Float.{Float64}
use entropy_tdc_gateway.Metrics.{
  add_to, assign, observe, labels_of, events_received, events_per_channel, Metric, Metric, Label,
  numeral, unknown, Update,
}
use entropy_tdc_gateway.Metrics.Pipeline.{
  record_entropy_http_request, record_entropy_http503, record_entropy_http_rate_limited,
  record_event, record_event_dropped, record_dropped_count, record_format_type,
  record_channel_event, record_validation, record_batch, record_whitening,
  record_entropy_extraction, set_entropy_pool_size, set_collector_pool_size,
  set_collector_batch_size, record_collector_flush, record_continuous_rct_failure,
  record_continuous_apt_failure, record_min_entropy_mcv, record_min_entropy_collision,
  channel_label,
}
use entropy_tdc_gateway.Metrics.Links.{
  set_grpc_connected, record_grpc_reconnect, record_grpc_error, set_mqtt_connected,
  record_mqtt_reconnect, record_mqtt_connect, record_mqtt_disconnect, record_mqtt_message,
  record_cloud_ack, record_missing_sequence, record_backpressure, record_control_apply,
  record_signature_fail, set_grpc_server_connected_clients, record_grpc_server_batch_sent,
  record_grpc_server_batch_dropped, record_grpc_server_ack_received,
}
use entropy_tdc_gateway.Metrics.Calls.{
  Call, updates_of, updates_of_all, calls_record_entropy_http_request, calls_record_entropy_http503,
  calls_record_entropy_http_rate_limited, calls_record_event, calls_record_event_dropped,
  calls_record_dropped_count, calls_record_format_type, calls_record_channel_event,
  calls_record_validation, calls_record_batch, calls_record_whitening,
  calls_record_entropy_extraction, calls_set_entropy_pool_size, calls_set_grpc_connected,
  calls_record_grpc_reconnect, calls_record_grpc_error, calls_set_mqtt_connected,
  calls_record_mqtt_reconnect, calls_record_mqtt_connect, calls_record_mqtt_disconnect,
  calls_record_mqtt_message, calls_set_collector_pool_size, calls_set_collector_batch_size,
  calls_record_collector_flush, calls_record_cloud_ack, calls_record_missing_sequence,
  calls_record_backpressure, calls_record_control_apply, calls_record_signature_fail,
  calls_record_continuous_rct_failure, calls_record_continuous_apt_failure,
  calls_record_min_entropy_mcv, calls_record_min_entropy_collision,
  calls_set_grpc_server_connected_clients, calls_record_grpc_server_batch_sent,
  calls_record_grpc_server_batch_dropped, calls_record_grpc_server_ack_received,
}

-- The two vectors with a channel as their label.
abbrev pub is_channel_metric : Metric → Bool
is_channel_metric events_received = true
is_channel_metric events_per_channel = true
is_channel_metric _ = false

abbrev pub is_channel_label : Label → Bool
is_channel_label (numeral (pos n)) = ltb n 4
is_channel_label (numeral (negsuc n)) = false
is_channel_label unknown = true
is_channel_label _ = false

abbrev pub IsChannelLabel : Label → Type 0
IsChannelLabel label = is_channel_label label ≡ true

channel_label-IsChannelLabel : (channel : ℕ) → IsChannelLabel (channel_label channel)
unfolding channel_label
channel_label-IsChannelLabel channel = ground arith

module _ {F : Type 0} where
  labels_of-append :
      (picks : Metric → Bool) (us vs : List (Update F))
      → labels_of picks (us ++ vs) ≡ labels_of picks us ++ labels_of picks vs
  labels_of-append picks [] vs = refl
  labels_of-append picks (add_to metric label n ∷ us) vs = elim (Bool-cases (picks metric)) [
    | inl e ↦ rw e (ap (λ l. label ∷ l) (labels_of-append picks us vs))
    | inr e ↦ rw e (labels_of-append picks us vs)
  ]
  labels_of-append picks (assign metric value ∷ us) vs = labels_of-append picks us vs
  labels_of-append picks (observe metric value ∷ us) vs = labels_of-append picks us vs

updates_of-labels :
    (fl : Float64) (call : Call fl.F)
    → All IsChannelLabel (labels_of is_channel_metric (updates_of fl call))
unfolding updates_of record_entropy_http_request record_entropy_http503
    record_entropy_http_rate_limited record_event record_event_dropped record_dropped_count
    record_format_type record_channel_event record_validation record_batch record_whitening
    record_entropy_extraction set_entropy_pool_size set_grpc_connected record_grpc_reconnect
    record_grpc_error set_mqtt_connected record_mqtt_reconnect record_mqtt_connect
    record_mqtt_disconnect record_mqtt_message set_collector_pool_size set_collector_batch_size
    record_collector_flush record_cloud_ack record_missing_sequence record_backpressure
    record_control_apply record_signature_fail record_continuous_rct_failure
    record_continuous_apt_failure record_min_entropy_mcv record_min_entropy_collision
    set_grpc_server_connected_clients record_grpc_server_batch_sent record_grpc_server_batch_dropped
    record_grpc_server_ack_received
updates_of-labels fl (calls_record_entropy_http_request code duration) = tt
updates_of-labels fl calls_record_entropy_http503 = tt
updates_of-labels fl calls_record_entropy_http_rate_limited = tt
updates_of-labels fl (calls_record_event channel) = (channel_label-IsChannelLabel channel, tt)
updates_of-labels fl (calls_record_event_dropped reason) = tt
updates_of-labels fl (calls_record_dropped_count reason count) = ground arith
updates_of-labels fl (calls_record_format_type format) = tt
updates_of-labels fl (calls_record_channel_event channel) =
    (channel_label-IsChannelLabel channel, tt)
updates_of-labels fl (calls_record_validation ratio freq_passed runs_count runs_passed) =
    ground arith
updates_of-labels fl (calls_record_batch size duration success reason) = ground arith
updates_of-labels fl (calls_record_whitening input output ratio) = ground arith
updates_of-labels fl (calls_record_entropy_extraction bytes) = ground arith
updates_of-labels fl (calls_set_entropy_pool_size bytes) = tt
updates_of-labels fl (calls_set_grpc_connected connected) = tt
updates_of-labels fl calls_record_grpc_reconnect = tt
updates_of-labels fl (calls_record_grpc_error error_type) = tt
updates_of-labels fl (calls_set_mqtt_connected connected) = tt
updates_of-labels fl calls_record_mqtt_reconnect = tt
updates_of-labels fl calls_record_mqtt_connect = tt
updates_of-labels fl calls_record_mqtt_disconnect = tt
updates_of-labels fl calls_record_mqtt_message = tt
updates_of-labels fl (calls_set_collector_pool_size size) = tt
updates_of-labels fl (calls_set_collector_batch_size size) = tt
updates_of-labels fl (calls_record_collector_flush duration) = tt
updates_of-labels fl (calls_record_cloud_ack success reason) = ground arith
updates_of-labels fl (calls_record_missing_sequence count) = ground arith
updates_of-labels fl calls_record_backpressure = tt
updates_of-labels fl (calls_record_control_apply field) = tt
updates_of-labels fl calls_record_signature_fail = tt
updates_of-labels fl calls_record_continuous_rct_failure = tt
updates_of-labels fl calls_record_continuous_apt_failure = tt
updates_of-labels fl (calls_record_min_entropy_mcv estimate) = tt
updates_of-labels fl (calls_record_min_entropy_collision estimate) = tt
updates_of-labels fl (calls_set_grpc_server_connected_clients count) = tt
updates_of-labels fl calls_record_grpc_server_batch_sent = tt
updates_of-labels fl (calls_record_grpc_server_batch_dropped reason) = tt
updates_of-labels fl (calls_record_grpc_server_ack_received success reason) = tt

-- After any run of calls with any channels, the labels of the two vectors of channels are among
-- the numerals below 4 and "unknown".
pub updates_of_all-labels :
    (fl : Float64) (calls : List (Call fl.F))
    → All IsChannelLabel (labels_of is_channel_metric (updates_of_all fl calls))
unfolding updates_of_all
updates_of_all-labels fl [] = tt
updates_of_all-labels fl (call ∷ calls) =
    rw (labels_of-append is_channel_metric (updates_of fl call) (updates_of_all fl calls)) (
      All-append IsChannelLabel (labels_of is_channel_metric (updates_of fl call)) _
        (updates_of-labels fl call) (updates_of_all-labels fl calls))
