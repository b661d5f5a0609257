-- ===== src/Metrics/Calls.antt =====
-- internal/metrics/prometheus.go: a call of any of the functions, and runs of calls.
use entropy_tdc_gateway.Common.{ℕ, Bool, List, [], ◌∷◌, ◌++◌}
use entropy_tdc_gateway.Common.Int.{ℤ}
use entropy_tdc_gateway.Common.Float.{Float64}
use entropy_tdc_gateway.Metrics.{Update}
use entropy_tdc_gateway.Metrics.Pipeline.{
  record_entropy_http_request, record_entropy_http503, record_entropy_http_rate_limited,
  record_event, record_event_dropped, record_dropped_count, record_format_type,
  record_channel_event, record_validation, record_batch, record_whitening,
  record_entropy_extraction, set_entropy_pool_size, set_collector_pool_size,
  set_collector_batch_size, record_collector_flush, record_continuous_rct_failure,
  record_continuous_apt_failure, record_min_entropy_mcv, record_min_entropy_collision,
}
use entropy_tdc_gateway.Metrics.Links.{
  set_grpc_connected, record_grpc_reconnect, record_grpc_error, set_mqtt_connected,
  record_mqtt_reconnect, record_mqtt_connect, record_mqtt_disconnect, record_mqtt_message,
  record_cloud_ack, record_missing_sequence, record_backpressure, record_control_apply,
  record_signature_fail, set_grpc_server_connected_clients, record_grpc_server_batch_sent,
  record_grpc_server_batch_dropped, record_grpc_server_ack_received,
}

pub data Call (F : Type 0) : Type 0 where
  calls_record_entropy_http_request : ℤ → ℤ → Call F
  calls_record_entropy_http503 : Call F
  calls_record_entropy_http_rate_limited : Call F
  calls_record_event : ℕ → Call F
  calls_record_event_dropped : List ℕ → Call F
  calls_record_dropped_count : List ℕ → ℕ → Call F
  calls_record_format_type : List ℕ → Call F
  calls_record_channel_event : ℕ → Call F
  calls_record_validation : F → Bool → ℤ → Bool → Call F
  calls_record_batch : ℕ → F → Bool → List ℕ → Call F
  calls_record_whitening : ℤ → ℤ → F → Call F
  calls_record_entropy_extraction : ℤ → Call F
  calls_set_entropy_pool_size : ℤ → Call F
  calls_set_grpc_connected : Bool → Call F
  calls_record_grpc_reconnect : Call F
  calls_record_grpc_error : List ℕ → Call F
  calls_set_mqtt_connected : Bool → Call F
  calls_record_mqtt_reconnect : Call F
  calls_record_mqtt_connect : Call F
  calls_record_mqtt_disconnect : Call F
  calls_record_mqtt_message : Call F
  calls_set_collector_pool_size : ℤ → Call F
  calls_set_collector_batch_size : ℤ → Call F
  calls_record_collector_flush : ℤ → Call F
  calls_record_cloud_ack : Bool → List ℕ → Call F
  calls_record_missing_sequence : ℤ → Call F
  calls_record_backpressure : Call F
  calls_record_control_apply : List ℕ → Call F
  calls_record_signature_fail : Call F
  calls_record_continuous_rct_failure : Call F
  calls_record_continuous_apt_failure : Call F
  calls_record_min_entropy_mcv : F → Call F
  calls_record_min_entropy_collision : F → Call F
  calls_set_grpc_server_connected_clients : ℤ → Call F
  calls_record_grpc_server_batch_sent : Call F
  calls_record_grpc_server_batch_dropped : List ℕ → Call F
  calls_record_grpc_server_ack_received : Bool → List ℕ → Call F

unfoldable pub updates_of : (fl : Float64) → Call fl.F → List (Update fl.F)
updates_of fl (calls_record_entropy_http_request code duration) =
    record_entropy_http_request code duration
updates_of fl calls_record_entropy_http503 = record_entropy_http503
updates_of fl calls_record_entropy_http_rate_limited = record_entropy_http_rate_limited
updates_of fl (calls_record_event channel) = record_event channel
updates_of fl (calls_record_event_dropped reason) = record_event_dropped reason
updates_of fl (calls_record_dropped_count reason count) = record_dropped_count reason count
updates_of fl (calls_record_format_type format) = record_format_type format
updates_of fl (calls_record_channel_event channel) = record_channel_event channel
updates_of fl (calls_record_validation ratio freq_passed runs_count runs_passed) =
    record_validation ratio freq_passed runs_count runs_passed
updates_of fl (calls_record_batch size duration success reason) =
    record_batch size duration success reason
updates_of fl (calls_record_whitening input output ratio) = record_whitening fl input output ratio
updates_of fl (calls_record_entropy_extraction bytes) = record_entropy_extraction bytes
updates_of fl (calls_set_entropy_pool_size bytes) = set_entropy_pool_size bytes
updates_of fl (calls_set_grpc_connected connected) = set_grpc_connected connected
updates_of fl calls_record_grpc_reconnect = record_grpc_reconnect
updates_of fl (calls_record_grpc_error error_type) = record_grpc_error error_type
updates_of fl (calls_set_mqtt_connected connected) = set_mqtt_connected connected
updates_of fl calls_record_mqtt_reconnect = record_mqtt_reconnect
updates_of fl calls_record_mqtt_connect = record_mqtt_connect
updates_of fl calls_record_mqtt_disconnect = record_mqtt_disconnect
updates_of fl calls_record_mqtt_message = record_mqtt_message
updates_of fl (calls_set_collector_pool_size size) = set_collector_pool_size size
updates_of fl (calls_set_collector_batch_size size) = set_collector_batch_size size
updates_of fl (calls_record_collector_flush duration) = record_collector_flush duration
updates_of fl (calls_record_cloud_ack success reason) = record_cloud_ack success reason
updates_of fl (calls_record_missing_sequence count) = record_missing_sequence count
updates_of fl calls_record_backpressure = record_backpressure
updates_of fl (calls_record_control_apply field) = record_control_apply field
updates_of fl calls_record_signature_fail = record_signature_fail
updates_of fl calls_record_continuous_rct_failure = record_continuous_rct_failure
updates_of fl calls_record_continuous_apt_failure = record_continuous_apt_failure
updates_of fl (calls_record_min_entropy_mcv estimate) = record_min_entropy_mcv fl estimate
updates_of fl (calls_record_min_entropy_collision estimate) =
    record_min_entropy_collision fl estimate
updates_of fl (calls_set_grpc_server_connected_clients count) =
    set_grpc_server_connected_clients count
updates_of fl calls_record_grpc_server_batch_sent = record_grpc_server_batch_sent
updates_of fl (calls_record_grpc_server_batch_dropped reason) =
    record_grpc_server_batch_dropped reason
updates_of fl (calls_record_grpc_server_ack_received success reason) =
    record_grpc_server_ack_received success reason

-- A run: the updates of the calls, in order.
unfoldable pub updates_of_all : (fl : Float64) → List (Call fl.F) → List (Update fl.F)
updates_of_all fl [] = []
updates_of_all fl (call ∷ calls) = updates_of fl call ++ updates_of_all fl calls
