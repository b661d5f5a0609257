-- ===== src/Metrics/Links.antt =====
-- internal/metrics/prometheus.go: the functions about the MQTT broker, the cloud and its stream.
use entropy_tdc_gateway.Common.{ℕ, Bool, List, [], ◌∷◌, if◌then◌else◌}
use entropy_tdc_gateway.Common.Int.{ℤ, pos, leb_ℤ, pos_part}
use entropy_tdc_gateway.Metrics.{
  grpc_connected, grpc_reconnects, grpc_stream_errors, mqtt_connected, mqtt_reconnects,
  mqtt_connects, mqtt_disconnects, mqtt_inbound_messages, cloud_acks_received, cloud_nacks_received,
  forwarder_missing_seq_total, forwarder_backpressure_total, control_apply_total,
  signature_fail_total, grpc_server_connected_clients, grpc_server_batches_sent,
  grpc_server_batches_dropped, grpc_server_acks_received, unlabelled, success_true, success_false,
  text, Value, whole, Update, add_to, assign, inc, inc_with,
}

-- 1 for true and 0 for false
abbrev pub gauge_of : {F : Type 0} → Bool → Value F
gauge_of connected = if connected then whole (pos 1) else whole (pos 0)

module _ {F : Type 0} where
  unfoldable pub set_grpc_connected : Bool → List (Update F)
  set_grpc_connected connected = assign grpc_connected (gauge_of connected) ∷ []

  unfoldable pub record_grpc_reconnect : List (Update F)
  record_grpc_reconnect = inc grpc_reconnects ∷ []

  unfoldable pub record_grpc_error : List ℕ → List (Update F)
  record_grpc_error error_type = inc_with grpc_stream_errors (text error_type) ∷ []

  unfoldable pub set_mqtt_connected : Bool → List (Update F)
  set_mqtt_connected connected = assign mqtt_connected (gauge_of connected) ∷ []

  unfoldable pub record_mqtt_reconnect : List (Update F)
  record_mqtt_reconnect = inc mqtt_reconnects ∷ []

  unfoldable pub record_mqtt_connect : List (Update F)
  record_mqtt_connect = inc mqtt_connects ∷ []

  unfoldable pub record_mqtt_disconnect : List (Update F)
  record_mqtt_disconnect = inc mqtt_disconnects ∷ []

  unfoldable pub record_mqtt_message : List (Update F)
  record_mqtt_message = inc mqtt_inbound_messages ∷ []

  unfoldable pub record_cloud_ack : Bool → List ℕ → List (Update F)
  record_cloud_ack success reason =
      (if success then inc cloud_acks_received else inc_with cloud_nacks_received (text reason))
      ∷ []

  unfoldable pub record_missing_sequence : ℤ → List (Update F)
  record_missing_sequence count =
      if leb_ℤ count (pos 0)
      then []
      else add_to forwarder_missing_seq_total unlabelled (pos_part count) ∷ []

  unfoldable pub record_backpressure : List (Update F)
  record_backpressure = inc forwarder_backpressure_total ∷ []

  unfoldable pub record_control_apply : List ℕ → List (Update F)
  record_control_apply field = inc_with control_apply_total (text field) ∷ []

  unfoldable pub record_signature_fail : List (Update F)
  record_signature_fail = inc signature_fail_total ∷ []

  unfoldable pub set_grpc_server_connected_clients : ℤ → List (Update F)
  set_grpc_server_connected_clients count = assign grpc_server_connected_clients (whole count) ∷ []

  unfoldable pub record_grpc_server_batch_sent : List (Update F)
  record_grpc_server_batch_sent = inc grpc_server_batches_sent ∷ []

  unfoldable pub record_grpc_server_batch_dropped : List ℕ → List (Update F)
  record_grpc_server_batch_dropped reason = inc_with grpc_server_batches_dropped (text reason) ∷ []

  -- The reason is not used.
  unfoldable pub record_grpc_server_ack_received : Bool → List ℕ → List (Update F)
  record_grpc_server_ack_received success reason =
      inc_with grpc_server_acks_received (if success then success_true else success_false) ∷ []
