-- ===== src/Metrics/Pipeline.antt =====
-- internal/metrics/prometheus.go: the functions that the pipeline calls, from the events to the
-- entropy endpoint.
use entropy_tdc_gateway.Common.{ℕ, Bool, List, [], ◌∷◌, ◌++◌, if◌then◌else◌, ◌==◌}
use entropy_tdc_gateway.Common.Int.{ℤ, pos, leb_ℤ, pos_part}
use entropy_tdc_gateway.Common.Float.{Float64}
use entropy_tdc_gateway.Metrics.{
  events_received, events_processed, events_dropped, event_format_type, events_per_channel,
  validation_failures, validation_frequency_ratio, validation_runs_count, batches_created,
  batches_sent, batches_failed, batch_size, batch_send_duration, whitening_input_bytes,
  whitening_output_bytes, whitening_compression_ratio, entropy_extractions, entropy_extracted_bytes,
  entropy_pool_size, collector_pool_size, collector_batch_size, collector_flush_duration,
  continuous_rct_failures, continuous_apt_failures, min_entropy_estimate_mcv,
  min_entropy_estimate_collision, entropy_http_requests, entropy_http503_total,
  entropy_http_rate_limited, entropy_http_latency, Metric, Label, unlabelled, numeral, unknown,
  frequency, runs, text, whole, seconds, float, Update, add_to, assign, observe, inc, inc_with,
  not_negative,
}

unfoldable pub channel_label : ℕ → Label
channel_label channel =
    if channel == 0
    then numeral (pos 0)
    else if channel == 1
    then numeral (pos 1)
    else if channel == 2
    then numeral (pos 2)
    else if channel == 3
    then numeral (pos 3)
    else unknown

module _ {F : Type 0} where
  unfoldable pub record_entropy_http_request : ℤ → ℤ → List (Update F)
  record_entropy_http_request code duration =
      inc_with entropy_http_requests (if leb_ℤ code (pos 0) then numeral (pos 0) else numeral code)
      ∷ observe entropy_http_latency (seconds (not_negative duration))
      ∷ []

  unfoldable pub record_entropy_http503 : List (Update F)
  record_entropy_http503 = inc entropy_http503_total ∷ []

  unfoldable pub record_entropy_http_rate_limited : List (Update F)
  record_entropy_http_rate_limited = inc entropy_http_rate_limited ∷ []

  unfoldable pub record_event : ℕ → List (Update F)
  record_event channel =
      inc_with events_received (channel_label channel) ∷ inc events_processed ∷ []

  unfoldable pub record_event_dropped : List ℕ → List (Update F)
  record_event_dropped reason = inc_with events_dropped (text reason) ∷ []

  unfoldable pub record_dropped_count : List ℕ → ℕ → List (Update F)
  record_dropped_count reason count =
      if count == 0 then [] else add_to events_dropped (text reason) count ∷ []

  unfoldable pub record_format_type : List ℕ → List (Update F)
  record_format_type format = inc_with event_format_type (text format) ∷ []

  unfoldable pub record_channel_event : ℕ → List (Update F)
  record_channel_event channel = inc_with events_per_channel (channel_label channel) ∷ []

  unfoldable pub record_validation : F → Bool → ℤ → Bool → List (Update F)
  record_validation freq_ratio freq_passed runs_count runs_passed =
      observe validation_frequency_ratio (float freq_ratio)
        ∷ observe validation_runs_count (whole runs_count)
        ∷ (if freq_passed then [] else inc_with validation_failures frequency ∷ [])
      ++ (if runs_passed then [] else inc_with validation_failures runs ∷ [])

  unfoldable pub record_batch : ℕ → F → Bool → List ℕ → List (Update F)
  record_batch size duration success fail_reason =
      inc batches_created
      ∷ observe batch_size (whole (pos size))
      ∷ (if success
          then inc batches_sent ∷ observe batch_send_duration (float duration) ∷ []
          else inc_with batches_failed (text fail_reason) ∷ [])

  -- A count that is not positive adds nothing.
  abbrev add_positive : Metric → ℤ → List (Update F)
  add_positive metric count =
      if leb_ℤ count (pos 0) then [] else add_to metric unlabelled (pos_part count) ∷ []

  unfoldable pub record_entropy_extraction : ℤ → List (Update F)
  record_entropy_extraction bytes =
      inc entropy_extractions ∷ add_positive entropy_extracted_bytes bytes

  unfoldable pub set_entropy_pool_size : ℤ → List (Update F)
  set_entropy_pool_size bytes = assign entropy_pool_size (whole bytes) ∷ []

  unfoldable pub set_collector_pool_size : ℤ → List (Update F)
  set_collector_pool_size size = assign collector_pool_size (whole size) ∷ []

  unfoldable pub set_collector_batch_size : ℤ → List (Update F)
  set_collector_batch_size size = assign collector_batch_size (whole size) ∷ []

  unfoldable pub record_collector_flush : ℤ → List (Update F)
  record_collector_flush duration =
      observe collector_flush_duration (seconds (not_negative duration)) ∷ []

  unfoldable pub record_continuous_rct_failure : List (Update F)
  record_continuous_rct_failure = inc continuous_rct_failures ∷ []

  unfoldable pub record_continuous_apt_failure : List (Update F)
  record_continuous_apt_failure = inc continuous_apt_failures ∷ []

module _ (fl : Float64) where
  -- A number below the first bound or above the second becomes that bound.
  abbrev clamp : ℕ → ℕ → fl.F → fl.F
  clamp low high x =
      if fl.lt x (fl.of_int low)
      then fl.of_int low
      else if fl.lt (fl.of_int high) x
      then fl.of_int high
      else x

  unfoldable pub record_whitening : ℤ → ℤ → fl.F → List (Update fl.F)
  record_whitening input_bytes output_bytes ratio =
      (if leb_ℤ input_bytes (pos 0)
        then []
        else add_to whitening_input_bytes unlabelled (pos_part input_bytes)
          ∷ observe whitening_compression_ratio (float (clamp 0 1 ratio))
          ∷ [])
      ++ add_positive whitening_output_bytes output_bytes

  unfoldable pub record_min_entropy_mcv : fl.F → List (Update fl.F)
  record_min_entropy_mcv min_entropy =
      observe min_entropy_estimate_mcv (float (clamp 0 8 min_entropy)) ∷ []

  unfoldable pub record_min_entropy_collision : fl.F → List (Update fl.F)
  record_min_entropy_collision min_entropy =
      observe min_entropy_estimate_collision (float (clamp 0 8 min_entropy)) ∷ []
