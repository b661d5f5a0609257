-- ===== src/Gateway/Outcomes.antt =====
-- The answer of a forwarder and the batches that the metrics count.
use entropy_tdc_gateway.Common.{
  ℕ, ◌≡◌, refl, ◌∙◌, inl, inr, Bool, true, false, Option-cases, Option, none, some, List, [], ◌∷◌,
  ◌++◌, arith, if◌then◌else◌,
}
use entropy_tdc_gateway.Common.Int.{ℤ}
use entropy_tdc_gateway.Common.Float.{Float64}
use entropy_tdc_gateway.Mqtt.{TdcEvent}
use entropy_tdc_gateway.Metrics.{Metric, Update, total, events_dropped}
use entropy_tdc_gateway.Metrics.Pipeline.{record_batch, record_event_dropped}
use entropy_tdc_gateway.Metrics.Accounts.{
  is_batches_created, is_batches_sent, is_batches_failed, total-append,
}
use entropy_tdc_gateway.Validation.Frequency.{Entries}
use entropy_tdc_gateway.Grpc.{Client, SendError}
use entropy_tdc_gateway.Gateway.{conversion_updates}
use entropy_tdc_gateway.Gateway.Forwarding.{
  CloudAwareForwarder, cloud_aware_send_batch, send_to_client, conversions, record_outcome,
}

abbrev pub has_error : Option SendError → Bool
has_error none = false
has_error (some e) = true

module _ (fl : Float64) (to_int : fl.F → ℤ) (range : Entries → Entries) (sum256 : List ℕ → List ℕ)
    (error_text : SendError → List ℕ) where
  -- Converting events touches no counter but that of dropped events.
  conversions-total :
      (picks : Metric → Bool) (events : List TdcEvent)
      → picks events_dropped ≡ false
      → total picks (conversions fl to_int range sum256 error_text events) ≡ 0
  unfolding conversions conversion_updates record_event_dropped
  conversions-total picks [] h = refl
  conversions-total picks (evt ∷ events) h = ground (
    arith,
    total-append picks (conversion_updates sum256 {F = fl.F} evt)
        (conversions fl to_int range sum256 error_text events),
    conversions-total picks events h,
    h,
  )

  -- One batch is counted, as sent or as failed.
  abbrev pub CountsOne : Option SendError → List (Update fl.F) → Type 0
  CountsOne answer us =
      (total is_batches_created us ≡ 1)
      × ((total is_batches_failed us ≡ (if has_error answer then 1 else 0))
          × (total is_batches_sent us ≡ (if has_error answer then 0 else 1)))

  record_outcome-CountsOne :
      (events : List TdcEvent) (duration : fl.F) (answer : Option SendError)
      → CountsOne answer (record_outcome fl to_int range sum256 error_text events duration answer)
  unfolding record_outcome record_batch
  record_outcome-CountsOne events duration none = (refl, (refl, refl))
  record_outcome-CountsOne events duration (some e) = (refl, (refl, refl))

  converted-CountsOne :
      (events : List TdcEvent) (duration : fl.F) (answer : Option SendError)
      → CountsOne answer (
          conversions fl to_int range sum256 error_text events
          ++ record_outcome fl to_int range sum256 error_text events duration answer)
  converted-CountsOne events duration answer =
      let cs = conversions fl to_int range sum256 error_text events in
      let us = record_outcome fl to_int range sum256 error_text events duration answer in
      let (c, (f, s)) = record_outcome-CountsOne events duration answer in
      (
        omega (
          arith,
          total-append is_batches_created cs us,
          conversions-total is_batches_created events refl,
          c,
        ),
        (
          total-append is_batches_failed cs us
              ∙ rw (conversions-total is_batches_failed events refl, f) omega arith,
          total-append is_batches_sent cs us
              ∙ rw (conversions-total is_batches_sent events refl, s) omega arith,
        ),
      )

  -- What the attached client answers; without one there is no error.
  abbrev pub answer_of : Bool → List TdcEvent → ℕ → Option Client → Option SendError
  answer_of accepted events sequence none = none
  answer_of accepted events sequence (some c) =
      (send_to_client fl to_int range sum256 error_text accepted events sequence c).0

  -- The forwarder returns the error of the client that is attached, or none without a client, and
  -- the metrics count the batch once as created and once as sent or failed, accordingly.
  pub cloud_aware_send_batch-counts :
      (accepted : Bool) (duration : fl.F) (events : List TdcEvent) (sequence : ℕ)
      (f : CloudAwareForwarder)
      → let r =
          cloud_aware_send_batch fl to_int range sum256 error_text accepted duration events sequence
            f in
        (r.0 ≡ answer_of accepted events sequence f.client) × CountsOne r.0 r.1.1
  unfolding cloud_aware_send_batch
  cloud_aware_send_batch-counts accepted duration events sequence f = elim (Option-cases f.client) [
    | inl e ↦ rw e (refl, record_outcome-CountsOne events duration none)
    | inr (c, e) ↦ rw e (refl, converted-CountsOne events duration _)
  ]
