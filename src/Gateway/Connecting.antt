-- ===== src/Gateway/Connecting.antt =====
-- cmd/entropy-tdc-gateway/main.go: the loops that connect to the broker and to the cloud. They run
-- until they succeed (or are cancelled), here on fuel, one unit for an attempt; the theorems give
-- the fuel that is enough. What an attempt gives is a function of the number of failures before.
use entropy_tdc_gateway.Common.{
  ℕ, zero, suc, ◌*◌, Bool, Option, none, some, List, [], ◌∷◌, ◌++◌, if◌then◌else◌,
}
use entropy_tdc_gateway.Common.Int.{ℤ, pos, leb_ℤ, ltb_ℤ, pos_part}
use entropy_tdc_gateway.Common.Float.{Float64}
use entropy_tdc_gateway.Config.{CloudForwarder}
use entropy_tdc_gateway.Backoff.{next_delay, seconds_of, second}

-- `1 + (rng.Float64()*2-1)*jitterFraction` times the delay, and none if that is negative. The draw is
-- the random number, and `to_int` the conversion to an int64.
unfoldable pub jittered : (fl : Float64) → (fl.F → ℤ) → fl.F → ℤ → ℤ
jittered fl to_int draw delay =
    let jitter =
      fl.add (fl.of_int 1)
        (fl.mul (fl.sub (fl.mul draw (fl.of_int 2)) (fl.of_int 1)) (fl.literal 1 5)) in
    let wait = to_int (fl.mul (fl.of_int (pos_part delay)) jitter) in
    if ltb_ℤ wait (pos 0) then pos 0 else wait

-- What `connectMQTTWithRetry` returns, with the times it slept and the clients closed before.
pub record Connected (C : Type 0) : Type 0 where
  pub client : C
  pub waits : List ℤ
  pub closed : List C

-- thirty seconds
abbrev pub max_mqtt_delay : ℤ
max_mqtt_delay = pos (30 * second)

-- Five seconds and a minute stand for delays that are not positive.
unfoldable pub connector_delay : CloudForwarder → ℤ
connector_delay cfg =
    let delay = seconds_of cfg.reconnect_delay in
    if leb_ℤ delay (pos 0) then pos (5 * second) else delay

unfoldable pub connector_max_delay : CloudForwarder → ℤ
connector_max_delay cfg =
    let delay = seconds_of cfg.max_reconnect_sec in
    if leb_ℤ delay (pos 0) then pos (60 * second) else delay

module _ {C : Type 0} where
  -- `setupMQTT`: the client, if it was made and connects, and the clients that it closes.
  unfoldable pub setup_mqtt : Option C → Bool → Option C × List C
  setup_mqtt none connects = (none, [])
  setup_mqtt (some c) connects = if connects then (some c, []) else (none, c ∷ [])

  abbrev pub after_failure : ℤ → List C → Option (Connected C) → Option (Connected C)
  after_failure wait closed none = none
  after_failure wait closed (some r) =
      some (record { client = r.client; waits = wait ∷ r.waits; closed = closed ++ r.closed })

  -- `jitter` gives the time to sleep for the delay after so many failures.
  unfoldable pub connect_mqtt_with_retry :
      (ℕ → Option C) → (ℕ → Bool) → (ℕ → ℤ → ℤ) → ℕ → ℕ → ℤ → Option (Connected C)
  connect_mqtt_with_retry made connects jitter zero failures delay = none
  connect_mqtt_with_retry made connects jitter (suc fuel) failures delay =
      let rest =
        connect_mqtt_with_retry made connects jitter fuel (suc failures)
          (next_delay max_mqtt_delay delay) in
      let attempt = setup_mqtt (made failures) (connects failures) in
      elim attempt.0 [
        | some c ↦ some (record { client = c; waits = []; closed = [] })
        | none ↦ after_failure (jitter failures delay) attempt.1 rest
      ]

  abbrev pub after_wait : ℤ → Option (Option C × List ℤ) → Option (Option C × List ℤ)
  after_wait wait none = none
  after_wait wait (some (c, waits)) = some (c, wait ∷ waits)

  -- The goroutine of `startGRPCConnector`: the client that it attaches, or none if the context is
  -- done while it waits, and the delays that it waited to their end.
  unfoldable pub run_connector :
      (ℕ → Option C) → (ℕ → Bool) → ℤ → ℕ → ℕ → ℤ → Option (Option C × List ℤ)
  run_connector made cancelled max_delay zero failures delay = none
  run_connector made cancelled max_delay (suc fuel) failures delay =
      let rest =
        run_connector made cancelled max_delay fuel (suc failures) (next_delay max_delay delay) in
      elim (made failures) [
        | some c ↦ some (some c, [])
        | none ↦ if cancelled failures then some (none, []) else after_wait delay rest
      ]
