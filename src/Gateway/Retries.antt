-- ===== src/Gateway/Retries.antt =====
-- The connecting loops return with the client of the first attempt that succeeds.
use entropy_tdc_gateway.Common.{
  ℕ, zero, suc, ◌+◌, ◌*◌, ◌^◌, ◌≡◌, ◌≤◌, ◌<◌, min, refl, sym, subst, ap, ◌∙◌, Bool, true, false,
  Option, none, some, List, [], ◌∷◌, ◌++◌, arith,
}
use entropy_tdc_gateway.Common.Int.{ℤ, pos}
use entropy_tdc_gateway.Backoff.{next_delay, next_delay-pos, pow_double, second}
use entropy_tdc_gateway.Gateway.Connecting.{
  setup_mqtt, after_failure, max_mqtt_delay, connect_mqtt_with_retry, run_connector,
}

-- The waits after the failures from number i on: a second, or another start, times 2^i, up to the
-- maximum.
abbrev pub doubling : ℕ → ℕ → ℕ → ℕ
doubling s m i = min m (s * 2 ^ i)

abbrev pub waits_from : (ℕ → ℤ → ℤ) → ℕ → ℕ → ℕ → ℕ → List ℤ
waits_from wait s m i zero = []
waits_from wait s m i (suc k) = wait i (pos (doubling s m i)) ∷ waits_from wait s m (suc i) k

doubling-next :
    (s m i : ℕ)
    → m < 2 ^ 62
    → next_delay (pos m) (pos (doubling s m i)) ≡ pos (doubling s m (suc i))
doubling-next s m i small =
    next_delay-pos m (doubling s m i) small omega arith ∙ ap pos (rw (pow_double s i) omega arith)

abbrev pub clients_of : {C : Type 0} → Option C → List C
clients_of none = []
clients_of (some c) = c ∷ []

setup_mqtt-joins : {C : Type 0} (c : C) → (setup_mqtt (some c) true).0 ≡ some c
unfolding setup_mqtt
setup_mqtt-joins c = refl

-- An attempt that fails closes the client that it made.
setup_mqtt-closes :
    {C : Type 0} (m : Option C) (connects : Bool)
    → (setup_mqtt m connects).0 ≡ none
    → (setup_mqtt m connects).1 ≡ clients_of m
unfolding setup_mqtt
setup_mqtt-closes none connects h = refl
setup_mqtt-closes (some c) true h = absurd (cc h)
setup_mqtt-closes (some c) false h = refl

module _ {C : Type 0} (made : ℕ → Option C) where
  -- The clients made at the attempts from number i on.
  abbrev pub made_from : ℕ → ℕ → List C
  made_from i zero = []
  made_from i (suc k) = clients_of (made i) ++ made_from (suc i) k

  connect_succeeds :
      (connects : ℕ → Bool) (jitter : ℕ → ℤ → ℤ) (fuel i : ℕ) (delay : ℤ) (c : C)
      → (setup_mqtt (made i) (connects i)).0 ≡ some c
      → connect_mqtt_with_retry made connects jitter (suc fuel) i delay
        ≡ some (record { client = c; waits = []; closed = [] })
  unfolding connect_mqtt_with_retry
  connect_succeeds connects jitter fuel i delay c e = rw (connect_mqtt_with_retry, e)

  connect_fails :
      (connects : ℕ → Bool) (jitter : ℕ → ℤ → ℤ) (fuel i : ℕ) (delay : ℤ)
      → (setup_mqtt (made i) (connects i)).0 ≡ none
      → connect_mqtt_with_retry made connects jitter (suc fuel) i delay
        ≡ after_failure (jitter i delay) (clients_of (made i)) (
            connect_mqtt_with_retry made connects jitter fuel
              (suc i)
              (next_delay max_mqtt_delay delay))
  unfolding connect_mqtt_with_retry
  connect_fails connects jitter fuel i delay e =
      rw (connect_mqtt_with_retry, e, setup_mqtt-closes (made i) (connects i) e)

  -- The induction, over the attempts that are left before the one that succeeds.
  connect_from :
      (connects : ℕ → Bool) (jitter : ℕ → ℤ → ℤ) (c : C) (k left i fuel : ℕ)
      → k ≡ i + left
      → ((n : ℕ) → i ≤ n → n < k → (setup_mqtt (made n) (connects n)).0 ≡ none)
      → made k ≡ some c
      → connects k ≡ true
      → left < fuel
      → connect_mqtt_with_retry made connects jitter fuel i (pos (doubling second (30 * second) i))
        ≡ some (record {
          client = c;
          waits = waits_from jitter second (30 * second) i left;
          closed = made_from i left;
        })
  connect_from connects jitter c k left i zero at_k fails makes joins enough =
      absurd (omega (arith, enough))
  connect_from connects jitter c k zero i (suc fuel) at_k fails makes joins enough =
      let here : i ≡ k = omega (arith, at_k) in
      connect_succeeds connects jitter fuel i _ c (rw (here, makes, joins) (setup_mqtt-joins c))
  connect_from connects jitter c k (suc left) i (suc fuel) at_k fails makes joins enough =
      connect_fails connects jitter fuel i _ (fails i omega arith omega (arith, at_k))
      ∙ rw (
        doubling-next second (30 * second) i omega arith,
        connect_from connects jitter c k left (suc i) fuel omega (arith, at_k)
            (λ n low high. fails n omega (arith, low) high) makes joins omega (arith, enough),
      )

  -- Where the first k attempts to make a client and connect it fail and the next succeeds, the loop
  -- returns with any fuel above k, with the client of that attempt, after k times of sleep, those of
  -- the delays that start at a second and double up to thirty, each with its jitter, and it has
  -- closed every other client that was made.
  pub connect_mqtt_with_retry_returns :
      (connects : ℕ → Bool) (jitter : ℕ → ℤ → ℤ) (c : C) (k fuel : ℕ)
      → ((n : ℕ) → n < k → (setup_mqtt (made n) (connects n)).0 ≡ none)
      → made k ≡ some c
      → connects k ≡ true
      → k < fuel
      → connect_mqtt_with_retry made connects jitter fuel 0 (pos second)
        ≡ some (record {
          client = c;
          waits = waits_from jitter second (30 * second) 0 k;
          closed = made_from 0 k;
        })
  connect_mqtt_with_retry_returns connects jitter c k fuel fails makes joins enough =
      connect_from connects jitter c k k 0 fuel omega arith (λ n low high. fails n high) makes joins
        enough

  -- The delays of the connector do not depend on the attempt.
  abbrev pub connector_waits : ℕ → ℕ → ℕ → ℕ → List ℤ
  connector_waits = waits_from (λ n delay. delay)

  connector_from :
      (cancelled : ℕ → Bool) (c : C) (s m k left i fuel : ℕ)
      → m < 2 ^ 62
      → k ≡ i + left
      → ((n : ℕ) → i ≤ n → n < k → (made n ≡ none) × (cancelled n ≡ false))
      → made k ≡ some c
      → left < fuel
      → run_connector made cancelled (pos m) fuel i (pos (doubling s m i))
        ≡ some (some c, connector_waits s m i left)
  unfolding run_connector
  connector_from cancelled c s m k left i zero small at_k fails makes enough =
      absurd (omega (arith, enough))
  connector_from cancelled c s m k zero i (suc fuel) small at_k fails makes enough =
      let here : i ≡ k = omega (arith, at_k) in rw (here, run_connector, makes)
  connector_from cancelled c s m k (suc left) i (suc fuel) small at_k fails makes enough =
      let (none_yet, live) = fails i omega arith omega (arith, at_k) in
      rw (
        run_connector,
        none_yet,
        live,
        doubling-next s m i small,
        connector_from cancelled c s m k left (suc i) fuel small omega (arith, at_k)
            (λ n low high. fails n omega (arith, low) high) makes omega (arith, enough),
      )

  -- Where the first k attempts to make a client fail, the next succeeds and the context is not done
  -- during the waits between them, the connector attaches the client of that attempt, with any fuel
  -- above k, after waiting k delays, which start at s and double up to m, for s at most m and m below
  -- 146 years.
  pub run_connector_attaches :
      (cancelled : ℕ → Bool) (c : C) (s m k fuel : ℕ)
      → s ≤ m
      → m < 2 ^ 62
      → ((n : ℕ) → n < k → (made n ≡ none) × (cancelled n ≡ false))
      → made k ≡ some c
      → k < fuel
      → run_connector made cancelled (pos m) fuel 0 (pos s) ≡ some (some c, connector_waits s m 0 k)
  run_connector_attaches cancelled c s m k fuel low small fails makes enough =
      let start : s ≡ doubling s m 0 = omega arith in
      subst
        (λ d.
          run_connector made cancelled (pos m) fuel 0 (pos d)
          ≡ some (some c, connector_waits s m 0 k))
        (sym start)
        (connector_from cancelled c s m k k 0 fuel small omega arith (λ n l h. fails n h) makes
          enough)
