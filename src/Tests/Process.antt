-- ===== src/Tests/Process.antt =====
-- The theorems on the main program, from the collector to the pool and the cloud, at concrete data.
use entropy_tdc_gateway.Common.{
  ℕ, ◌*◌, ◌/◌, ◌≡◌, ◌<◌, refl, true, false, Option, none, some, List, [], ◌∷◌, ◌++◌, arith, ltb,
  ◌==◌, if◌then◌else◌,
}
use entropy_tdc_gateway.Common.Int.{ℤ, pos}
use entropy_tdc_gateway.Common.Text.{trim_space, trim_left, trim_right, is_space}
use entropy_tdc_gateway.Tests.Data.{
  fractions, in_order, constant_digest, constant_digest-length, event_at,
}
use entropy_tdc_gateway.Tests.Stream.{stocked, stocked-IsValid}
use entropy_tdc_gateway.Tests.Traffic.{job, server, three, three_added, Reach-three, three_alive}
use entropy_tdc_gateway.Collector.Conservation.{batches, to_list}
use entropy_tdc_gateway.Collector.{SendRequest}
use entropy_tdc_gateway.Entropy.Pool.Bounds.{IsValid}
use entropy_tdc_gateway.Entropy.Pool.History.{adds, requests, run-IsValid}
use entropy_tdc_gateway.Entropy.Pool.History
use entropy_tdc_gateway.Entropy.HttpServer.{Net, enforce_loopback_addr, bound}
use entropy_tdc_gateway.Config.Defaults.{default_config}
use entropy_tdc_gateway.Backoff.{second}
use entropy_tdc_gateway.Grpc.{SendError, connected_client}
use entropy_tdc_gateway.Gateway.{validate_entropy_addr}
use entropy_tdc_gateway.Gateway.Address.{IsNet, validate_entropy_addr-enforce}
use entropy_tdc_gateway.Gateway.Forwarding.{CloudAwareForwarder, cloud_aware_send_batch}
use entropy_tdc_gateway.Gateway.Service.{Traffic, asks, brings, digests}
use entropy_tdc_gateway.Gateway.Feeding
use entropy_tdc_gateway.Gateway.Feeding.{Circumstances, IsEndOf, forward, Reach-IsEndOf}
use entropy_tdc_gateway.Gateway.Outcomes.{answer_of, CountsOne, cloud_aware_send_batch-counts}
use entropy_tdc_gateway.Gateway.Connecting.{setup_mqtt, connect_mqtt_with_retry, run_connector}
use entropy_tdc_gateway.Gateway.Retries.{
  waits_from, made_from, connector_waits, connect_mqtt_with_retry_returns, run_connector_attaches,
}
use entropy_tdc_gateway.Gateway.Running.{
  World, accepted, made, fatal, interrupted, run, run_to_end, run_parsed, run_configured,
}
use entropy_tdc_gateway.Gateway.Lifecycle.{IsRun, run-IsOrderly}

abbrev to_whole : ℕ × ℕ → ℤ
to_whole x = pos (x.0 / x.1)

abbrev no_text : SendError → List ℕ
no_text e = []

-- A forwarder with a client, whose sends fail.
abbrev attached : CloudAwareForwarder
attached = record {
  pool = stocked;
  client = some (connected_client default_config.cloud_forwarder);
}

abbrev failing : SendRequest → Circumstances (ℕ × ℕ)
failing request = record { client = attached.client; accepted = false; duration = (1, 2) }

Reach-IsEndOf_example :
    (three_added
      ≡ batches three.sent ++ (batches (three.send_queue ++ to_list three.blocked) ++ three.events))
    × IsEndOf fractions to_whole in_order constant_digest no_text stocked
        (batches three.sent)
        (Feeding.digests fractions to_whole in_order constant_digest no_text three.sent)
        (forward fractions to_whole in_order constant_digest no_text failing three.sent
          attached).pool
Reach-IsEndOf_example =
    Reach-IsEndOf fractions to_whole in_order constant_digest no_text constant_digest-length 2
      three_added three Reach-three three_alive failing attached stocked-IsValid

cloud_aware_send_batch-counts_example :
    let r =
      cloud_aware_send_batch fractions to_whole in_order constant_digest no_text false
        (1, 2)
        (event_at 5 ∷ [])
        1
        attached in
    (r.0
      ≡ answer_of fractions to_whole in_order constant_digest no_text false
          (event_at 5 ∷ [])
          1
          attached.client)
    × CountsOne fractions to_whole in_order constant_digest no_text r.0 r.1.1
cloud_aware_send_batch-counts_example =
    cloud_aware_send_batch-counts fractions to_whole in_order constant_digest no_text false (1, 2)
      (event_at 5 ∷ []) 1 attached

run-IsValid_example : IsValid (
    History.run fractions in_order constant_digest
      (adds (event_at 5 ∷ []) ∷ requests (pos 3) ∷ [])
      stocked)
run-IsValid_example =
    run-IsValid fractions in_order constant_digest (adds (event_at 5 ∷ []) ∷ requests (pos 3) ∷ [])
      stocked stocked-IsValid

-- Two attempts make no client, the third does, and client 2 connects.
abbrev third : ℕ → Option ℕ
third n = if ltb n 2 then none else some n

first_two_fail : (n : ℕ) → n < 2 → (setup_mqtt (third n) true).0 ≡ none
unfolding setup_mqtt
first_two_fail n h = ground arith

connect_mqtt_with_retry_returns_example :
    connect_mqtt_with_retry third (λ n. true) (λ n delay. delay) 5 0 (pos second)
    ≡ some (record {
      client = 2;
      waits = waits_from (λ n delay. delay) second (30 * second) 0 2;
      closed = made_from third 0 2;
    })
connect_mqtt_with_retry_returns_example =
    connect_mqtt_with_retry_returns third (λ n. true) (λ n delay. delay) 2 2 5 first_two_fail refl
      refl omega arith

not_cancelled : (n : ℕ) → n < 2 → (third n ≡ none) × (false ≡ false)
not_cancelled n h = (ground arith, refl)

run_connector_attaches_example :
    run_connector third (λ n. false) (pos (60 * second)) 5 0 (pos (5 * second))
    ≡ some (some 2, connector_waits third (5 * second) (60 * second) 0 2)
run_connector_attaches_example =
    run_connector_attaches third (λ n. false) 2 (5 * second) (60 * second) 2 5 omega arith omega
      arith not_cancelled refl omega arith

-- A network where a text that is not empty is a host without a port, and 49 is the address of the
-- loopback.
abbrev small_net : Net
small_net = record {
  Ip = ℕ;
  split_host_port = λ address. elim address [ [] ↦ none | c ∷ cs ↦ some (c ∷ cs, []) ];
  join_host_port = λ host port. host;
  parse_ip = λ host. elim host [ [] ↦ none | c ∷ cs ↦ if c == 49 then some c else none ];
  is_loopback = λ ip. true;
  ip_string = λ ip. ip ∷ [];
}

small_net-IsNet : IsNet small_net
small_net-IsNet = record { no_address = refl; no_ip = refl }

trimmed : trim_space (49 ∷ []) ≡ 49 ∷ []
unfolding trim_left trim_right is_space
trimmed = refl

valid : validate_entropy_addr small_net (49 ∷ []) false ≡ none
unfolding validate_entropy_addr
valid = refl

validate_entropy_addr-enforce_example :
    (address : List ℕ) × (enforce_loopback_addr small_net (49 ∷ []) false ≡ bound address)
validate_entropy_addr-enforce_example =
    validate_entropy_addr-enforce small_net small_net-IsNet (49 ∷ []) trimmed valid

-- The metrics server fails after three events.
abbrev unmetered : World
unmetered = record {
  arguments = accepted;
  config = some default_config;
  server = made;
  server_starts = true;
  cloud_connects = false;
  mqtt_connects = true;
  metrics_failure = some 3;
}

run-IsOrderly_example :
    IsRun (some 3) false (run_to_end small_net unmetered) (run small_net unmetered)
run-IsOrderly_example = run-IsOrderly small_net unmetered

run-unmetered : (run small_net unmetered).0 ≡ 1
unfolding run interrupted fatal run_to_end run_parsed run_configured
run-unmetered = refl

-- A request, the batch that the collector sent, and another request.
abbrev traffic : List Traffic
traffic = asks (51 ∷ []) ∷ brings job ∷ asks (51 ∷ []) ∷ []
