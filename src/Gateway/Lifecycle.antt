-- ===== src/Gateway/Lifecycle.antt =====
-- What every run of the process stops, and in which order.
use entropy_tdc_gateway.Common.{
  ◌≡◌, refl, Bool, true, false, not, ◌&&◌, ◌||◌, Option, none, some, List, [], ◌∷◌, ◌==◌, ℕ, ◌++◌,
  drop, take-append-drop, ap, if◌then◌else◌,
}
use entropy_tdc_gateway.Config.{Config}
use entropy_tdc_gateway.Entropy.HttpServer.{Net}
use entropy_tdc_gateway.Gateway.{ClientAuthType, validate_entropy_addr}
use entropy_tdc_gateway.Gateway.Running.{
  Resource, metrics_server, entropy_server, forwarder, batch_collector, mqtt_client, Event, serves,
  starts, stops, awaits_signal, cancels_root, Arguments, help_requested, not_parsed, left_over,
  accepted, MadeServer, not_made, no_server, made, World, Ending, first, deferring, tls_mode,
  is_valid, wait_for_shutdown, run_mqtt, run_collector, run_forwarder, run_entropy_server,
  run_configured, run_parsed, run_to_end, fatal, interrupted, run,
}

abbrev same_resource : Resource → Resource → Bool
same_resource metrics_server metrics_server = true
same_resource entropy_server entropy_server = true
same_resource forwarder forwarder = true
same_resource batch_collector batch_collector = true
same_resource mqtt_client mqtt_client = true
same_resource _ _ = false

abbrev is_start_of : Resource → Event → Bool
is_start_of r (serves s mode) = same_resource r s
is_start_of r (starts s) = same_resource r s
is_start_of r _ = false

abbrev is_stop_of : Resource → Event → Bool
is_stop_of r (stops s) = same_resource r s
is_stop_of r _ = false

abbrev pub any_of : (Event → Bool) → List Event → Bool
any_of test [] = false
any_of test (e ∷ es) = test e || any_of test es

-- Every start of the resource has a stop of it after it.
abbrev pub is_released : Resource → List Event → Bool
is_released r [] = true
is_released r (e ∷ es) = (not (is_start_of r e) || any_of (is_stop_of r) es) && is_released r es

-- The first stop of one resource comes before that of the other, if either is stopped.
abbrev pub stops_before : Resource → Resource → List Event → Bool
stops_before r s [] = true
stops_before r s (e ∷ es) = is_stop_of r e || (not (is_stop_of s e) && stops_before r s es)

abbrev pub all_released : List Event → Bool
all_released es =
    is_released metrics_server es
    && (is_released entropy_server es
        && (is_released forwarder es
            && (is_released batch_collector es && is_released mqtt_client es)))

-- The source of events stops before the collector, the collector before what its batches go to, and
-- the metrics last.
abbrev pub in_flow_order : List Event → Bool
in_flow_order es =
    stops_before mqtt_client batch_collector es
    && (stops_before batch_collector forwarder es
        && (stops_before batch_collector entropy_server es
            && stops_before entropy_server metrics_server es))

abbrev awaited : Event → Bool
awaited awaits_signal = true
awaited _ = false

abbrev pub is_help : Arguments → Bool
is_help help_requested = true
is_help _ = false

-- What an ending is to satisfy, where `help` says whether help was asked for.
abbrev pub IsOrderly : Bool → Ending → Type 0
IsOrderly help (code, es) =
    (all_released es ≡ true)
    × (((not (any_of awaited es) || in_flow_order es) ≡ true)
        × ((code == 0) ≡ (help || any_of awaited es)))

-- The process from the start of the metrics server on, in all its cases.
configured-IsOrderly :
    (metrics_mode mode : Option ClientAuthType) (valid : Bool) (server : MadeServer)
    (server_starts enabled cloud_connects connects : Bool)
    → IsOrderly false (
        deferring cancels_root (
          first (serves metrics_server metrics_mode) (
            deferring (stops metrics_server) (
              run_entropy_server valid mode server server_starts
                (run_forwarder enabled cloud_connects connects)))))
unfolding run_entropy_server run_forwarder run_collector run_mqtt wait_for_shutdown
configured-IsOrderly mm m v not_made st en cl co = (refl, (refl, refl))
configured-IsOrderly mm m v no_server st en cl co = (refl, (refl, refl))
configured-IsOrderly mm m false made st en cl co = (refl, (refl, refl))
configured-IsOrderly mm m true made false en cl co = (refl, (refl, refl))
configured-IsOrderly mm m true made true false cl true = (refl, (refl, refl))
configured-IsOrderly mm m true made true false cl false = (refl, (refl, refl))
configured-IsOrderly mm m true made true true true true = (refl, (refl, refl))
configured-IsOrderly mm m true made true true true false = (refl, (refl, refl))
configured-IsOrderly mm m true made true true false true = (refl, (refl, refl))
configured-IsOrderly mm m true made true true false false = (refl, (refl, refl))

run_to_end-IsOrderly :
    (net : Net) (world : World) → IsOrderly (is_help world.arguments) (run_to_end net world)
unfolding run_to_end run_parsed run_configured
run_to_end-IsOrderly net world = go world.arguments world.config
  where
    go :
        (arguments : Arguments) (config : Option Config)
        → IsOrderly
            (is_help arguments)
            (run_to_end net (record world { arguments = arguments; config = config }))
    go help_requested config = (refl, (refl, refl))
    go not_parsed config = (refl, (refl, refl))
    go left_over config = (refl, (refl, refl))
    go accepted none = (refl, (refl, refl))
    go accepted (some config) =
        configured-IsOrderly (tls_mode config.metrics.tls_enabled config.metrics.tls_client_auth)
          (tls_mode config.entropy_pool.tls_enabled config.entropy_pool.tls_client_auth)
          (is_valid (
            validate_entropy_addr net config.entropy_pool.http_addr
              config.entropy_pool.allow_public))
          world.server world.server_starts config.cloud_forwarder.enabled world.cloud_connects
          world.mqtt_connects

-- The process ended early: with code 1, after the start of the metrics server and a part of what a
-- whole run does.
abbrev pub IsCutOff : Ending → Ending → Type 0
IsCutOff (code, es) whole =
    (code ≡ 1)
    × ((any_of (is_start_of metrics_server) es ≡ true)
        × ((rest : List Event) × (es ++ rest ≡ whole.1)))

-- What a run is to satisfy, by what becomes of the metrics server.
abbrev pub IsRun : Option ℕ → Bool → Ending → Ending → Type 0
IsRun none help whole ending = (ending ≡ whole) × IsOrderly help ending
IsRun (some n) help whole ending =
    IsOrderly help whole
    × (if any_of (is_start_of metrics_server) whole.1
        then IsCutOff ending whole
        else ending ≡ whole)

fatal-IsCutOff :
    (n : ℕ) (code : ℕ) (mode : Option ClientAuthType) (events : List Event)
    → IsCutOff
        (fatal n (code, serves metrics_server mode ∷ events))
        (code, serves metrics_server mode ∷ events)
unfolding fatal
fatal-IsCutOff n code mode events = (
  refl,
  (refl, (drop n events, ap (λ es. serves metrics_server mode ∷ es) (take-append-drop n events))),
)

fatal-IsRun :
    (net : Net) (world : World) (n : ℕ)
    → IsRun
        (some n)
        (is_help world.arguments)
        (run_to_end net world)
        (fatal n (run_to_end net world))
unfolding run_to_end run_parsed run_configured fatal
fatal-IsRun net world n = (run_to_end-IsOrderly net world, go world.arguments world.config)
  where
    go :
        (arguments : Arguments) (config : Option Config)
        → let whole = run_to_end net (record world { arguments = arguments; config = config }) in
          if any_of (is_start_of metrics_server) whole.1
          then IsCutOff (fatal n whole) whole
          else fatal n whole ≡ whole
    go help_requested config = refl
    go not_parsed config = refl
    go left_over config = refl
    go accepted none = refl
    go accepted (some config) =
        let whole = run_to_end net (record world { arguments = accepted; config = some config }) in
        fatal-IsCutOff n whole.0
          (tls_mode config.metrics.tls_enabled config.metrics.tls_client_auth) (drop 1 whole.1)

interrupted-IsRun :
    (net : Net) (world : World) (failure : Option ℕ)
    → IsRun failure
        (is_help world.arguments)
        (run_to_end net world)
        (interrupted failure (run_to_end net world))
unfolding interrupted
interrupted-IsRun net world none = (refl, run_to_end-IsOrderly net world)
interrupted-IsRun net world (some n) = fatal-IsRun net world n

-- Where the metrics server does not fail, every run of the process stops, after its start, each part
-- that it started; where it waited for a signal, the broker's client is first stopped before the
-- collector, the collector before the forwarder and the entropy server, and that before the
-- metrics; and the exit code is 0 exactly where help was asked for or a signal was awaited. Where
-- the metrics server was started and fails, after any number of events, the process ends with code
-- 1, and what it did is the beginning of such an orderly run: its stops may be missing. Where it was
-- not started, its failure changes nothing.
pub run-IsOrderly :
    (net : Net) (world : World)
    → IsRun world.metrics_failure (is_help world.arguments) (run_to_end net world) (run net world)
unfolding run
run-IsOrderly net world = interrupted-IsRun net world world.metrics_failure
