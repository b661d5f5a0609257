-- ===== src/Gateway/Running.antt =====
-- cmd/entropy-tdc-gateway/main.go: the life of the process, from its arguments to its exit code, as
-- the list of what it starts and stops. A deferred call stands at the end of the list of the part
-- that follows it. What the parts answer is given; logging and printing are left out. The goroutine
-- of the metrics server ends the process where that server fails, at any point of the list.
use entropy_tdc_gateway.Common.{
  ℕ, Bool, true, false, Option, none, some, List, [], ◌∷◌, ◌++◌, take, if◌then◌else◌,
}
use entropy_tdc_gateway.Config.{Config}
use entropy_tdc_gateway.Entropy.HttpServer.{Net}
use entropy_tdc_gateway.Gateway.{
  ClientAuthType, EntropyAddrError, parse_client_auth, validate_entropy_addr,
}

pub data Resource : Type 0 where
  metrics_server entropy_server forwarder batch_collector mqtt_client : Resource

-- `serves` is the start of a server, with the mode of client certificates where it uses TLS.
pub data Event : Type 0 where
  serves : Resource → Option ClientAuthType → Event
  starts stops : Resource → Event
  -- the background goroutine of the cloud, and the client attached at once
  starts_connector attaches_client : Event
  awaits_signal cancels_root : Event

pub data Arguments : Type 0 where
  help_requested not_parsed left_over accepted : Arguments

pub data MadeServer : Type 0 where
  not_made no_server made : MadeServer

-- The answers of the parts: the arguments, the configuration, whether the entropy server is made and
-- starts, whether the first connection to the cloud succeeds, and whether the broker's does. Where
-- the metrics server fails, `metrics_failure` is the number of events that its goroutine lets happen
-- first.
pub record World : Type 0 where
  pub arguments : Arguments
  pub config : Option Config
  pub server : MadeServer
  pub server_starts : Bool
  pub cloud_connects : Bool
  pub mqtt_connects : Bool
  pub metrics_failure : Option ℕ

abbrev pub Ending : Type 0
Ending = ℕ × List Event

-- `defer`: what is done after the rest.
abbrev pub deferring : Event → Ending → Ending
deferring event (code, events) = (code, events ++ event ∷ [])

abbrev pub first : Event → Ending → Ending
first event (code, events) = (code, event ∷ events)

unfoldable pub wait_for_shutdown : List Event
wait_for_shutdown =
    awaits_signal
    ∷ stops mqtt_client
    ∷ stops batch_collector
    ∷ stops entropy_server
    ∷ stops metrics_server
    ∷ []

-- `run`, from the connection to the broker on.
unfoldable pub run_mqtt : Bool → Ending
run_mqtt connects =
    if connects
    then first (starts mqtt_client) (deferring (stops mqtt_client) (0, wait_for_shutdown))
    else (1, [])

unfoldable pub run_collector : Bool → Ending
run_collector connects =
    first (starts batch_collector) (deferring (stops batch_collector) (run_mqtt connects))

-- The cloud's forwarder, where it is enabled.
unfoldable pub run_forwarder : Bool → Bool → Bool → Ending
run_forwarder enabled cloud_connects connects =
    if enabled
    then first (starts forwarder) (
        first (if cloud_connects then attaches_client else starts_connector)
          (deferring (stops forwarder) (run_collector connects)))
    else run_collector connects

-- The entropy server, if its address is valid, with the mode where it uses TLS.
unfoldable pub run_entropy_server :
    Bool → Option ClientAuthType → MadeServer → Bool → Ending → Ending
run_entropy_server valid mode not_made server_starts rest = (1, [])
run_entropy_server valid mode no_server server_starts rest = (1, [])
run_entropy_server valid mode made server_starts rest =
    if valid
    then if server_starts
      then first (serves entropy_server mode) (deferring (stops entropy_server) rest)
      else (1, [])
    else (1, [])

abbrev pub tls_mode : Bool → List ℕ → Option ClientAuthType
tls_mode enabled client_auth = if enabled then some (parse_client_auth client_auth) else none

abbrev pub is_valid : Option EntropyAddrError → Bool
is_valid none = true
is_valid (some e) = false

-- `run`, after the configuration is loaded.
unfoldable pub run_configured : Net → World → Config → Ending
run_configured net world config =
    first
      (serves metrics_server (tls_mode config.metrics.tls_enabled config.metrics.tls_client_auth))
      (deferring (stops metrics_server) (
        run_entropy_server
          (is_valid (
            validate_entropy_addr net config.entropy_pool.http_addr
              config.entropy_pool.allow_public))
          (tls_mode config.entropy_pool.tls_enabled config.entropy_pool.tls_client_auth)
          world.server world.server_starts
          (run_forwarder config.cloud_forwarder.enabled world.cloud_connects world.mqtt_connects)))

unfoldable pub run_parsed : Net → World → Ending
run_parsed net world = elim world.arguments [
  | help_requested ↦ (0, [])
  | not_parsed ↦ (2, [])
  | left_over ↦ (2, [])
  | accepted ↦ elim world.config [ none ↦ (1, []) | some config ↦ run_configured net world config ]
]

-- Where nothing ends the process from elsewhere: the exit code, and the events to the end.
unfoldable pub run_to_end : Net → World → Ending
run_to_end net world = deferring cancels_root (run_parsed net world)

-- `log.Fatalf` in the goroutine of the metrics server, which runs from the start of that server: the
-- process ends with code 1, and neither the rest nor a deferred call happens.
unfoldable pub fatal : ℕ → Ending → Ending
fatal n (code, serves metrics_server mode ∷ events) =
    (1, serves metrics_server mode ∷ take n events)
fatal n (code, events) = (code, events)

-- The process, by what becomes of its metrics server.
unfoldable pub interrupted : Option ℕ → Ending → Ending
interrupted none whole = whole
interrupted (some n) whole = fatal n whole

-- The exit code, and the events of the process.
unfoldable pub run : Net → World → Ending
run net world = interrupted world.metrics_failure (run_to_end net world)
