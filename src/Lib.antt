-- ===== src/Lib.antt =====
-- A verification library of entropy-tdc-gateway, which collects timestamps of a time-to-digital
-- converter from MQTT, batches them, whitens them into a pool of entropy and serves the pool over
-- HTTP under continuous health tests.
--
-- The parts, and the file of each; a directory of the same name holds the proofs about it.
-- - Validation/Rct, Validation/Apt: RepetitionCountTest and AdaptiveProportionTest of
--   internal/validation/continuous_health_tests.go. A method returns its result with the new state.
-- - Validation/Quick: internal/validation/quick_tests.go, the summary as a record of the fields
--   that it fills.
-- - Validation/Frequency, Validation/MinEntropy: internal/validation/min_entropy.go, its maps as
--   association lists whose order of visits is a parameter.
-- - Entropy/Whitening: internal/entropy/whitening.go. SHA-256 is a parameter, with 32-byte digests.
-- - Entropy/Pool: WhitenedPool of internal/entropy/pool.go, which uses the whitening, the estimators
--   and both health tests. Its mutex makes each method one step; Pool/History composes the steps.
-- - Entropy/HttpServer: the handlers and the check of the address of
--   internal/entropy/http_entropy_server.go, over the pool and the one operation of the rate
--   limiter, and in Entropy/HttpServer/Limit the token bucket and the constructor, in
--   Entropy/HttpServer/Serving the start and the stop. Package net and the conversions of durations
--   are parameters.
-- - Mqtt: RxHandler.OnMessage and its parsers in internal/mqtt/handler.go, as the list of calls that
--   a message causes.
-- - Mqtt/Client, Mqtt/Session: internal/mqtt/client.go, the making of the client with its identifier
--   and certificates, and its subscriptions and connections. Package paho is given by its answers.
-- - Collector: BatchCollector of internal/collector/collector.go. The callers of Add, the auto-flush,
--   the send loop and Close are a step relation over the state that they share: the mutex, the
--   bounded channel, a sender that waits for room, and what the sender was given.
-- - Config, Config/Defaults, Config/Overrides, Config/Load, Config/Validate:
--   internal/config/config.go, the defaults and the overrides, from an environment to an
--   accepted configuration or the first error. Package filepath and the reading of files are
--   parameters.
-- - Metrics, Metrics/Pipeline, Metrics/Links: the functions of internal/metrics/prometheus.go that
--   record, each as the list of updates that it makes; Metrics/Calls composes calls of them.
--   Metrics/Definitions, Metrics/Unregistered and Metrics/Registry: what it registers and what it
--   unregisters, each list from its own place in the source, and the change of the registerer.
--   Metrics/Server: the check of the address, the start and the stop in
--   internal/metrics/http_metric_server.go.
-- - Clock: the fake clock of internal/clock/fake.go, its channels as numbers.
-- - Backoff: the doubling delays that internal/grpc/client.go and the main program share.
-- - Grpc, Grpc/Steps: the client of internal/grpc/client.go. The receivers, the reconnecting loops,
--   the rotation timers and the callers are a step relation over the client's fields; a write without
--   the mutex is a step of its own.
-- - Gateway: cmd/entropy-tdc-gateway/main.go: the conversion of events and the address check, in
--   Gateway/Forwarding the forwarders, which join the pool and the gRPC client, in Gateway/Connecting
--   the connecting loops, in Gateway/Running the life of the process, which log.Fatalf ends early
--   where the metrics server fails. Gateway/Feeding composes the collector, the forwarder and the
--   pool, and Gateway/Service the collector, the pool and the entropy server, whose error texts are
--   values apart from the bytes that it writes.
-- - Common: numbers, bytes, text with the functions of strings and strconv that the code calls, and
--   the parameter for float64. Tests: the theorems at concrete data.
--
-- Numbers: bytes and counts are natural numbers; Go's int is an integer where its sign matters, and
-- a product or a counter of fixed width wraps where the code lets it. float64 is a record of
-- operations; what is assumed of it (IsIeee) is that small integers are exact and that a rounded
-- quotient of two of them compares with a short decimal fraction as the exact quotient does.
--
-- Fuel: the description of the windows of the adaptive proportion test takes one step for each
-- sample, and decimal printing one for each digit; the length of the data and the number itself are
-- enough. The connecting loops of the main program run until an attempt succeeds; they take one unit
-- for each attempt, so that one more than the attempts that fail is enough. All other loops of the
-- code are structural, or steps of a relation.
--
-- Not modelled: the help texts and buckets of the metrics; the routing and the serving of requests
-- by net/http and the OpenAPI document, an embedded text; flags, the .env file and logging; real time,
-- the generated protocol code and the helpers of the Go tests.
pub mod Common
pub mod Validation
pub mod Entropy
pub mod Mqtt
pub mod Collector
pub mod Config
pub mod Backoff
pub mod Clock
pub mod Gateway
pub mod Grpc
pub mod Metrics
pub mod Tests
