-- ===== src/Tests/Links.antt =====
-- The theorems on the clients of the broker and the cloud and on the metrics at concrete data.
use entropy_tdc_gateway.Common.{
  ℕ, zero, suc, ◌*◌, ◌-◌, ◌^◌, ◌≡◌, ◌⊎◌, min, refl, true, false, Option, none, some, List, [], ◌∷◌,
  arith, replicate,
}
use entropy_tdc_gateway.Common.Int.{pos}
use entropy_tdc_gateway.Common.Bytes.{AreBytes}
use entropy_tdc_gateway.Tests.Data.{fractions}
use entropy_tdc_gateway.Config.{CloudForwarder}
use entropy_tdc_gateway.Config.Defaults.{default_config}
use entropy_tdc_gateway.Backoff.{second}
use entropy_tdc_gateway.Metrics.{total, gauge, whole}
use entropy_tdc_gateway.Metrics.Calls.{
  Call, updates_of_all, calls_record_batch, calls_record_event, calls_record_mqtt_message,
}
use entropy_tdc_gateway.Metrics.Accounts.{IsBalanced, updates_of_all-IsBalanced}
use entropy_tdc_gateway.Metrics.Registry.{Registrations, set_registerers}
use entropy_tdc_gateway.Metrics.Registering.{AreAbsent, metric_names, set_registerers-succeed}
use entropy_tdc_gateway.Grpc.{
  Client, Ack, EntropyBatch, waiting, connected_client, start_receiver, reset_rotation_timer,
  send_batch, initial_delay,
}
use entropy_tdc_gateway.Grpc.Steps.{Reach, here, next, sends, loop_moves, enters, waits}
use entropy_tdc_gateway.Grpc.Exclusion.{IsExclusive, Reach-IsExclusive}
use entropy_tdc_gateway.Grpc.Sending.{IsAnswer, Reach-IsAnswer}
use entropy_tdc_gateway.Grpc.Delays.{Reach-delay}
use entropy_tdc_gateway.Grpc.Acks.{IsCounted, handle_acks, handle_ack-counts}
use entropy_tdc_gateway.Grpc.Stuck.{
  IsStuck, Fails, without_rotation, is_grpc_connected, Reach-IsStuck, Step-IsStuck,
}
use entropy_tdc_gateway.Mqtt.Client.{Text, generate_client_id}
use entropy_tdc_gateway.Mqtt.Session.{Answer, acknowledged, denied, fresh_client}
use entropy_tdc_gateway.Mqtt.Identity.{IsClientId, generate_client_id-IsClientId}
use entropy_tdc_gateway.Mqtt.Sessions.{
  run_connections, result_of, successes, is_connects, is_reconnects, run_connections_lem,
}

-- Five seconds at first, a minute at most, and no rotation.
abbrev cloud : CloudForwarder
cloud = default_config.cloud_forwarder

abbrev batch : EntropyBatch
batch = record { events = []; batch_sequence = 1 }

-- The client after a send that failed, with its loop at the first wait.
abbrev cut : Client
cut = (send_batch false batch (connected_client cloud)).1

abbrev waiting_client : Client
waiting_client = record cut { reconnecting = true; loops = waiting (initial_delay cloud) ∷ [] }

Reach-waiting : Reach cloud waiting_client
unfolding connected_client start_receiver reset_rotation_timer send_batch default_config
Reach-waiting =
    let start : Reach cloud (connected_client cloud) = here in
    let failed = next start (sends false batch) in
    let entered = next failed (loop_moves [] [] _ _ refl (enters refl)) in
    next entered (loop_moves [] [] _ _ refl (waits (initial_delay cloud) refl))

Reach-IsExclusive_example : IsExclusive waiting_client
Reach-IsExclusive_example = Reach-IsExclusive cloud waiting_client Reach-waiting

Reach-IsAnswer_example :
    (id : ℕ) × ((waiting_client.stream ≡ some id) × IsAnswer id true batch waiting_client)
Reach-IsAnswer_example = Reach-IsAnswer cloud waiting_client Reach-waiting true batch

cloud_delay : cloud.reconnect_delay ≡ pos 5
unfolding default_config
cloud_delay = refl

cloud_maximum : cloud.max_reconnect_sec ≡ pos 60
unfolding default_config
cloud_maximum = refl

Reach-delay_example :
    (k : ℕ) × (initial_delay cloud ≡ pos (min (second * 60) ((second * 5) * 2 ^ k)))
Reach-delay_example =
    Reach-delay cloud 5 60 cloud_delay cloud_maximum omega arith omega arith waiting_client
      Reach-waiting [] [] (initial_delay cloud) refl

Reach-IsStuck_example :
    (c : Client) × (Reach (without_rotation cloud) c
      × (IsStuck c × (gauge is_grpc_connected none c.updates ≡ some (whole (pos 1)))))
Reach-IsStuck_example = Reach-IsStuck cloud

-- A client that lost its reconnect, and a send that it refuses.
abbrev lost : Client
lost = record {
  conn = some 1;
  stream = some 1;
  connected = false;
  cancelled = false;
  reconnecting = false;
  receivers = [];
  loops = [];
  timers = 0;
  open_conns = 1 ∷ [];
  dialed = 2;
  sent = [];
  updates = [];
}

lost-IsStuck : IsStuck lost
lost-IsStuck = record { live = refl; cut = refl; idle = refl; still = refl; fine = tt }

Step-IsStuck_example :
    let c = (send_batch true batch lost).1 in IsStuck c ⊎ ((c.cancelled ≡ true) ⊎ Fails c)
Step-IsStuck_example =
    Step-IsStuck cloud lost (send_batch true batch lost).1 lost-IsStuck (sends true batch)

-- An accepted batch, nothing, and a rejected batch with a missing one and a signal.
abbrev acks : List (Option Ack)
acks =
    some (record { success = true; message = []; missing_sequences = []; backpressure = false })
    ∷ none
    ∷ some (record {
      success = false;
      message = 120 ∷ [];
      missing_sequences = 4 ∷ [];
      backpressure = true;
    })
    ∷ []

handle_ack-counts_example : IsCounted acks (handle_acks acks)
handle_ack-counts_example = handle_ack-counts acks

abbrev calls : List (Call fractions.F)
calls =
    calls_record_mqtt_message
    ∷ calls_record_event 2
    ∷ calls_record_batch 1 (1, 2) true []
    ∷ calls_record_batch 1 (1, 2) false (120 ∷ [])
    ∷ []

updates_of_all-IsBalanced_example : IsBalanced (updates_of_all fractions calls)
updates_of_all-IsBalanced_example = updates_of_all-IsBalanced fractions calls

ones-AreBytes : (n : ℕ) → AreBytes (replicate n 255)
ones-AreBytes zero = tt
ones-AreBytes (suc n) = (omega arith, ones-AreBytes n)

generate_client_id-IsClientId_example :
    (id : Text) × ((generate_client_id (some (replicate 16 255)) ≡ some id) × IsClientId id)
generate_client_id-IsClientId_example =
    generate_client_id-IsClientId (replicate 16 255) refl (ones-AreBytes 16)

-- The first connection is denied its topic, the others are not.
abbrev topics : List Text
topics = (116 ∷ []) ∷ []

abbrev brokers : List (Text → Answer)
brokers = (λ topic. acknowledged) ∷ (λ topic. acknowledged) ∷ []

run_connections_lem_example :
    let c = run_connections topics ((λ topic. denied) ∷ brokers) fresh_client in
    let n = successes topics ((λ topic. denied) ∷ brokers) in
    (c.initial ≡ some (result_of topics (λ topic. denied)))
    × ((total is_connects c.updates ≡ n) × (total is_reconnects c.updates ≡ n - 1))
run_connections_lem_example = run_connections_lem topics (λ topic. denied) brokers omega arith

-- Registries without a metric; the registerer changes to another one and back.
abbrev registrations : Registrations
registrations = record { current = 0; registries = λ id. [] }

none_held : (names : List (List ℕ)) → AreAbsent names []
none_held [] = tt
none_held (name ∷ names) = (refl, none_held names)

set_registerers-succeed_example :
    (final : Registrations) × (set_registerers (0 ∷ 5 ∷ 0 ∷ []) registrations ≡ some final)
set_registerers-succeed_example =
    set_registerers-succeed (0 ∷ 5 ∷ 0 ∷ []) registrations (λ id apart. none_held metric_names)
