-- ===== src/Grpc.antt =====
-- internal/grpc/client.go: the client of the cloud's stream. Its goroutines (the receiver of
-- acknowledgements, the reconnecting loops, the timers of the rotation, and the callers of SendBatch
-- and Close) are a step relation over the state that they share. A connection and its stream are
-- numbered by the order in which they were dialed. What the network does, and when a timer fires, is
-- the environment's choice of steps. Logging and the time stamp of a batch are left out.
pub mod Steps
pub mod Loops
pub mod Stuck
pub mod Sending
pub mod Acks
pub mod Delays
pub mod Exclusion
use entropy_tdc_gateway.Common.{
  ℕ, ◌+◌, Bool, true, false, Option, none, some, List, [], ◌∷◌, ◌++◌, if◌then◌else◌, ◌==◌, is_empty,
  length,
}
use entropy_tdc_gateway.Common.Int.{ℤ, pos, leb_ℤ}
use entropy_tdc_gateway.Config.{CloudForwarder}
use entropy_tdc_gateway.Metrics.{Update}
use entropy_tdc_gateway.Metrics.Links.{
  set_grpc_connected, record_grpc_reconnect, record_grpc_error, record_cloud_ack,
  record_backpressure, record_missing_sequence,
}
use entropy_tdc_gateway.Backoff.{seconds_of}

-- `pb.TDCEvent` with all its fields; `pb.EntropyBatch` and `pb.Ack`, as far as the gateway fills or
-- reads them, without the time stamp of a batch.
pub record ProtoEvent : Type 0 where
  pub rpi_timestamp_us : ℕ
  pub tdc_timestamp_ps : ℕ
  pub channel : ℕ
  pub delta_ps : Option ℤ
  pub flags : Option ℕ
  pub whitened_entropy : List ℕ

pub record EntropyBatch : Type 0 where
  pub events : List ProtoEvent
  pub batch_sequence : ℕ

pub record Ack : Type 0 where
  pub success : Bool
  pub message : List ℕ
  pub missing_sequences : List ℕ
  pub backpressure : Bool

-- Where a receiver of acknowledgements is: at the check of the context, before it reads the stream
-- of the client, in `Recv` on a stream, after an error, and before it starts a loop.
pub data Receiver : Type 0 where
  looking reading failed reporting : Receiver
  receiving : ℕ → Receiver

-- Where a call of `reconnect` is: before the flag, at the check of the context, at the wait, before
-- the old connection is closed, before `Build`, before `StreamEntropy`, then after each of the
-- assignments of `connect`, and before the flag is put back.
pub data Loop : Type 0 where
  entering opened marked published leaving : Loop
  checking waiting closing dialing : ℤ → Loop
  streaming : ℤ → ℕ → Loop

-- The package gives the metrics no float64.
pub record Client : Type 0 where
  pub conn : Option ℕ
  pub stream : Option ℕ
  pub connected : Bool
  -- whether the context is cancelled
  pub cancelled : Bool
  pub reconnecting : Bool
  -- the goroutines; a timer that was stopped counts until it returns
  pub receivers : List Receiver
  pub loops : List Loop
  pub timers : ℕ
  -- the connections that are not closed, and how many were dialed
  pub open_conns : List ℕ
  pub dialed : ℕ
  -- the batches that a stream took, with the stream, and the calls of package metrics
  pub sent : List (ℕ × EntropyBatch)
  pub updates : List (Update Unit)

-- "send_failed" and "recv_failed"
abbrev pub send_failed : List ℕ
send_failed = 115 ∷ 101 ∷ 110 ∷ 100 ∷ 95 ∷ 102 ∷ 97 ∷ 105 ∷ 108 ∷ 101 ∷ 100 ∷ []

abbrev pub recv_failed : List ℕ
recv_failed = 114 ∷ 101 ∷ 99 ∷ 118 ∷ 95 ∷ 102 ∷ 97 ∷ 105 ∷ 108 ∷ 101 ∷ 100 ∷ []

abbrev pub tell : List (Update Unit) → Client → Client
tell us c = record c { updates = c.updates ++ us }

-- A nil acknowledgement is `none`.
unfoldable pub handle_ack : Option Ack → List (Update Unit)
handle_ack none = []
handle_ack (some ack) =
    record_cloud_ack ack.success ack.message
    ++ (if ack.backpressure then record_backpressure else [])
    ++ (if is_empty ack.missing_sequences
        then []
        else record_missing_sequence (pos (length ack.missing_sequences)))

-- `connect`: what the builder of the client is told, in order.
pub data BuilderCall : Type 0 where
  with_address : List ℕ → BuilderCall
  with_oauth2 : List ℕ → List ℕ → List ℕ → List ℕ → BuilderCall
  with_tls : List ℕ → List ℕ → List ℕ → List ℕ → BuilderCall
  with_insecure_credentials : BuilderCall

unfoldable pub builder_calls : CloudForwarder → List BuilderCall
builder_calls cfg =
    with_address cfg.server_addr
      ∷ (if cfg.oauth2_enabled
          then with_oauth2 cfg.oauth2_token_url cfg.oauth2_client_id cfg.oauth2_client_secret
              cfg.oauth2_scopes
            ∷ []
          else [])
    ++ (if cfg.tls_enabled
        then with_tls cfg.tls_ca_file cfg.tls_cert_file cfg.tls_key_file cfg.tls_server_name ∷ []
        else with_insecure_credentials ∷ [])

unfoldable pub initial_delay : CloudForwarder → ℤ
initial_delay cfg = seconds_of cfg.reconnect_delay

unfoldable pub max_delay : CloudForwarder → ℤ
max_delay cfg = seconds_of cfg.max_reconnect_sec

-- `resetRotationTimer` starts a goroutine where the interval is positive; the one before it is
-- stopped.
unfoldable pub reset_rotation_timer : CloudForwarder → Client → Client
reset_rotation_timer cfg c =
    if leb_ℤ cfg.stream_rotate_interval (pos 0) then c else record c { timers = c.timers + 1 }

abbrev pub remove : ℕ → List ℕ → List ℕ
remove id [] = []
remove id (x ∷ xs) = if x == id then remove id xs else x ∷ remove id xs

-- `c.conn.Close()`, where there is one.
unfoldable pub close_conn : Client → Client
close_conn c = elim c.conn [ none ↦ c | some id ↦ record c { open_conns = remove id c.open_conns } ]

-- `builder.Build` gives a connection.
unfoldable pub dial : Client → Client
dial c = record c {
  conn = some c.dialed;
  open_conns = c.dialed ∷ c.open_conns;
  dialed = c.dialed + 1;
}

-- The end of `connect`.
unfoldable pub start_receiver : CloudForwarder → Client → Client
start_receiver cfg c =
    reset_rotation_timer cfg (record c { receivers = c.receivers ++ looking ∷ [] })

pub data ClientError : Type 0 where
  disabled no_address dial_failed stream_failed : ClientError

pub data NewClient : Type 0 where
  made : Client → NewClient
  refused : ClientError → NewClient

-- `connect` of a client that nobody shares yet: the first connection has number 0.
unfoldable pub connected_client : CloudForwarder → Client
connected_client cfg = start_receiver cfg (record {
  conn = some 0;
  stream = some 0;
  connected = true;
  cancelled = false;
  reconnecting = false;
  receivers = [];
  loops = [];
  timers = 0;
  open_conns = 0 ∷ [];
  dialed = 1;
  sent = [];
  updates = set_grpc_connected true;
})

-- The network's answers are whether `Build` and `StreamEntropy` succeed.
unfoldable pub new_client : CloudForwarder → Bool → Bool → NewClient
new_client cfg builds streams =
    if cfg.enabled
    then if is_empty cfg.server_addr
      then refused no_address
      else if builds
      then if streams then made (connected_client cfg) else refused stream_failed
      else refused dial_failed
    else refused disabled

pub data SendError : Type 0 where
  not_connected send_batch_failed nil_stream : SendError

-- `SendBatch`, under the mutex; the answer of the network is whether `Send` succeeds. A call of `Send` on
-- no stream panics.
unfoldable pub send_batch : Bool → EntropyBatch → Client → Option SendError × Client
send_batch accepted batch c =
    if c.connected
    then elim c.stream [
      | none ↦ (some nil_stream, c)
      | some id ↦ if accepted then (none, record c { sent = c.sent ++ (id, batch) ∷ [] }) else (
        some send_batch_failed,
        record c {
          connected = false;
          updates = c.updates ++ (set_grpc_connected false ++ record_grpc_error send_failed);
          loops = c.loops ++ entering ∷ [];
        },
      )
    ]
    else (some not_connected, c)
