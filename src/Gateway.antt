-- ===== src/Gateway.antt =====
-- cmd/entropy-tdc-gateway/main.go: the conversion of events for the cloud, the modes of client
-- certificates and the check of the entropy address; the forwarder, the connecting loops and the
-- life of the process stand in the modules below.
pub mod Events
pub mod Address
pub mod Forwarding
pub mod Feeding
pub mod Service
pub mod Running
pub mod Lifecycle
pub mod Connecting
pub mod Retries
pub mod Outcomes
use entropy_tdc_gateway.Common.{
  ℕ, Bool, true, false, Option, none, some, List, [], ◌∷◌, ◌++◌, if◌then◌else◌, ◌==◌, length, map,
}
use entropy_tdc_gateway.Common.Bytes.{little_endian}
use entropy_tdc_gateway.Common.Text.{same_text}
use entropy_tdc_gateway.Metrics.{Update}
use entropy_tdc_gateway.Metrics.Pipeline.{record_event_dropped}
use entropy_tdc_gateway.Mqtt.{TdcEvent}
use entropy_tdc_gateway.Entropy.Whitening.{dual_stage_whitening}
use entropy_tdc_gateway.Entropy.HttpServer.{Net, localhost}
use entropy_tdc_gateway.Grpc.{ProtoEvent, EntropyBatch}

-- "invalid_whitened_entropy"
abbrev pub invalid_whitened_entropy : List ℕ
invalid_whitened_entropy =
    105 ∷ 110 ∷ 118 ∷ 97 ∷ 108 ∷ 105 ∷ 100 ∷ 95 ∷ 119 ∷ 104 ∷ 105 ∷ 116 ∷ 101 ∷ 110 ∷ 101 ∷ 100 ∷ 95
    ∷ 101 ∷ 110 ∷ 116 ∷ 114 ∷ 111 ∷ 112 ∷ 121 ∷ []

module _ (sum256 : List ℕ → List ℕ) where
  unfoldable pub whiten_event : TdcEvent → List ℕ
  whiten_event evt = dual_stage_whitening sum256 (little_endian 8 evt.tdc_timestamp_ps)

  -- A whitened value that does not have 32 bytes is left out.
  unfoldable pub to_proto_event : TdcEvent → ProtoEvent
  to_proto_event evt = record {
    rpi_timestamp_us = evt.rpi_timestamp_us;
    tdc_timestamp_ps = evt.tdc_timestamp_ps;
    channel = evt.channel;
    delta_ps = none;
    flags = none;
    whitened_entropy = if length (whiten_event evt) == 32 then whiten_event evt else [];
  }

  -- The calls of package metrics that the conversion makes.
  unfoldable pub conversion_updates : {F : Type 0} → TdcEvent → List (Update F)
  conversion_updates evt =
      if length (whiten_event evt) == 32 then [] else record_event_dropped invalid_whitened_entropy

  unfoldable pub to_proto_events : List TdcEvent → List ProtoEvent
  to_proto_events events = map to_proto_event events

-- `tls.ClientAuthType`, as far as it is used.
pub data ClientAuthType : Type 0 where
  require_and_verify_client_cert request_client_cert no_client_cert : ClientAuthType

-- "require" and "request"
abbrev pub require : List ℕ
require = 114 ∷ 101 ∷ 113 ∷ 117 ∷ 105 ∷ 114 ∷ 101 ∷ []

abbrev pub request : List ℕ
request = 114 ∷ 101 ∷ 113 ∷ 117 ∷ 101 ∷ 115 ∷ 116 ∷ []

unfoldable pub parse_client_auth : List ℕ → ClientAuthType
parse_client_auth mode =
    if same_text mode require
    then require_and_verify_client_cert
    else if same_text mode request
    then request_client_cert
    else no_client_cert

pub data EntropyAddrError : Type 0 where
  invalid_addr not_loopback_host not_loopback_ip : EntropyAddrError

-- No error is `none`.
unfoldable pub validate_entropy_addr : Net → List ℕ → Bool → Option EntropyAddrError
validate_entropy_addr net addr allow_public = elim (net.split_host_port addr) [
  | none ↦ some invalid_addr
  | some (host, port) ↦ elim (net.parse_ip host) [
    | none ↦
        if same_text host localhost
        then none
        else if allow_public
        then none
        else some not_loopback_host
    | some ip ↦
        if net.is_loopback ip then none else if allow_public then none else some not_loopback_ip
  ]
]
