-- ===== src/Mqtt.antt =====
-- internal/mqtt/handler.go: the event that a message decodes to, and the handler of messages as the
-- list of what it tells the metrics and the collector. Topics and payloads are lists of code
-- points. Logging and the latency histogram are left out.
pub mod Topics
pub mod Messages
pub mod Client
pub mod Session
pub mod Identity
pub mod Subscriptions
pub mod Sessions
use entropy_tdc_gateway.Common.{
  ℕ, Bool, true, false, Option, none, some, List, [], ◌∷◌, ◌≡◌, if◌then◌else◌, ◌==◌, leb,
}
use entropy_tdc_gateway.Common.Int.{ℤ, pos, negsuc, leb_ℤ, pos_part}
use entropy_tdc_gateway.Common.Text.{trim_space, to_lower, has_suffix, split_at, last, parse_uint}

-- `TDCEvent`; the widths of its integers are 64, 32, 64, 64 and 32 bits.
pub record TdcEvent : Type 0 where
  pub rpi_timestamp_us : ℕ
  pub channel : ℕ
  pub tdc_timestamp_ps : ℕ
  pub delta_ps : Option ℤ
  pub flags : Option ℕ

pub data DropLabel : Type 0 where
  parse_error invalid_timestamp : DropLabel

-- The calls that a message causes, in order: those of package metrics, and those of the collector.
pub data Effect : Type 0 where
  record_mqtt_message : Effect
  record_event_dropped : DropLabel → Effect
  record_event : ℕ → Effect
  record_format_type : Effect
  record_channel_event : ℕ → Effect
  increment_dropped : ℕ → Effect
  collector_add : TdcEvent → Effect

abbrev pub slash : ℕ
slash = 47

-- "/meta"
abbrev pub meta_suffix : List ℕ
meta_suffix = 47 ∷ 109 ∷ 101 ∷ 116 ∷ 97 ∷ []

unfoldable pub is_meta_topic : List ℕ → Bool
is_meta_topic topic = has_suffix (to_lower (trim_space topic)) meta_suffix

-- `strings.Split` gives at least one part.
unfoldable pub extract_channel_from_topic : List ℕ → ℕ
extract_channel_from_topic topic =
    let parts = split_at slash topic in
    elim (parse_uint 32 (last parts.0 parts.1)) [ some ch ↦ ch | none ↦ 0 ]

-- `now` is what `timeNowMicros` returns, an int64.
unfoldable pub now_micros_safe : ℤ → ℕ
now_micros_safe now = if leb_ℤ now (pos 0) then 0 else pos_part now

unfoldable pub parse_raw_timestamp : ℤ → List ℕ → List ℕ → Option TdcEvent
parse_raw_timestamp now topic payload = elim (parse_uint 64 (trim_space payload)) [
  | none ↦ none
  | some timestamp ↦ some (record {
    rpi_timestamp_us = now_micros_safe now;
    channel = extract_channel_from_topic topic;
    tdc_timestamp_ps = timestamp;
    delta_ps = none;
    flags = none;
  })
]

-- A dropped message: the handler's collector may be nil.
unfoldable pub drop_message : Bool → DropLabel → List Effect
drop_message has_collector label =
    record_event_dropped label ∷ (if has_collector then increment_dropped 1 ∷ [] else [])

unfoldable pub accept : Bool → TdcEvent → List Effect
accept has_collector event =
    record_event event.channel
    ∷ record_format_type
    ∷ record_channel_event event.channel
    ∷ (if has_collector then collector_add event ∷ [] else [])

unfoldable pub on_message : Bool → ℤ → List ℕ → List ℕ → List Effect
on_message has_collector now topic payload =
    record_mqtt_message
    ∷ (if is_meta_topic topic then [] else elim (parse_raw_timestamp now topic payload) [
      | none ↦ drop_message has_collector parse_error
      | some event ↦
          if event.tdc_timestamp_ps == 0
          then drop_message has_collector invalid_timestamp
          else accept has_collector event
    ])
