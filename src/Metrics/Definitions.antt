-- ===== src/Metrics/Definitions.antt =====
-- internal/metrics/prometheus.go: the metrics that the package makes, by kind, name and label. Help
-- texts and buckets are left out.
use entropy_tdc_gateway.Common.{ℕ, Option, none, some, List, [], ◌∷◌, ◌++◌}

pub data Kind : Type 0 where
  counter counter_vec gauge_kind histogram : Kind

pub record Definition : Type 0 where
  pub kind : Kind
  pub name : List ℕ
  pub label : Option (List ℕ)

-- "channel"
abbrev channel_label : Option (List ℕ)
channel_label = some (99 ∷ 104 ∷ 97 ∷ 110 ∷ 110 ∷ 101 ∷ 108 ∷ [])

-- "code"
abbrev code_label : Option (List ℕ)
code_label = some (99 ∷ 111 ∷ 100 ∷ 101 ∷ [])

-- "error_type"
abbrev error_type_label : Option (List ℕ)
error_type_label = some (101 ∷ 114 ∷ 114 ∷ 111 ∷ 114 ∷ 95 ∷ 116 ∷ 121 ∷ 112 ∷ 101 ∷ [])

-- "field"
abbrev field_label : Option (List ℕ)
field_label = some (102 ∷ 105 ∷ 101 ∷ 108 ∷ 100 ∷ [])

-- "format"
abbrev format_label : Option (List ℕ)
format_label = some (102 ∷ 111 ∷ 114 ∷ 109 ∷ 97 ∷ 116 ∷ [])

-- "reason"
abbrev reason_label : Option (List ℕ)
reason_label = some (114 ∷ 101 ∷ 97 ∷ 115 ∷ 111 ∷ 110 ∷ [])

-- "success"
abbrev success_label : Option (List ℕ)
success_label = some (115 ∷ 117 ∷ 99 ∷ 99 ∷ 101 ∷ 115 ∷ 115 ∷ [])

-- "test_type"
abbrev test_type_label : Option (List ℕ)
test_type_label = some (116 ∷ 101 ∷ 115 ∷ 116 ∷ 95 ∷ 116 ∷ 121 ∷ 112 ∷ 101 ∷ [])

abbrev define : Kind → Option (List ℕ) → List ℕ → Definition
define kind label name = record { kind = kind; name = name; label = label }

-- EventsReceived to BatchSize.
unfoldable pub event_definitions : List Definition
event_definitions =
    define counter_vec channel_label (
      116 ∷ 100 ∷ 99 ∷ 95 ∷ 101 ∷ 118 ∷ 101 ∷ 110 ∷ 116 ∷ 115 ∷ 95 ∷ 114 ∷ 101 ∷ 99 ∷ 101 ∷ 105
      ∷ 118 ∷ 101 ∷ 100 ∷ 95 ∷ 116 ∷ 111 ∷ 116 ∷ 97 ∷ 108 ∷ [])
    ∷ define counter none (
        116 ∷ 100 ∷ 99 ∷ 95 ∷ 101 ∷ 118 ∷ 101 ∷ 110 ∷ 116 ∷ 115 ∷ 95 ∷ 112 ∷ 114 ∷ 111 ∷ 99 ∷ 101
        ∷ 115 ∷ 115 ∷ 101 ∷ 100 ∷ 95 ∷ 116 ∷ 111 ∷ 116 ∷ 97 ∷ 108 ∷ [])
    ∷ define counter_vec reason_label (
        116 ∷ 100 ∷ 99 ∷ 95 ∷ 101 ∷ 118 ∷ 101 ∷ 110 ∷ 116 ∷ 115 ∷ 95 ∷ 100 ∷ 114 ∷ 111 ∷ 112 ∷ 112
        ∷ 101 ∷ 100 ∷ 95 ∷ 116 ∷ 111 ∷ 116 ∷ 97 ∷ 108 ∷ [])
    ∷ define counter_vec format_label (
        116 ∷ 100 ∷ 99 ∷ 95 ∷ 101 ∷ 118 ∷ 101 ∷ 110 ∷ 116 ∷ 95 ∷ 102 ∷ 111 ∷ 114 ∷ 109 ∷ 97 ∷ 116
        ∷ 95 ∷ 116 ∷ 121 ∷ 112 ∷ 101 ∷ 95 ∷ 116 ∷ 111 ∷ 116 ∷ 97 ∷ 108 ∷ [])
    ∷ define counter_vec channel_label (
        116 ∷ 100 ∷ 99 ∷ 95 ∷ 101 ∷ 118 ∷ 101 ∷ 110 ∷ 116 ∷ 115 ∷ 95 ∷ 112 ∷ 101 ∷ 114 ∷ 95 ∷ 99
        ∷ 104 ∷ 97 ∷ 110 ∷ 110 ∷ 101 ∷ 108 ∷ 95 ∷ 116 ∷ 111 ∷ 116 ∷ 97 ∷ 108 ∷ [])
    ∷ define counter_vec test_type_label (
        118 ∷ 97 ∷ 108 ∷ 105 ∷ 100 ∷ 97 ∷ 116 ∷ 105 ∷ 111 ∷ 110 ∷ 95 ∷ 102 ∷ 97 ∷ 105 ∷ 108 ∷ 117
        ∷ 114 ∷ 101 ∷ 115 ∷ 95 ∷ 116 ∷ 111 ∷ 116 ∷ 97 ∷ 108 ∷ [])
    ∷ define histogram none (
        118 ∷ 97 ∷ 108 ∷ 105 ∷ 100 ∷ 97 ∷ 116 ∷ 105 ∷ 111 ∷ 110 ∷ 95 ∷ 102 ∷ 114 ∷ 101 ∷ 113 ∷ 117
        ∷ 101 ∷ 110 ∷ 99 ∷ 121 ∷ 95 ∷ 114 ∷ 97 ∷ 116 ∷ 105 ∷ 111 ∷ [])
    ∷ define histogram none (
        118 ∷ 97 ∷ 108 ∷ 105 ∷ 100 ∷ 97 ∷ 116 ∷ 105 ∷ 111 ∷ 110 ∷ 95 ∷ 114 ∷ 117 ∷ 110 ∷ 115 ∷ 95
        ∷ 99 ∷ 111 ∷ 117 ∷ 110 ∷ 116 ∷ [])
    ∷ define counter none (
        98 ∷ 97 ∷ 116 ∷ 99 ∷ 104 ∷ 101 ∷ 115 ∷ 95 ∷ 99 ∷ 114 ∷ 101 ∷ 97 ∷ 116 ∷ 101 ∷ 100 ∷ 95 ∷ 116
        ∷ 111 ∷ 116 ∷ 97 ∷ 108 ∷ [])
    ∷ define counter none (
        98 ∷ 97 ∷ 116 ∷ 99 ∷ 104 ∷ 101 ∷ 115 ∷ 95 ∷ 115 ∷ 101 ∷ 110 ∷ 116 ∷ 95 ∷ 116 ∷ 111 ∷ 116
        ∷ 97 ∷ 108 ∷ [])
    ∷ define counter_vec reason_label (
        98 ∷ 97 ∷ 116 ∷ 99 ∷ 104 ∷ 101 ∷ 115 ∷ 95 ∷ 102 ∷ 97 ∷ 105 ∷ 108 ∷ 101 ∷ 100 ∷ 95 ∷ 116
        ∷ 111 ∷ 116 ∷ 97 ∷ 108 ∷ [])
    ∷ define histogram none (
        98 ∷ 97 ∷ 116 ∷ 99 ∷ 104 ∷ 95 ∷ 115 ∷ 105 ∷ 122 ∷ 101 ∷ 95 ∷ 101 ∷ 118 ∷ 101 ∷ 110 ∷ 116
        ∷ 115 ∷ [])
    ∷ []

-- BatchSendDuration to MQTTConnects.
unfoldable pub stream_definitions : List Definition
stream_definitions =
    define histogram none (
      98 ∷ 97 ∷ 116 ∷ 99 ∷ 104 ∷ 95 ∷ 115 ∷ 101 ∷ 110 ∷ 100 ∷ 95 ∷ 100 ∷ 117 ∷ 114 ∷ 97 ∷ 116 ∷ 105
      ∷ 111 ∷ 110 ∷ 95 ∷ 115 ∷ 101 ∷ 99 ∷ 111 ∷ 110 ∷ 100 ∷ 115 ∷ [])
    ∷ define counter none (
        119 ∷ 104 ∷ 105 ∷ 116 ∷ 101 ∷ 110 ∷ 105 ∷ 110 ∷ 103 ∷ 95 ∷ 105 ∷ 110 ∷ 112 ∷ 117 ∷ 116 ∷ 95
        ∷ 98 ∷ 121 ∷ 116 ∷ 101 ∷ 115 ∷ 95 ∷ 116 ∷ 111 ∷ 116 ∷ 97 ∷ 108 ∷ [])
    ∷ define counter none (
        119 ∷ 104 ∷ 105 ∷ 116 ∷ 101 ∷ 110 ∷ 105 ∷ 110 ∷ 103 ∷ 95 ∷ 111 ∷ 117 ∷ 116 ∷ 112 ∷ 117 ∷ 116
        ∷ 95 ∷ 98 ∷ 121 ∷ 116 ∷ 101 ∷ 115 ∷ 95 ∷ 116 ∷ 111 ∷ 116 ∷ 97 ∷ 108 ∷ [])
    ∷ define histogram none (
        119 ∷ 104 ∷ 105 ∷ 116 ∷ 101 ∷ 110 ∷ 105 ∷ 110 ∷ 103 ∷ 95 ∷ 99 ∷ 111 ∷ 109 ∷ 112 ∷ 114 ∷ 101
        ∷ 115 ∷ 115 ∷ 105 ∷ 111 ∷ 110 ∷ 95 ∷ 114 ∷ 97 ∷ 116 ∷ 105 ∷ 111 ∷ [])
    ∷ define counter none (
        101 ∷ 110 ∷ 116 ∷ 114 ∷ 111 ∷ 112 ∷ 121 ∷ 95 ∷ 101 ∷ 120 ∷ 116 ∷ 114 ∷ 97 ∷ 99 ∷ 116 ∷ 105
        ∷ 111 ∷ 110 ∷ 115 ∷ 95 ∷ 116 ∷ 111 ∷ 116 ∷ 97 ∷ 108 ∷ [])
    ∷ define counter none (
        101 ∷ 110 ∷ 116 ∷ 114 ∷ 111 ∷ 112 ∷ 121 ∷ 95 ∷ 101 ∷ 120 ∷ 116 ∷ 114 ∷ 97 ∷ 99 ∷ 116 ∷ 101
        ∷ 100 ∷ 95 ∷ 98 ∷ 121 ∷ 116 ∷ 101 ∷ 115 ∷ 95 ∷ 116 ∷ 111 ∷ 116 ∷ 97 ∷ 108 ∷ [])
    ∷ define gauge_kind none (
        101 ∷ 110 ∷ 116 ∷ 114 ∷ 111 ∷ 112 ∷ 121 ∷ 95 ∷ 112 ∷ 111 ∷ 111 ∷ 108 ∷ 95 ∷ 115 ∷ 105 ∷ 122
        ∷ 101 ∷ 95 ∷ 98 ∷ 121 ∷ 116 ∷ 101 ∷ 115 ∷ [])
    ∷ define gauge_kind none (
        103 ∷ 114 ∷ 112 ∷ 99 ∷ 95 ∷ 99 ∷ 111 ∷ 110 ∷ 110 ∷ 101 ∷ 99 ∷ 116 ∷ 105 ∷ 111 ∷ 110 ∷ 95
        ∷ 115 ∷ 116 ∷ 97 ∷ 116 ∷ 117 ∷ 115 ∷ [])
    ∷ define counter none (
        102 ∷ 111 ∷ 114 ∷ 119 ∷ 97 ∷ 114 ∷ 100 ∷ 101 ∷ 114 ∷ 95 ∷ 114 ∷ 101 ∷ 99 ∷ 111 ∷ 110 ∷ 110
        ∷ 101 ∷ 99 ∷ 116 ∷ 115 ∷ 95 ∷ 116 ∷ 111 ∷ 116 ∷ 97 ∷ 108 ∷ [])
    ∷ define counter_vec error_type_label (
        103 ∷ 114 ∷ 112 ∷ 99 ∷ 95 ∷ 115 ∷ 116 ∷ 114 ∷ 101 ∷ 97 ∷ 109 ∷ 95 ∷ 101 ∷ 114 ∷ 114 ∷ 111
        ∷ 114 ∷ 115 ∷ 95 ∷ 116 ∷ 111 ∷ 116 ∷ 97 ∷ 108 ∷ [])
    ∷ define gauge_kind none (
        109 ∷ 113 ∷ 116 ∷ 116 ∷ 95 ∷ 99 ∷ 111 ∷ 110 ∷ 110 ∷ 101 ∷ 99 ∷ 116 ∷ 105 ∷ 111 ∷ 110 ∷ 95
        ∷ 115 ∷ 116 ∷ 97 ∷ 116 ∷ 117 ∷ 115 ∷ [])
    ∷ define counter none (
        109 ∷ 113 ∷ 116 ∷ 116 ∷ 95 ∷ 114 ∷ 101 ∷ 99 ∷ 111 ∷ 110 ∷ 110 ∷ 101 ∷ 99 ∷ 116 ∷ 115 ∷ 95
        ∷ 116 ∷ 111 ∷ 116 ∷ 97 ∷ 108 ∷ [])
    ∷ define counter none (
        109 ∷ 113 ∷ 116 ∷ 116 ∷ 95 ∷ 99 ∷ 111 ∷ 110 ∷ 110 ∷ 101 ∷ 99 ∷ 116 ∷ 115 ∷ 95 ∷ 116 ∷ 111
        ∷ 116 ∷ 97 ∷ 108 ∷ [])
    ∷ []

-- MQTTDisconnects to EntropyHTTPRequests.
unfoldable pub collector_definitions : List Definition
collector_definitions =
    define counter none (
      109 ∷ 113 ∷ 116 ∷ 116 ∷ 95 ∷ 100 ∷ 105 ∷ 115 ∷ 99 ∷ 111 ∷ 110 ∷ 110 ∷ 101 ∷ 99 ∷ 116 ∷ 115
      ∷ 95 ∷ 116 ∷ 111 ∷ 116 ∷ 97 ∷ 108 ∷ [])
    ∷ define counter none (
        109 ∷ 113 ∷ 116 ∷ 116 ∷ 95 ∷ 105 ∷ 110 ∷ 95 ∷ 109 ∷ 115 ∷ 103 ∷ 115 ∷ 95 ∷ 116 ∷ 111 ∷ 116
        ∷ 97 ∷ 108 ∷ [])
    ∷ define gauge_kind none (
        99 ∷ 111 ∷ 108 ∷ 108 ∷ 101 ∷ 99 ∷ 116 ∷ 111 ∷ 114 ∷ 95 ∷ 112 ∷ 111 ∷ 111 ∷ 108 ∷ 95 ∷ 115
        ∷ 105 ∷ 122 ∷ 101 ∷ 95 ∷ 101 ∷ 118 ∷ 101 ∷ 110 ∷ 116 ∷ 115 ∷ [])
    ∷ define gauge_kind none (
        99 ∷ 111 ∷ 108 ∷ 108 ∷ 101 ∷ 99 ∷ 116 ∷ 111 ∷ 114 ∷ 95 ∷ 98 ∷ 97 ∷ 116 ∷ 99 ∷ 104 ∷ 95 ∷ 115
        ∷ 105 ∷ 122 ∷ 101 ∷ 95 ∷ 101 ∷ 118 ∷ 101 ∷ 110 ∷ 116 ∷ 115 ∷ [])
    ∷ define histogram none (
        99 ∷ 111 ∷ 108 ∷ 108 ∷ 101 ∷ 99 ∷ 116 ∷ 111 ∷ 114 ∷ 95 ∷ 102 ∷ 108 ∷ 117 ∷ 115 ∷ 104 ∷ 95
        ∷ 100 ∷ 117 ∷ 114 ∷ 97 ∷ 116 ∷ 105 ∷ 111 ∷ 110 ∷ 95 ∷ 115 ∷ 101 ∷ 99 ∷ 111 ∷ 110 ∷ 100 ∷ 115
        ∷ [])
    ∷ define counter none (
        99 ∷ 111 ∷ 110 ∷ 116 ∷ 105 ∷ 110 ∷ 117 ∷ 111 ∷ 117 ∷ 115 ∷ 95 ∷ 114 ∷ 99 ∷ 116 ∷ 95 ∷ 102
        ∷ 97 ∷ 105 ∷ 108 ∷ 117 ∷ 114 ∷ 101 ∷ 115 ∷ 95 ∷ 116 ∷ 111 ∷ 116 ∷ 97 ∷ 108 ∷ [])
    ∷ define counter none (
        99 ∷ 111 ∷ 110 ∷ 116 ∷ 105 ∷ 110 ∷ 117 ∷ 111 ∷ 117 ∷ 115 ∷ 95 ∷ 97 ∷ 112 ∷ 116 ∷ 95 ∷ 102
        ∷ 97 ∷ 105 ∷ 108 ∷ 117 ∷ 114 ∷ 101 ∷ 115 ∷ 95 ∷ 116 ∷ 111 ∷ 116 ∷ 97 ∷ 108 ∷ [])
    ∷ define histogram none (
        109 ∷ 105 ∷ 110 ∷ 95 ∷ 101 ∷ 110 ∷ 116 ∷ 114 ∷ 111 ∷ 112 ∷ 121 ∷ 95 ∷ 101 ∷ 115 ∷ 116 ∷ 105
        ∷ 109 ∷ 97 ∷ 116 ∷ 101 ∷ 95 ∷ 109 ∷ 99 ∷ 118 ∷ 95 ∷ 98 ∷ 105 ∷ 116 ∷ 115 ∷ 95 ∷ 112 ∷ 101
        ∷ 114 ∷ 95 ∷ 98 ∷ 121 ∷ 116 ∷ 101 ∷ [])
    ∷ define histogram none (
        109 ∷ 105 ∷ 110 ∷ 95 ∷ 101 ∷ 110 ∷ 116 ∷ 114 ∷ 111 ∷ 112 ∷ 121 ∷ 95 ∷ 101 ∷ 115 ∷ 116 ∷ 105
        ∷ 109 ∷ 97 ∷ 116 ∷ 101 ∷ 95 ∷ 99 ∷ 111 ∷ 108 ∷ 108 ∷ 105 ∷ 115 ∷ 105 ∷ 111 ∷ 110 ∷ 95 ∷ 98
        ∷ 105 ∷ 116 ∷ 115 ∷ 95 ∷ 112 ∷ 101 ∷ 114 ∷ 95 ∷ 98 ∷ 121 ∷ 116 ∷ 101 ∷ [])
    ∷ define histogram none (
        101 ∷ 118 ∷ 101 ∷ 110 ∷ 116 ∷ 95 ∷ 112 ∷ 114 ∷ 111 ∷ 99 ∷ 101 ∷ 115 ∷ 115 ∷ 105 ∷ 110 ∷ 103
        ∷ 95 ∷ 108 ∷ 97 ∷ 116 ∷ 101 ∷ 110 ∷ 99 ∷ 121 ∷ 95 ∷ 109 ∷ 105 ∷ 99 ∷ 114 ∷ 111 ∷ 115 ∷ 101
        ∷ 99 ∷ 111 ∷ 110 ∷ 100 ∷ 115 ∷ [])
    ∷ define counter none (
        99 ∷ 108 ∷ 111 ∷ 117 ∷ 100 ∷ 95 ∷ 97 ∷ 99 ∷ 107 ∷ 115 ∷ 95 ∷ 114 ∷ 101 ∷ 99 ∷ 101 ∷ 105
        ∷ 118 ∷ 101 ∷ 100 ∷ 95 ∷ 116 ∷ 111 ∷ 116 ∷ 97 ∷ 108 ∷ [])
    ∷ define counter_vec reason_label (
        99 ∷ 108 ∷ 111 ∷ 117 ∷ 100 ∷ 95 ∷ 110 ∷ 97 ∷ 99 ∷ 107 ∷ 115 ∷ 95 ∷ 114 ∷ 101 ∷ 99 ∷ 101
        ∷ 105 ∷ 118 ∷ 101 ∷ 100 ∷ 95 ∷ 116 ∷ 111 ∷ 116 ∷ 97 ∷ 108 ∷ [])
    ∷ define counter_vec code_label (
        101 ∷ 110 ∷ 116 ∷ 114 ∷ 111 ∷ 112 ∷ 121 ∷ 95 ∷ 104 ∷ 116 ∷ 116 ∷ 112 ∷ 95 ∷ 114 ∷ 101 ∷ 113
        ∷ 117 ∷ 101 ∷ 115 ∷ 116 ∷ 115 ∷ 95 ∷ 116 ∷ 111 ∷ 116 ∷ 97 ∷ 108 ∷ [])
    ∷ []

-- EntropyHTTP503Total to GRPCServerAcksReceived.
unfoldable pub cloud_definitions : List Definition
cloud_definitions =
    define counter none (
      101 ∷ 110 ∷ 116 ∷ 114 ∷ 111 ∷ 112 ∷ 121 ∷ 95 ∷ 104 ∷ 116 ∷ 116 ∷ 112 ∷ 95 ∷ 53 ∷ 48 ∷ 51 ∷ 95
      ∷ 116 ∷ 111 ∷ 116 ∷ 97 ∷ 108 ∷ [])
    ∷ define counter none (
        101 ∷ 110 ∷ 116 ∷ 114 ∷ 111 ∷ 112 ∷ 121 ∷ 95 ∷ 104 ∷ 116 ∷ 116 ∷ 112 ∷ 95 ∷ 114 ∷ 97 ∷ 116
        ∷ 101 ∷ 95 ∷ 108 ∷ 105 ∷ 109 ∷ 105 ∷ 116 ∷ 101 ∷ 100 ∷ 95 ∷ 116 ∷ 111 ∷ 116 ∷ 97 ∷ 108 ∷ [])
    ∷ define histogram none (
        101 ∷ 110 ∷ 116 ∷ 114 ∷ 111 ∷ 112 ∷ 121 ∷ 95 ∷ 104 ∷ 116 ∷ 116 ∷ 112 ∷ 95 ∷ 108 ∷ 97 ∷ 116
        ∷ 101 ∷ 110 ∷ 99 ∷ 121 ∷ 95 ∷ 115 ∷ 101 ∷ 99 ∷ 111 ∷ 110 ∷ 100 ∷ 115 ∷ [])
    ∷ define counter none (
        102 ∷ 111 ∷ 114 ∷ 119 ∷ 97 ∷ 114 ∷ 100 ∷ 101 ∷ 114 ∷ 95 ∷ 109 ∷ 105 ∷ 115 ∷ 115 ∷ 105 ∷ 110
        ∷ 103 ∷ 95 ∷ 115 ∷ 101 ∷ 113 ∷ 95 ∷ 116 ∷ 111 ∷ 116 ∷ 97 ∷ 108 ∷ [])
    ∷ define counter none (
        102 ∷ 111 ∷ 114 ∷ 119 ∷ 97 ∷ 114 ∷ 100 ∷ 101 ∷ 114 ∷ 95 ∷ 98 ∷ 97 ∷ 99 ∷ 107 ∷ 112 ∷ 114
        ∷ 101 ∷ 115 ∷ 115 ∷ 117 ∷ 114 ∷ 101 ∷ 95 ∷ 116 ∷ 111 ∷ 116 ∷ 97 ∷ 108 ∷ [])
    ∷ define counter_vec field_label (
        99 ∷ 111 ∷ 110 ∷ 116 ∷ 114 ∷ 111 ∷ 108 ∷ 95 ∷ 97 ∷ 112 ∷ 112 ∷ 108 ∷ 121 ∷ 95 ∷ 116 ∷ 111
        ∷ 116 ∷ 97 ∷ 108 ∷ [])
    ∷ define counter none (
        115 ∷ 105 ∷ 103 ∷ 110 ∷ 97 ∷ 116 ∷ 117 ∷ 114 ∷ 101 ∷ 95 ∷ 102 ∷ 97 ∷ 105 ∷ 108 ∷ 95 ∷ 116
        ∷ 111 ∷ 116 ∷ 97 ∷ 108 ∷ [])
    ∷ define gauge_kind none (
        103 ∷ 114 ∷ 112 ∷ 99 ∷ 95 ∷ 115 ∷ 101 ∷ 114 ∷ 118 ∷ 101 ∷ 114 ∷ 95 ∷ 99 ∷ 111 ∷ 110 ∷ 110
        ∷ 101 ∷ 99 ∷ 116 ∷ 101 ∷ 100 ∷ 95 ∷ 99 ∷ 108 ∷ 105 ∷ 101 ∷ 110 ∷ 116 ∷ 115 ∷ [])
    ∷ define counter none (
        103 ∷ 114 ∷ 112 ∷ 99 ∷ 95 ∷ 115 ∷ 101 ∷ 114 ∷ 118 ∷ 101 ∷ 114 ∷ 95 ∷ 98 ∷ 97 ∷ 116 ∷ 99
        ∷ 104 ∷ 101 ∷ 115 ∷ 95 ∷ 115 ∷ 101 ∷ 110 ∷ 116 ∷ 95 ∷ 116 ∷ 111 ∷ 116 ∷ 97 ∷ 108 ∷ [])
    ∷ define counter_vec reason_label (
        103 ∷ 114 ∷ 112 ∷ 99 ∷ 95 ∷ 115 ∷ 101 ∷ 114 ∷ 118 ∷ 101 ∷ 114 ∷ 95 ∷ 98 ∷ 97 ∷ 116 ∷ 99
        ∷ 104 ∷ 101 ∷ 115 ∷ 95 ∷ 100 ∷ 114 ∷ 111 ∷ 112 ∷ 112 ∷ 101 ∷ 100 ∷ 95 ∷ 116 ∷ 111 ∷ 116 ∷ 97
        ∷ 108 ∷ [])
    ∷ define counter_vec success_label (
        103 ∷ 114 ∷ 112 ∷ 99 ∷ 95 ∷ 115 ∷ 101 ∷ 114 ∷ 118 ∷ 101 ∷ 114 ∷ 95 ∷ 97 ∷ 99 ∷ 107 ∷ 115
        ∷ 95 ∷ 114 ∷ 101 ∷ 99 ∷ 101 ∷ 105 ∷ 118 ∷ 101 ∷ 100 ∷ 95 ∷ 116 ∷ 111 ∷ 116 ∷ 97 ∷ 108 ∷ [])
    ∷ []

unfoldable pub definitions : List Definition
definitions =
    (event_definitions ++ (stream_definitions ++ (collector_definitions ++ cloud_definitions)))
