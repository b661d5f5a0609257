-- ===== src/Metrics/Unregistered.antt =====
-- internal/metrics/prometheus.go: the metrics that `unregisterAll` takes out of a registry, one by
-- one. A metric is told by its name; each is set by the time of the call, so that no check for nil
-- stops its removal.
use entropy_tdc_gateway.Common.{ℕ, List, [], ◌∷◌, ◌++◌}

-- EventsReceived to BatchSendDuration.
unfoldable pub unregistered_events : List (List ℕ)
unregistered_events =
    (116 ∷ 100 ∷ 99 ∷ 95 ∷ 101 ∷ 118 ∷ 101 ∷ 110 ∷ 116 ∷ 115 ∷ 95 ∷ 114 ∷ 101 ∷ 99 ∷ 101 ∷ 105 ∷ 118
      ∷ 101 ∷ 100 ∷ 95 ∷ 116 ∷ 111 ∷ 116 ∷ 97 ∷ 108 ∷ [])
    ∷ (116 ∷ 100 ∷ 99 ∷ 95 ∷ 101 ∷ 118 ∷ 101 ∷ 110 ∷ 116 ∷ 115 ∷ 95 ∷ 112 ∷ 114 ∷ 111 ∷ 99 ∷ 101
        ∷ 115 ∷ 115 ∷ 101 ∷ 100 ∷ 95 ∷ 116 ∷ 111 ∷ 116 ∷ 97 ∷ 108 ∷ [])
    ∷ (116 ∷ 100 ∷ 99 ∷ 95 ∷ 101 ∷ 118 ∷ 101 ∷ 110 ∷ 116 ∷ 115 ∷ 95 ∷ 100 ∷ 114 ∷ 111 ∷ 112 ∷ 112
        ∷ 101 ∷ 100 ∷ 95 ∷ 116 ∷ 111 ∷ 116 ∷ 97 ∷ 108 ∷ [])
    ∷ (116 ∷ 100 ∷ 99 ∷ 95 ∷ 101 ∷ 118 ∷ 101 ∷ 110 ∷ 116 ∷ 95 ∷ 102 ∷ 111 ∷ 114 ∷ 109 ∷ 97 ∷ 116
        ∷ 95 ∷ 116 ∷ 121 ∷ 112 ∷ 101 ∷ 95 ∷ 116 ∷ 111 ∷ 116 ∷ 97 ∷ 108 ∷ [])
    ∷ (116 ∷ 100 ∷ 99 ∷ 95 ∷ 101 ∷ 118 ∷ 101 ∷ 110 ∷ 116 ∷ 115 ∷ 95 ∷ 112 ∷ 101 ∷ 114 ∷ 95 ∷ 99
        ∷ 104 ∷ 97 ∷ 110 ∷ 110 ∷ 101 ∷ 108 ∷ 95 ∷ 116 ∷ 111 ∷ 116 ∷ 97 ∷ 108 ∷ [])
    ∷ (118 ∷ 97 ∷ 108 ∷ 105 ∷ 100 ∷ 97 ∷ 116 ∷ 105 ∷ 111 ∷ 110 ∷ 95 ∷ 102 ∷ 97 ∷ 105 ∷ 108 ∷ 117
        ∷ 114 ∷ 101 ∷ 115 ∷ 95 ∷ 116 ∷ 111 ∷ 116 ∷ 97 ∷ 108 ∷ [])
    ∷ (118 ∷ 97 ∷ 108 ∷ 105 ∷ 100 ∷ 97 ∷ 116 ∷ 105 ∷ 111 ∷ 110 ∷ 95 ∷ 102 ∷ 114 ∷ 101 ∷ 113 ∷ 117
        ∷ 101 ∷ 110 ∷ 99 ∷ 121 ∷ 95 ∷ 114 ∷ 97 ∷ 116 ∷ 105 ∷ 111 ∷ [])
    ∷ (118 ∷ 97 ∷ 108 ∷ 105 ∷ 100 ∷ 97 ∷ 116 ∷ 105 ∷ 111 ∷ 110 ∷ 95 ∷ 114 ∷ 117 ∷ 110 ∷ 115 ∷ 95
        ∷ 99 ∷ 111 ∷ 117 ∷ 110 ∷ 116 ∷ [])
    ∷ (98 ∷ 97 ∷ 116 ∷ 99 ∷ 104 ∷ 101 ∷ 115 ∷ 95 ∷ 99 ∷ 114 ∷ 101 ∷ 97 ∷ 116 ∷ 101 ∷ 100 ∷ 95 ∷ 116
        ∷ 111 ∷ 116 ∷ 97 ∷ 108 ∷ [])
    ∷ (98 ∷ 97 ∷ 116 ∷ 99 ∷ 104 ∷ 101 ∷ 115 ∷ 95 ∷ 115 ∷ 101 ∷ 110 ∷ 116 ∷ 95 ∷ 116 ∷ 111 ∷ 116 ∷ 97
        ∷ 108 ∷ [])
    ∷ (98 ∷ 97 ∷ 116 ∷ 99 ∷ 104 ∷ 101 ∷ 115 ∷ 95 ∷ 102 ∷ 97 ∷ 105 ∷ 108 ∷ 101 ∷ 100 ∷ 95 ∷ 116 ∷ 111
        ∷ 116 ∷ 97 ∷ 108 ∷ [])
    ∷ (98 ∷ 97 ∷ 116 ∷ 99 ∷ 104 ∷ 95 ∷ 115 ∷ 105 ∷ 122 ∷ 101 ∷ 95 ∷ 101 ∷ 118 ∷ 101 ∷ 110 ∷ 116
        ∷ 115 ∷ [])
    ∷ (98 ∷ 97 ∷ 116 ∷ 99 ∷ 104 ∷ 95 ∷ 115 ∷ 101 ∷ 110 ∷ 100 ∷ 95 ∷ 100 ∷ 117 ∷ 114 ∷ 97 ∷ 116 ∷ 105
        ∷ 111 ∷ 110 ∷ 95 ∷ 115 ∷ 101 ∷ 99 ∷ 111 ∷ 110 ∷ 100 ∷ 115 ∷ [])
    ∷ []

-- WhiteningInputBytes to CollectorFlushDuration.
unfoldable pub unregistered_entropy : List (List ℕ)
unregistered_entropy =
    (119 ∷ 104 ∷ 105 ∷ 116 ∷ 101 ∷ 110 ∷ 105 ∷ 110 ∷ 103 ∷ 95 ∷ 105 ∷ 110 ∷ 112 ∷ 117 ∷ 116 ∷ 95
      ∷ 98 ∷ 121 ∷ 116 ∷ 101 ∷ 115 ∷ 95 ∷ 116 ∷ 111 ∷ 116 ∷ 97 ∷ 108 ∷ [])
    ∷ (119 ∷ 104 ∷ 105 ∷ 116 ∷ 101 ∷ 110 ∷ 105 ∷ 110 ∷ 103 ∷ 95 ∷ 111 ∷ 117 ∷ 116 ∷ 112 ∷ 117 ∷ 116
        ∷ 95 ∷ 98 ∷ 121 ∷ 116 ∷ 101 ∷ 115 ∷ 95 ∷ 116 ∷ 111 ∷ 116 ∷ 97 ∷ 108 ∷ [])
    ∷ (119 ∷ 104 ∷ 105 ∷ 116 ∷ 101 ∷ 110 ∷ 105 ∷ 110 ∷ 103 ∷ 95 ∷ 99 ∷ 111 ∷ 109 ∷ 112 ∷ 114 ∷ 101
        ∷ 115 ∷ 115 ∷ 105 ∷ 111 ∷ 110 ∷ 95 ∷ 114 ∷ 97 ∷ 116 ∷ 105 ∷ 111 ∷ [])
    ∷ (101 ∷ 110 ∷ 116 ∷ 114 ∷ 111 ∷ 112 ∷ 121 ∷ 95 ∷ 101 ∷ 120 ∷ 116 ∷ 114 ∷ 97 ∷ 99 ∷ 116 ∷ 105
        ∷ 111 ∷ 110 ∷ 115 ∷ 95 ∷ 116 ∷ 111 ∷ 116 ∷ 97 ∷ 108 ∷ [])
    ∷ (101 ∷ 110 ∷ 116 ∷ 114 ∷ 111 ∷ 112 ∷ 121 ∷ 95 ∷ 101 ∷ 120 ∷ 116 ∷ 114 ∷ 97 ∷ 99 ∷ 116 ∷ 101
        ∷ 100 ∷ 95 ∷ 98 ∷ 121 ∷ 116 ∷ 101 ∷ 115 ∷ 95 ∷ 116 ∷ 111 ∷ 116 ∷ 97 ∷ 108 ∷ [])
    ∷ (101 ∷ 110 ∷ 116 ∷ 114 ∷ 111 ∷ 112 ∷ 121 ∷ 95 ∷ 112 ∷ 111 ∷ 111 ∷ 108 ∷ 95 ∷ 115 ∷ 105 ∷ 122
        ∷ 101 ∷ 95 ∷ 98 ∷ 121 ∷ 116 ∷ 101 ∷ 115 ∷ [])
    ∷ (103 ∷ 114 ∷ 112 ∷ 99 ∷ 95 ∷ 99 ∷ 111 ∷ 110 ∷ 110 ∷ 101 ∷ 99 ∷ 116 ∷ 105 ∷ 111 ∷ 110 ∷ 95
        ∷ 115 ∷ 116 ∷ 97 ∷ 116 ∷ 117 ∷ 115 ∷ [])
    ∷ (102 ∷ 111 ∷ 114 ∷ 119 ∷ 97 ∷ 114 ∷ 100 ∷ 101 ∷ 114 ∷ 95 ∷ 114 ∷ 101 ∷ 99 ∷ 111 ∷ 110 ∷ 110
        ∷ 101 ∷ 99 ∷ 116 ∷ 115 ∷ 95 ∷ 116 ∷ 111 ∷ 116 ∷ 97 ∷ 108 ∷ [])
    ∷ (103 ∷ 114 ∷ 112 ∷ 99 ∷ 95 ∷ 115 ∷ 116 ∷ 114 ∷ 101 ∷ 97 ∷ 109 ∷ 95 ∷ 101 ∷ 114 ∷ 114 ∷ 111
        ∷ 114 ∷ 115 ∷ 95 ∷ 116 ∷ 111 ∷ 116 ∷ 97 ∷ 108 ∷ [])
    ∷ (109 ∷ 113 ∷ 116 ∷ 116 ∷ 95 ∷ 99 ∷ 111 ∷ 110 ∷ 110 ∷ 101 ∷ 99 ∷ 116 ∷ 105 ∷ 111 ∷ 110 ∷ 95
        ∷ 115 ∷ 116 ∷ 97 ∷ 116 ∷ 117 ∷ 115 ∷ [])
    ∷ (109 ∷ 113 ∷ 116 ∷ 116 ∷ 95 ∷ 114 ∷ 101 ∷ 99 ∷ 111 ∷ 110 ∷ 110 ∷ 101 ∷ 99 ∷ 116 ∷ 115 ∷ 95
        ∷ 116 ∷ 111 ∷ 116 ∷ 97 ∷ 108 ∷ [])
    ∷ (109 ∷ 113 ∷ 116 ∷ 116 ∷ 95 ∷ 99 ∷ 111 ∷ 110 ∷ 110 ∷ 101 ∷ 99 ∷ 116 ∷ 115 ∷ 95 ∷ 116 ∷ 111
        ∷ 116 ∷ 97 ∷ 108 ∷ [])
    ∷ (109 ∷ 113 ∷ 116 ∷ 116 ∷ 95 ∷ 100 ∷ 105 ∷ 115 ∷ 99 ∷ 111 ∷ 110 ∷ 110 ∷ 101 ∷ 99 ∷ 116 ∷ 115
        ∷ 95 ∷ 116 ∷ 111 ∷ 116 ∷ 97 ∷ 108 ∷ [])
    ∷ (109 ∷ 113 ∷ 116 ∷ 116 ∷ 95 ∷ 105 ∷ 110 ∷ 95 ∷ 109 ∷ 115 ∷ 103 ∷ 115 ∷ 95 ∷ 116 ∷ 111 ∷ 116
        ∷ 97 ∷ 108 ∷ [])
    ∷ (99 ∷ 111 ∷ 108 ∷ 108 ∷ 101 ∷ 99 ∷ 116 ∷ 111 ∷ 114 ∷ 95 ∷ 112 ∷ 111 ∷ 111 ∷ 108 ∷ 95 ∷ 115
        ∷ 105 ∷ 122 ∷ 101 ∷ 95 ∷ 101 ∷ 118 ∷ 101 ∷ 110 ∷ 116 ∷ 115 ∷ [])
    ∷ (99 ∷ 111 ∷ 108 ∷ 108 ∷ 101 ∷ 99 ∷ 116 ∷ 111 ∷ 114 ∷ 95 ∷ 98 ∷ 97 ∷ 116 ∷ 99 ∷ 104 ∷ 95 ∷ 115
        ∷ 105 ∷ 122 ∷ 101 ∷ 95 ∷ 101 ∷ 118 ∷ 101 ∷ 110 ∷ 116 ∷ 115 ∷ [])
    ∷ (99 ∷ 111 ∷ 108 ∷ 108 ∷ 101 ∷ 99 ∷ 116 ∷ 111 ∷ 114 ∷ 95 ∷ 102 ∷ 108 ∷ 117 ∷ 115 ∷ 104 ∷ 95
        ∷ 100 ∷ 117 ∷ 114 ∷ 97 ∷ 116 ∷ 105 ∷ 111 ∷ 110 ∷ 95 ∷ 115 ∷ 101 ∷ 99 ∷ 111 ∷ 110 ∷ 100 ∷ 115
        ∷ [])
    ∷ []

-- ContinuousRCTFailures to EntropyHTTPLatency.
unfoldable pub unregistered_checks : List (List ℕ)
unregistered_checks =
    (99 ∷ 111 ∷ 110 ∷ 116 ∷ 105 ∷ 110 ∷ 117 ∷ 111 ∷ 117 ∷ 115 ∷ 95 ∷ 114 ∷ 99 ∷ 116 ∷ 95 ∷ 102 ∷ 97
      ∷ 105 ∷ 108 ∷ 117 ∷ 114 ∷ 101 ∷ 115 ∷ 95 ∷ 116 ∷ 111 ∷ 116 ∷ 97 ∷ 108 ∷ [])
    ∷ (99 ∷ 111 ∷ 110 ∷ 116 ∷ 105 ∷ 110 ∷ 117 ∷ 111 ∷ 117 ∷ 115 ∷ 95 ∷ 97 ∷ 112 ∷ 116 ∷ 95 ∷ 102
        ∷ 97 ∷ 105 ∷ 108 ∷ 117 ∷ 114 ∷ 101 ∷ 115 ∷ 95 ∷ 116 ∷ 111 ∷ 116 ∷ 97 ∷ 108 ∷ [])
    ∷ (109 ∷ 105 ∷ 110 ∷ 95 ∷ 101 ∷ 110 ∷ 116 ∷ 114 ∷ 111 ∷ 112 ∷ 121 ∷ 95 ∷ 101 ∷ 115 ∷ 116 ∷ 105
        ∷ 109 ∷ 97 ∷ 116 ∷ 101 ∷ 95 ∷ 109 ∷ 99 ∷ 118 ∷ 95 ∷ 98 ∷ 105 ∷ 116 ∷ 115 ∷ 95 ∷ 112 ∷ 101
        ∷ 114 ∷ 95 ∷ 98 ∷ 121 ∷ 116 ∷ 101 ∷ [])
    ∷ (109 ∷ 105 ∷ 110 ∷ 95 ∷ 101 ∷ 110 ∷ 116 ∷ 114 ∷ 111 ∷ 112 ∷ 121 ∷ 95 ∷ 101 ∷ 115 ∷ 116 ∷ 105
        ∷ 109 ∷ 97 ∷ 116 ∷ 101 ∷ 95 ∷ 99 ∷ 111 ∷ 108 ∷ 108 ∷ 105 ∷ 115 ∷ 105 ∷ 111 ∷ 110 ∷ 95 ∷ 98
        ∷ 105 ∷ 116 ∷ 115 ∷ 95 ∷ 112 ∷ 101 ∷ 114 ∷ 95 ∷ 98 ∷ 121 ∷ 116 ∷ 101 ∷ [])
    ∷ (101 ∷ 118 ∷ 101 ∷ 110 ∷ 116 ∷ 95 ∷ 112 ∷ 114 ∷ 111 ∷ 99 ∷ 101 ∷ 115 ∷ 115 ∷ 105 ∷ 110 ∷ 103
        ∷ 95 ∷ 108 ∷ 97 ∷ 116 ∷ 101 ∷ 110 ∷ 99 ∷ 121 ∷ 95 ∷ 109 ∷ 105 ∷ 99 ∷ 114 ∷ 111 ∷ 115 ∷ 101
        ∷ 99 ∷ 111 ∷ 110 ∷ 100 ∷ 115 ∷ [])
    ∷ (99 ∷ 108 ∷ 111 ∷ 117 ∷ 100 ∷ 95 ∷ 97 ∷ 99 ∷ 107 ∷ 115 ∷ 95 ∷ 114 ∷ 101 ∷ 99 ∷ 101 ∷ 105 ∷ 118
        ∷ 101 ∷ 100 ∷ 95 ∷ 116 ∷ 111 ∷ 116 ∷ 97 ∷ 108 ∷ [])
    ∷ (99 ∷ 108 ∷ 111 ∷ 117 ∷ 100 ∷ 95 ∷ 110 ∷ 97 ∷ 99 ∷ 107 ∷ 115 ∷ 95 ∷ 114 ∷ 101 ∷ 99 ∷ 101 ∷ 105
        ∷ 118 ∷ 101 ∷ 100 ∷ 95 ∷ 116 ∷ 111 ∷ 116 ∷ 97 ∷ 108 ∷ [])
    ∷ (101 ∷ 110 ∷ 116 ∷ 114 ∷ 111 ∷ 112 ∷ 121 ∷ 95 ∷ 104 ∷ 116 ∷ 116 ∷ 112 ∷ 95 ∷ 114 ∷ 101 ∷ 113
        ∷ 117 ∷ 101 ∷ 115 ∷ 116 ∷ 115 ∷ 95 ∷ 116 ∷ 111 ∷ 116 ∷ 97 ∷ 108 ∷ [])
    ∷ (101 ∷ 110 ∷ 116 ∷ 114 ∷ 111 ∷ 112 ∷ 121 ∷ 95 ∷ 104 ∷ 116 ∷ 116 ∷ 112 ∷ 95 ∷ 53 ∷ 48 ∷ 51 ∷ 95
        ∷ 116 ∷ 111 ∷ 116 ∷ 97 ∷ 108 ∷ [])
    ∷ (101 ∷ 110 ∷ 116 ∷ 114 ∷ 111 ∷ 112 ∷ 121 ∷ 95 ∷ 104 ∷ 116 ∷ 116 ∷ 112 ∷ 95 ∷ 114 ∷ 97 ∷ 116
        ∷ 101 ∷ 95 ∷ 108 ∷ 105 ∷ 109 ∷ 105 ∷ 116 ∷ 101 ∷ 100 ∷ 95 ∷ 116 ∷ 111 ∷ 116 ∷ 97 ∷ 108 ∷ [])
    ∷ (101 ∷ 110 ∷ 116 ∷ 114 ∷ 111 ∷ 112 ∷ 121 ∷ 95 ∷ 104 ∷ 116 ∷ 116 ∷ 112 ∷ 95 ∷ 108 ∷ 97 ∷ 116
        ∷ 101 ∷ 110 ∷ 99 ∷ 121 ∷ 95 ∷ 115 ∷ 101 ∷ 99 ∷ 111 ∷ 110 ∷ 100 ∷ 115 ∷ [])
    ∷ []

-- ForwarderMissingSeqTotal to GRPCServerAcksReceived.
unfoldable pub unregistered_servers : List (List ℕ)
unregistered_servers =
    (102 ∷ 111 ∷ 114 ∷ 119 ∷ 97 ∷ 114 ∷ 100 ∷ 101 ∷ 114 ∷ 95 ∷ 109 ∷ 105 ∷ 115 ∷ 115 ∷ 105 ∷ 110
      ∷ 103 ∷ 95 ∷ 115 ∷ 101 ∷ 113 ∷ 95 ∷ 116 ∷ 111 ∷ 116 ∷ 97 ∷ 108 ∷ [])
    ∷ (102 ∷ 111 ∷ 114 ∷ 119 ∷ 97 ∷ 114 ∷ 100 ∷ 101 ∷ 114 ∷ 95 ∷ 98 ∷ 97 ∷ 99 ∷ 107 ∷ 112 ∷ 114
        ∷ 101 ∷ 115 ∷ 115 ∷ 117 ∷ 114 ∷ 101 ∷ 95 ∷ 116 ∷ 111 ∷ 116 ∷ 97 ∷ 108 ∷ [])
    ∷ (99 ∷ 111 ∷ 110 ∷ 116 ∷ 114 ∷ 111 ∷ 108 ∷ 95 ∷ 97 ∷ 112 ∷ 112 ∷ 108 ∷ 121 ∷ 95 ∷ 116 ∷ 111
        ∷ 116 ∷ 97 ∷ 108 ∷ [])
    ∷ (115 ∷ 105 ∷ 103 ∷ 110 ∷ 97 ∷ 116 ∷ 117 ∷ 114 ∷ 101 ∷ 95 ∷ 102 ∷ 97 ∷ 105 ∷ 108 ∷ 95 ∷ 116
        ∷ 111 ∷ 116 ∷ 97 ∷ 108 ∷ [])
    ∷ (103 ∷ 114 ∷ 112 ∷ 99 ∷ 95 ∷ 115 ∷ 101 ∷ 114 ∷ 118 ∷ 101 ∷ 114 ∷ 95 ∷ 99 ∷ 111 ∷ 110 ∷ 110
        ∷ 101 ∷ 99 ∷ 116 ∷ 101 ∷ 100 ∷ 95 ∷ 99 ∷ 108 ∷ 105 ∷ 101 ∷ 110 ∷ 116 ∷ 115 ∷ [])
    ∷ (103 ∷ 114 ∷ 112 ∷ 99 ∷ 95 ∷ 115 ∷ 101 ∷ 114 ∷ 118 ∷ 101 ∷ 114 ∷ 95 ∷ 98 ∷ 97 ∷ 116 ∷ 99 ∷ 104
        ∷ 101 ∷ 115 ∷ 95 ∷ 115 ∷ 101 ∷ 110 ∷ 116 ∷ 95 ∷ 116 ∷ 111 ∷ 116 ∷ 97 ∷ 108 ∷ [])
    ∷ (103 ∷ 114 ∷ 112 ∷ 99 ∷ 95 ∷ 115 ∷ 101 ∷ 114 ∷ 118 ∷ 101 ∷ 114 ∷ 95 ∷ 98 ∷ 97 ∷ 116 ∷ 99 ∷ 104
        ∷ 101 ∷ 115 ∷ 95 ∷ 100 ∷ 114 ∷ 111 ∷ 112 ∷ 112 ∷ 101 ∷ 100 ∷ 95 ∷ 116 ∷ 111 ∷ 116 ∷ 97 ∷ 108
        ∷ [])
    ∷ (103 ∷ 114 ∷ 112 ∷ 99 ∷ 95 ∷ 115 ∷ 101 ∷ 114 ∷ 118 ∷ 101 ∷ 114 ∷ 95 ∷ 97 ∷ 99 ∷ 107 ∷ 115 ∷ 95
        ∷ 114 ∷ 101 ∷ 99 ∷ 101 ∷ 105 ∷ 118 ∷ 101 ∷ 100 ∷ 95 ∷ 116 ∷ 111 ∷ 116 ∷ 97 ∷ 108 ∷ [])
    ∷ []

-- The names of the metrics, in the order in which they are unregistered.
unfoldable pub unregistered : List (List ℕ)
unregistered =
    (unregistered_events ++ (unregistered_entropy ++ (unregistered_checks ++ unregistered_servers)))
