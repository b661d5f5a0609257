-- ===== src/Config/Words.antt =====
-- The texts that internal/config/config.go compares with or starts from, as code points.
use entropy_tdc_gateway.Common.{ℕ, List, [], ◌∷◌}

-- "dev"
abbrev pub dev : List ℕ
dev = 100 ∷ 101 ∷ 118 ∷ []

-- "development"
abbrev pub development : List ℕ
development = 100 ∷ 101 ∷ 118 ∷ 101 ∷ 108 ∷ 111 ∷ 112 ∷ 109 ∷ 101 ∷ 110 ∷ 116 ∷ []

-- "prod"
abbrev pub prod : List ℕ
prod = 112 ∷ 114 ∷ 111 ∷ 100 ∷ []

-- "production"
abbrev pub production : List ℕ
production = 112 ∷ 114 ∷ 111 ∷ 100 ∷ 117 ∷ 99 ∷ 116 ∷ 105 ∷ 111 ∷ 110 ∷ []

-- "none"
abbrev pub none_mode : List ℕ
none_mode = 110 ∷ 111 ∷ 110 ∷ 101 ∷ []

-- "request"
abbrev pub request_mode : List ℕ
request_mode = 114 ∷ 101 ∷ 113 ∷ 117 ∷ 101 ∷ 115 ∷ 116 ∷ []

-- "require"
abbrev pub require_mode : List ℕ
require_mode = 114 ∷ 101 ∷ 113 ∷ 117 ∷ 105 ∷ 114 ∷ 101 ∷ []

-- "tcp://127.0.0.1:1883"
abbrev pub default_broker_url : List ℕ
default_broker_url =
    116 ∷ 99 ∷ 112 ∷ 58 ∷ 47 ∷ 47 ∷ 49 ∷ 50 ∷ 55 ∷ 46 ∷ 48 ∷ 46 ∷ 48 ∷ 46 ∷ 49 ∷ 58 ∷ 49 ∷ 56 ∷ 56
    ∷ 51 ∷ []

-- "timestamps/channel/#"
abbrev pub default_topic : List ℕ
default_topic =
    116 ∷ 105 ∷ 109 ∷ 101 ∷ 115 ∷ 116 ∷ 97 ∷ 109 ∷ 112 ∷ 115 ∷ 47 ∷ 99 ∷ 104 ∷ 97 ∷ 110 ∷ 110 ∷ 101
    ∷ 108 ∷ 47 ∷ 35 ∷ []

-- "127.0.0.1:9797"
abbrev pub default_http_addr : List ℕ
default_http_addr = 49 ∷ 50 ∷ 55 ∷ 46 ∷ 48 ∷ 46 ∷ 48 ∷ 46 ∷ 49 ∷ 58 ∷ 57 ∷ 55 ∷ 57 ∷ 55 ∷ []

-- "127.0.0.1:8080"
abbrev pub default_metrics_bind : List ℕ
default_metrics_bind = 49 ∷ 50 ∷ 55 ∷ 46 ∷ 48 ∷ 46 ∷ 48 ∷ 46 ∷ 49 ∷ 58 ∷ 56 ∷ 48 ∷ 56 ∷ 48 ∷ []

-- "127.0.0.1:8081"
abbrev pub default_entropy_bind : List ℕ
default_entropy_bind = 49 ∷ 50 ∷ 55 ∷ 46 ∷ 48 ∷ 46 ∷ 48 ∷ 46 ∷ 49 ∷ 58 ∷ 56 ∷ 48 ∷ 56 ∷ 49 ∷ []

-- "127.0.0.1:9090"
abbrev pub default_grpc_bind : List ℕ
default_grpc_bind = 49 ∷ 50 ∷ 55 ∷ 46 ∷ 48 ∷ 46 ∷ 48 ∷ 46 ∷ 49 ∷ 58 ∷ 57 ∷ 48 ∷ 57 ∷ 48 ∷ []

-- "1", "true", "yes", "y", "on"
abbrev pub true_words : List (List ℕ)
true_words =
    (49 ∷ [])
    ∷ (116 ∷ 114 ∷ 117 ∷ 101 ∷ [])
    ∷ (121 ∷ 101 ∷ 115 ∷ [])
    ∷ (121 ∷ [])
    ∷ (111 ∷ 110 ∷ [])
    ∷ []

-- "0", "false", "no", "n", "off"
abbrev pub false_words : List (List ℕ)
false_words =
    (48 ∷ [])
    ∷ (102 ∷ 97 ∷ 108 ∷ 115 ∷ 101 ∷ [])
    ∷ (110 ∷ 111 ∷ [])
    ∷ (110 ∷ [])
    ∷ (111 ∷ 102 ∷ 102 ∷ [])
    ∷ []
