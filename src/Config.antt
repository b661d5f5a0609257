-- ===== src/Config.antt =====
-- internal/config/config.go: the configuration and the readers of single environment variables.
-- A variable is a constructor of `Key`; an environment looks it up. Logging is left out.
pub mod Words
pub mod Defaults
pub mod Overrides
pub mod Load
pub mod Validate
pub mod Bounds
pub mod Secure
use entropy_tdc_gateway.Common.{
  ℕ, Bool, true, false, ◌&&◌, ◌||◌, Option, none, some, List, [], ◌∷◌, if◌then◌else◌, is_empty, leb,
}
use entropy_tdc_gateway.Common.Int.{ℤ, pos, leb_ℤ, ltb_ℤ}
use entropy_tdc_gateway.Common.Text.{trim_space, to_lower, same_text, split_at, atoi}
use entropy_tdc_gateway.Config.Words.{true_words, false_words}

abbrev pub Text : Type 0
Text = List ℕ

pub data Key : Type 0 where
  mqtt_broker_url mqtt_client_id mqtt_topics mqtt_qos mqtt_username mqtt_password mqtt_password_file
        mqtt_tls_ca_file :
      Key
  entropy_pool_min_bytes entropy_pool_max_bytes entropy_ready_min_bytes entropy_http_addr
        entropy_retry_after_sec allow_public_http entropy_rate_limit_rps entropy_rate_limit_burst
        entropy_tls_enabled entropy_tls_cert_file entropy_tls_key_file entropy_tls_ca_file
        entropy_tls_client_auth entropy_bind :
      Key
  tls_cert_file tls_key_file tls_ca_file : Key
  collector_batch_size : Key
  metrics_port metrics_bind metrics_enabled metrics_tls_enabled metrics_tls_cert_file
        metrics_tls_key_file metrics_tls_ca_file metrics_tls_client_auth :
      Key
  grpc_enabled grpc_bind grpc_tls_enabled grpc_tls_cert_file grpc_tls_key_file grpc_tls_ca_file
        grpc_tls_client_auth :
      Key
  cloud_enabled cloud_server_addr cloud_tls_enabled cloud_tls_ca_file cloud_tls_cert_file
        cloud_tls_key_file cloud_tls_server_name cloud_connect_timeout cloud_reconnect_delay
        cloud_max_reconnect cloud_stream_rotate_interval cloud_oauth2_enabled cloud_oauth2_token_url
        cloud_oauth2_client_id cloud_oauth2_client_secret cloud_oauth2_client_secret_file
        cloud_oauth2_scopes :
      Key
  environment_key : Key

-- `os.LookupEnv`
abbrev pub Env : Type 0
Env = Key → Option Text

-- `os.Getenv`
abbrev pub getenv : Env → Key → Text
getenv env key = elim (env key) [ none ↦ [] | some value ↦ value ]

-- `if v := os.Getenv(key); v != "" { field = v }`
unfoldable pub override : Env → Key → Text → Text
override env key field = if is_empty (getenv env key) then field else getenv env key

-- The value up to the first '#', trimmed.
unfoldable pub clean_env_value : Text → Text
clean_env_value value =
    let parts = split_at 35 (trim_space value) in
    if is_empty parts.1 then trim_space value else trim_space parts.0

unfoldable pub get_env_default : Env → Key → Text → Text
get_env_default env key fallback = elim (env key) [
  | none ↦ fallback
  | some value ↦ if is_empty (clean_env_value value) then fallback else clean_env_value value
]

-- A number that is there and positive.
unfoldable pub or_positive : Option ℤ → ℤ → ℤ
or_positive none fallback = fallback
or_positive (some parsed) fallback = if leb_ℤ parsed (pos 0) then fallback else parsed

-- An empty text is no number.
unfoldable pub parse_positive_env_int : Env → Key → ℤ → ℤ
parse_positive_env_int env key fallback = elim (env key) [
  | none ↦ fallback
  | some value ↦
      if is_empty (clean_env_value value)
      then fallback
      else or_positive (atoi (clean_env_value value)) fallback
]

abbrev pub is_letter : ℕ → Bool
is_letter c = (leb 97 c && leb c 122) || (leb 65 c && leb c 90)

unfoldable pub has_unit : Text → Bool
has_unit [] = false
has_unit (c ∷ cs) = is_letter c || has_unit cs

unfoldable pub or_not_negative : Option ℤ → ℤ → ℤ
or_not_negative none fallback = fallback
or_not_negative (some parsed) fallback = if ltb_ℤ parsed (pos 0) then fallback else parsed

-- `parse_duration` is `time.ParseDuration`, in nanoseconds.
unfoldable pub parse_duration_env : (Text → Option ℤ) → Env → Key → ℤ → ℤ
parse_duration_env parse_duration env key fallback = elim (env key) [
  | none ↦ fallback
  | some value ↦
      if is_empty (clean_env_value value)
      then fallback
      else if has_unit (clean_env_value value)
      then or_not_negative (parse_duration (clean_env_value value)) fallback
      else fallback
]

unfoldable pub one_of : List Text → Text → Bool
one_of [] text = false
one_of (word ∷ words) text = same_text text word || one_of words text

unfoldable pub parse_bool_env : Env → Key → Bool → Bool
parse_bool_env env key fallback = elim (env key) [
  | none ↦ fallback
  | some value ↦
      let word = to_lower (clean_env_value value) in
      if is_empty (clean_env_value value)
      then fallback
      else if one_of true_words word
      then true
      else if one_of false_words word
      then false
      else fallback
]

-- The structs, field by field.
pub record Mqtt : Type 0 where
  pub broker_url : Text
  pub client_id : Text
  pub topics : List Text
  pub qos : ℕ
  pub username : Text
  pub password : Text
  pub tls_ca_file : Text

pub record EntropyPool : Type 0 where
  pub pool_min_bytes : ℤ
  pub pool_max_bytes : ℤ
  pub ready_min_bytes : ℤ
  pub http_addr : Text
  pub retry_after_sec : ℤ
  pub allow_public : Bool
  pub rate_limit_rps : ℤ
  pub rate_limit_burst : ℤ
  pub tls_enabled : Bool
  pub tls_cert_file : Text
  pub tls_key_file : Text
  pub tls_ca_file : Text
  pub tls_client_auth : Text

pub record Metrics : Type 0 where
  pub port : ℤ
  pub bind : Text
  pub enabled : Bool
  pub tls_enabled : Bool
  pub tls_cert_file : Text
  pub tls_key_file : Text
  pub tls_ca_file : Text
  pub tls_client_auth : Text

pub record Grpc : Type 0 where
  pub enabled : Bool
  pub bind : Text
  pub tls_enabled : Bool
  pub tls_cert_file : Text
  pub tls_key_file : Text
  pub tls_ca_file : Text
  pub tls_client_auth : Text

pub record CloudForwarder : Type 0 where
  pub enabled : Bool
  pub server_addr : Text
  pub tls_enabled : Bool
  pub tls_ca_file : Text
  pub tls_cert_file : Text
  pub tls_key_file : Text
  pub tls_server_name : Text
  pub connect_timeout : ℤ
  pub reconnect_delay : ℤ
  pub max_reconnect_sec : ℤ
  pub stream_rotate_interval : ℤ
  pub oauth2_enabled : Bool
  pub oauth2_token_url : Text
  pub oauth2_client_id : Text
  pub oauth2_client_secret : Text
  pub oauth2_scopes : Text

-- `batch_size` and `entropy_bind` are the only fields of their structs.
pub record Config : Type 0 where
  pub mqtt : Mqtt
  pub entropy_pool : EntropyPool
  pub batch_size : ℤ
  pub metrics : Metrics
  pub entropy_bind : Text
  pub grpc : Grpc
  pub cloud_forwarder : CloudForwarder
  pub environment : Text

-- The components that serve TLS, and what can be wrong.
pub data Served : Type 0 where
  entropy_api metrics_api grpc_api : Served

pub data ConfigError : Type 0 where
  qos_not_a_number password_file secret_file bad_environment broker_url_required topics_required
        public_without_tls :
      ConfigError
  cert_required key_required client_auth_invalid ca_required : Served → ConfigError
  cloud_addr_required cloud_ca_required cloud_cert_without_key oauth2_token_url_required
        oauth2_client_id_required oauth2_secret_required :
      ConfigError

pub data Result : Type 0 where
  loaded : Config → Result
  failed : ConfigError → Result
