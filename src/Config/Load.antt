-- ===== src/Config/Load.antt =====
-- `Load` of internal/config/config.go: the overrides that can fail, and the check at the end.
use entropy_tdc_gateway.Common.{ℕ, Option, none, some, List, [], ◌∷◌, if◌then◌else◌, is_empty}
use entropy_tdc_gateway.Common.Int.{ℤ, pos, ltb_ℤ, pos_part}
use entropy_tdc_gateway.Common.Text.{trim_space, to_lower, split_at, atoi}
use entropy_tdc_gateway.Config.{
  Text, Key, Env, Config, Result, loaded, failed, getenv, override, clean_env_value,
  get_env_default, parse_positive_env_int, parse_duration_env, parse_bool_env, one_of,
  qos_not_a_number, password_file, secret_file, bad_environment,
}
use entropy_tdc_gateway.Config.Words.{dev, development, prod, production}
use entropy_tdc_gateway.Config.Validate.{validate}
use entropy_tdc_gateway.Config.Defaults.{default_config}
use entropy_tdc_gateway.Config.Overrides.{
  apply_entropy_pool_env_vars, apply_collector_env_vars, apply_metrics_env_vars,
  apply_entropy_env_vars, apply_grpc_env_vars,
}

-- Packages path/filepath, os and time: Clean, Abs (none for an error), Dir, Base, reading a file
-- below a root (none for an error), and ParseDuration.
pub record System : Type 0 where
  pub clean : Text → Text
  pub abs : Text → Option Text
  pub dir : Text → Text
  pub base : Text → Text
  pub read_in_root : Text → Text → Option Text
  pub parse_duration : Text → Option ℤ

-- The trimmed topics that are not empty.
unfoldable pub clean_topics : List Text → List Text
clean_topics [] = []
clean_topics (topic ∷ topics) =
    let rest = clean_topics topics in
    if is_empty (trim_space topic) then rest else trim_space topic ∷ rest

-- The comma-separated topics, or those there were where none is left.
unfoldable pub read_topics : Text → List Text → List Text
read_topics value topics =
    let parts = split_at 44 value in
    let cleaned = clean_topics (parts.0 ∷ parts.1) in
    if is_empty value then topics else if is_empty cleaned then topics else cleaned

unfoldable pub clamp_qos : ℤ → ℕ
clamp_qos qos = if ltb_ℤ qos (pos 0) then 0 else if ltb_ℤ (pos 1) qos then 1 else pos_part qos

module _ (sys : System) where
  unfoldable pub sanitize_absolute_path : Text → Option Text
  sanitize_absolute_path path =
      if is_empty (trim_space path) then none else sys.abs (sys.clean path)

  unfoldable pub read_file_within_root : Text → Option Text
  read_file_within_root abs_path = sys.read_in_root (sys.dir abs_path) (sys.base abs_path)

  unfoldable pub read_secret_file : Text → Option Text
  read_secret_file path = elim (sanitize_absolute_path path) [
    | none ↦ none
    | some abs_path ↦ read_file_within_root abs_path
  ]

  -- The part of `applyMQTTEnvVars` after the QoS.
  unfoldable pub apply_mqtt_login : Env → Config → Result
  apply_mqtt_login env c =
      let named = record c.mqtt {
        username = override env Key.mqtt_username c.mqtt.username;
        password = override env Key.mqtt_password c.mqtt.password;
      } in
      let ca = override env Key.mqtt_tls_ca_file c.mqtt.tls_ca_file in
      if is_empty (getenv env Key.mqtt_password_file)
      then loaded (record c { mqtt = record named { tls_ca_file = ca } })
      else elim (read_secret_file (getenv env Key.mqtt_password_file)) [
        | none ↦ failed password_file
        | some bytes ↦
            loaded
              (record c { mqtt = record named { password = trim_space bytes; tls_ca_file = ca } })
      ]

  unfoldable pub apply_mqtt_env_vars : Env → Config → Result
  apply_mqtt_env_vars env c =
      let next = record c.mqtt {
        broker_url = override env Key.mqtt_broker_url c.mqtt.broker_url;
        client_id = override env Key.mqtt_client_id c.mqtt.client_id;
        topics = read_topics (getenv env Key.mqtt_topics) c.mqtt.topics;
      } in
      if is_empty (getenv env Key.mqtt_qos)
      then apply_mqtt_login env (record c { mqtt = next })
      else elim (atoi (clean_env_value (getenv env Key.mqtt_qos))) [
        | none ↦ failed qos_not_a_number
        | some qos ↦ apply_mqtt_login env (record c { mqtt = record next { qos = clamp_qos qos } })
      ]

  unfoldable pub apply_cloud_forwarder_env_vars : Env → Config → Result
  apply_cloud_forwarder_env_vars env c =
      let f = c.cloud_forwarder in
      let next = record f {
        enabled = parse_bool_env env Key.cloud_enabled f.enabled;
        server_addr = get_env_default env Key.cloud_server_addr f.server_addr;
        tls_enabled = parse_bool_env env Key.cloud_tls_enabled f.tls_enabled;
        tls_ca_file = get_env_default env Key.cloud_tls_ca_file (getenv env Key.tls_ca_file);
        tls_cert_file = get_env_default env Key.cloud_tls_cert_file (getenv env Key.tls_cert_file);
        tls_key_file = get_env_default env Key.cloud_tls_key_file (getenv env Key.tls_key_file);
        tls_server_name = override env Key.cloud_tls_server_name f.tls_server_name;
        connect_timeout = parse_positive_env_int env Key.cloud_connect_timeout f.connect_timeout;
        reconnect_delay = parse_positive_env_int env Key.cloud_reconnect_delay f.reconnect_delay;
        max_reconnect_sec = parse_positive_env_int env Key.cloud_max_reconnect f.max_reconnect_sec;
        stream_rotate_interval =
            parse_duration_env sys.parse_duration env Key.cloud_stream_rotate_interval
              f.stream_rotate_interval;
        oauth2_enabled = parse_bool_env env Key.cloud_oauth2_enabled f.oauth2_enabled;
        oauth2_token_url = override env Key.cloud_oauth2_token_url f.oauth2_token_url;
        oauth2_client_id = override env Key.cloud_oauth2_client_id f.oauth2_client_id;
        oauth2_client_secret = override env Key.cloud_oauth2_client_secret f.oauth2_client_secret;
        oauth2_scopes = override env Key.cloud_oauth2_scopes f.oauth2_scopes;
      } in
      if is_empty (getenv env Key.cloud_oauth2_client_secret_file)
      then loaded (record c { cloud_forwarder = next })
      else elim (read_secret_file (getenv env Key.cloud_oauth2_client_secret_file)) [
        | none ↦ failed secret_file
        | some bytes ↦
            loaded (record c {
              cloud_forwarder = record next { oauth2_client_secret = trim_space bytes };
            })
      ]

unfoldable pub apply_environment_env_vars : Env → Config → Result
apply_environment_env_vars env c =
    let word = to_lower (trim_space (getenv env Key.environment_key)) in
    if is_empty (getenv env Key.environment_key)
    then loaded c
    else if one_of (dev ∷ development ∷ []) word
    then loaded (record c { environment = dev })
    else if one_of (prod ∷ production ∷ []) word
    then loaded (record c { environment = prod })
    else failed bad_environment

-- `if err := step(&configuration); err != nil { return configuration, err }`
abbrev pub and_then : Result → (Config → Result) → Result
and_then (loaded c) step = step c
and_then (failed error) step = failed error

unfoldable pub checked : Config → Result
checked c = elim (validate c) [ none ↦ loaded c | some error ↦ failed error ]

-- The five overrides that cannot fail stand between the two that can.
unfoldable pub load : System → Env → Result
load sys env = and_then (apply_mqtt_env_vars sys env default_config) (λ c.
    and_then
      (apply_cloud_forwarder_env_vars sys env (
        apply_grpc_env_vars env (
          apply_entropy_env_vars env (
            apply_metrics_env_vars env
              (apply_collector_env_vars env (apply_entropy_pool_env_vars env c))))))
      (λ d. and_then (apply_environment_env_vars env d) checked))
