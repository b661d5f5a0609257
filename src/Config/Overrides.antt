-- ===== src/Config/Overrides.antt =====
-- The overrides of internal/config/config.go that cannot fail: pool, collector, metrics, servers.
use entropy_tdc_gateway.Common.{Option, none, some, if◌then◌else◌, is_empty}
use entropy_tdc_gateway.Common.Int.{ℤ, pos, ltb_ℤ}
use entropy_tdc_gateway.Common.Text.{trim_space, to_lower, atoi}
use entropy_tdc_gateway.Config.{
  Text, Key, Env, Config, getenv, override, get_env_default, parse_positive_env_int, parse_bool_env,
}
use entropy_tdc_gateway.Config.Words.{none_mode}
use entropy_tdc_gateway.Config.Defaults.{default_batch_size, min_batch_size, max_batch_size}

-- `strings.ToLower(strings.TrimSpace(v))`, or "none" where nothing is set.
unfoldable pub read_client_auth : Text → Text
read_client_auth value = if is_empty value then none_mode else to_lower (trim_space value)

-- The pool's sizes are ordered at the end.
unfoldable pub apply_entropy_pool_env_vars : Env → Config → Config
apply_entropy_pool_env_vars env c =
    let p = c.entropy_pool in
    let low = parse_positive_env_int env Key.entropy_pool_min_bytes p.pool_min_bytes in
    let high = parse_positive_env_int env Key.entropy_pool_max_bytes p.pool_max_bytes in
    record c {
      entropy_pool = record {
        pool_min_bytes = low;
        pool_max_bytes = if ltb_ℤ high low then low else high;
        ready_min_bytes = parse_positive_env_int env Key.entropy_ready_min_bytes p.ready_min_bytes;
        http_addr = get_env_default env Key.entropy_http_addr p.http_addr;
        retry_after_sec = parse_positive_env_int env Key.entropy_retry_after_sec p.retry_after_sec;
        allow_public = parse_bool_env env Key.allow_public_http p.allow_public;
        rate_limit_rps = parse_positive_env_int env Key.entropy_rate_limit_rps (pos 25);
        rate_limit_burst = parse_positive_env_int env Key.entropy_rate_limit_burst (pos 25);
        tls_enabled = parse_bool_env env Key.entropy_tls_enabled p.tls_enabled;
        tls_cert_file =
            get_env_default env Key.entropy_tls_cert_file (getenv env Key.tls_cert_file);
        tls_key_file = get_env_default env Key.entropy_tls_key_file (getenv env Key.tls_key_file);
        tls_ca_file = get_env_default env Key.entropy_tls_ca_file (getenv env Key.tls_ca_file);
        tls_client_auth = read_client_auth (getenv env Key.entropy_tls_client_auth);
      };
    }

unfoldable pub clamp_batch_size : Option ℤ → ℤ
clamp_batch_size none = default_batch_size
clamp_batch_size (some parsed) =
    if ltb_ℤ parsed min_batch_size
    then min_batch_size
    else if ltb_ℤ max_batch_size parsed
    then max_batch_size
    else parsed

unfoldable pub apply_collector_env_vars : Env → Config → Config
apply_collector_env_vars env c =
    if is_empty (getenv env Key.collector_batch_size) then c else record c {
      batch_size = clamp_batch_size (atoi (trim_space (getenv env Key.collector_batch_size)));
    }

unfoldable pub apply_metrics_env_vars : Env → Config → Config
apply_metrics_env_vars env c = record c {
  metrics = record {
    port = parse_positive_env_int env Key.metrics_port c.metrics.port;
    bind = get_env_default env Key.metrics_bind c.metrics.bind;
    enabled = parse_bool_env env Key.metrics_enabled c.metrics.enabled;
    tls_enabled = parse_bool_env env Key.metrics_tls_enabled c.metrics.tls_enabled;
    tls_cert_file = get_env_default env Key.metrics_tls_cert_file (getenv env Key.tls_cert_file);
    tls_key_file = get_env_default env Key.metrics_tls_key_file (getenv env Key.tls_key_file);
    tls_ca_file = get_env_default env Key.metrics_tls_ca_file (getenv env Key.tls_ca_file);
    tls_client_auth = read_client_auth (getenv env Key.metrics_tls_client_auth);
  };
}

unfoldable pub apply_entropy_env_vars : Env → Config → Config
apply_entropy_env_vars env c = record c {
  entropy_bind = get_env_default env Key.entropy_bind c.entropy_bind;
}

unfoldable pub apply_grpc_env_vars : Env → Config → Config
apply_grpc_env_vars env c = record c {
  grpc = record {
    enabled = parse_bool_env env Key.grpc_enabled c.grpc.enabled;
    bind = get_env_default env Key.grpc_bind c.grpc.bind;
    tls_enabled = parse_bool_env env Key.grpc_tls_enabled c.grpc.tls_enabled;
    tls_cert_file = override env Key.grpc_tls_cert_file c.grpc.tls_cert_file;
    tls_key_file = override env Key.grpc_tls_key_file c.grpc.tls_key_file;
    tls_ca_file = override env Key.grpc_tls_ca_file c.grpc.tls_ca_file;
    tls_client_auth = read_client_auth (getenv env Key.grpc_tls_client_auth);
  };
}
