-- ===== src/Tests/Settings.antt =====
-- The theorems on the configuration, where the environment sets nothing, and on the token bucket.
use entropy_tdc_gateway.Common.Float.{Float64}
use entropy_tdc_gateway.Entropy.HttpServer.Limit.{Durations, IsMonotone, TokenBucket}
use entropy_tdc_gateway.Common.{
  ℕ, ◌+◌, ◌-◌, ◌*◌, ◌/◌, min, leb, ltb, arith, none, some, [], ◌≡◌, refl,
}
use entropy_tdc_gateway.Common.Int.{pos, pos_part}
use entropy_tdc_gateway.Common.Text.{same_text}
use entropy_tdc_gateway.Config.{
  Env, Config, loaded, override, get_env_default, parse_positive_env_int, parse_bool_env,
  parse_duration_env, one_of,
}
use entropy_tdc_gateway.Config.Words.{none_mode}
use entropy_tdc_gateway.Config.Validate.{
  first_error, validate, checks_of, tls_checks, cloud_checks, is_production, is_development,
  valid_client_auth_mode,
}
use entropy_tdc_gateway.Config.Defaults.{default_config}
use entropy_tdc_gateway.Config.Overrides.{
  read_client_auth, apply_entropy_pool_env_vars, apply_collector_env_vars, apply_metrics_env_vars,
  apply_entropy_env_vars, apply_grpc_env_vars,
}
use entropy_tdc_gateway.Config.Load.{
  System, read_topics, apply_mqtt_env_vars, apply_mqtt_login, apply_cloud_forwarder_env_vars,
  apply_environment_env_vars, checked, load,
}
use entropy_tdc_gateway.Config.Bounds.{IsBounded}
use entropy_tdc_gateway.Config.Secure.{IsSecure, load-IsSecure}

-- No file can be read, and no text is a duration.
abbrev bare_system : System
bare_system = record {
  clean = λ path. path;
  abs = λ path. some path;
  dir = λ path. [];
  base = λ path. path;
  read_in_root = λ root path. none;
  parse_duration = λ text. none;
}

abbrev empty_env : Env
empty_env key = none

abbrev accepted : Config
accepted = record default_config {
  entropy_pool = record default_config.entropy_pool {
    rate_limit_rps = pos 25;
    rate_limit_burst = pos 25;
    tls_client_auth = none_mode;
  };
  metrics = record default_config.metrics { tls_client_auth = none_mode };
  grpc = record default_config.grpc { tls_client_auth = none_mode };
}

load_defaults : load bare_system empty_env ≡ loaded accepted
unfolding load apply_mqtt_env_vars apply_mqtt_login apply_cloud_forwarder_env_vars
    apply_entropy_pool_env_vars apply_collector_env_vars apply_metrics_env_vars
    apply_entropy_env_vars apply_grpc_env_vars apply_environment_env_vars checked validate
    first_error checks_of tls_checks cloud_checks is_production is_development same_text
    default_config override read_topics read_client_auth get_env_default parse_positive_env_int
    parse_bool_env parse_duration_env valid_client_auth_mode one_of
load_defaults = refl

load-IsSecure_example : IsBounded accepted × IsSecure accepted
load-IsSecure_example = load-IsSecure bare_system empty_env accepted load_defaults

-- Natural numbers for float64, where time is counted in whole seconds.
abbrev naturals : Float64
naturals = record {
  F = ℕ;
  of_int = λ n. n;
  literal = λ n d. n;
  add = λ x y. x + y;
  sub = λ x y. x - y;
  mul = λ x y. x * y;
  div = λ x y. x / y;
  neg = λ x. x;
  le = leb;
  lt = ltb;
  abs = λ x. x;
  log2 = λ x. x;
  sqrt = λ x. x;
  erfc = λ x. x;
  square = λ x. x * x;
}

abbrev whole_seconds : Durations naturals
whole_seconds = record {
  seconds = λ n. n / 1000000000;
  nanoseconds = λ s. pos (s * 1000000000);
  ceil_seconds = λ d. d;
  of_ℤ = pos_part;
  minimum = min;
}

whole_seconds-IsMonotone : IsMonotone naturals whole_seconds
whole_seconds-IsMonotone = record {
  minimum_le = λ a b. ground arith;
  sub_one_le = λ a c h. ground (arith, h);
}

abbrev bucket : TokenBucket ℕ
bucket = record { capacity = 3; tokens = 1; refill_rate = 2; last_refill = 0 }
