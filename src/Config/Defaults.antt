-- ===== src/Config/Defaults.antt =====
-- `defaultConfig` of internal/config/config.go and the limits of the batch size.
use entropy_tdc_gateway.Common.{true, false, [], ◌∷◌}
use entropy_tdc_gateway.Common.Int.{ℤ, pos}
use entropy_tdc_gateway.Config.{Config}
use entropy_tdc_gateway.Config.Words.{
  dev, default_broker_url, default_topic, default_http_addr, default_metrics_bind,
  default_entropy_bind, default_grpc_bind,
}

abbrev pub default_batch_size : ℤ
default_batch_size = pos 1840

abbrev pub min_batch_size : ℤ
min_batch_size = pos 1840

abbrev pub max_batch_size : ℤ
max_batch_size = pos 184000

-- The fields that the Go literal leaves out are empty, false or zero.
unfoldable pub default_config : Config
default_config = record {
  mqtt = record {
    broker_url = default_broker_url;
    client_id = [];
    topics = default_topic ∷ [];
    qos = 0;
    username = [];
    password = [];
    tls_ca_file = [];
  };
  entropy_pool = record {
    pool_min_bytes = pos 512;
    pool_max_bytes = pos 16384;
    ready_min_bytes = pos 1024;
    http_addr = default_http_addr;
    retry_after_sec = pos 1;
    allow_public = false;
    rate_limit_rps = pos 0;
    rate_limit_burst = pos 0;
    tls_enabled = false;
    tls_cert_file = [];
    tls_key_file = [];
    tls_ca_file = [];
    tls_client_auth = [];
  };
  batch_size = default_batch_size;
  metrics = record {
    port = pos 8000;
    bind = default_metrics_bind;
    enabled = true;
    tls_enabled = false;
    tls_cert_file = [];
    tls_key_file = [];
    tls_ca_file = [];
    tls_client_auth = [];
  };
  entropy_bind = default_entropy_bind;
  grpc = record {
    enabled = false;
    bind = default_grpc_bind;
    tls_enabled = false;
    tls_cert_file = [];
    tls_key_file = [];
    tls_ca_file = [];
    tls_client_auth = [];
  };
  cloud_forwarder = record {
    enabled = false;
    server_addr = [];
    tls_enabled = false;
    tls_ca_file = [];
    tls_cert_file = [];
    tls_key_file = [];
    tls_server_name = [];
    connect_timeout = pos 10;
    reconnect_delay = pos 5;
    max_reconnect_sec = pos 60;
    stream_rotate_interval = pos 0;
    oauth2_enabled = false;
    oauth2_token_url = [];
    oauth2_client_id = [];
    oauth2_client_secret = [];
    oauth2_scopes = [];
  };
  environment = dev;
}
