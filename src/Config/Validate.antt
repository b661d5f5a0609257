-- ===== src/Config/Validate.antt =====
-- `validate` of internal/config/config.go: the first check that fails.
use entropy_tdc_gateway.Common.{
  Bool, not, ◌&&◌, Option, none, some, List, [], ◌∷◌, ◌++◌, if◌then◌else◌, is_empty,
}
use entropy_tdc_gateway.Common.Text.{same_text}
use entropy_tdc_gateway.Config.{
  Text, Config, CloudForwarder, Served, entropy_api, metrics_api, grpc_api, ConfigError, one_of,
  bad_environment, broker_url_required, topics_required, public_without_tls, cert_required,
  key_required, client_auth_invalid, ca_required, cloud_addr_required, cloud_ca_required,
  cloud_cert_without_key, oauth2_token_url_required, oauth2_client_id_required,
  oauth2_secret_required,
}
use entropy_tdc_gateway.Config.Words.{dev, prod, none_mode, request_mode, require_mode}

-- Checks that must all fail to hold, each with the error it returns otherwise.
abbrev pub Checks : Type 0
Checks = List (Bool × ConfigError)

unfoldable pub first_error : Checks → Option ConfigError
first_error [] = none
first_error ((wrong, error) ∷ checks) =
    let rest = first_error checks in if wrong then some error else rest

unfoldable pub is_production : Config → Bool
is_production cfg = same_text cfg.environment prod

unfoldable pub is_development : Config → Bool
is_development cfg = same_text cfg.environment dev

unfoldable pub valid_client_auth_mode : Text → Bool
valid_client_auth_mode mode = one_of (none_mode ∷ request_mode ∷ require_mode ∷ []) mode

-- The block that is written once for each component that serves TLS.
unfoldable pub tls_checks : Served → Bool → Text → Text → Text → Text → Checks
tls_checks served enabled cert key ca mode =
    (enabled && is_empty cert, cert_required served)
    ∷ (enabled && is_empty key, key_required served)
    ∷ (enabled && not (valid_client_auth_mode mode), client_auth_invalid served)
    ∷ (enabled && (same_text mode require_mode && is_empty ca), ca_required served)
    ∷ []

unfoldable pub cloud_checks : CloudForwarder → Checks
cloud_checks c =
    (c.enabled && is_empty c.server_addr, cloud_addr_required)
    ∷ (c.enabled && c.tls_enabled && is_empty c.tls_ca_file, cloud_ca_required)
    ∷ (
      c.enabled
          && c.tls_enabled
          && (if is_empty c.tls_cert_file
              then not (is_empty c.tls_key_file)
              else is_empty c.tls_key_file),
      cloud_cert_without_key,
    )
    ∷ (c.enabled && c.oauth2_enabled && is_empty c.oauth2_token_url, oauth2_token_url_required)
    ∷ (c.enabled && c.oauth2_enabled && is_empty c.oauth2_client_id, oauth2_client_id_required)
    ∷ (c.enabled && c.oauth2_enabled && is_empty c.oauth2_client_secret, oauth2_secret_required)
    ∷ []

unfoldable pub checks_of : Config → Checks
checks_of cfg =
    (is_empty cfg.mqtt.broker_url, broker_url_required)
    ∷ (is_empty cfg.mqtt.topics, topics_required)
    ∷ (not (is_development cfg) && not (is_production cfg), bad_environment)
    ∷ (tls_checks entropy_api cfg.entropy_pool.tls_enabled cfg.entropy_pool.tls_cert_file
          cfg.entropy_pool.tls_key_file cfg.entropy_pool.tls_ca_file
          cfg.entropy_pool.tls_client_auth
        ++ (
          cfg.entropy_pool.allow_public && not cfg.entropy_pool.tls_enabled && is_production cfg,
          public_without_tls,
        )
          ∷ (tls_checks metrics_api cfg.metrics.tls_enabled cfg.metrics.tls_cert_file
                cfg.metrics.tls_key_file cfg.metrics.tls_ca_file cfg.metrics.tls_client_auth
              ++ (tls_checks grpc_api (cfg.grpc.enabled && cfg.grpc.tls_enabled)
                    cfg.grpc.tls_cert_file cfg.grpc.tls_key_file cfg.grpc.tls_ca_file
                    cfg.grpc.tls_client_auth
                  ++ cloud_checks cfg.cloud_forwarder)))

unfoldable pub validate : Config → Option ConfigError
validate cfg = first_error (checks_of cfg)
