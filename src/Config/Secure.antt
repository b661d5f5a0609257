-- ===== src/Config/Secure.antt =====
-- What holds of every configuration that `Load` accepts, whatever the environment says.
use entropy_tdc_gateway.Common.{
  ℕ, true, false, not, ◌&&◌, ◌||◌, none, List, [], ◌∷◌, ◌≡◌, refl, subst, inl, inr, Bool-cases,
  Option-cases, All, is_empty, arith,
}
use entropy_tdc_gateway.Common.Text.{atoi, trim_space, to_lower}
use entropy_tdc_gateway.Config.{
  Env, Key, Config, loaded, getenv, clean_env_value, one_of, bad_environment,
}
use entropy_tdc_gateway.Config.Words.{dev, development, prod, production}
use entropy_tdc_gateway.Config.Validate.{
  Checks, first_error, checks_of, validate, is_production, is_development, tls_checks,
}
use entropy_tdc_gateway.Config.Defaults.{default_config}
use entropy_tdc_gateway.Config.Load.{
  System, read_secret_file, apply_mqtt_login, apply_mqtt_env_vars, apply_cloud_forwarder_env_vars,
  apply_environment_env_vars, checked, load,
}
use entropy_tdc_gateway.Config.Bounds.{
  IsBounded, Holds, Holds-and_then, Holds-loaded, Holds-failed, Holds-if, Holds-secret,
  Holds-parsed, clamp_qos-le, same_bounds, apply_entropy_pool-IsBounded, apply_collector-IsBounded,
  apply_served-IsBounded, default-IsBounded,
}

-- No public HTTP without TLS in production, and no TLS without a certificate and a key.
pub record IsSecure (c : Config) : Type 0 where
  pub known : is_development c || is_production c ≡ true
  pub public :
      c.entropy_pool.allow_public && not c.entropy_pool.tls_enabled && is_production c ≡ false
  pub certified :
      c.entropy_pool.tls_enabled
        && (is_empty c.entropy_pool.tls_cert_file || is_empty c.entropy_pool.tls_key_file)
      ≡ false

first_error-All : (checks : Checks) → first_error checks ≡ none → All (λ x. x.0 ≡ false) checks
unfolding first_error
first_error-All [] h = tt
first_error-All ((wrong, error) ∷ checks) h = elim (Bool-cases wrong) [
  | inl w ↦ absurd (ground (arith, rw w at h))
  | inr w ↦ (w, first_error-All checks (rw w at h))
]

validate-IsSecure : (c : Config) → validate c ≡ none → IsSecure c
unfolding validate checks_of tls_checks
validate-IsSecure c h =
    let all = first_error-All (checks_of c) h in
    let tls = all.1.1.1 in
    record {
      known = ground (arith, all.1.1.0);
      public = tls.1.1.1.1.0;
      certified = ground (arith, tls.0, tls.1.0);
    }

checked-IsSecure : (c : Config) → IsBounded c → Holds (λ d. IsBounded d × IsSecure d) (checked c)
unfolding checked Holds
checked-IsSecure c b = elim (Option-cases (validate c)) [
  | inl e ↦ rw (Holds, checked, e) (b, validate-IsSecure c e)
  | inr (error, e) ↦ rw (Holds, checked, e) tt
]

apply_environment-IsBounded :
    (env : Env) (c : Config) → IsBounded c → Holds IsBounded (apply_environment_env_vars env c)
unfolding apply_environment_env_vars
apply_environment-IsBounded env c b =
    let word = to_lower (trim_space (getenv env Key.environment_key)) in
    let named : (name : List ℕ) → Holds IsBounded (loaded (record c { environment = name })) =
      λ name.
        Holds-loaded IsBounded _
          (same_bounds c (record c { environment = name }) b b.qos refl refl) in
    Holds-if IsBounded (is_empty (getenv env Key.environment_key)) _ _ (Holds-loaded IsBounded c b)
      (Holds-if IsBounded (one_of (dev ∷ development ∷ []) word) _ _ (named dev) (
        Holds-if IsBounded (one_of (prod ∷ production ∷ []) word) _ _ (named prod)
          (Holds-failed IsBounded bad_environment)))

apply_cloud_forwarder-IsBounded :
    (sys : System) (env : Env) (c : Config)
    → IsBounded c
    → Holds IsBounded (apply_cloud_forwarder_env_vars sys env c)
unfolding apply_cloud_forwarder_env_vars
apply_cloud_forwarder-IsBounded sys env c b =
    Holds-if IsBounded (is_empty (getenv env Key.cloud_oauth2_client_secret_file)) _ _
      (Holds-loaded IsBounded _ (same_bounds c _ b b.qos refl refl))
      (Holds-secret IsBounded
        (read_secret_file sys (getenv env Key.cloud_oauth2_client_secret_file)) _ _
        (λ bytes. same_bounds c _ b b.qos refl refl))

apply_mqtt_login-IsBounded :
    (sys : System) (env : Env) (c : Config)
    → IsBounded c
    → Holds IsBounded (apply_mqtt_login sys env c)
unfolding apply_mqtt_login
apply_mqtt_login-IsBounded sys env c b =
    Holds-if IsBounded (is_empty (getenv env Key.mqtt_password_file)) _ _
      (Holds-loaded IsBounded _ (same_bounds c _ b b.qos refl refl))
      (Holds-secret IsBounded (read_secret_file sys (getenv env Key.mqtt_password_file)) _ _
        (λ bytes. same_bounds c _ b b.qos refl refl))

apply_mqtt-IsBounded :
    (sys : System) (env : Env) (c : Config)
    → IsBounded c
    → Holds IsBounded (apply_mqtt_env_vars sys env c)
unfolding apply_mqtt_env_vars
apply_mqtt-IsBounded sys env c b =
    Holds-if IsBounded (is_empty (getenv env Key.mqtt_qos)) _ _
      (apply_mqtt_login-IsBounded sys env _ (same_bounds c _ b b.qos refl refl))
      (Holds-parsed IsBounded (atoi (clean_env_value (getenv env Key.mqtt_qos))) _ _
        (λ q. apply_mqtt_login-IsBounded sys env _ (same_bounds c _ b (clamp_qos-le q) refl refl)))

load-Holds : (sys : System) (env : Env) → Holds (λ c. IsBounded c × IsSecure c) (load sys env)
unfolding load
load-Holds sys env =
    Holds-and_then IsBounded _ _ _ (apply_mqtt-IsBounded sys env default_config default-IsBounded)
      (λ c b.
        Holds-and_then IsBounded _ _ _
          (apply_cloud_forwarder-IsBounded sys env _ (
            apply_served-IsBounded env _
              (apply_collector-IsBounded env _ (apply_entropy_pool-IsBounded env c b))))
          (λ d b'.
            Holds-and_then IsBounded _ _ _ (apply_environment-IsBounded env d b') checked-IsSecure))

-- Whatever the environment and the files say, a configuration that `Load` accepts has a quality of
-- service of at most 1, a batch size from 1840 to 184000, a positive minimum of the pool that is at
-- most its maximum, an environment that is development or production, no public HTTP without TLS in
-- production, and a certificate and a key where the entropy server uses TLS.
pub load-IsSecure :
    (sys : System) (env : Env) (c : Config) → load sys env ≡ loaded c → IsBounded c × IsSecure c
unfolding Holds
load-IsSecure sys env c h = subst (Holds (λ d. IsBounded d × IsSecure d)) h (load-Holds sys env)
