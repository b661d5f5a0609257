-- ===== src/Config/Bounds.antt =====
-- The bounds of a configuration that the overrides of internal/config/config.go keep.
use entropy_tdc_gateway.Common.{
  ◌≤◌, Bool, true, false, Option, none, some, ◌≡◌, refl, subst, inl, inr, Bool-cases, Option-cases,
  if◌then◌else◌, is_empty, arith,
}
use entropy_tdc_gateway.Common.Int.{ℤ, pos, negsuc, leb_ℤ, ltb_ℤ}
use entropy_tdc_gateway.Config.{
  Text, Env, Key, Config, ConfigError, Result, loaded, failed, getenv, parse_positive_env_int,
  or_positive, clean_env_value,
}
use entropy_tdc_gateway.Config.Defaults.{default_config}
use entropy_tdc_gateway.Config.Overrides.{
  clamp_batch_size, apply_entropy_pool_env_vars, apply_collector_env_vars, apply_metrics_env_vars,
  apply_entropy_env_vars, apply_grpc_env_vars,
}
use entropy_tdc_gateway.Config.Load.{clamp_qos, and_then}

pub record IsBounded (c : Config) : Type 0 where
  pub qos : c.mqtt.qos ≤ 1
  pub batch_low : leb_ℤ (pos 1840) c.batch_size ≡ true
  pub batch_high : leb_ℤ c.batch_size (pos 184000) ≡ true
  pub pool_positive : ltb_ℤ (pos 0) c.entropy_pool.pool_min_bytes ≡ true
  pub pool_ordered : leb_ℤ c.entropy_pool.pool_min_bytes c.entropy_pool.pool_max_bytes ≡ true

unfoldable pub Holds : (Config → Type 0) → Result → Type 0
Holds P (loaded c) = P c
Holds P (failed e) = Unit

pub Holds-and_then :
    (P Q : Config → Type 0) (r : Result) (step : Config → Result)
    → Holds P r
    → ((c : Config) → P c → Holds Q (step c))
    → Holds Q (and_then r step)
unfolding Holds
Holds-and_then P Q (loaded c) step p f = f c p
Holds-and_then P Q (failed e) step p f = tt

pub Holds-loaded : (P : Config → Type 0) (c : Config) → P c → Holds P (loaded c)
unfolding Holds
Holds-loaded P c p = p

pub Holds-failed : (P : Config → Type 0) (error : ConfigError) → Holds P (failed error)
unfolding Holds
Holds-failed P error = tt

pub Holds-if :
    (P : Config → Type 0) (b : Bool) (r s : Result)
    → Holds P r
    → Holds P s
    → Holds P (if b then r else s)
Holds-if P true r s p q = p
Holds-if P false r s p q = q

pub Holds-secret :
    (P : Config → Type 0) (secret : Option Text) (error : ConfigError) (f : Text → Config)
    → ((bytes : Text) → P (f bytes))
    → Holds P (elim secret [ none ↦ failed error | some bytes ↦ loaded (f bytes) ])
unfolding Holds
Holds-secret P none error f p = tt
Holds-secret P (some bytes) error f p = p bytes

pub Holds-parsed :
    (P : Config → Type 0) (number : Option ℤ) (error : ConfigError) (f : ℤ → Result)
    → ((n : ℤ) → Holds P (f n))
    → Holds P (elim number [ none ↦ failed error | some n ↦ f n ])
unfolding Holds
Holds-parsed P none error f p = tt
Holds-parsed P (some n) error f p = p n

pub clamp_qos-le : (q : ℤ) → clamp_qos q ≤ 1
unfolding clamp_qos
clamp_qos-le (pos n) = ground arith
clamp_qos-le (negsuc n) = ground arith

or_positive-lt :
    (parsed : Option ℤ) (fallback : ℤ)
    → ltb_ℤ (pos 0) fallback ≡ true
    → ltb_ℤ (pos 0) (or_positive parsed fallback) ≡ true
unfolding or_positive
or_positive-lt none fallback h = h
or_positive-lt (some (pos n)) fallback h = ground (arith, h)
or_positive-lt (some (negsuc n)) fallback h = ground (arith, h)

parse_positive_env_int-lt :
    (env : Env) (key : Key) (fallback : ℤ)
    → ltb_ℤ (pos 0) fallback ≡ true
    → ltb_ℤ (pos 0) (parse_positive_env_int env key fallback) ≡ true
unfolding parse_positive_env_int
parse_positive_env_int-lt env key fallback h = elim (Option-cases (env key)) [
  | inl e ↦ rw (parse_positive_env_int, e) h
  | inr (value, e) ↦
      rw (parse_positive_env_int, e)
        elim (Bool-cases (is_empty (clean_env_value value))) [
          | inl n ↦ rw n h
          | inr n ↦ rw n (or_positive-lt _ fallback h)
        ]
]

clamp_batch_size-bounds :
    (parsed : Option ℤ)
    → (leb_ℤ (pos 1840) (clamp_batch_size parsed) ≡ true)
      × (leb_ℤ (clamp_batch_size parsed) (pos 184000) ≡ true)
unfolding clamp_batch_size
clamp_batch_size-bounds none = (refl, refl)
clamp_batch_size-bounds (some (pos n)) = (ground arith, ground arith)
clamp_batch_size-bounds (some (negsuc n)) = (ground arith, ground arith)

clamp_pool : (low high : ℤ) → leb_ℤ low (if ltb_ℤ high low then low else high) ≡ true
clamp_pool low high = ground arith

pub apply_entropy_pool-IsBounded :
    (env : Env) (c : Config) → IsBounded c → IsBounded (apply_entropy_pool_env_vars env c)
unfolding apply_entropy_pool_env_vars
apply_entropy_pool-IsBounded env c b = record {
  qos = b.qos;
  batch_low = b.batch_low;
  batch_high = b.batch_high;
  pool_positive = parse_positive_env_int-lt env _ _ b.pool_positive;
  pool_ordered =
      clamp_pool
        (parse_positive_env_int env Key.entropy_pool_min_bytes c.entropy_pool.pool_min_bytes)
        (parse_positive_env_int env Key.entropy_pool_max_bytes c.entropy_pool.pool_max_bytes);
}

with_batch :
    (c : Config) (size : ℤ)
    → IsBounded c
    → (leb_ℤ (pos 1840) size ≡ true) × (leb_ℤ size (pos 184000) ≡ true)
    → IsBounded (record c { batch_size = size })
with_batch c size b h = record {
  qos = b.qos;
  batch_low = h.0;
  batch_high = h.1;
  pool_positive = b.pool_positive;
  pool_ordered = b.pool_ordered;
}

pub apply_collector-IsBounded :
    (env : Env) (c : Config) → IsBounded c → IsBounded (apply_collector_env_vars env c)
unfolding apply_collector_env_vars
apply_collector-IsBounded env c b =
    elim (Bool-cases (is_empty (getenv env Key.collector_batch_size))) [
      | inl e ↦ rw e b
      | inr e ↦ rw e (with_batch c _ b (clamp_batch_size-bounds _))
    ]

-- What an override of the other components keeps.
pub same_bounds :
    (c d : Config)
    → IsBounded c
    → d.mqtt.qos ≤ 1
    → c.batch_size ≡ d.batch_size
    → c.entropy_pool ≡ d.entropy_pool
    → IsBounded d
same_bounds c d b q s p = record {
  qos = q;
  batch_low = subst (λ x. leb_ℤ (pos 1840) x ≡ true) s b.batch_low;
  batch_high = subst (λ x. leb_ℤ x (pos 184000) ≡ true) s b.batch_high;
  pool_positive = subst (λ x. ltb_ℤ (pos 0) x.pool_min_bytes ≡ true) p b.pool_positive;
  pool_ordered = subst (λ x. leb_ℤ x.pool_min_bytes x.pool_max_bytes ≡ true) p b.pool_ordered;
}

pub apply_served-IsBounded :
    (env : Env) (c : Config)
    → IsBounded c
    → IsBounded
        (apply_grpc_env_vars env (apply_entropy_env_vars env (apply_metrics_env_vars env c)))
unfolding apply_grpc_env_vars apply_entropy_env_vars apply_metrics_env_vars
apply_served-IsBounded env c b = same_bounds c _ b b.qos refl refl

pub default-IsBounded : IsBounded default_config
unfolding default_config
default-IsBounded = record {
  qos = omega arith;
  batch_low = refl;
  batch_high = refl;
  pool_positive = refl;
  pool_ordered = refl;
}
