-- ===== src/Entropy/HttpServer/Limit.antt =====
-- The token bucket of internal/entropy/http_entropy_server.go, and the constructor of the server,
-- which makes one. Time is in nanoseconds on the monotonic clock, so it does not go back.
use entropy_tdc_gateway.Common.{
  ℕ, ◌-◌, ◌≡◌, refl, Bool, true, false, Option, none, some, List, ltb, if◌then◌else◌, arith, inl,
  inr, Bool-cases,
}
use entropy_tdc_gateway.Common.Int.{ℤ, pos, leb_ℤ, ltb_ℤ}
use entropy_tdc_gateway.Common.Float.{Float64}
use entropy_tdc_gateway.Entropy.Pool.{WhitenedPool}
use entropy_tdc_gateway.Entropy.HttpServer.{
  HttpServer, Limiter, Net, Checked, bound, refused, enforce_loopback_addr, or_default_address,
}

-- Conversions of durations in nanoseconds: `Seconds`, `time.Duration(s * float64(time.Second))`,
-- `int(math.Ceil(d.Seconds()))` and `float64(i)`; and `math.Min`.
pub record Durations (fl : Float64) : Type 0 where
  pub seconds : ℕ → fl.F
  pub nanoseconds : fl.F → ℤ
  pub ceil_seconds : ℤ → ℤ
  pub of_ℤ : ℤ → fl.F
  pub minimum : fl.F → fl.F → fl.F

-- What the bucket relies on: the minimum is at most its first argument, and taking one token from a
-- number within a bound leaves it within the bound.
pub record IsMonotone (fl : Float64) (d : Durations fl) : Type 0 where
  pub minimum_le : (a b : fl.F) → fl.le (d.minimum a b) a ≡ true
  pub sub_one_le : (a c : fl.F) → fl.le a c ≡ true → fl.le (fl.sub a (fl.of_int 1)) c ≡ true

pub record TokenBucket (F : Type 0) : Type 0 where
  pub capacity : F
  pub tokens : F
  pub refill_rate : F
  pub last_refill : ℕ

abbrev pub second : ℤ
second = pos 1000000000

module _ (fl : Float64) (d : Durations fl) where
  open fl use {F, of_int}

  abbrev or_positive : F → F → F
  or_positive x fallback = if fl.le x (of_int 0) then fallback else x

  unfoldable pub new_token_bucket : F → F → ℕ → TokenBucket F
  new_token_bucket rate burst now =
      let refill_rate = or_positive rate (of_int 1) in
      record {
        capacity = or_positive burst refill_rate;
        tokens = or_positive burst refill_rate;
        refill_rate = refill_rate;
        last_refill = now;
      }

  unfoldable pub refill : TokenBucket F → ℕ → TokenBucket F
  refill b now =
      let gained = fl.mul (d.seconds (now - b.last_refill)) b.refill_rate in
      let tokens =
        if fl.lt (of_int 0) gained
        then d.minimum b.capacity (fl.add b.tokens gained)
        else b.tokens in
      if ltb b.last_refill now then record b { tokens = tokens; last_refill = now } else b

  abbrev not_negative : F → F
  not_negative x = if fl.lt x (of_int 0) then of_int 0 else x

  unfoldable pub wait_for_token : TokenBucket F → ℤ
  wait_for_token b =
      let deficit = not_negative (fl.sub (of_int 1) b.tokens) in
      let wait = d.nanoseconds (not_negative (fl.div deficit b.refill_rate)) in
      if ltb_ℤ wait second then second else wait

  unfoldable pub allow : TokenBucket F → ℕ → Bool × ℤ × TokenBucket F
  allow bucket now =
      let b = refill bucket now in
      if fl.le (of_int 1) b.tokens
      then (true, pos 0, record b { tokens = fl.sub b.tokens (of_int 1) })
      else (false, wait_for_token b, b)

  -- The limiter of the server, with the time of the request; the wait as `setRetryAfter` reads it.
  unfoldable pub limiter_at : ℕ → Limiter (TokenBucket F)
  limiter_at now = record {
    allow = λ bucket.
        let (allowed, wait, next) = allow bucket now in
        (allowed, if leb_ℤ wait (pos 0) then none else some (d.ceil_seconds wait), next);
  }

  abbrev or_default : ℤ → ℤ → ℤ
  or_default x fallback = if leb_ℤ x (pos 0) then fallback else x

  unfoldable pub server_at : Option WhitenedPool → ℤ → ℤ → ℤ → ℤ → ℕ → HttpServer (TokenBucket F)
  server_at pool ready_threshold retry_after_seconds rate_limit_rps rate_limit_burst now = record {
    pool = pool;
    rate_limiter = some (
        new_token_bucket (d.of_ℤ (or_default rate_limit_rps (pos 25)))
          (d.of_ℤ (or_default rate_limit_burst (pos 25))) now);
    ready_threshold = if ltb_ℤ ready_threshold (pos 0) then pos 0 else ready_threshold;
    retry_after_seconds = or_default retry_after_seconds (pos 1);
  }

  -- The address to listen on and the server, or the error of the check of the address.
  unfoldable pub new_http_server :
      Net
      → List ℕ
      → Option WhitenedPool
      → ℤ
      → Bool
      → ℤ
      → ℤ
      → ℤ
      → ℕ
      → Checked × Option (HttpServer (TokenBucket F))
  new_http_server net addr pool ready allow_public retry rps burst now =
      let canonical_addr = enforce_loopback_addr net (or_default_address addr) allow_public in
      elim canonical_addr [
        | bound address ↦ (bound address, some (server_at pool ready retry rps burst now))
        | refused error ↦ (refused error, none)
      ]

  abbrev pub IsCapped : TokenBucket F → Type 0
  IsCapped b = fl.le b.tokens b.capacity ≡ true

  refill-IsCapped :
      IsMonotone fl d → (b : TokenBucket F) (now : ℕ) → IsCapped b → IsCapped (refill b now)
  unfolding refill
  refill-IsCapped m b now h = elim (Bool-cases (ltb b.last_refill now)) [
    | inl l ↦
        rw l
          elim (Bool-cases
            (fl.lt (of_int 0) (fl.mul (d.seconds (now - b.last_refill)) b.refill_rate))) [
              | inl g ↦ rw g (m.minimum_le b.capacity _)
              | inr g ↦ rw g h
            ]
    | inr l ↦ rw l h
  ]

  wait_for_token-lt : (b : TokenBucket F) → ltb_ℤ (wait_for_token b) second ≡ false
  unfolding wait_for_token
  wait_for_token-lt b = ground arith

  -- Where a minimum is at most its first argument and taking a token keeps every bound, a bucket
  -- that holds at most its capacity still does after a request, and the time to wait is below a
  -- second exactly for a request that is allowed.
  pub allow-IsCapped :
      IsMonotone fl d
      → (bucket : TokenBucket F) (now : ℕ) → IsCapped bucket
      → IsCapped (allow bucket now).2 × (ltb_ℤ (allow bucket now).1 second ≡ (allow bucket now).0)
  unfolding allow
  allow-IsCapped m bucket now h =
      let r = refill-IsCapped m bucket now h in
      elim (Bool-cases (fl.le (of_int 1) (refill bucket now).tokens)) [
        | inl e ↦ rw e (m.sub_one_le _ _ r, refl)
        | inr e ↦ rw e (r, wait_for_token-lt (refill bucket now))
      ]
