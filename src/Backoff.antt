-- ===== src/Backoff.antt =====
-- The delays of the reconnecting loops, of internal/grpc/client.go and of
-- cmd/entropy-tdc-gateway/main.go: a `time.Duration` is a number of nanoseconds in 64 bits, which
-- doubles after every failure up to a maximum. A product wraps.
use entropy_tdc_gateway.Common.{
  ℕ, zero, suc, ◌-◌, ◌*◌, ◌%◌, ◌^◌, ◌≡◌, ◌≤◌, ◌<◌, min, if◌then◌else◌, ap, ◌∙◌, arith,
}
use entropy_tdc_gateway.Common.Int.{ℤ, pos, negsuc, ltb_ℤ, signed64}

-- The 64-bit pattern of an integer.
abbrev pub word64 : ℤ → ℕ
word64 (pos n) = n % 2 ^ 64
word64 (negsuc n) = 2 ^ 64 - 1 - n % 2 ^ 64

-- A product with a constant.
unfoldable pub scale : ℕ → ℤ → ℤ
scale factor d = signed64 (factor * word64 d % 2 ^ 64)

abbrev pub second : ℕ
second = 10 ^ 9

-- `time.Duration(n) * time.Second`
unfoldable pub seconds_of : ℤ → ℤ
seconds_of n = scale second n

-- `delay *= 2; if delay > maxDelay { delay = maxDelay }`
unfoldable pub next_delay : ℤ → ℤ → ℤ
next_delay max_delay delay =
    let doubled = scale 2 delay in if ltb_ℤ max_delay doubled then max_delay else doubled

-- The delay after some failures.
unfoldable pub delay_after : ℕ → ℤ → ℤ → ℤ
delay_after zero max_delay delay = delay
delay_after (suc failures) max_delay delay =
    next_delay max_delay (delay_after failures max_delay delay)

signed64-small : (p : ℕ) → p < 2 ^ 63 → signed64 (p % 2 ^ 64) ≡ pos p
signed64-small p small = ground arith

word64-pos : (n : ℕ) → n < 2 ^ 63 → word64 (pos n) ≡ n
word64-pos n small = omega arith

pub scale-pos :
    (factor n : ℕ) → factor * n < 2 ^ 63 → n < 2 ^ 63 → scale factor (pos n) ≡ pos (factor * n)
unfolding scale
scale-pos factor n small below = rw (word64-pos n below) (signed64-small (factor * n) small)

pub next_delay-pos :
    (m n : ℕ) → m < 2 ^ 62 → n ≤ m → next_delay (pos m) (pos n) ≡ pos (min m (2 * n))
unfolding next_delay
next_delay-pos m n small below = rw (scale-pos 2 n ground arith ground arith) ground arith

pub pow_double : (s k : ℕ) → s * 2 ^ suc k ≡ 2 * (s * 2 ^ k)
pow_double s k = grind arith

-- Where the first delay is at most the maximum and the maximum is below 2^62 nanoseconds (146
-- years), the delay after k failures is the first one times 2^k, or the maximum if that is less.
pub delay_after-min :
    (k m s : ℕ) → m < 2 ^ 62 → s ≤ m → delay_after k (pos m) (pos s) ≡ pos (min m (s * 2 ^ k))
unfolding delay_after
delay_after-min zero m s small below = ap pos omega arith
delay_after-min (suc k) m s small below = rw (delay_after-min k m s small below) (
    next_delay-pos m (min m (s * 2 ^ k)) small omega arith
    ∙ ap pos (rw (pow_double s k) omega arith))
