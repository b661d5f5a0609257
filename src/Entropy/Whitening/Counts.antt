-- ===== src/Entropy/Whitening/Counts.antt =====
-- Byte counts as saturating 32-bit bit counts.
use entropy_tdc_gateway.Common.{ℕ, ◌*◌, ◌≡◌, ◌==◌, if◌then◌else◌, min, arith}
use entropy_tdc_gateway.Common.Int.{pos}
use entropy_tdc_gateway.Entropy.Whitening.{max_uint32, to_bit_count}

-- `toBitCount` is the number of bits, clamped to the largest uint32, for every count but one:
-- 536870911 bytes have 4294967288 bits, which fit, and are reported as 4294967295.
pub to_bit_count_lem :
    (n : ℕ) → to_bit_count (pos n) ≡ (if n == 536870911 then max_uint32 else min (8 * n) max_uint32)
unfolding to_bit_count
to_bit_count_lem n = ground arith
