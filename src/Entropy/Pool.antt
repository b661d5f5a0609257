-- ===== src/Entropy/Pool.antt =====
-- internal/entropy/pool.go: WhitenedPool. A method returns the new pool beside its result; the
-- mutex makes its locked part one step. The calls of package metrics are returned in their order.
pub mod Bounds
pub mod Batches
pub mod Extraction
pub mod History
use entropy_tdc_gateway.Common.{
  ℕ, ◌-◌, ◌*◌, ◌%◌, ◌^◌, Bool, true, false, Option, none, some, List, [], ◌∷◌, ◌++◌, ltb, leb, ◌==◌,
  if◌then◌else◌, length, take, drop, is_empty, map,
}
use entropy_tdc_gateway.Common.Int.{ℤ, pos, negsuc, pos_part, leb_ℤ, ltb_ℤ, signed64}
use entropy_tdc_gateway.Common.Bytes.{little_endian}
use entropy_tdc_gateway.Common.Float.{Float64}
use entropy_tdc_gateway.Mqtt.{TdcEvent}
use entropy_tdc_gateway.Validation.Frequency.{Entries}
use entropy_tdc_gateway.Validation.Rct
use entropy_tdc_gateway.Validation.Rct.{RepetitionCountTest}
use entropy_tdc_gateway.Validation.Apt
use entropy_tdc_gateway.Validation.Apt.{AdaptiveProportionTest}
use entropy_tdc_gateway.Validation.Quick.{frequency_test, runs_test}
use entropy_tdc_gateway.Validation.MinEntropy.{estimate_mcv, estimate_collision}
use entropy_tdc_gateway.Entropy.Whitening.{dual_stage_whitening}

pub record WhitenedPool : Type 0 where
  pub raw_events : List TdcEvent
  pub whitened : List ℕ
  pub min_pool_size : ℕ
  pub max_pool_size : ℕ
  pub max_raw_events : ℕ
  pub rct : RepetitionCountTest
  pub apt : AdaptiveProportionTest

pub data DropReason : Type 0 where
  rct_failure apt_failure : DropReason

-- The calls of package metrics that carry no float, with their arguments.
pub data Metric : Type 0 where
  entropy_pool_size : ℕ → Metric
  entropy_extraction : ℕ → Metric
  continuous_rct_failure : Metric
  continuous_apt_failure : Metric
  event_dropped : DropReason → Metric

-- Those of `AddBatch`.
pub data BatchMetric (F : Type 0) : Type 0 where
  whitening : ℕ → ℕ → F → BatchMetric F
  validation : F → Bool → ℕ → Bool → BatchMetric F
  min_entropy_mcv : F → BatchMetric F
  min_entropy_collision : F → BatchMetric F
  plain : Metric → BatchMetric F

abbrev pub default_min_whitened_bytes : ℕ
default_min_whitened_bytes = 32

-- `minSize * whitenedBufferMultiplier`, which wraps in 64 bits.
unfoldable pub times_multiplier : ℕ → ℤ
times_multiplier min_size = signed64 (min_size * 4 % 2 ^ 64)

unfoldable pub or_default_min : ℤ → ℕ
or_default_min min_size =
    if leb_ℤ min_size (pos 0) then default_min_whitened_bytes else pos_part min_size

-- `if maxSize < minSize { maxSize = minSize }`; what is left is not negative.
unfoldable pub at_least : ℕ → ℤ → ℕ
at_least min_size max_size = if ltb_ℤ max_size (pos min_size) then min_size else pos_part max_size

unfoldable pub new_whitened_pool_with_bounds : ℤ → ℤ → WhitenedPool
new_whitened_pool_with_bounds min_size max_size = record {
  raw_events = [];
  whitened = [];
  min_pool_size = or_default_min min_size;
  max_pool_size =
      at_least (or_default_min min_size)
        (if leb_ℤ max_size (pos 0) then times_multiplier (or_default_min min_size) else max_size);
  max_raw_events = 4096;
  rct = Rct.new (pos 40);
  apt = Apt.new (pos 605) (pos 4096);
}

unfoldable pub new_whitened_pool : ℤ → WhitenedPool
new_whitened_pool min_size =
    let least = or_default_min min_size in
    new_whitened_pool_with_bounds (pos least) (pos (at_least least (times_multiplier least)))

-- `copy(xs, xs[trim:])` and `xs[:len(xs)-trim]`: the last `bound` elements.
unfoldable pub trim_front {ℓ} : {A : Type ℓ} → ℕ → List A → List A
trim_front bound xs = if ltb bound (length xs) then drop (length xs - bound) xs else xs

-- The timestamps of the events, eight bytes each.
unfoldable pub raw_bytes : List TdcEvent → List ℕ
raw_bytes [] = []
raw_bytes (event ∷ events) = little_endian 8 event.tdc_timestamp_ps ++ raw_bytes events

-- The locked part of `AddBatch`.
unfoldable pub store : WhitenedPool → List TdcEvent → List ℕ → WhitenedPool
store pool events whitened_bytes =
    let kept = trim_front pool.max_raw_events (pool.raw_events ++ events) in
    if is_empty whitened_bytes then record pool { raw_events = kept } else record pool {
      raw_events = kept;
      whitened = trim_front pool.max_pool_size (pool.whitened ++ whitened_bytes);
    }

module _ (fl : Float64) (range : Entries → Entries) (sum256 : List ℕ → List ℕ) where
  open fl use {F, of_int, div}

  -- What `AddBatch` records about the whitened bytes.
  unfoldable pub batch_metrics : ℕ → List ℕ → List (BatchMetric F)
  batch_metrics raw_count whitened_bytes =
      let ratio =
        if ltb 0 raw_count
        then (if is_empty whitened_bytes
            then of_int 0
            else div (of_int (length whitened_bytes)) (of_int raw_count))
        else of_int 0 in
      let (freq_ratio, freq_passed) = frequency_test fl whitened_bytes in
      let (runs_count, runs_passed) = runs_test fl whitened_bytes in
      whitening raw_count (length whitened_bytes) ratio
      ∷ (if is_empty whitened_bytes
          then []
          else validation freq_ratio freq_passed runs_count runs_passed
            ∷ min_entropy_mcv (estimate_mcv fl range whitened_bytes)
            ∷ min_entropy_collision (estimate_collision fl whitened_bytes)
            ∷ [])

  unfoldable pub add_batch : WhitenedPool → List TdcEvent → WhitenedPool × List (BatchMetric F)
  add_batch pool [] = (pool, [])
  add_batch pool (event ∷ events) =
      let raw = raw_bytes (event ∷ events) in
      let whitened_bytes = dual_stage_whitening sum256 raw in
      let next = store pool (event ∷ events) whitened_bytes in
      let size =
        if is_empty whitened_bytes
        then []
        else plain (entropy_pool_size (length next.whitened)) ∷ [] in
      (next, batch_metrics (length raw) whitened_bytes ++ size)

abbrev pub Extracted : Type 0
Extracted = Option (List ℕ) × WhitenedPool × List Metric

-- The continuous health tests on the bytes about to be returned, and their removal.
unfoldable pub examine : WhitenedPool → ℕ → Extracted
examine pool n =
    let output = take n pool.whitened in
    let (rct_passed, rct) = Rct.test_block pool.rct output in
    let (apt_passed, apt) = Apt.test_block pool.apt output in
    let rest = drop n pool.whitened in
    if rct_passed
    then (if apt_passed
        then (
          some output,
          record pool { whitened = rest; rct = rct; apt = apt },
          entropy_extraction n ∷ entropy_pool_size (length rest) ∷ [],
        )
        else (
          none,
          record pool { rct = rct; apt = Apt.reset apt },
          continuous_apt_failure ∷ event_dropped apt_failure ∷ [],
        ))
    else (
      none,
      record pool { rct = Rct.reset rct },
      continuous_rct_failure ∷ event_dropped rct_failure ∷ [],
    )

unfoldable pub extract_entropy : WhitenedPool → ℤ → Extracted
extract_entropy pool num_bytes =
    if leb_ℤ num_bytes (pos 0)
    then (none, pool, [])
    else if ltb (length pool.whitened) pool.min_pool_size
    then (none, pool, [])
    else if ltb (length pool.whitened) (pos_part num_bytes)
    then (none, pool, [])
    else examine pool (pos_part num_bytes)

unfoldable pub pool_status : WhitenedPool → ℕ × ℕ
pool_status pool = (length pool.raw_events, length pool.whitened)

unfoldable pub available_entropy : WhitenedPool → ℕ
available_entropy pool =
    if leb (length pool.whitened) pool.min_pool_size
    then 0
    else length pool.whitened - pool.min_pool_size
