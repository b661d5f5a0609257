-- ===== src/Entropy/Pool/Bounds.antt =====
-- The bounds of the pool: what the constructors establish and every operation keeps.
use entropy_tdc_gateway.Common.{
  ℕ, ◌-◌, ◌≤◌, ◌<◌, List, [], ◌∷◌, ◌++◌, arith, length, length-drop, if◌then◌else◌,
}
use entropy_tdc_gateway.Common.Int.{ℤ, pos, pos_part, leb_ℤ}
use entropy_tdc_gateway.Common.Float.{Float64}
use entropy_tdc_gateway.Mqtt.{TdcEvent}
use entropy_tdc_gateway.Validation.Frequency.{Entries}
use entropy_tdc_gateway.Entropy.Pool.{
  WhitenedPool, new_whitened_pool, new_whitened_pool_with_bounds, at_least, or_default_min,
  times_multiplier, trim_front, store, add_batch, examine, extract_entropy,
}

pub record IsValid (pool : WhitenedPool) : Type 0 where
  pub reserve : 0 < pool.min_pool_size
  pub ordered : pool.min_pool_size ≤ pool.max_pool_size
  pub whitened_bound : length pool.whitened ≤ pool.max_pool_size
  pub raw_bound : length pool.raw_events ≤ pool.max_raw_events

at_least-le : (min_size : ℕ) (max_size : ℤ) → min_size ≤ at_least min_size max_size
unfolding at_least
at_least-le min_size max_size = ground arith

-- Whatever bounds are asked for, wrapping products included, the pool that is built has a positive
-- reserve that is at most its maximum.
pub new_whitened_pool_with_bounds-IsValid :
    (min_size max_size : ℤ) → IsValid (new_whitened_pool_with_bounds min_size max_size)
unfolding new_whitened_pool_with_bounds or_default_min
new_whitened_pool_with_bounds-IsValid min_size max_size = ground (
  arith,
  at_least-le (or_default_min min_size)
      (if leb_ℤ max_size (pos 0) then times_multiplier (or_default_min min_size) else max_size),
)

pub new_whitened_pool-IsValid : (min_size : ℤ) → IsValid (new_whitened_pool min_size)
unfolding new_whitened_pool
new_whitened_pool-IsValid min_size = new_whitened_pool_with_bounds-IsValid _ _

length-trim_front {ℓ} :
    {A : Type ℓ} (bound : ℕ) (xs : List A) → length (trim_front bound xs) ≤ bound
unfolding trim_front
length-trim_front bound xs = ground (arith, length-drop (length xs - bound) xs)

store-IsValid :
    (pool : WhitenedPool) (events : List TdcEvent) (bytes : List ℕ)
    → IsValid pool
    → IsValid (store pool events bytes)
unfolding store
store-IsValid pool events bytes v = ground (
  arith,
  length-trim_front pool.max_raw_events (pool.raw_events ++ events),
  length-trim_front pool.max_pool_size (pool.whitened ++ bytes),
)

module _ (fl : Float64) (range : Entries → Entries) (sum256 : List ℕ → List ℕ) where
  -- `AddBatch` keeps the bounds.
  pub add_batch-IsValid :
      (pool : WhitenedPool) (events : List TdcEvent)
      → IsValid pool
      → IsValid (add_batch fl range sum256 pool events).0
  unfolding add_batch
  add_batch-IsValid pool [] v = v
  add_batch-IsValid pool (event ∷ events) v = store-IsValid pool (event ∷ events) _ v

examine-IsValid : (pool : WhitenedPool) (n : ℕ) → IsValid pool → IsValid (examine pool n).1
unfolding examine
examine-IsValid pool n v = ground (arith, length-drop n pool.whitened)

-- `ExtractEntropy` keeps the bounds.
pub extract_entropy-IsValid :
    (pool : WhitenedPool) (num_bytes : ℤ)
    → IsValid pool
    → IsValid (extract_entropy pool num_bytes).1
unfolding extract_entropy
extract_entropy-IsValid pool num_bytes v = ground (arith, examine-IsValid pool (pos_part num_bytes))
