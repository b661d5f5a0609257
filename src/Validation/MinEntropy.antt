-- ===== src/Validation/MinEntropy.antt =====
-- internal/validation/min_entropy.go: the most common value and the collision estimates.
-- `range` is the order in which Go visits a map; float64 and its logarithm are parameters.
pub mod Estimates
use entropy_tdc_gateway.Common.{
  ℕ, ◌+◌, Bool, true, false, List, [], ◌∷◌, ◌==◌, if◌then◌else◌, length, is_empty,
}
use entropy_tdc_gateway.Common.Float.{Float64}
use entropy_tdc_gateway.Validation.Frequency.{Entries, tally, most_common}

-- `seen[b]`
unfoldable pub contains : List ℕ → ℕ → Bool
contains [] b = false
contains (x ∷ seen) b = if x == b then true else contains seen b

-- The loop of `EstimateCollision` from index i on: tCollision, collidedValue and the set `seen`.
unfoldable pub collide : List ℕ → ℕ → List ℕ → ℕ × ℕ × List ℕ
collide seen i [] = (0, 0, seen)
collide seen i (b ∷ data') =
    let rest = collide (b ∷ seen) (i + 1) data' in
    if contains seen b then (i + 1, b, seen) else rest

module _ (fl : Float64) where
  open fl use {F, of_int, div, le, lt, neg, log2}

  -- The minimum entropy of a most common value that stands `max_count` times in `n` bytes.
  unfoldable pub mcv_entropy : ℕ → ℕ → F
  mcv_entropy max_count n =
      let p_max = div (of_int max_count) (of_int n) in
      if le (of_int 1) p_max then of_int 0 else neg (log2 p_max)

  unfoldable pub estimate_mcv : (Entries → Entries) → List ℕ → F
  unfolding mcv_entropy
  estimate_mcv range data' =
      if is_empty data'
      then of_int 0
      else mcv_entropy (most_common (range (tally data' [])) (0, 0)).1 (length data')

  -- minEntropy, mostCommonValue, maxCount, uniqueValues
  unfoldable pub estimate_mcv_with_stats : (Entries → Entries) → List ℕ → F × ℕ × ℕ × ℕ
  unfolding mcv_entropy
  estimate_mcv_with_stats range data' =
      if is_empty data'
      then (of_int 0, 0, 0, 0)
      else (let freq = tally data' [] in
          let (value, max_count) = most_common (range freq) (0, 0) in
          (mcv_entropy max_count (length data'), value, max_count, length freq))

  -- The estimate for a first collision at position `t`, 0 if there is none.
  unfoldable pub collision_entropy : ℕ → F
  collision_entropy t =
      if t == 0
      then of_int 8
      else if t == 2
      then of_int 1
      else (let min_entropy = log2 (of_int t) in
          let capped = if lt (of_int 8) min_entropy then of_int 8 else min_entropy in
          if lt capped (of_int 0) then of_int 0 else capped)

  unfoldable pub estimate_collision : List ℕ → F
  unfolding collision_entropy
  estimate_collision [] = of_int 0
  estimate_collision (x ∷ []) = of_int 8
  estimate_collision (x ∷ y ∷ ys) = collision_entropy (collide [] 0 (x ∷ y ∷ ys)).0

  -- minEntropy, collisionTime, collisionValue, uniqueBeforeCollision, after the loop.
  unfoldable pub collision_stats : ℕ × ℕ × List ℕ → F × ℕ × ℕ × ℕ
  unfolding collision_entropy
  collision_stats (t, value, seen) =
      if t == 0 then (of_int 8, 0, 0, length seen) else (collision_entropy t, t, value, length seen)

  unfoldable pub estimate_collision_with_stats : List ℕ → F × ℕ × ℕ × ℕ
  estimate_collision_with_stats [] = (of_int 0, 0, 0, 0)
  estimate_collision_with_stats (x ∷ []) = (of_int 8, 0, x, 1)
  estimate_collision_with_stats (x ∷ y ∷ ys) = collision_stats (collide [] 0 (x ∷ y ∷ ys))

  unfoldable pub estimate_min_entropy_conservative : (Entries → Entries) → List ℕ → F
  unfolding estimate_mcv estimate_collision
  estimate_min_entropy_conservative range data' =
      let mcv = estimate_mcv range data' in
      let collision = estimate_collision data' in if lt mcv collision then mcv else collision
