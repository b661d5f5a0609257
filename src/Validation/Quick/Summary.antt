-- ===== src/Validation/Quick/Summary.antt =====
-- The summary statistic of the adaptive proportion test against the counts of the bytes.
use entropy_tdc_gateway.Common.{
  ℕ, ◌≤◌, ◌<◌, min, ◌≡◌, refl, List, [], ◌∷◌, arith, ltb, count, length, take, if◌then◌else◌, false,
  ◌==◌,
}
use entropy_tdc_gateway.Common.Float.{Float64}
use entropy_tdc_gateway.Validation.Frequency.{Entries, tally, most_common}
use entropy_tdc_gateway.Validation.Frequency.Counts.{IsRange, count-le-max_count, count-most_common}
use entropy_tdc_gateway.Validation.Quick.{compute_apt_stat}

-- For data that is not empty and a positive window, the statistic is the count of one byte among
-- the first bytes of the window, or all where there are fewer, over their number, and no byte
-- stands there more often, whatever the order in which the map is visited.
pub compute_apt_stat-count :
    (fl : Float64) (range : Entries → Entries)
    → IsRange range
    → (x : ℕ) (xs : List ℕ) (window a : ℕ) → 0 < window
    → (b : ℕ) × (compute_apt_stat fl range (x ∷ xs) window
        ≡ fl.div
            (fl.of_int (count b (take (min window (length (x ∷ xs))) (x ∷ xs))))
            (fl.of_int (min window (length (x ∷ xs)))))
      × (count a (take (min window (length (x ∷ xs))) (x ∷ xs))
          ≤ count b (take (min window (length (x ∷ xs))) (x ∷ xs)))
unfolding compute_apt_stat
compute_apt_stat-count fl range visits x xs window a h =
    let data' : List ℕ = x ∷ xs in
    let size : (if ltb (length data') window then length data' else window)
        ≡ min window (length data') =
      ground arith in
    let positive : (window == 0) ≡ false = ground arith in
    let first : List ℕ = take (min window (length data')) data' in
    (
      (most_common (range (tally first [])) (0, 0)).0,
      rw (compute_apt_stat, positive, size, count-most_common range visits first) refl,
      rw (count-most_common range visits first) (count-le-max_count range visits first a),
    )
