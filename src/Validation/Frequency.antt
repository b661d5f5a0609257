-- ===== src/Validation/Frequency.antt =====
-- The `map[byte]int` that quick_tests.go and min_entropy.go fill and read: an association list with
-- one entry for each key. The order in which Go's `range` visits a map is not fixed, so a reader
-- takes it as a parameter.
pub mod Counts
use entropy_tdc_gateway.Common.{ℕ, ◌+◌, List, [], ◌∷◌, ltb, ◌==◌, if◌then◌else◌, take}

abbrev pub Entries : Type 0
Entries = List (ℕ × ℕ)

-- `freq[b]++`; a missing key reads as 0.
unfoldable pub increment : ℕ → Entries → Entries
increment b [] = (b, 1) ∷ []
increment b ((k, n) ∷ freq) = if k == b then (k, n + 1) ∷ freq else (k, n) ∷ increment b freq

-- `for _, b := range data { freq[b]++ }`
unfoldable pub tally : List ℕ → Entries → Entries
tally [] freq = freq
tally (b ∷ data') freq = tally data' (increment b freq)

-- `for val, count := range freq`: mostCommonValue and maxCount so far.
unfoldable pub most_common : Entries → ℕ × ℕ → ℕ × ℕ
most_common [] s = s
most_common ((val, n) ∷ freq) (value, max_count) =
    most_common freq (if ltb max_count n then (val, n) else (value, max_count))
