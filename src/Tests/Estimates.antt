-- ===== src/Tests/Estimates.antt =====
-- The theorems on the statistical tests at concrete data.
use entropy_tdc_gateway.Common.{
  ℕ, ◌*◌, true, false, ◌&&◌, List, [], ◌∷◌, ◌≡◌, refl, arith, ltb, leb, length, count,
  if◌then◌else◌,
}
use entropy_tdc_gateway.Tests.Data.{fractions, fractions-IsIeee, in_order, in_order-IsRange}
use entropy_tdc_gateway.Validation.Rct
use entropy_tdc_gateway.Validation.Rct.{RepetitionCountTest}
use entropy_tdc_gateway.Validation.Rct.Runs.{longest, limit, test_block-longest}
use entropy_tdc_gateway.Validation.Apt
use entropy_tdc_gateway.Validation.Apt.{AdaptiveProportionTest}
use entropy_tdc_gateway.Validation.Apt.Windows.{windows_pass, test_block-windows}
use entropy_tdc_gateway.Validation.Quick.{frequency_test}
use entropy_tdc_gateway.Validation.Quick.Verdicts.{ones, frequency_test_passes}
use entropy_tdc_gateway.Validation.Frequency.{tally}
use entropy_tdc_gateway.Validation.Frequency.Counts.{top}
use entropy_tdc_gateway.Validation.MinEntropy.{estimate_mcv, estimate_collision_with_stats}
use entropy_tdc_gateway.Validation.MinEntropy.Estimates.{
  estimate_mcv_lem, Reports, estimate_collision_with_stats_lem,
}

abbrev fresh_rct : RepetitionCountTest
fresh_rct = record { cutoff = 3; last_sample = 0; repeat_count = 0; initialized = false }

abbrev samples : List ℕ
samples = 5 ∷ 5 ∷ 7 ∷ 7 ∷ 7 ∷ 1 ∷ []

abbrev short_runs : List ℕ
short_runs = 5 ∷ 5 ∷ 7 ∷ 7 ∷ 1 ∷ []

test_block-longest_example :
    (Rct.test_block fresh_rct samples).0 ≡ ltb (longest samples) (limit fresh_rct)
test_block-longest_example = test_block-longest fresh_rct samples refl

-- The block with a run of three fails.
samples_fail : (Rct.test_block fresh_rct samples).0 ≡ false
unfolding Rct.test_block Rct.test
samples_fail = refl

short_runs_pass : (Rct.test_block fresh_rct short_runs).0 ≡ true
unfolding Rct.test_block Rct.test
short_runs_pass = refl

abbrev fresh_apt : AdaptiveProportionTest
fresh_apt = record {
  cutoff = 3;
  window_size = 4;
  first_sample = 0;
  match_count = 0;
  sample_count = 0;
}

test_block-windows_example :
    (Apt.test_block fresh_apt samples).0
    ≡ windows_pass fresh_apt.window_size fresh_apt.cutoff 6 samples
test_block-windows_example = test_block-windows 6 fresh_apt samples refl (omega arith) (omega arith)

frequency_test_passes_example : (frequency_test fractions samples).1 ≡ (
    leb (45 * (length samples * 8)) (ones samples * 100)
    && leb (ones samples * 100) (55 * (length samples * 8)))
frequency_test_passes_example =
    frequency_test_passes fractions fractions-IsIeee 5 (5 ∷ 7 ∷ 7 ∷ 7 ∷ 1 ∷ []) (omega arith)

estimate_mcv_lem_example : estimate_mcv fractions in_order samples ≡ (
    if leb (length samples) (count 5 samples)
    then fractions.of_int 0
    else fractions.neg (
        fractions.log2 (
          fractions.div
            (fractions.of_int (top (tally samples [])))
            (fractions.of_int (length samples)))))
estimate_mcv_lem_example =
    estimate_mcv_lem fractions in_order fractions-IsIeee in_order-IsRange 5 (5 ∷ 7 ∷ 7 ∷ 7 ∷ 1 ∷ [])
      (omega arith)

estimate_collision_with_stats_lem_example :
    Reports samples (estimate_collision_with_stats fractions samples)
estimate_collision_with_stats_lem_example =
    estimate_collision_with_stats_lem fractions 5 5 (7 ∷ 7 ∷ 7 ∷ 1 ∷ [])
