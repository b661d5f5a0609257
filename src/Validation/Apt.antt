-- ===== src/Validation/Apt.antt =====
-- AdaptiveProportionTest of internal/validation/continuous_health_tests.go. A method returns its
-- result beside the new state; the mutex makes each method one step.
pub mod Windows
use entropy_tdc_gateway.Common.{
  ℕ, ◌+◌, Bool, true, false, List, [], ◌∷◌, ltb, leb, ◌==◌, if◌then◌else◌,
}
use entropy_tdc_gateway.Common.Int.{ℤ, pos, leb_ℤ, pos_part}

pub record AdaptiveProportionTest : Type 0 where
  pub cutoff : ℕ
  pub window_size : ℕ
  pub first_sample : ℕ
  pub match_count : ℕ
  pub sample_count : ℕ

unfoldable pub new : ℤ → ℤ → AdaptiveProportionTest
new cutoff window_size = record {
  cutoff = if leb_ℤ cutoff (pos 0) then 605 else pos_part cutoff;
  window_size = if leb_ℤ window_size (pos 0) then 4096 else pos_part window_size;
  first_sample = 0;
  match_count = 0;
  sample_count = 0;
}

-- The first sample of a window is remembered; a later one is compared with it.
unfoldable pub note_sample : AdaptiveProportionTest → ℕ → AdaptiveProportionTest
note_sample apt sample =
    if apt.sample_count == 0
    then record apt { first_sample = sample; match_count = 1 }
    else if sample == apt.first_sample
    then record apt { match_count = apt.match_count + 1 }
    else apt

-- `apt.sampleCount++`, and the verdict where the window is complete.
unfoldable pub close_window : AdaptiveProportionTest → Bool × AdaptiveProportionTest
close_window apt =
    if leb apt.window_size (apt.sample_count + 1)
    then (ltb apt.match_count apt.cutoff, record apt { sample_count = 0; match_count = 0 })
    else (true, record apt { sample_count = apt.sample_count + 1 })

unfoldable pub test : AdaptiveProportionTest → ℕ → Bool × AdaptiveProportionTest
unfolding note_sample close_window
test apt sample = close_window (note_sample apt sample)

unfoldable pub test_block : AdaptiveProportionTest → List ℕ → Bool × AdaptiveProportionTest
test_block apt [] = (true, apt)
test_block apt (sample ∷ samples) =
    let (passed, next) = test apt sample in
    elim passed [ true ↦ test_block next samples | false ↦ (false, next) ]

unfoldable pub reset : AdaptiveProportionTest → AdaptiveProportionTest
reset apt = record apt { first_sample = 0; match_count = 0; sample_count = 0 }

unfoldable pub get_state : AdaptiveProportionTest → ℕ × ℕ × ℕ × ℕ × ℕ
get_state apt = (apt.first_sample, apt.match_count, apt.sample_count, apt.cutoff, apt.window_size)
