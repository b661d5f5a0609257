-- ===== src/Validation/Rct.antt =====
-- RepetitionCountTest of internal/validation/continuous_health_tests.go. A method returns its
-- result beside the new state; the mutex makes each method one step. A sample is a byte.
pub mod Runs
use entropy_tdc_gateway.Common.{ℕ, ◌+◌, Bool, true, false, List, [], ◌∷◌, leb, ◌==◌, if◌then◌else◌}
use entropy_tdc_gateway.Common.Int.{ℤ, pos, leb_ℤ, pos_part}

pub record RepetitionCountTest : Type 0 where
  pub cutoff : ℕ
  pub last_sample : ℕ
  pub repeat_count : ℕ
  pub initialized : Bool

-- The fields that the Go literal leaves out are zero.
unfoldable pub new : ℤ → RepetitionCountTest
new cutoff = record {
  cutoff = if leb_ℤ cutoff (pos 0) then 40 else pos_part cutoff;
  last_sample = 0;
  repeat_count = 0;
  initialized = false;
}

unfoldable pub test : RepetitionCountTest → ℕ → Bool × RepetitionCountTest
test rct sample =
    if rct.initialized
    then if sample == rct.last_sample
      then (if leb rct.cutoff (rct.repeat_count + 1)
          then (false, record rct { repeat_count = rct.repeat_count + 1 })
          else (true, record rct { repeat_count = rct.repeat_count + 1 }))
      else (true, record rct { repeat_count = 1; last_sample = sample })
    else (true, record rct { last_sample = sample; repeat_count = 1; initialized = true })

-- `for … range samples`, leaving at the first failure.
unfoldable pub test_block : RepetitionCountTest → List ℕ → Bool × RepetitionCountTest
test_block rct [] = (true, rct)
test_block rct (sample ∷ samples) =
    let (passed, next) = test rct sample in
    elim passed [ true ↦ test_block next samples | false ↦ (false, next) ]

unfoldable pub reset : RepetitionCountTest → RepetitionCountTest
reset rct = record rct { last_sample = 0; repeat_count = 0; initialized = false }

unfoldable pub get_state : RepetitionCountTest → ℕ × ℕ × ℕ × Bool
get_state rct = (rct.last_sample, rct.repeat_count, rct.cutoff, rct.initialized)
