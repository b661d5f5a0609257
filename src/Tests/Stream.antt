-- ===== src/Tests/Stream.antt =====
-- The theorems on the whitening pipeline and the pool at concrete data.
use entropy_tdc_gateway.Common.{
  All, ℕ, ◌*◌, ◌<◌, max, min, true, false, none, some, List, [], ◌∷◌, ◌++◌, ◌≡◌, refl, arith, ◌==◌,
  take, if◌then◌else◌,
}
use entropy_tdc_gateway.Common.Int.{pos, pos_part}
use entropy_tdc_gateway.Tests.Data.{
  fractions, in_order, constant_digest, constant_digest-length, event_at,
}
use entropy_tdc_gateway.Validation.Rct
use entropy_tdc_gateway.Validation.Apt
use entropy_tdc_gateway.Entropy.Whitening.{parity_preprocess, to_bit_count, max_uint32}
use entropy_tdc_gateway.Entropy.Whitening.Parity.{unfold_parity, unfold_parity-parity_preprocess}
use entropy_tdc_gateway.Entropy.Whitening.Counts.{to_bit_count_lem}
use entropy_tdc_gateway.Entropy.Pool.{WhitenedPool, raw_bytes, add_batch, extract_entropy}
use entropy_tdc_gateway.Entropy.Pool.Bounds.{IsValid}
use entropy_tdc_gateway.Entropy.Pool.Batches.{IsNewest, add_batch-IsNewest}
use entropy_tdc_gateway.Entropy.Pool.Extraction.{
  IsGranted, Outcome, IsStuck, answers, extract_entropy_serves, extract_entropy-Outcome,
  longest-extract_entropy, extract_entropy_stays_stuck,
}
use entropy_tdc_gateway.Entropy.Pool.History.{Call, adds, requests}
use entropy_tdc_gateway.Validation.Rct.Runs.{longest}

unfold_parity-parity_preprocess_example :
    unfold_parity 200 (parity_preprocess (200 ∷ 3 ∷ 77 ∷ [])) ≡ 200 ∷ 3 ∷ 77 ∷ []
unfold_parity-parity_preprocess_example =
    unfold_parity-parity_preprocess 200 (3 ∷ 77 ∷ [])
      (omega arith, (omega arith, (omega arith, tt)))

to_bit_count_lem_example :
    to_bit_count (pos 536870911)
    ≡ (if 536870911 == 536870911 then max_uint32 else min (8 * 536870911) max_uint32)
to_bit_count_lem_example = to_bit_count_lem 536870911

abbrev pool_of : List ℕ → WhitenedPool
pool_of bytes = record {
  raw_events = [];
  whitened = bytes;
  min_pool_size = 2;
  max_pool_size = 40;
  max_raw_events = 3;
  rct = record { cutoff = 3; last_sample = 0; repeat_count = 0; initialized = false };
  apt = record { cutoff = 3; window_size = 4; first_sample = 0; match_count = 0; sample_count = 0 };
}

abbrev pub stocked : WhitenedPool
stocked = pool_of (5 ∷ 5 ∷ 7 ∷ 9 ∷ [])

abbrev stuck : WhitenedPool
stuck = pool_of (5 ∷ 5 ∷ 5 ∷ 9 ∷ [])

pub stocked-IsValid : IsValid stocked
stocked-IsValid = record {
  reserve = omega arith;
  ordered = omega arith;
  whitened_bound = omega arith;
  raw_bound = omega arith;
}

stocked-IsGranted : IsGranted stocked 3
stocked-IsGranted = record { positive = omega arith; reserve = omega arith; enough = omega arith }

add_batch-IsNewest_example :
    let next =
      (add_batch fractions in_order constant_digest stocked (event_at 77 ∷ event_at 78 ∷ [])).0 in
    let digest = constant_digest (parity_preprocess (raw_bytes (event_at 77 ∷ event_at 78 ∷ []))) in
    IsNewest stocked.max_pool_size (stocked.whitened ++ digest) next.whitened
    × IsNewest stocked.max_raw_events
        (stocked.raw_events ++ event_at 77 ∷ event_at 78 ∷ [])
        next.raw_events
add_batch-IsNewest_example =
    add_batch-IsNewest fractions in_order constant_digest constant_digest-length stocked
      (event_at 77) (event_at 78 ∷ [])

rct_passes : (Rct.test_block stocked.rct (take 3 stocked.whitened)).0 ≡ true
unfolding Rct.test_block Rct.test
rct_passes = refl

apt_passes : (Apt.test_block stocked.apt (take 3 stocked.whitened)).0 ≡ true
unfolding Apt.test_block Apt.test Apt.note_sample Apt.close_window
apt_passes = refl

extract_entropy-Outcome_example :
    Outcome stocked (pos_part (pos 3)) (extract_entropy stocked (pos 3))
extract_entropy-Outcome_example = extract_entropy-Outcome stocked (pos 3)

served_three : (extract_entropy stocked (pos 3)).0 ≡ some (take 3 stocked.whitened)
served_three = rw (extract_entropy_serves stocked 3 stocked-IsGranted rct_passes apt_passes) refl

longest-extract_entropy_example : longest (take 3 stocked.whitened) < max 2 stocked.rct.cutoff
longest-extract_entropy_example =
    longest-extract_entropy stocked (pos 3) (take 3 stocked.whitened) served_three

stuck-IsStuck : IsStuck stuck 3
stuck-IsStuck = omega arith

-- Two requests for three bytes and one for four.
abbrev demands : List ℕ
demands = 3 ∷ 4 ∷ 3 ∷ []

extract_entropy_stays_stuck_example : All (λ answer. answer ≡ none) (answers demands stuck)
extract_entropy_stays_stuck_example =
    extract_entropy_stays_stuck 3 demands stuck (omega arith, (omega arith, (omega arith, tt)))
      stuck-IsStuck

abbrev calls : List Call
calls = requests (pos 3) ∷ adds (event_at 77 ∷ event_at 78 ∷ []) ∷ adds [] ∷ requests (pos 20) ∷ []
