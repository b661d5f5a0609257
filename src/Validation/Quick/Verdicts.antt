-- ===== src/Validation/Quick/Verdicts.antt =====
-- The quick tests' verdicts in whole numbers, under the hypotheses on float64.
use entropy_tdc_gateway.Common.{
  ℕ, ◌+◌, ◌*◌, ◌^◌, ◌≤◌, ◌<◌, max, ◌≡◌, refl, sym, ◌∙◌, ap, ap₂, Bool, false, ◌&&◌, List, [], ◌∷◌,
  arith, ltb, leb, length, count, take, count-le-length,
}
use entropy_tdc_gateway.Common.Float.{Float64, IsIeee, dist}
use entropy_tdc_gateway.Validation.Quick.{
  count_ones, count_runs, frequency_test, runs_test, max_repetitions,
}
use entropy_tdc_gateway.Validation.Quick.Bits.{
  bits_of, changes, count_ones_lem, count_runs_lem, max_repetitions-longest, length-bits_of,
  changes-lt-bits,
}
use entropy_tdc_gateway.Validation.Rct.{RepetitionCountTest}
use entropy_tdc_gateway.Validation.Rct
use entropy_tdc_gateway.Validation.Rct.Runs.{test_block-longest, longest}

take_all : (xs : List ℕ) → take (length xs) xs ≡ xs
take_all [] = refl
take_all (x ∷ xs) = ap (◌∷◌ x) (take_all xs)

abbrev pub ones : List ℕ → ℕ
ones xs = count 1 (bits_of xs)

count_ones-ones : (xs : List ℕ) → count_ones 0 xs ≡ ones xs
count_ones-ones xs = omega (arith, count_ones_lem 0 xs)

ones-le : (xs : List ℕ) → ones xs ≤ length xs * 8
ones-le xs = omega (arith, count-le-length 1 (bits_of xs), length-bits_of xs)

-- Under the assumptions on float64, `FrequencyTest` passes exactly when between 45 and 55 percent
-- of the bits, both ends included, are set, for data that is not empty and shorter than 2^36 bytes.
pub frequency_test_passes :
    (fl : Float64)
    → IsIeee fl
    → (x : ℕ) (xs : List ℕ) → length (x ∷ xs) < 2 ^ 36
    → (frequency_test fl (x ∷ xs)).1 ≡ (
        leb (45 * (length (x ∷ xs) * 8)) (ones (x ∷ xs) * 100)
        && leb (ones (x ∷ xs) * 100) (55 * (length (x ∷ xs) * 8)))
unfolding frequency_test
frequency_test_passes fl ieee x xs h = rw (count_ones-ones (x ∷ xs)) (
    ap₂ ◌&&◌
      (ieee.quotient_ge (ones (x ∷ xs)) (length (x ∷ xs) * 8) 45 100 small (omega arith)
        (omega arith) (omega arith) (omega arith) (omega arith))
      (ieee.quotient_le (ones (x ∷ xs)) (length (x ∷ xs) * 8) 55 100 small (omega arith)
        (omega arith) (omega arith) (omega arith) (omega arith)))
  where
    small : ones (x ∷ xs) < 2 ^ 40
    small = omega (arith, ones-le (x ∷ xs))

-- The number of runs of equal bits.
abbrev pub runs : List ℕ → ℕ
runs xs = 1 + changes (bits_of xs)

runs-le : (x : ℕ) (xs : List ℕ) → count_runs (x ∷ xs) ≤ length (x ∷ xs) * 8
runs-le x xs = omega (arith, count_runs_lem x xs, changes-lt-bits x xs, length-bits_of (x ∷ xs))

dist-lt : (a b m : ℕ) → a < m → b < m → dist a b < m
dist-lt a b m ha hb = ground arith

-- Under the assumptions on float64, `RunsTest` passes exactly when the number of runs is within ten
-- percent, excluded, of half the number of bits, for data that is not empty and shorter than 2^36
-- bytes.
pub runs_test_passes :
    (fl : Float64)
    → IsIeee fl
    → (x : ℕ) (xs : List ℕ) → length (x ∷ xs) < 2 ^ 36
    → runs_test fl (x ∷ xs)
      ≡ (runs (x ∷ xs), ltb (dist (runs (x ∷ xs)) (4 * length (x ∷ xs)) * 10) (4 * length (x ∷ xs)))
unfolding runs_test
runs_test_passes fl ieee x xs h =
    rw (half, far)
      (ap (λ (b : Bool). (count_runs (x ∷ xs), b))
          (ieee.quotient_lt (dist (count_runs (x ∷ xs)) (4 * length (x ∷ xs))) (4 * length (x ∷ xs))
            1 10
            (dist-lt (count_runs (x ∷ xs)) (4 * length (x ∷ xs)) (2 ^ 40)
              (omega (arith, runs-le x xs)) (omega arith))
            (omega arith) (omega arith) (omega arith) (omega arith) (omega arith))
        ∙ ap₂ (λ r k. (r, ltb (dist r (4 * length (x ∷ xs)) * 10) k)) (count_runs_lem x xs) once)
  where
    half : fl.div (fl.of_int (length (x ∷ xs) * 8)) (fl.of_int 2) ≡ fl.of_int (4 * length (x ∷ xs))
    half =
        ap (λ k. fl.div (fl.of_int k) (fl.of_int 2)) (omega arith)
        ∙ ieee.half_exact (4 * length (x ∷ xs)) (omega arith)

    once : 1 * (4 * length (x ∷ xs)) ≡ 4 * length (x ∷ xs)
    once = omega arith

    far :
        fl.abs (fl.sub (fl.of_int (count_runs (x ∷ xs))) (fl.of_int (4 * length (x ∷ xs))))
        ≡ fl.of_int (dist (count_runs (x ∷ xs)) (4 * length (x ∷ xs)))
    far = ieee.dist_exact _ _ (omega (arith, runs-le x xs)) (omega arith)

-- The statistic that is reported decides the health test: over the whole block it is below the
-- cutoff, or below two, exactly when a test that was just made or reset passes the block.
pub max_repetitions_decides :
    (rct : RepetitionCountTest) (xs : List ℕ)
    → rct.initialized ≡ false
    → (Rct.test_block rct xs).0 ≡ ltb (max_repetitions xs (length xs)) (max 2 rct.cutoff)
max_repetitions_decides rct xs h =
    test_block-longest rct xs h
    ∙ ap (λ k. ltb k (max 2 rct.cutoff))
        (sym (max_repetitions-longest xs (length xs) ∙ ap longest (take_all xs)))
