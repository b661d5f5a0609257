-- ===== src/Validation/Quick.antt =====
-- internal/validation/quick_tests.go: the frequency test, the runs test and the summary statistics.
-- A loop is a function of its variables. The map order of Go is a parameter, as is float64.
pub mod Bits
pub mod Verdicts
pub mod Summary
use entropy_tdc_gateway.Common.{
  ℕ, zero, suc, ◌+◌, ◌*◌, ◌≡◌, Bool, true, false, ◌&&◌, ◌||◌, Option, none, some, List, [], ◌∷◌,
  ltb, ◌==◌, if◌then◌else◌, length, take, is_empty, min,
}
use entropy_tdc_gateway.Common.Bytes.{bit}
use entropy_tdc_gateway.Common.Float.{Float64}
use entropy_tdc_gateway.Validation.Frequency.{Entries, tally, most_common}

-- `bits.OnesCount8`
abbrev pub ones_count8 : ℕ → ℕ
ones_count8 b =
    bit b 7 + (bit b 6 + (bit b 5 + (bit b 4 + (bit b 3 + (bit b 2 + (bit b 1 + bit b 0))))))

unfoldable pub count_ones : ℕ → List ℕ → ℕ
count_ones ones [] = ones
count_ones ones (b ∷ data') = count_ones (ones + ones_count8 b) data'

-- The inner loop of `RunsTest`, for the bits i-1 down to 0: the runs so far and the last bit.
unfoldable pub bit_runs : ℕ → ℕ → ℕ × ℕ → ℕ × ℕ
bit_runs zero b s = s
bit_runs (suc i) b (runs, last_bit) =
    bit_runs i b (if bit b i == last_bit then (runs, last_bit) else (runs + 1, bit b i))

-- The outer loop; the first byte starts at bit 6.
unfoldable pub byte_runs : Bool → List ℕ → ℕ × ℕ → ℕ × ℕ
byte_runs first_byte [] s = s
byte_runs first_byte (b ∷ data') s =
    byte_runs false data' (bit_runs (if first_byte then 7 else 8) b s)

unfoldable pub count_runs : List ℕ → ℕ
count_runs [] = 0
count_runs (b ∷ data') = (byte_runs true (b ∷ data') (1, bit b 7)).0

-- The loop of `computeRCTStat` from index i on: maxRepetitions, currentRepetitions, lastByte.
unfoldable pub repetitions : ℕ → ℕ → List ℕ → ℕ × ℕ × ℕ → ℕ × ℕ × ℕ
repetitions window i [] s = s
repetitions window i (x ∷ data') (max_rep, current, last_byte) =
    let next : ℕ × ℕ × ℕ =
      if x == last_byte
      then (if ltb max_rep (current + 1) then current + 1 else max_rep, current + 1, last_byte)
      else (max_rep, 1, x) in
    let rest = repetitions window (i + 1) data' next in
    if ltb i window then rest else (max_rep, current, last_byte)

unfoldable pub max_repetitions : List ℕ → ℕ → ℕ
unfolding repetitions
max_repetitions [] window = 0
max_repetitions (x ∷ data') window =
    if window == 0 then 0 else (repetitions window 1 data' (1, 1, x)).0

-- The fields of the protocol message `TestSummary` that the summary fills.
pub record TestSummary (F : Type 0) : Type 0 where
  pub freq_pvalue : F
  pub runs_pvalue : F
  pub rct_stat : Option F
  pub apt_stat : Option F
  pub rct_window : Option ℕ
  pub apt_window : Option ℕ

module _ (fl : Float64) where
  open fl use {F, of_int, literal, sub, div, le, lt, abs}

  unfoldable pub frequency_test : List ℕ → F × Bool
  frequency_test data' =
      if is_empty data'
      then (of_int 0, false)
      else (let ratio = div (of_int (count_ones 0 data')) (of_int (length data' * 8)) in
          (ratio, le (literal 45 100) ratio && le ratio (literal 55 100)))

  unfoldable pub runs_test : List ℕ → ℕ × Bool
  runs_test data' =
      if is_empty data'
      then (0, false)
      else (let expected = div (of_int (length data' * 8)) (of_int 2) in
          let deviation = div (abs (sub (of_int (count_runs data')) expected)) expected in
          (count_runs data', lt deviation (literal 1 10)))

  unfoldable pub compute_rct_stat : List ℕ → ℕ → F
  compute_rct_stat data' window = of_int (max_repetitions data' window)

  -- p-values are cut to [0, 1].
  unfoldable pub clamp_p_value : F → F
  clamp_p_value p =
      let low = if lt p (of_int 0) then of_int 0 else p in
      if lt (of_int 1) low then of_int 1 else low

  unfoldable pub compute_frequency_p_value : List ℕ → F → F
  unfolding clamp_p_value
  compute_frequency_p_value data' ratio =
      let n = of_int (length data' * 8) in
      let ones = fl.mul ratio n in
      let expected = div n (of_int 2) in
      let chi_sq = div (fl.square (sub ones expected)) expected in
      clamp_p_value (fl.erfc (fl.sqrt (div chi_sq (of_int 2))))

  unfoldable pub compute_runs_p_value : List ℕ → ℕ → F
  unfolding clamp_p_value
  compute_runs_p_value data' runs =
      let n = of_int (length data' * 8) in
      let expected_runs = div n (of_int 2) in
      let variance = div n (of_int 4) in
      let z = div (abs (sub (of_int runs) expected_runs)) (fl.sqrt variance) in
      clamp_p_value (fl.erfc (div z (fl.sqrt (of_int 2))))

  -- The largest count in the map of the first bytes over their number; `range` is the order of
  -- visits.
  unfoldable pub compute_apt_stat : (Entries → Entries) → List ℕ → ℕ → F
  compute_apt_stat range data' window =
      let window_size = if ltb (length data') window then length data' else window in
      if is_empty data' || (window == 0)
      then of_int 0
      else div (of_int (most_common (range (tally (take window_size data') [])) (0, 0)).1)
          (of_int window_size)

  -- `ComputeTestSummary` fills the message of the generated code; the windows are uint32.
  unfoldable pub compute_test_summary : (Entries → Entries) → List ℕ → ℕ → ℕ → TestSummary F
  compute_test_summary range data' rct_window apt_window =
      if is_empty data'
      then record {
        freq_pvalue = of_int 0;
        runs_pvalue = of_int 0;
        rct_stat = none;
        apt_stat = none;
        rct_window = none;
        apt_window = none;
      }
      else record {
        freq_pvalue = compute_frequency_p_value data' (frequency_test data').0;
        runs_pvalue = compute_runs_p_value data' (runs_test data').0;
        rct_stat = some (compute_rct_stat data' rct_window);
        apt_stat = some (compute_apt_stat range data' apt_window);
        rct_window = some rct_window;
        apt_window = some apt_window;
      }
