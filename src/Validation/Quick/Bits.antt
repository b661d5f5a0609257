-- ===== src/Validation/Quick/Bits.antt =====
-- The bit loops against the list of bits of the data.
use entropy_tdc_gateway.Common.{
  ℕ, zero, suc, ◌+◌, ◌*◌, ◌≤◌, ◌<◌, ◌≡◌, refl, ◌∙◌, ap, true, false, List, [], ◌∷◌, ◌++◌, arith,
  ◌==◌, ==_iff, sym, if◌then◌else◌, length-append, Bool-cases, inl, inr, length, count, max, take,
}
use entropy_tdc_gateway.Common.Bytes.{bit}
use entropy_tdc_gateway.Validation.Quick.{
  ones_count8, count_ones, bit_runs, byte_runs, count_runs, repetitions, max_repetitions,
}
use entropy_tdc_gateway.Validation.Rct.Runs.{lead, longest}

-- Bits i-1 down to 0.
unfoldable pub low_bits : ℕ → ℕ → List ℕ
low_bits zero b = []
low_bits (suc i) b = bit b i ∷ low_bits i b

-- The bit stream, most significant bit of each byte first.
unfoldable pub bits_of : List ℕ → List ℕ
unfolding low_bits
bits_of [] = []
bits_of (b ∷ bs) = low_bits 8 b ++ bits_of bs

-- How often neighbours differ.
unfoldable pub changes : List ℕ → ℕ
changes [] = 0
changes (x ∷ []) = 0
changes (x ∷ y ∷ ys) = let rest = changes (y ∷ ys) in if y == x then rest else suc rest

count_bit : (x : ℕ) (xs : List ℕ) → x < 2 → count 1 (x ∷ xs) ≡ x + count 1 xs
count_bit x xs h = ground arith

bit-lt : (b i : ℕ) → bit b i < 2
bit-lt b i = omega arith

sum_low : ℕ → ℕ → ℕ
sum_low zero b = 0
sum_low (suc i) b = bit b i + sum_low i b

count-low_bits : (i b : ℕ) (xs : List ℕ) → count 1 (low_bits i b ++ xs) ≡ sum_low i b + count 1 xs
unfolding sum_low low_bits
count-low_bits zero b xs = omega arith
count-low_bits (suc i) b xs =
    omega (arith, count_bit (bit b i) (low_bits i b ++ xs) (bit-lt b i), count-low_bits i b xs)

ones_count8-low_bits :
    (b : ℕ) (xs : List ℕ) → count 1 (low_bits 8 b ++ xs) ≡ ones_count8 b + count 1 xs
unfolding sum_low
ones_count8-low_bits b xs = count-low_bits 8 b xs ∙ omega arith

-- `FrequencyTest` counts the set bits of the stream.
pub count_ones_lem : (ones : ℕ) (xs : List ℕ) → count_ones ones xs ≡ ones + count 1 (bits_of xs)
unfolding count_ones bits_of
count_ones_lem ones [] = omega arith
count_ones_lem ones (b ∷ bs) =
    count_ones_lem (ones + ones_count8 b) bs ∙ omega (arith, ones_count8-low_bits b (bits_of bs))

-- The two loops of `RunsTest` as one over the bits.
runs_over : List ℕ → ℕ × ℕ → ℕ × ℕ
runs_over [] s = s
runs_over (x ∷ xs) (runs, last_bit) =
    runs_over xs (if x == last_bit then (runs, last_bit) else (runs + 1, x))

bit_runs-runs_over :
    (i b : ℕ) (xs : List ℕ) (s : ℕ × ℕ)
    → runs_over xs (bit_runs i b s) ≡ runs_over (low_bits i b ++ xs) s
unfolding bit_runs runs_over low_bits
bit_runs-runs_over zero b xs s = refl
bit_runs-runs_over (suc i) b xs s = bit_runs-runs_over i b xs _

byte_runs-runs_over : (bs : List ℕ) (s : ℕ × ℕ) → byte_runs false bs s ≡ runs_over (bits_of bs) s
unfolding byte_runs runs_over bits_of
byte_runs-runs_over [] s = refl
byte_runs-runs_over (b ∷ bs) s =
    byte_runs-runs_over bs (bit_runs 8 b s) ∙ bit_runs-runs_over 8 b (bits_of bs) s

runs_over-changes :
    (xs : List ℕ) (runs last_bit : ℕ)
    → (runs_over xs (runs, last_bit)).0 ≡ runs + changes (last_bit ∷ xs)
unfolding runs_over changes
runs_over-changes [] runs last_bit = omega arith
runs_over-changes (x ∷ xs) runs last_bit = elim (Bool-cases (x == last_bit)) [
  | inl e ↦
      rw (e, runs_over)
        (runs_over-changes xs runs last_bit
          ∙ ap (λ v. runs + changes (v ∷ xs)) (sym ((==_iff x last_bit).0 e)))
  | inr e ↦ rw (e, runs_over) (omega (arith, runs_over-changes xs (runs + 1) x))
]

-- The first byte: its first bit is the one to start from.
byte_runs_first :
    (b : ℕ) (bs : List ℕ) (s : ℕ × ℕ)
    → byte_runs true (b ∷ bs) s ≡ runs_over (low_bits 7 b ++ bits_of bs) s
unfolding byte_runs
byte_runs_first b bs s =
    byte_runs-runs_over bs (bit_runs 7 b s) ∙ bit_runs-runs_over 7 b (bits_of bs) s

-- `RunsTest` counts the runs of equal bits: one more than the changes along the stream.
pub count_runs_lem : (b : ℕ) (bs : List ℕ) → count_runs (b ∷ bs) ≡ 1 + changes (bits_of (b ∷ bs))
unfolding count_runs bits_of
count_runs_lem b bs =
    ap (λ (p : ℕ × ℕ). p.0) (byte_runs_first b bs (1, bit b 7))
    ∙ runs_over-changes (low_bits 7 b ++ bits_of bs) 1 (bit b 7)

-- The loop of `computeRCTStat`, and the longest run of the `n` bytes that it still looks at.
repetitions_lem :
    (n window i : ℕ) (xs : List ℕ) (most current last_byte : ℕ)
    → i + n ≡ window
    → 1 ≤ current
    → current ≤ most
    → (repetitions window i xs (most, current, last_byte)).0
      ≡ max most (max (current + lead last_byte (take n xs)) (longest (take n xs)))
unfolding repetitions
repetitions_lem zero window i [] most current last_byte w p q = omega arith
repetitions_lem zero window i (x ∷ xs) most current last_byte w p q = ground arith
repetitions_lem (suc n) window i [] most current last_byte w p q = omega arith
repetitions_lem (suc n) window i (x ∷ xs) most current last_byte w p q = ground (
  arith,
  repetitions_lem n window (i + 1) xs (max most (current + 1)) (current + 1) last_byte (omega arith)
      (omega arith) (omega arith),
  repetitions_lem n window (i + 1) xs most 1 x (omega arith) (omega arith) (omega arith),
)

longest-take_nil : (w : ℕ) → longest (take w []) ≡ 0
longest-take_nil zero = refl
longest-take_nil (suc w) = refl

-- The statistic is the length of the longest run of equal bytes among the first `window` ones.
pub max_repetitions-longest :
    (xs : List ℕ) (window : ℕ) → max_repetitions xs window ≡ longest (take window xs)
unfolding max_repetitions
max_repetitions-longest [] window = sym (longest-take_nil window)
max_repetitions-longest (x ∷ xs) zero = refl
max_repetitions-longest (x ∷ xs) (suc w) =
    ground (arith, repetitions_lem w (suc w) 1 xs 1 1 x (omega arith) (omega arith) (omega arith))

length-low_bits : (i b : ℕ) → length (low_bits i b) ≡ i
unfolding low_bits
length-low_bits zero b = refl
length-low_bits (suc i) b = ap suc (length-low_bits i b)

pub length-bits_of : (xs : List ℕ) → length (bits_of xs) ≡ length xs * 8
unfolding bits_of
length-bits_of [] = refl
length-bits_of (b ∷ bs) =
    omega (arith, length-append (low_bits 8 b) (bits_of bs), length-low_bits 8 b, length-bits_of bs)

changes-lt : (x : ℕ) (xs : List ℕ) → suc (changes (x ∷ xs)) ≤ length (x ∷ xs)
unfolding changes
changes-lt x [] = omega arith
changes-lt x (y ∷ ys) = ground (arith, changes-lt y ys)

pub changes-lt-bits :
    (b : ℕ) (bs : List ℕ) → suc (changes (bits_of (b ∷ bs))) ≤ length (bits_of (b ∷ bs))
unfolding bits_of
changes-lt-bits b bs = changes-lt (bit b 7) (low_bits 7 b ++ bits_of bs)
