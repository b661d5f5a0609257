-- ===== src/Entropy/Whitening.antt =====
-- internal/entropy/whitening.go. SHA-256 is a parameter: `sum256` maps a message to its digest.
-- A nil slice and an empty one are both the empty list.
pub mod Parity
pub mod Packing
pub mod Debias
pub mod Counts
use Prim.Native.Nat.{bit_or, bit_xor}
use entropy_tdc_gateway.Common.{
  ℕ, zero, suc, ◌+◌, ◌-◌, ◌*◌, ◌/◌, ◌%◌, ◌^◌, ◌&&◌, List, [], ◌∷◌, ◌++◌, leb, ltb, ◌==◌,
  if◌then◌else◌, length, replicate, is_empty,
}
use entropy_tdc_gateway.Common.Int.{ℤ, pos, negsuc, leb_ℤ}
use entropy_tdc_gateway.Common.Bytes.{bit}
use entropy_tdc_gateway.Common.Float.{Float64}

-- `output[index] = input[index] ^ input[index+1]` for each index but the last.
unfoldable pub parity_preprocess : List ℕ → List ℕ
parity_preprocess [] = []
parity_preprocess (x ∷ []) = []
parity_preprocess (x ∷ y ∷ ys) = bit_xor x y ∷ parity_preprocess (y ∷ ys)

-- One round of the inner loop of `VonNeumannExtractor`: the bit that a pair gives, if any.
unfoldable pub extract_pair : ℕ → ℕ → List ℕ
extract_pair value pair_index =
    let first_bit_index = 7 - pair_index * 2 in
    let second_bit_index = first_bit_index - 1 in
    let first_bit = bit value first_bit_index in
    let second_bit = bit value second_bit_index in
    if first_bit == second_bit then [] else if first_bit == 0 then 0 ∷ [] else 1 ∷ []

unfoldable pub extract_byte : ℕ → List ℕ
unfolding extract_pair
extract_byte value =
    extract_pair value 0 ++ (extract_pair value 1 ++ (extract_pair value 2 ++ extract_pair value 3))

unfoldable pub extract_bits : List ℕ → List ℕ
extract_bits [] = []
extract_bits (value ∷ input) = extract_byte value ++ extract_bits input

-- `output[i] |= 1 << p`
unfoldable pub or_at : ℕ → ℕ → List ℕ → List ℕ
or_at i p [] = []
or_at zero p (v ∷ output) = bit_or v (2 ^ p) ∷ output
or_at (suc i) p (v ∷ output) = v ∷ or_at i p output

-- The loop of `packBits` from `index` on.
unfoldable pub pack_from : ℕ → List ℕ → List ℕ → List ℕ
pack_from index [] output = output
pack_from index (b ∷ bits) output =
    pack_from (index + 1) bits (if b == 0 then output else or_at (index / 8) (7 - index % 8) output)

unfoldable pub pack_bits : List ℕ → List ℕ
pack_bits bits =
    if is_empty bits then [] else pack_from 0 bits (replicate ((length bits + 7) / 8) 0)

unfoldable pub von_neumann_extractor : List ℕ → List ℕ
von_neumann_extractor input = pack_bits (extract_bits input)

module _ (sum256 : List ℕ → List ℕ) where
  unfoldable pub sha256_conditioner : List ℕ → List ℕ
  sha256_conditioner input = if is_empty input then [] else sum256 input

  unfoldable pub dual_stage_whitening : List ℕ → List ℕ
  unfolding sha256_conditioner
  dual_stage_whitening raw_tdc =
      let stage_one = parity_preprocess raw_tdc in
      if is_empty stage_one then [] else sha256_conditioner stage_one

abbrev pub max_uint32 : ℕ
max_uint32 = 2 ^ 32 - 1

-- `uint32(bytesCount) << 3` wraps at 2^32.
unfoldable pub to_bit_count : ℤ → ℕ
to_bit_count (negsuc n) = 0
to_bit_count (pos n) =
    if n == 0 then 0 else if leb (max_uint32 / 8) n then max_uint32 else n % 2 ^ 32 * 8 % 2 ^ 32

pub record WhiteningStats (F : Type 0) : Type 0 where
  pub input_bits : ℕ
  pub output_bits : ℕ
  pub extraction_rate : F

module _ (fl : Float64) where
  open fl use {F, of_int, div}

  unfoldable pub compute_whitening_stats : ℤ → ℤ → WhiteningStats F
  unfolding to_bit_count
  compute_whitening_stats input_bytes output_bytes =
      let input_bits = to_bit_count input_bytes in
      let output_bits = to_bit_count output_bytes in
      if leb_ℤ input_bytes (pos 0) && leb_ℤ (pos 0) input_bytes
      then record { input_bits = 0; output_bits = 0; extraction_rate = of_int 0 }
      else record {
        input_bits = input_bits;
        output_bits = output_bits;
        extraction_rate =
            if ltb 0 input_bits then div (of_int output_bits) (of_int input_bits) else of_int 0;
      }
