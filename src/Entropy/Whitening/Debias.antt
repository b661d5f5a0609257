-- ===== src/Entropy/Whitening/Debias.antt =====
-- The Von Neumann extractor is symmetric: swapping the bits of each pair flips each extracted bit.
use mathlib.Core.List.{map-append}
use entropy_tdc_gateway.Common.{
  ℕ, ◌+◌, ◌-◌, ◌*◌, ◌≡◌, refl, arith, sym, ◌∙◌, ap₂, List, [], ◌∷◌, ◌++◌, map, Bool, true, ◌&&◌,
  false, ◌==◌,
}
use entropy_tdc_gateway.Common.Bytes.{AreBytes, bit, holds_below, holds_below-test}
use entropy_tdc_gateway.Entropy.Whitening.{extract_byte, extract_bits}

-- The byte with the two bits of each of its four pairs swapped.
pub swap_pairs : ℕ → ℕ
swap_pairs v =
    bit v 6 * 128
    + bit v 7 * 64
    + bit v 4 * 32
    + bit v 5 * 16
    + bit v 2 * 8
    + bit v 3 * 4
    + bit v 0 * 2
    + bit v 1

pub flip : ℕ → ℕ
flip b = 1 - b

abbrev same_list : List ℕ → List ℕ → Bool
same_list [] [] = true
same_list (x ∷ xs) (y ∷ ys) = x == y && same_list xs ys
same_list _ _ = false

same_list_eq : (xs ys : List ℕ) → same_list xs ys ≡ true → xs ≡ ys
same_list_eq [] [] h = refl
same_list_eq [] (y ∷ ys) h = ground arith
same_list_eq (x ∷ xs) [] h = ground arith
same_list_eq (x ∷ xs) (y ∷ ys) h = ground (arith, same_list_eq xs ys)

abbrev flips : ℕ → Bool
flips v = same_list (extract_byte (swap_pairs v)) (map flip (extract_byte v))

flips_table : holds_below flips 256 ≡ true
unfolding holds_below extract_byte swap_pairs flip
flips_table = refl

-- Swapping the bits of every pair of the input flips every extracted bit and changes neither their
-- number nor their order, so that where both orders of a pair are as likely, 0 and 1 are too.
pub extract_bits-swap_pairs :
    (xs : List ℕ) → AreBytes xs → extract_bits (map swap_pairs xs) ≡ map flip (extract_bits xs)
unfolding extract_bits
extract_bits-swap_pairs [] h = refl
extract_bits-swap_pairs (v ∷ xs) h =
    ap₂ ◌++◌ (same_list_eq _ _ (holds_below-test flips 256 flips_table v h.0))
      (extract_bits-swap_pairs xs h.1)
    ∙ sym (map-append flip (extract_byte v) (extract_bits xs))
