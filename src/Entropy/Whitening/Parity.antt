-- ===== src/Entropy/Whitening/Parity.antt =====
-- The parity fold keeps all but the first byte: with that byte the input can be rebuilt.
use Prim.Native.Nat.{bit_xor}
use entropy_tdc_gateway.Common.{
  ℕ, ◌-◌, ◌≤◌, ◌≡◌, refl, ◌∙◌, ap, List, [], ◌∷◌, arith, length, if◌then◌else◌, leb,
}
use entropy_tdc_gateway.Common.Bytes.{AreBytes, bit_xor_cancel}
use entropy_tdc_gateway.Entropy.Whitening.{parity_preprocess, dual_stage_whitening}

pub length-parity_preprocess : (xs : List ℕ) → length (parity_preprocess xs) ≡ length xs - 1
unfolding parity_preprocess
length-parity_preprocess [] = refl
length-parity_preprocess (x ∷ []) = refl
length-parity_preprocess (x ∷ y ∷ ys) = omega (arith, length-parity_preprocess (y ∷ ys))

-- Undo the fold from the first byte.
pub unfold_parity : ℕ → List ℕ → List ℕ
unfold_parity x [] = x ∷ []
unfold_parity x (p ∷ ps) = x ∷ unfold_parity (bit_xor x p) ps

-- No information but the first byte is lost by the parity stage: it and the output give the input.
pub unfold_parity-parity_preprocess :
    (x : ℕ) (xs : List ℕ)
    → AreBytes (x ∷ xs)
    → unfold_parity x (parity_preprocess (x ∷ xs)) ≡ x ∷ xs
unfolding unfold_parity parity_preprocess
unfold_parity-parity_preprocess x [] h = refl
unfold_parity-parity_preprocess x (y ∷ ys) h = ap (◌∷◌ x) (
    ap (λ z. unfold_parity z (parity_preprocess (y ∷ ys))) (bit_xor_cancel x y h.0 h.1.0)
    ∙ unfold_parity-parity_preprocess y ys h.1)

-- With at least two bytes of input the pipeline gives the digest of the parity stage, which is the
-- fold of adjacent bytes and one byte shorter; with fewer it gives nothing.
pub dual_stage_whitening_lem :
    (sum256 : List ℕ → List ℕ) (xs : List ℕ)
    → (dual_stage_whitening sum256 xs
        ≡ (if leb 2 (length xs) then sum256 (parity_preprocess xs) else []))
      × (length (parity_preprocess xs) ≡ length xs - 1)
unfolding dual_stage_whitening parity_preprocess
dual_stage_whitening_lem sum256 [] = (refl, refl)
dual_stage_whitening_lem sum256 (x ∷ []) = (refl, refl)
dual_stage_whitening_lem sum256 (x ∷ y ∷ ys) = (ground arith, length-parity_preprocess (x ∷ y ∷ ys))

pub dual_stage_digest :
    (sum256 : List ℕ → List ℕ) (xs : List ℕ)
    → 2 ≤ length xs
    → dual_stage_whitening sum256 xs ≡ sum256 (parity_preprocess xs)
dual_stage_digest sum256 xs h = ground (arith, (dual_stage_whitening_lem sum256 xs).0)
