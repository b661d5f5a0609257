-- ===== src/Entropy/Whitening/Packing.antt =====
-- `packBits` against the bits of its output, most significant bit of each byte first.
use entropy_tdc_gateway.Common.{
  ℕ, zero, suc, ◌+◌, ◌-◌, ◌*◌, ◌/◌, ◌%◌, ◌≤◌, ◌<◌, ◌≡◌, refl, ◌∙◌, ap, Bool, not, ◌≢◌, inl, inr,
  List, [], ◌∷◌, arith, leb, ◌==◌, ◌&&◌, if◌then◌else◌, Bool-cases, length, replicate,
  length-replicate,
}
use native.Mathlib.Nat.{zero-div}
use native.Mathlib.Decide.{dec_lt}
use entropy_tdc_gateway.Common.Bytes.{AreBytes, bit, bit_or-IsByte, bit-bit_or}
use entropy_tdc_gateway.Entropy.Whitening.{or_at, pack_from, pack_bits}

-- The byte at an index, 0 beyond the end.
abbrev pub byte_at : List ℕ → ℕ → ℕ
byte_at [] i = 0
byte_at (v ∷ output) zero = v
byte_at (v ∷ output) (suc i) = byte_at output i

-- Bit k of a byte stream.
abbrev pub bit_at : List ℕ → ℕ → ℕ
bit_at output k = bit (byte_at output (k / 8)) (7 - k % 8)

-- What stands at an index of a list of bits, as 0 or 1.
abbrev pub flag_at : List ℕ → ℕ → ℕ
flag_at [] k = 0
flag_at (b ∷ bits) zero = if b == 0 then 0 else 1
flag_at (b ∷ bits) (suc k) = flag_at bits k

or_at-AreBytes : (i p : ℕ) (output : List ℕ) → p < 8 → AreBytes output → AreBytes (or_at i p output)
unfolding or_at
or_at-AreBytes i p [] hp h = h
or_at-AreBytes zero p (v ∷ output) hp h = (bit_or-IsByte v p h.0 hp, h.1)
or_at-AreBytes (suc i) p (v ∷ output) hp h = (h.0, or_at-AreBytes i p output hp h.1)

length-or_at : (i p : ℕ) (output : List ℕ) → length (or_at i p output) ≡ length output
unfolding or_at
length-or_at i p [] = refl
length-or_at zero p (v ∷ output) = refl
length-or_at (suc i) p (v ∷ output) = ap suc (length-or_at i p output)

bit-or_at :
    (i p j q : ℕ) (output : List ℕ)
    → p < 8
    → q < 8
    → i < length output
    → AreBytes output
    → bit (byte_at (or_at i p output) j) q
      ≡ (if (j == i) && (q == p) then 1 else bit (byte_at output j) q)
unfolding or_at
bit-or_at i p j q [] hp hq hi h = absurd (omega arith)
bit-or_at zero p zero q (v ∷ output) hp hq hi h = bit-bit_or v p q h.0 hp hq
bit-or_at zero p (suc j) q (v ∷ output) hp hq hi h = ground arith
bit-or_at (suc i) p zero q (v ∷ output) hp hq hi h = ground arith
bit-or_at (suc i) p (suc j) q (v ∷ output) hp hq hi h =
    ground (arith, bit-or_at i p j q output hp hq (omega arith) h.1)

same_bit : (index k : ℕ) → (k / 8 == index / 8) && (7 - k % 8 == 7 - index % 8) ≡ (k == index)
same_bit index k = ground arith

-- One round of the loop sets bit `index` if it is told to, and no other.
bit_at-or_at :
    (index k : ℕ) (output : List ℕ)
    → index < 8 * length output
    → AreBytes output
    → bit_at (or_at (index / 8) (7 - index % 8) output) k
      ≡ (if k == index then 1 else bit_at output k)
bit_at-or_at index k output hi h =
    bit-or_at (index / 8) (7 - index % 8) (k / 8) (7 - k % 8) output (omega arith) (omega arith)
      (omega arith) h
    ∙ ap (λ t. if t then 1 else bit_at output k) (same_bit index k)

-- Whether the list, laid down from bit `index` on, sets bit `k`.
abbrev sets : ℕ → List ℕ → ℕ → Bool
sets index bits k = leb index k && (flag_at bits (k - index) == 1)

flag_at_pos : (b n : ℕ) (bits : List ℕ) → n ≢ 0 → flag_at (b ∷ bits) n ≡ flag_at bits (n - 1)
flag_at_pos b zero bits h = absurd (h refl)
flag_at_pos b (suc n) bits h = ap (flag_at bits) (omega arith)

flag_at_first : (b n : ℕ) (bits : List ℕ) → n ≡ 0 → flag_at (b ∷ bits) n ≡ (if b == 0 then 0 else 1)
flag_at_first b n bits e = rw e

sets-cons :
    (index b : ℕ) (bits : List ℕ) (k : ℕ)
    → sets index (b ∷ bits) k ≡ (if k == index then not (b == 0) else sets (index + 1) bits k)
sets-cons index b bits k = elim (dec_lt index k) [
  | yes p ↦
      ground (arith, flag_at_pos b (k - index) bits (λ e. omega arith), ap (flag_at bits) (shift p))
  | no p ↦ ground (arith, flag_at_first b (k - index) bits (omega arith))
]
  where
    shift : index < k → k - index - 1 ≡ k - (index + 1)
    shift p = omega arith

-- What the loop leaves in the output.
pack_from-bits :
    (index : ℕ) (bits output : List ℕ) (k : ℕ)
    → index + length bits ≤ 8 * length output
    → AreBytes output
    → bit_at (pack_from index bits output) k ≡ (if sets index bits k then 1 else bit_at output k)
unfolding pack_from
pack_from-bits index [] output k h v = ground arith
pack_from-bits index (b ∷ bits) output k h v = elim (Bool-cases (b == 0)) [
  | inl e ↦
      rw (e, pack_from)
        (pack_from-bits (index + 1) bits output k (omega arith) v
          ∙ ground (arith, sets-cons index b bits k))
  | inr e ↦
      rw (e, pack_from)
        (pack_from-bits (index + 1) bits (or_at (index / 8) (7 - index % 8) output) k
            (omega (arith, length-or_at (index / 8) (7 - index % 8) output))
            (or_at-AreBytes (index / 8) (7 - index % 8) output (omega arith) v)
          ∙ ground (arith, sets-cons index b bits k, bit_at-or_at index k output (omega arith) v))
]

replicate-AreBytes : (n : ℕ) → AreBytes (replicate n 0)
replicate-AreBytes zero = tt
replicate-AreBytes (suc n) = (omega arith, replicate-AreBytes n)

byte_at-replicate : (n i : ℕ) → byte_at (replicate n 0) i ≡ 0
byte_at-replicate zero i = refl
byte_at-replicate (suc n) zero = refl
byte_at-replicate (suc n) (suc i) = byte_at-replicate n i

zero-bit : (i : ℕ) → bit 0 i ≡ 0
zero-bit i = rw zero-div

length-pack_from :
    (index : ℕ) (bits output : List ℕ) → length (pack_from index bits output) ≡ length output
unfolding pack_from
length-pack_from index [] output = refl
length-pack_from index (b ∷ bits) output = ground (
  arith,
  length-pack_from (index + 1) bits output,
  length-pack_from (index + 1) bits (or_at (index / 8) (7 - index % 8) output),
  length-or_at (index / 8) (7 - index % 8) output,
)

sets-zero : (bits : List ℕ) (k : ℕ) → sets 0 bits k ≡ (flag_at bits k == 1)
sets-zero bits k = ground (arith, ap (flag_at bits) (less k))
  where
    less : (j : ℕ) → j - 0 ≡ j
    less j = omega arith

flag_at-lt : (bits : List ℕ) (k : ℕ) → flag_at bits k < 2
flag_at-lt [] k = omega arith
flag_at-lt (b ∷ bits) zero = ground arith
flag_at-lt (b ∷ bits) (suc k) = flag_at-lt bits k

-- The packed bytes are as many as are needed, bit k of them is set exactly when entry k of the list
-- is there and not zero, and the bits beyond the list are zero.
pub pack_bits_lem :
    (bits : List ℕ) (k : ℕ)
    → (length (pack_bits bits) ≡ (length bits + 7) / 8)
      × (bit_at (pack_bits bits) k ≡ flag_at bits k)
unfolding pack_bits
pack_bits_lem [] k = (omega arith, zero-bit _)
pack_bits_lem (b ∷ bits) k = (
  length-pack_from 0 (b ∷ bits) zeros ∙ length-zeros,
  pack_from-bits 0 (b ∷ bits) zeros k (omega (arith, length-zeros)) (replicate-AreBytes n)
      ∙ ground (arith, sets-zero (b ∷ bits) k, clear, flag_at-lt (b ∷ bits) k),
)
  where
    n : ℕ
    n = (length (b ∷ bits) + 7) / 8

    zeros : List ℕ
    zeros = replicate n 0

    length-zeros : length zeros ≡ n
    length-zeros = length-replicate {A = ℕ} n 0

    clear : bit_at zeros k ≡ 0
    clear = ap (λ v. bit v (7 - k % 8)) (byte_at-replicate n (k / 8)) ∙ zero-bit (7 - k % 8)
