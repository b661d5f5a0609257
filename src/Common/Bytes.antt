-- ===== src/Common/Bytes.antt =====
-- Bytes: numbers below 256, their bits, and what `^` and `|` do to them, by tables over all values.
use Prim.Native.Nat.{bit_or, bit_xor}
use Prim.Native.Nat.{ℕ, zero, suc, ◌/◌, ◌%◌, ◌^◌, ◌<◌}
use mathlib.Core.Path.{◌≡◌, refl, ap}
use mathlib.Core.Logic.{inl, inr}
use mathlib.Core.Bool.{Bool, true, false}
use mathlib.Core.List.{List, [], ◌∷◌}
use native.Mathlib.Omega.{arith}
use entropy_tdc_gateway.Common.Tests.{◌==◌, ==_iff, ltb, ltb→lt, if◌then◌else◌, Bool-cases}
use entropy_tdc_gateway.Common.Lists.{All}

abbrev pub IsByte : ℕ → Type 0
IsByte b = b < 256

abbrev pub AreBytes : List ℕ → Type 0
AreBytes = All IsByte

-- `(value >> i) & 1`
abbrev pub bit : ℕ → ℕ → ℕ
bit value i = value / 2 ^ i % 2

-- The low `n` bytes of a number, least significant first: `PutUint64` for n = 8.
unfoldable pub little_endian : ℕ → ℕ → List ℕ
little_endian zero v = []
little_endian (suc n) v = (v % 256) ∷ little_endian n (v / 256)

-- A test that is true of every number below the bound, by running it on each.
unfoldable pub holds_below : (ℕ → Bool) → ℕ → Bool
holds_below test zero = true
holds_below test (suc bound) = if test bound then holds_below test bound else false

pub holds_below-test :
    (test : ℕ → Bool) (bound : ℕ)
    → holds_below test bound ≡ true
    → (value : ℕ) → value < bound
    → test value ≡ true
unfolding holds_below
holds_below-test test zero table value small = absurd (omega arith)
holds_below-test test (suc bound) table value small = elim (Bool-cases (value == bound)) [
  | inl last ↦ ground (arith, ap test ((==_iff value bound).0 last))
  | inr earlier ↦ holds_below-test test bound ground arith value ground arith
]

holds_below-pair :
    (test : ℕ → ℕ → Bool) (rows columns a b : ℕ)
    → holds_below (λ row. holds_below (test row) columns) rows ≡ true
    → a < rows
    → b < columns
    → test a b ≡ true
holds_below-pair test rows columns a b table ra cb =
    holds_below-test (test a) columns
      (holds_below-test (λ row. holds_below (test row) columns) rows table a ra) b cb

xor_table : holds_below (λ a. holds_below (λ b. bit_xor a (bit_xor a b) == b) 256) 256 ≡ true
unfolding holds_below
xor_table = refl

pub bit_xor_cancel : (a b : ℕ) → IsByte a → IsByte b → bit_xor a (bit_xor a b) ≡ b
bit_xor_cancel a b ha hb =
    (==_iff _ b).0
      (holds_below-pair (λ x y. bit_xor x (bit_xor x y) == y) 256 256 a b xor_table ha hb)

-- Setting bit `p` of a byte gives a byte, in which bit `q` is set if it was or if q = p.
or_byte_table : holds_below (λ v. holds_below (λ p. ltb (bit_or v (2 ^ p)) 256) 8) 256 ≡ true
unfolding holds_below
or_byte_table = refl

pub bit_or-IsByte : (v p : ℕ) → IsByte v → p < 8 → IsByte (bit_or v (2 ^ p))
bit_or-IsByte v p hv hp =
    ltb→lt _ _ (holds_below-pair (λ a b. ltb (bit_or a (2 ^ b)) 256) 256 8 v p or_byte_table hv hp)

abbrev or_bit : ℕ → ℕ → ℕ → Bool
or_bit v p q = bit (bit_or v (2 ^ p)) q == (if q == p then 1 else bit v q)

or_bit_table : holds_below (λ v. holds_below (λ p. holds_below (or_bit v p) 8) 8) 256 ≡ true
unfolding holds_below
or_bit_table = refl

pub bit-bit_or :
    (v p q : ℕ)
    → IsByte v
    → p < 8
    → q < 8
    → bit (bit_or v (2 ^ p)) q ≡ (if q == p then 1 else bit v q)
bit-bit_or v p q hv hp hq = (==_iff _ _).0 (
    holds_below-test (or_bit v p) 8
      (holds_below-pair (λ a b. holds_below (or_bit a b) 8) 256 8 v p or_bit_table hv hp) q hq)
