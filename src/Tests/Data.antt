-- ===== src/Tests/Data.antt =====
-- Instances of what the development takes as parameters, and test data.
use mathlib.Core.List.Perm
use native.Mathlib.Nat.{mul_assoc}
use entropy_tdc_gateway.Common.{
  ℕ, ◌+◌, ◌*◌, ◌/◌, ◌%◌, true, ◌&&◌, none, List, ◌≡◌, refl, arith, ltb, leb, ◌==◌, length,
  replicate, if◌then◌else◌, inl, inr, Bool-cases, ap, ◌∙◌,
}
use entropy_tdc_gateway.Common.Float.{Float64, IsIeee, dist}
use entropy_tdc_gateway.Mqtt.{TdcEvent}
use entropy_tdc_gateway.Validation.Frequency.{Entries}
use entropy_tdc_gateway.Validation.Frequency.Counts.{IsRange}

-- a/b, where an even number divided by 2 is a whole one.
abbrev quotient : ℕ → ℕ → ℕ × ℕ
quotient a b = if (b == 2) && (a % 2 == 0) then (a / 2, 1) else (a, b)

-- Fractions for float64.
abbrev pub fractions : Float64
fractions = record {
  F = ℕ × ℕ;
  of_int = λ n. (n, 1);
  literal = λ n d. (n, d);
  add = λ x y. (x.0 * y.1 + y.0 * x.1, x.1 * y.1);
  sub = λ x y. (dist x.0 y.0, x.1);
  mul = λ x y. (x.0 * y.0, x.1 * y.1);
  div = λ x y. quotient x.0 y.0;
  neg = λ x. x;
  le = λ x y. leb (x.0 * y.1) (y.0 * x.1);
  lt = λ x y. ltb (x.0 * y.1) (y.0 * x.1);
  abs = λ x. x;
  log2 = λ x. x;
  sqrt = λ x. x;
  erfc = λ x. x;
  square = λ x. (x.0 * x.0, x.1 * x.1);
}

cross :
    (a b n d : ℕ)
    → (b == 2) && (a % 2 == 0) ≡ true
    → (a * d ≡ 2 * ((a / 2) * d)) × (n * b ≡ 2 * (n * 1))
cross a b n d h =
    let even : a ≡ 2 * (a / 2) = ground (arith, h) in
    let two : b ≡ 2 = ground (arith, h) in
    (ap (λ z. z * d) even ∙ mul_assoc 2 (a / 2) d, ap (λ z. n * z) two ∙ omega arith)

pub fractions-IsIeee : IsIeee fractions
fractions-IsIeee = record {
  literal_one = refl;
  half_exact = λ k h. ground arith;
  dist_exact = λ a b ha hb. refl;
  quotient_ge = λ a b n d ha hb p q r s. elim (Bool-cases ((b == 2) && (a % 2 == 0))) [
    | inl e ↦ rw e ground (arith, cross a b n d e)
    | inr e ↦ rw e refl
  ];
  quotient_le = λ a b n d ha hb p q r s. elim (Bool-cases ((b == 2) && (a % 2 == 0))) [
    | inl e ↦ rw e ground (arith, cross a b n d e)
    | inr e ↦ rw e refl
  ];
  quotient_lt = λ a b n d ha hb p q r s. elim (Bool-cases ((b == 2) && (a % 2 == 0))) [
    | inl e ↦ rw e ground (arith, cross a b n d e)
    | inr e ↦ rw e refl
  ];
}

-- A map that is visited in the order in which it was filled.
abbrev pub in_order : Entries → Entries
in_order freq = freq

pub in_order-IsRange : IsRange in_order
in_order-IsRange freq = Perm.refl freq

-- A digest that only has the right length.
abbrev pub constant_digest : List ℕ → List ℕ
constant_digest message = replicate 32 7

pub constant_digest-length : (message : List ℕ) → length (constant_digest message) ≡ 32
constant_digest-length message = refl

-- An event with the given timestamp.
abbrev pub event_at : ℕ → TdcEvent
event_at t = record {
  rpi_timestamp_us = 10;
  channel = 1;
  tdc_timestamp_ps = t;
  delta_ps = none;
  flags = none;
}
