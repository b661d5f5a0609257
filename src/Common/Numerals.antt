-- ===== src/Common/Numerals.antt =====
-- Decimal printing as `strconv.Itoa` does it, and what trimming does around a numeral.
use Prim.Native.Nat.{ℕ, zero, suc, ◌+◌, ◌-◌, ◌*◌, ◌/◌, ◌%◌, ◌^◌, ◌<◌}
use mathlib.Core.Path.{◌≡◌, refl, ap, ◌∙◌}
use mathlib.Core.Logic.{inl, inr}
use mathlib.Core.Bool.{Bool, true, false, ◌&&◌}
use mathlib.Core.Option.{some}
use mathlib.Core.List.{List, [], ◌∷◌, ◌++◌}
use native.Mathlib.Omega.{arith}
use entropy_tdc_gateway.Common.Tests.{ltb, if◌then◌else◌, Bool-cases, lt→ltb}
use entropy_tdc_gateway.Common.Lists.{is_empty}
use entropy_tdc_gateway.Common.Text.{
  is_space, is_digit, trim_left, trim_right, trim_space, parse_uint, parse_uint_lem, all_digits,
  decimal_from, decimal, lacks,
}

-- Fuel: one step per digit, so n + 1 steps are enough.
unfoldable pub print_digits : ℕ → ℕ → List ℕ
print_digits zero n = []
print_digits (suc fuel) n =
    let rest = print_digits fuel (n / 10) in
    if ltb n 10 then (48 + n) ∷ [] else rest ++ (48 + n % 10) ∷ []

abbrev pub print_decimal : ℕ → List ℕ
print_decimal n = print_digits (suc n) n

all_digits-append :
    (xs : List ℕ) (c : ℕ)
    → all_digits xs ≡ true
    → is_digit c ≡ true
    → all_digits (xs ++ c ∷ []) ≡ true
all_digits-append [] c h d = ground arith
all_digits-append (x ∷ xs) c h d = ground (arith, all_digits-append xs c)

decimal_from-append :
    (v : ℕ) (xs : List ℕ) (c : ℕ)
    → decimal_from v (xs ++ c ∷ []) ≡ 10 * decimal_from v xs + (c - 48)
decimal_from-append v [] c = refl
decimal_from-append v (x ∷ xs) c = decimal_from-append (10 * v + (x - 48)) xs c

pub all_digits-print : (fuel n : ℕ) → all_digits (print_digits fuel n) ≡ true
unfolding print_digits
all_digits-print zero n = refl
all_digits-print (suc fuel) n = elim (Bool-cases (ltb n 10)) [
  | inl e ↦ rw e ground arith
  | inr e ↦ rw e (
      all_digits-append (print_digits fuel (n / 10)) (48 + n % 10) (all_digits-print fuel (n / 10))
        ground arith)
]

decimal-print_digits : (fuel n : ℕ) → n < fuel → decimal (print_digits fuel n) ≡ n
unfolding print_digits
decimal-print_digits zero n h = omega arith
decimal-print_digits (suc fuel) n h = elim (Bool-cases (ltb n 10)) [
  | inl e ↦ rw e omega arith
  | inr e ↦ rw e (
      decimal_from-append 0 (print_digits fuel (n / 10)) (48 + n % 10)
      ∙ omega (arith, decimal-print_digits fuel (n / 10) ground arith))
]

nonempty-append : (xs : List ℕ) (c : ℕ) → is_empty (xs ++ c ∷ []) ≡ false
nonempty-append [] c = refl
nonempty-append (x ∷ xs) c = refl

pub is_empty-print : (fuel n : ℕ) → is_empty (print_digits (suc fuel) n) ≡ false
unfolding print_digits
is_empty-print fuel n = elim (Bool-cases (ltb n 10)) [
  | inl e ↦ rw e refl
  | inr e ↦ rw e (nonempty-append _ _)
]

-- Parsing a printed number gives it back, where it fits.
pub parse_uint-print_decimal :
    (bits n : ℕ) → n < 2 ^ bits → parse_uint bits (print_decimal n) ≡ some n
parse_uint-print_decimal bits n h =
    let value : decimal (print_decimal n) ≡ n = decimal-print_digits (suc n) n omega arith in
    let nonempty : is_empty (print_decimal n) ≡ false = is_empty-print n n in
    let pow : 0 < 2 ^ bits = omega (arith, h) in
    rw
      (
        parse_uint_lem bits (print_decimal n) pow,
        nonempty,
        all_digits-print (suc n) n,
        value,
        lt→ltb n (2 ^ bits) h,
      )
      refl

pub lacks-all_digits : (cs : List ℕ) → all_digits cs ≡ true → lacks 47 cs ≡ true
lacks-all_digits [] h = refl
lacks-all_digits (c ∷ cs) h = ground (arith, lacks-all_digits cs)

-- Trimming.
abbrev pub all_spaces : List ℕ → Bool
all_spaces [] = true
all_spaces (c ∷ cs) = is_space c && all_spaces cs

pub digit-space : (c : ℕ) → is_digit c ≡ true → is_space c ≡ false
unfolding is_space
digit-space c h = ground arith

trim_left-spaces : (ws cs : List ℕ) → all_spaces ws ≡ true → trim_left (ws ++ cs) ≡ trim_left cs
unfolding trim_left
trim_left-spaces [] cs h = refl
trim_left-spaces (w ∷ ws) cs h = ground (arith, trim_left-spaces ws cs)

trim_right-spaces : (ws : List ℕ) → all_spaces ws ≡ true → trim_right ws ≡ []
unfolding trim_right
trim_right-spaces [] h = refl
trim_right-spaces (w ∷ ws) h = ground (arith, trim_right-spaces ws)

trim_right-digits :
    (cs ws : List ℕ) → all_digits cs ≡ true → all_spaces ws ≡ true → trim_right (cs ++ ws) ≡ cs
unfolding trim_right
trim_right-digits [] ws h s = trim_right-spaces ws s
trim_right-digits (c ∷ cs) ws h s =
    let d : is_space c ≡ false = digit-space c ground arith in
    let ih : trim_right (cs ++ ws) ≡ cs = trim_right-digits cs ws ground arith s in
    rw ih ground (arith, d)

-- Spaces around a numeral are trimmed.
pub trim_space-digits :
    (before cs after : List ℕ)
    → all_spaces before ≡ true
    → is_empty cs ≡ false
    → all_digits cs ≡ true
    → all_spaces after ≡ true
    → trim_space (before ++ (cs ++ after)) ≡ cs
unfolding trim_left
trim_space-digits before [] after b e h a = absurd (ground (arith, e))
trim_space-digits before (c ∷ cs) after b e h a =
    let d : is_space c ≡ false = digit-space c ground arith in
    let left : trim_left (before ++ ((c ∷ cs) ++ after)) ≡ (c ∷ cs) ++ after =
      trim_left-spaces before ((c ∷ cs) ++ after) b ∙ rw d refl in
    ap trim_right left ∙ trim_right-digits (c ∷ cs) after h a
