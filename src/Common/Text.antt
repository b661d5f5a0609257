-- ===== src/Common/Text.antt =====
-- Text as code points, and the functions of packages strings and strconv that the program calls.
use Prim.Native.Nat.{ℕ, zero, suc, ◌+◌, ◌-◌, ◌*◌, ◌^◌, ◌≤◌, ◌<◌}
use mathlib.Core.Path.{◌≡◌, refl, ap₂}
use mathlib.Core.Logic.{inl, inr}
use mathlib.Core.Bool.{Bool, true, false, ◌&&◌, ◌||◌, not}
use mathlib.Core.Option.{Option, none, some}
use mathlib.Core.List.{List, [], ◌∷◌, ◌++◌}
use native.Mathlib.Omega.{arith}
use entropy_tdc_gateway.Common.Tests.{◌==◌, ==_self, ==_iff, ltb, leb, if◌then◌else◌, Bool-cases}
use entropy_tdc_gateway.Common.Int.{ℤ, pos, negsuc}
use entropy_tdc_gateway.Common.Lists.{is_empty}

-- `unicode.IsSpace`
unfoldable pub is_space : ℕ → Bool
is_space c =
    (leb 9 c && leb c 13)
    || (c == 32)
    || (c == 133)
    || (c == 160)
    || (c == 5760)
    || (leb 8192 c && leb c 8202)
    || (c == 8232)
    || (c == 8233)
    || (c == 8239)
    || (c == 8287)
    || (c == 12288)

unfoldable pub trim_left : List ℕ → List ℕ
trim_left [] = []
trim_left (c ∷ cs) = let rest = trim_left cs in if is_space c then rest else c ∷ cs

unfoldable pub trim_right : List ℕ → List ℕ
trim_right [] = []
trim_right (c ∷ cs) =
    let rest = trim_right cs in if is_empty rest && is_space c then [] else c ∷ rest

-- `strings.TrimSpace`
abbrev pub trim_space : List ℕ → List ℕ
trim_space cs = trim_right (trim_left cs)

-- `unicode.ToLower` of the characters whose lower case is in ASCII: A to Z, the capital I with a dot
-- (U+0130) and the Kelvin sign (U+212A). The others stay as they are, which no comparison with an
-- ASCII word can tell.
abbrev pub lower : ℕ → ℕ
lower c =
    if leb 65 c && leb c 90 then c + 32 else if c == 304 then 105 else if c == 8490 then 107 else c

-- `strings.ToLower`
unfoldable pub to_lower : List ℕ → List ℕ
to_lower [] = []
to_lower (c ∷ cs) = lower c ∷ to_lower cs

unfoldable pub same_text : List ℕ → List ℕ → Bool
same_text [] [] = true
same_text [] (d ∷ ds) = false
same_text (c ∷ cs) [] = false
same_text (c ∷ cs) (d ∷ ds) = (c == d) && same_text cs ds

pub same_text→path : (xs ys : List ℕ) → same_text xs ys ≡ true → xs ≡ ys
unfolding same_text
same_text→path [] [] h = refl
same_text→path [] (y ∷ ys) h = absurd (cc h)
same_text→path (x ∷ xs) [] h = absurd (cc h)
same_text→path (x ∷ xs) (y ∷ ys) h = elim (Bool-cases (x == y)) [
  | inl e ↦ ap₂ (λ a l. a ∷ l) ((==_iff x y).0 e) (same_text→path xs ys (rw e at h))
  | inr e ↦ absurd (cc (rw e at h))
]

-- `strings.HasSuffix`
unfoldable pub has_suffix : List ℕ → List ℕ → Bool
has_suffix [] suffix = same_text [] suffix
has_suffix (c ∷ cs) suffix = same_text (c ∷ cs) suffix || has_suffix cs suffix

-- `strings.Split` at one character: the first part, and the others.
unfoldable pub split_at : ℕ → List ℕ → List ℕ × List (List ℕ)
split_at sep [] = ([], [])
split_at sep (c ∷ cs) =
    let rest = split_at sep cs in if c == sep then ([], rest.0 ∷ rest.1) else (c ∷ rest.0, rest.1)

unfoldable pub last : List ℕ → List (List ℕ) → List ℕ
last part [] = part
last part (next ∷ rest) = last next rest

abbrev pub is_digit : ℕ → Bool
is_digit c = leb 48 c && leb c 57

-- `strconv.ParseUint` in base 10: none for a syntax or a range error, which the callers do not tell
-- apart. The value is below `limit` at every digit.
unfoldable pub parse_digits : ℕ → ℕ → List ℕ → Option ℕ
parse_digits limit value [] = some value
parse_digits limit value (c ∷ cs) =
    let next = 10 * value + (c - 48) in
    let rest = parse_digits limit next cs in if is_digit c && ltb next limit then rest else none

unfoldable pub parse_uint : ℕ → List ℕ → Option ℕ
parse_uint bits [] = none
parse_uint bits (c ∷ cs) = parse_digits (2 ^ bits) 0 (c ∷ cs)

-- `strconv.Atoi`: the number of an int, with an optional sign.
abbrev pub negated : ℕ → ℤ
negated zero = pos 0
negated (suc n) = negsuc n

unfoldable pub parse_below : ℕ → List ℕ → Option ℕ
parse_below limit [] = none
parse_below limit (c ∷ cs) = parse_digits limit 0 (c ∷ cs)

unfoldable pub atoi : List ℕ → Option ℤ
atoi [] = none
atoi (c ∷ cs) =
    if c == 45
    then elim (parse_below (2 ^ 63 + 1) cs) [ some n ↦ some (negated n) | none ↦ none ]
    else elim (parse_below (2 ^ 63) (if c == 43 then cs else c ∷ cs)) [
      | some n ↦ some (pos n)
      | none ↦ none
    ]

-- What a decimal numeral says: all its characters are digits, and their value.
abbrev pub all_digits : List ℕ → Bool
all_digits [] = true
all_digits (c ∷ cs) = is_digit c && all_digits cs

abbrev pub decimal_from : ℕ → List ℕ → ℕ
decimal_from value [] = value
decimal_from value (c ∷ cs) = decimal_from (10 * value + (c - 48)) cs

abbrev pub decimal : List ℕ → ℕ
decimal cs = decimal_from 0 cs

le-decimal_from : (v : ℕ) (cs : List ℕ) → v ≤ decimal_from v cs
le-decimal_from v [] = omega arith
le-decimal_from v (c ∷ cs) = omega (arith, le-decimal_from (10 * v + (c - 48)) cs)

parse_digits_lem :
    (limit v : ℕ) (cs : List ℕ)
    → v < limit
    → parse_digits limit v cs
      ≡ (if all_digits cs && ltb (decimal_from v cs) limit then some (decimal_from v cs) else none)
unfolding parse_digits
parse_digits_lem limit v [] h = ground arith
parse_digits_lem limit v (c ∷ cs) h =
    elim (Bool-cases (is_digit c && ltb (10 * v + (c - 48)) limit)) [
      | inl e ↦ ground (arith, parse_digits_lem limit (10 * v + (c - 48)) cs)
      | inr e ↦ ground (arith, le-decimal_from (10 * v + (c - 48)) cs)
    ]

-- Parsing accepts exactly the numerals, not empty, whose value fits.
pub parse_uint_lem :
    (bits : ℕ) (cs : List ℕ)
    → 0 < 2 ^ bits
    → parse_uint bits cs ≡ (
        if not (is_empty cs) && all_digits cs && ltb (decimal cs) (2 ^ bits)
        then some (decimal cs)
        else none)
unfolding parse_uint
parse_uint_lem bits [] h = refl
parse_uint_lem bits (c ∷ cs) h = parse_digits_lem (2 ^ bits) 0 (c ∷ cs) h

-- The last part of a split is what follows the last separator.
abbrev pub lacks : ℕ → List ℕ → Bool
lacks sep [] = true
lacks sep (c ∷ cs) = not (c == sep) && lacks sep cs

pub split_at-lacks : (sep : ℕ) (cs : List ℕ) → lacks sep cs ≡ true → split_at sep cs ≡ (cs, [])
unfolding split_at
split_at-lacks sep [] h = refl
split_at-lacks sep (c ∷ cs) h = ground (arith, split_at-lacks sep cs)

pub last-split_at :
    (sep : ℕ) (p cs : List ℕ)
    → lacks sep cs ≡ true
    → (part : List ℕ) → last part (split_at sep (p ++ sep ∷ cs)).1 ≡ cs
unfolding split_at last
last-split_at sep [] cs h part = rw (==_self sep, split_at-lacks sep cs h) refl
last-split_at sep (c ∷ p) cs h part = elim (Bool-cases (c == sep)) [
  | inl e ↦ rw e (last-split_at sep p cs h (split_at sep (p ++ sep ∷ cs)).0)
  | inr e ↦ rw e (last-split_at sep p cs h part)
]
