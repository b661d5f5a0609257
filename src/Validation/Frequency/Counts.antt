-- ===== src/Validation/Frequency/Counts.antt =====
-- What the filled map holds, and what a reader finds in it in whatever order it is visited.
use mathlib.Core.List.{Perm, Permᴰ}
use mathlib.Core.Logic.{∥∥₁_elim}
use mathlib.Core.HLevel.{×_prop}
use native.Mathlib.Nat.{ℕ_set}
use native.Mathlib.Decide.{dec_lt}
use entropy_tdc_gateway.Common.{
  ℕ, ◌+◌, ◌≤◌, ◌<◌, max, ◌≡◌, refl, subst, ◌∙◌, ap, inl, inr, List, [], ◌∷◌, arith, ltb, ◌==◌,
  if◌then◌else◌, Bool-cases, count, All, ◌≢◌,
}
use entropy_tdc_gateway.Validation.Frequency.{Entries, increment, tally, most_common}

-- What the map holds at a key; 0 where it has none.
abbrev pub get : ℕ → Entries → ℕ
get a [] = 0
get a ((k, n) ∷ freq) = let rest = get a freq in if k == a then n else rest

get-increment :
    (a b : ℕ) (freq : Entries) → get a (increment b freq) ≡ (if b == a then 1 else 0) + get a freq
unfolding increment
get-increment a b [] = ground arith
get-increment a b ((k, n) ∷ freq) = ground (arith, get-increment a b freq)

-- The filled map holds, at each byte, how often it stands in the data.
pub get-tally :
    (a : ℕ) (xs : List ℕ) (freq : Entries) → get a (tally xs freq) ≡ count a xs + get a freq
unfolding tally
get-tally a [] freq = omega arith
get-tally a (b ∷ xs) freq = omega (arith, get-tally a xs (increment b freq), get-increment a b freq)

-- The largest count.
abbrev pub top : Entries → ℕ
top [] = 0
top ((k, n) ∷ freq) = max n (top freq)

pub most_common-top :
    (freq : Entries) (value max_count : ℕ)
    → (most_common freq (value, max_count)).1 ≡ max max_count (top freq)
unfolding most_common
most_common-top [] value max_count = omega arith
most_common-top ((k, n) ∷ freq) value max_count =
    ground (arith, most_common-top freq k n, most_common-top freq value max_count)

get-le-top : (a : ℕ) (freq : Entries) → get a freq ≤ top freq
get-le-top a [] = omega arith
get-le-top a ((k, n) ∷ freq) = ground (arith, get-le-top a freq)

-- One entry for each key.
abbrev pub Absent : ℕ → Entries → Type 0
Absent a [] = Unit {0}
Absent a ((k, n) ∷ freq) = (k ≢ a) × Absent a freq

abbrev pub Distinct : Entries → Type 0
Distinct [] = Unit {0}
Distinct ((k, n) ∷ freq) = Absent k freq × Distinct freq

increment-Absent : (a b : ℕ) (freq : Entries) → b ≢ a → Absent a freq → Absent a (increment b freq)
unfolding increment
increment-Absent a b [] h v = (h, tt)
increment-Absent a b ((k, n) ∷ freq) h v = elim (Bool-cases (k == b)) [
  | inl e ↦ rw e v
  | inr e ↦ rw e (v.0, increment-Absent a b freq h v.1)
]

increment-Distinct : (b : ℕ) (freq : Entries) → Distinct freq → Distinct (increment b freq)
unfolding increment
increment-Distinct b [] v = (tt, tt)
increment-Distinct b ((k, n) ∷ freq) v = elim (Bool-cases (k == b)) [
  | inl e ↦ rw e v
  | inr e ↦ rw e (increment-Absent k b freq (λ p. ground arith) v.0, increment-Distinct b freq v.1)
]

pub tally-Distinct : (xs : List ℕ) (freq : Entries) → Distinct freq → Distinct (tally xs freq)
unfolding tally
tally-Distinct [] freq v = v
tally-Distinct (b ∷ xs) freq v = tally-Distinct xs (increment b freq) (increment-Distinct b freq v)

get-Absent : (a : ℕ) (freq : Entries) → Absent a freq → get a freq ≡ 0
get-Absent a [] v = refl
get-Absent a ((k, n) ∷ freq) v = ground (arith, get-Absent a freq)

-- In whatever order the entries are visited, the maximum is the same.
top-Permᴰ : {m n : Entries} → Permᴰ m n → top m ≡ top n
top-Permᴰ Permᴰ.nil = refl
top-Permᴰ (Permᴰ.cons e p) = omega (arith, ap (λ (t : ℕ × ℕ). t.1) e, top-Permᴰ p)
top-Permᴰ (Permᴰ.swap e f) = omega (arith, ap (λ (t : ℕ × ℕ). t.1) e, ap (λ (t : ℕ × ℕ). t.1) f)
top-Permᴰ (Permᴰ.trans p q) = top-Permᴰ p ∙ top-Permᴰ q

pub top-Perm : {m n : Entries} → Perm m n → top m ≡ top n
top-Perm p = ∥∥₁_elim p (ℕ_set _ _) top-Permᴰ

-- Entries that say what the map `freq` holds.
abbrev pub Agree : Entries → Entries → Type 0
Agree freq = All (λ e. get e.0 freq ≡ e.1)

Agree-prop : (freq es : Entries) → IsProp (Agree freq es)
Agree-prop freq [] = λ x y. refl
Agree-prop freq (e ∷ es) = ×_prop (ℕ_set _ _) (Agree-prop freq es)

Agree-Permᴰ : (freq : Entries) {m n : Entries} → Permᴰ m n → Agree freq m → Agree freq n
Agree-Permᴰ freq Permᴰ.nil h = h
Agree-Permᴰ freq (Permᴰ.cons e p) h =
    (subst (λ (t : ℕ × ℕ). get t.0 freq ≡ t.1) e h.0, Agree-Permᴰ freq p h.1)
Agree-Permᴰ freq (Permᴰ.swap e f) h = (
  subst (λ (t : ℕ × ℕ). get t.0 freq ≡ t.1) f h.1.0,
  (subst (λ (t : ℕ × ℕ). get t.0 freq ≡ t.1) e h.0, h.1.1),
)
Agree-Permᴰ freq (Permᴰ.trans p q) h = Agree-Permᴰ freq q (Agree-Permᴰ freq p h)

pub Agree-Perm : (freq : Entries) {m n : Entries} → Perm m n → Agree freq m → Agree freq n
Agree-Perm freq {n = n} p h = ∥∥₁_elim p (Agree-prop freq n) (λ d. Agree-Permᴰ freq d h)

Agree-cons : (k n : ℕ) (freq es : Entries) → Absent k es → Agree freq es → Agree ((k, n) ∷ freq) es
Agree-cons k n freq [] v h = tt
Agree-cons k n freq ((j, m) ∷ es) v h = (ground (arith, h.0, v.0), Agree-cons k n freq es v.1 h.1)

Distinct-Agree : (freq : Entries) → Distinct freq → Agree freq freq
Distinct-Agree [] v = tt
Distinct-Agree ((k, n) ∷ freq) v =
    (ground arith, Agree-cons k n freq freq v.0 (Distinct-Agree freq v.1))

-- A reader that starts from an entry that the map agrees with ends at one.
pub most_common-Agree :
    (freq es : Entries) (value max_count : ℕ)
    → Agree freq es
    → (0 < max_count → get value freq ≡ max_count)
    → 0 < (most_common es (value, max_count)).1
    → get (most_common es (value, max_count)).0 freq ≡ (most_common es (value, max_count)).1
unfolding most_common
most_common-Agree freq [] value max_count h e p = e p
most_common-Agree freq ((k, n) ∷ es) value max_count h e p = elim (Bool-cases (ltb max_count n)) [
  | inl t ↦
      rw (t, most_common) (most_common-Agree freq es k n h.1 (λ q. h.0) (rw (t, most_common) at p))
  | inr f ↦
      rw (f, most_common)
        (most_common-Agree freq es value max_count h.1 e (rw (f, most_common) at p))
]

-- What the readers of the map rely on: Go visits each entry once, in some order.
abbrev pub IsRange : (Entries → Entries) → Type 0
IsRange range = (freq : Entries) → Perm freq (range freq)

module _ (range : Entries → Entries) (visits : IsRange range) (xs : List ℕ) where
  -- The largest count that a reader finds.
  pub max_count-top : (most_common (range (tally xs [])) (0, 0)).1 ≡ top (tally xs [])
  max_count-top =
      omega (arith, most_common-top (range (tally xs [])) 0 0, top-Perm (visits (tally xs [])))

  pub count-le-max_count : (a : ℕ) → count a xs ≤ (most_common (range (tally xs [])) (0, 0)).1
  count-le-max_count a = omega (arith, max_count-top, get-le-top a (tally xs []), get-tally a xs [])

  pub count-most_common :
      count (most_common (range (tally xs [])) (0, 0)).0 xs
      ≡ (most_common (range (tally xs [])) (0, 0)).1
  count-most_common = elim (dec_lt 0 (most_common (range (tally xs [])) (0, 0)).1) [
    | yes p ↦ omega (arith, got, agree p)
    | no p ↦ omega (arith, count-le-max_count (most_common (range (tally xs [])) (0, 0)).0)
  ]
    where
      got :
          get (most_common (range (tally xs [])) (0, 0)).0 (tally xs [])
          ≡ count (most_common (range (tally xs [])) (0, 0)).0 xs + 0
      got = get-tally (most_common (range (tally xs [])) (0, 0)).0 xs []

      agree :
          0 < (most_common (range (tally xs [])) (0, 0)).1
          → get (most_common (range (tally xs [])) (0, 0)).0 (tally xs [])
            ≡ (most_common (range (tally xs [])) (0, 0)).1
      agree p =
          most_common-Agree (tally xs []) (range (tally xs [])) 0 0
            (Agree-Perm (tally xs []) (visits (tally xs []))
              (Distinct-Agree (tally xs []) (tally-Distinct xs [] tt)))
            (λ q. absurd (omega arith)) p
