-- ===== src/Validation/MinEntropy/Estimates.antt =====
-- What the estimators compute, whatever the order in which the map is visited.
use entropy_tdc_gateway.Common.{
  ℕ, suc, ◌+◌, ◌*◌, ◌^◌, ◌≤◌, ◌<◌, ◌≡◌, refl, sym, subst, ◌∙◌, ap, ap₂, ◌⊎◌, inl, inr, true, false,
  List, [], ◌∷◌, ◌++◌, arith, leb, ◌==◌, ==_iff, if◌then◌else◌, Bool-cases, length, count,
  count-le-length,
}
use native.Mathlib.Decide.{dec_le}
use entropy_tdc_gateway.Common.Float.{Float64, IsIeee}
use entropy_tdc_gateway.Validation.Frequency.{Entries, tally, most_common}
use entropy_tdc_gateway.Validation.Frequency.Counts.{
  top, IsRange, max_count-top, count-le-max_count, count-most_common,
}
use entropy_tdc_gateway.Validation.MinEntropy.{
  contains, collide, mcv_entropy, estimate_mcv, estimate_mcv_with_stats, collision_entropy,
  collision_stats, estimate_collision, estimate_collision_with_stats,
}

-- `EstimateMCVWithStats` names a value that stands in the data as often as it says, and no value
-- stands there more often, for every order in which the map is visited.
pub estimate_mcv_with_stats-count :
    (fl : Float64) (range : Entries → Entries)
    → IsRange range
    → (x : ℕ) (xs : List ℕ) (a : ℕ)
    → let (entropy, value, max_count, unique) = estimate_mcv_with_stats fl range (x ∷ xs) in
      (count value (x ∷ xs) ≡ max_count) × (count a (x ∷ xs) ≤ max_count)
unfolding estimate_mcv_with_stats
estimate_mcv_with_stats-count fl range visits x xs a =
    (count-most_common range visits (x ∷ xs), count-le-max_count range visits (x ∷ xs) a)

-- Both functions give the same estimate, also when each visits its map in an order of its own.
pub estimate_mcv_agrees :
    (fl : Float64) (range range' : Entries → Entries) (xs : List ℕ)
    → IsRange range
    → IsRange range'
    → estimate_mcv fl range xs ≡ (estimate_mcv_with_stats fl range' xs).0
unfolding estimate_mcv estimate_mcv_with_stats
estimate_mcv_agrees fl range range' [] v v' = refl
estimate_mcv_agrees fl range range' (x ∷ xs) v v' =
    ap (λ k. mcv_entropy fl k (length (x ∷ xs)))
      (max_count-top range v (x ∷ xs) ∙ sym (max_count-top range' v' (x ∷ xs)))

count-full :
    (v x : ℕ) (xs : List ℕ)
    → length (x ∷ xs) ≤ count v (x ∷ xs)
    → length (x ∷ xs) ≤ count x (x ∷ xs)
count-full v x xs h = elim (Bool-cases (x == v)) [
  | inl e ↦ subst (λ k. length (x ∷ xs) ≤ count k (x ∷ xs)) (sym ((==_iff x v).0 e)) h
  | inr e ↦ absurd (ground (arith, count-le-length v xs))
]

max_count-full :
    (range : Entries → Entries)
    → IsRange range
    → (x : ℕ) (xs : List ℕ)
    → leb (length (x ∷ xs)) (most_common (range (tally (x ∷ xs) [])) (0, 0)).1
      ≡ leb (length (x ∷ xs)) (count x (x ∷ xs))
max_count-full range visits x xs =
    leb-same (length (x ∷ xs)) (most_common (range (tally (x ∷ xs) [])) (0, 0)).1 (count x (x ∷ xs))
      (λ h.
        count-full (most_common (range (tally (x ∷ xs) [])) (0, 0)).0 x xs
          (omega (arith, count-most_common range visits (x ∷ xs))))
      (count-le-max_count range visits (x ∷ xs) x)
  where
    leb-same : (n a b : ℕ) → (n ≤ a → n ≤ b) → b ≤ a → leb n a ≡ leb n b
    leb-same n a b f h = elim (dec_le n a) [ yes p ↦ ground (arith, f p) | no p ↦ ground arith ]

-- Under the assumptions on float64 and in whatever order the map is visited, `EstimateMCV` of data
-- that is not empty and shorter than 2^40 bytes is 0 where all bytes are equal, and else the
-- negated logarithm of the largest relative frequency.
pub estimate_mcv_lem :
    (fl : Float64) (range : Entries → Entries)
    → IsIeee fl
    → IsRange range
    → (x : ℕ) (xs : List ℕ) → length (x ∷ xs) < 2 ^ 40
    → estimate_mcv fl range (x ∷ xs) ≡ (
        if leb (length (x ∷ xs)) (count x (x ∷ xs))
        then fl.of_int 0
        else fl.neg
            (fl.log2 (fl.div (fl.of_int (top (tally (x ∷ xs) []))) (fl.of_int (length (x ∷ xs))))))
unfolding estimate_mcv mcv_entropy
estimate_mcv_lem fl range ieee visits x xs h =
    ap₂ (λ b m. if b then fl.of_int 0 else fl.neg (fl.log2 (fl.div (fl.of_int m) (fl.of_int n))))
      (ap (λ one. fl.le one (fl.div (fl.of_int m) (fl.of_int n))) (sym ieee.literal_one)
        ∙ ieee.quotient_ge m n 1 1 (omega (arith, bound)) h (omega arith) (omega arith)
            (omega arith) (omega arith)
        ∙ ap₂ leb one_times times_one
        ∙ max_count-full range visits x xs)
      (max_count-top range visits (x ∷ xs))
  where
    n : ℕ
    n = length (x ∷ xs)

    m : ℕ
    m = (most_common (range (tally (x ∷ xs) [])) (0, 0)).1

    bound : m ≤ n
    bound = omega (
      arith,
      count-most_common range visits (x ∷ xs),
      count-le-length (most_common (range (tally (x ∷ xs) [])) (0, 0)).0 (x ∷ xs),
    )

    one_times : 1 * n ≡ n
    one_times = omega arith

    times_one : m * 1 ≡ m
    times_one = omega arith

-- Members of `xs` that are all new: not in `seen`, and no two equal.
abbrev pub AllNew : List ℕ → List ℕ → Type 0
AllNew seen [] = Unit {0}
AllNew seen (x ∷ xs) = (contains seen x ≡ false) × AllNew (x ∷ seen) xs

abbrev pub push_all : List ℕ → List ℕ → List ℕ
push_all [] seen = seen
push_all (x ∷ xs) seen = push_all xs (x ∷ seen)

-- The two ways in which the search for a collision ends.
abbrev pub Ends : List ℕ → ℕ → List ℕ → ℕ × ℕ × List ℕ → Type 0
Ends seen i xs (t, value, seen') =
    ((t ≡ 0) × AllNew seen xs × (seen' ≡ push_all xs seen))
    ⊎ ((fresh : List ℕ) × (rest : List ℕ) × (xs ≡ fresh ++ value ∷ rest)
        × AllNew seen fresh
        × (seen' ≡ push_all fresh seen)
        × (contains seen' value ≡ true)
        × (t ≡ i + length fresh + 1))

collide_hit :
    (seen : List ℕ) (i b : ℕ) (xs : List ℕ)
    → contains seen b ≡ true
    → collide seen i (b ∷ xs) ≡ (i + 1, b, seen)
unfolding collide
collide_hit seen i b xs e = rw e

collide_miss :
    (seen : List ℕ) (i b : ℕ) (xs : List ℕ)
    → contains seen b ≡ false
    → collide seen i (b ∷ xs) ≡ collide (b ∷ seen) (i + 1) xs
unfolding collide
collide_miss seen i b xs e = rw e

Ends-cons :
    (seen : List ℕ) (i b : ℕ) (xs : List ℕ) (r : ℕ × ℕ × List ℕ)
    → contains seen b ≡ false
    → Ends (b ∷ seen) (i + 1) xs r
    → Ends seen i (b ∷ xs) r
Ends-cons seen i b xs r e (inl (z, n, s)) = inl (z, (e, n), s)
Ends-cons seen i b xs r e (inr (fresh, rest, eq, n, s, c, p)) =
    inr (b ∷ fresh, rest, ap (◌∷◌ b) eq, (e, n), s, c, omega arith)

-- The search ends at the first byte that stood before, or with all bytes in the set.
collide-Ends : (seen : List ℕ) (i : ℕ) (xs : List ℕ) → Ends seen i xs (collide seen i xs)
unfolding collide
collide-Ends seen i [] = inl (refl, tt, refl)
collide-Ends seen i (b ∷ xs) = elim (Bool-cases (contains seen b)) [
  | inl e ↦
      subst (Ends seen i (b ∷ xs)) (sym (collide_hit seen i b xs e))
        (inr ([], xs, refl, tt, refl, e, omega arith))
  | inr e ↦
      subst (Ends seen i (b ∷ xs)) (sym (collide_miss seen i b xs e))
        (Ends-cons seen i b xs _ e (collide-Ends (b ∷ seen) (i + 1) xs))
]

length-push_all : (xs seen : List ℕ) → length (push_all xs seen) ≡ length xs + length seen
length-push_all [] seen = omega arith
length-push_all (x ∷ xs) seen = omega (arith, length-push_all xs (x ∷ seen))

-- What the statistics of a search say of the data.
abbrev pub Reports {ℓ} : {F : Type ℓ} → List ℕ → F × ℕ × ℕ × ℕ → Type 0
Reports xs (entropy, time, value, unique) =
    ((time ≡ 0) × AllNew [] xs × (unique ≡ length xs))
    ⊎ ((fresh : List ℕ) × (rest : List ℕ) × (xs ≡ fresh ++ value ∷ rest)
        × AllNew [] fresh
        × (contains (push_all fresh []) value ≡ true)
        × (time ≡ length fresh + 1)
        × (unique ≡ length fresh))

suc-ne-zero : (k : ℕ) → (suc k == 0) ≡ false
suc-ne-zero k = ground arith

collision_stats-suc :
    (fl : Float64) (k value : ℕ) (seen : List ℕ)
    → collision_stats fl (suc k, value, seen)
      ≡ (collision_entropy fl (suc k), suc k, value, length seen)
unfolding collision_stats
collision_stats-suc fl k value seen = rw (suc-ne-zero k)

Ends-Reports :
    (fl : Float64) (xs : List ℕ) (t value : ℕ) (seen : List ℕ)
    → Ends [] 0 xs (t, value, seen)
    → Reports xs (collision_stats fl (t, value, seen))
Ends-Reports fl xs t value seen (inl (z, n, s)) =
    unfold collision_stats in
    subst (λ k. Reports xs (collision_stats fl (k, value, seen))) (sym z)
      (inl (refl, n, omega (arith, ap (λ (l : List ℕ). length l) s, length-push_all xs [])))
Ends-Reports fl xs t value seen (inr (fresh, rest, eq, n, s, c, p)) =
    subst (λ k. Reports xs (collision_stats fl (k, value, seen))) (sym later)
      (subst (Reports xs) (sym (collision_stats-suc fl (length fresh) value seen)) (
        inr (
          fresh,
          rest,
          eq,
          n,
          subst (λ l. contains l value ≡ true) s c,
          omega arith,
          omega (arith, ap (λ (l : List ℕ). length l) s, length-push_all fresh []),
        )))
  where
    later : t ≡ suc (length fresh)
    later = omega arith

-- What `EstimateCollisionWithStats` reports of two bytes or more: either no byte stands in the data
-- twice, time 0 is reported and all bytes are unique; or the data is a prefix without repetition,
-- then the reported value, which stands in the prefix, at the reported one-based time, and the
-- reported number of unique values is the length of the prefix.
pub estimate_collision_with_stats_lem :
    (fl : Float64) (x y : ℕ) (ys : List ℕ)
    → Reports (x ∷ y ∷ ys) (estimate_collision_with_stats fl (x ∷ y ∷ ys))
unfolding estimate_collision_with_stats
estimate_collision_with_stats_lem fl x y ys =
    Ends-Reports fl (x ∷ y ∷ ys) _ _ _ (collide-Ends [] 0 (x ∷ y ∷ ys))

collision_stats_entropy :
    (fl : Float64) (t value : ℕ) (seen : List ℕ)
    → collision_entropy fl t ≡ (collision_stats fl (t, value, seen)).0
unfolding collision_stats
collision_stats_entropy fl t value seen = elim (Bool-cases (t == 0)) [
  | inl e ↦ rw (e, collision_entropy)
  | inr e ↦ rw e
]

-- `EstimateCollision` and `EstimateCollisionWithStats` give the same estimate.
pub estimate_collision_agrees :
    (fl : Float64) (xs : List ℕ)
    → estimate_collision fl xs ≡ (estimate_collision_with_stats fl xs).0
unfolding estimate_collision estimate_collision_with_stats
estimate_collision_agrees fl [] = refl
estimate_collision_agrees fl (x ∷ []) = refl
estimate_collision_agrees fl (x ∷ y ∷ ys) = collision_stats_entropy fl _ _ _
