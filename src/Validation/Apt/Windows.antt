-- ===== src/Validation/Apt/Windows.antt =====
-- The adaptive proportion test against an independent description: the stream is cut into windows,
-- and each full window must hold its own first sample fewer times than the cutoff.
use entropy_tdc_gateway.Common.{
  ℕ, zero, suc, ◌+◌, ◌≤◌, ◌<◌, ◌≡◌, refl, sym, ◌∙◌, ap, ap₂, inl, inr, Bool, true, ◌&&◌, List, [],
  ◌∷◌, ◌++◌, arith, ltb, ◌==◌, if◌then◌else◌, Bool-cases, length, take, drop, count, length-take,
  length-drop, take-append-drop,
}
use entropy_tdc_gateway.Validation.Apt.{AdaptiveProportionTest, test, test_block}

-- How often the first sample stands in the window.
abbrev pub first_count : List ℕ → ℕ
first_count [] = 0
first_count (x ∷ xs) = suc (count x xs)

-- The verdict on the full windows of a stream; `fuel` is at least the number of samples.
abbrev pub windows_pass : ℕ → ℕ → ℕ → List ℕ → Bool
windows_pass window cutoff zero xs = true
windows_pass window cutoff (suc fuel) xs =
    let rest = windows_pass window cutoff fuel (drop window xs) in
    if ltb (length xs) window then true else ltb (first_count (take window xs)) cutoff && rest

-- The states between calls.
pub record IsValid (apt : AdaptiveProportionTest) : Type 0 where
  pub counted : apt.match_count ≤ apt.sample_count
  pub open_window : apt.sample_count < apt.window_size

pub test-IsValid : (apt : AdaptiveProportionTest) (x : ℕ) → IsValid apt → IsValid (test apt x).1
unfolding test
test-IsValid apt x v = ground arith

pub test_block-append :
    (apt : AdaptiveProportionTest) (xs ys : List ℕ)
    → test_block apt (xs ++ ys)
      ≡ (if (test_block apt xs).0 then test_block (test_block apt xs).1 ys else test_block apt xs)
unfolding test_block
test_block-append apt [] ys = refl
test_block-append apt (x ∷ xs) ys = elim (Bool-cases (test apt x).0) [
  | inl e ↦ rw (e, test_block) (test_block-append (test apt x).1 xs ys)
  | inr e ↦ rw (e, test_block)
]

-- What one window does to the test: a verdict, and a state at the start of the next window.
abbrev pub Closes : AdaptiveProportionTest → Bool → List ℕ → Type 0
Closes apt verdict xs =
    ((test_block apt xs).0 ≡ verdict)
    × ((test_block apt xs).1.sample_count ≡ 0)
    × ((test_block apt xs).1.window_size ≡ apt.window_size)
    × ((test_block apt xs).1.cutoff ≡ apt.cutoff)

-- A sample that leaves the window open.
test-inside :
    (apt : AdaptiveProportionTest) (x : ℕ)
    → apt.sample_count + 1 < apt.window_size
    → ((test apt x).0 ≡ true)
      × ((test apt x).1.sample_count ≡ apt.sample_count + 1)
      × ((test apt x).1.window_size ≡ apt.window_size)
      × ((test apt x).1.cutoff ≡ apt.cutoff)
unfolding test
test-inside apt x h = ground arith

-- What it adds to the count of matches.
test-matches :
    (apt : AdaptiveProportionTest) (x : ℕ)
    → 0 < apt.sample_count
    → apt.sample_count + 1 < apt.window_size
    → ((test apt x).1.first_sample ≡ apt.first_sample)
      × ((test apt x).1.match_count ≡ (if x == apt.first_sample then 1 else 0) + apt.match_count)
unfolding test
test-matches apt x p h = ground arith

-- The sample that completes the window.
test-last :
    (apt : AdaptiveProportionTest) (x : ℕ)
    → 0 < apt.sample_count
    → apt.sample_count + 1 ≡ apt.window_size
    → Closes apt (ltb (count apt.first_sample (x ∷ []) + apt.match_count) apt.cutoff) (x ∷ [])
unfolding test test_block
test-last apt x p h = ground arith

test_block-cons :
    (apt : AdaptiveProportionTest) (x : ℕ) (xs : List ℕ)
    → (test apt x).0 ≡ true
    → test_block apt (x ∷ xs) ≡ test_block (test apt x).1 xs
unfolding test_block
test_block-cons apt x xs e = rw (e, test_block)

-- Inside a window: the rest of it is counted, and the verdict falls at its end.
test_block-Closes :
    (apt : AdaptiveProportionTest) (x : ℕ) (xs : List ℕ)
    → 0 < apt.sample_count
    → apt.sample_count + length (x ∷ xs) ≡ apt.window_size
    → Closes apt (ltb (count apt.first_sample (x ∷ xs) + apt.match_count) apt.cutoff) (x ∷ xs)
test_block-Closes apt x [] p h = test-last apt x p (omega arith)
test_block-Closes apt x (y ∷ ys) p h =
    let i = test-inside apt x (omega arith) in
    let m = test-matches apt x p (omega arith) in
    let c = test_block-Closes (test apt x).1 y ys (omega arith) (omega arith) in
    let cut : count (test apt x).1.first_sample (y ∷ ys) ≡ count apt.first_sample (y ∷ ys) =
      ap (λ v. count v (y ∷ ys)) m.0 in
    rw (test_block-cons apt x (y ∷ ys) i.0)
      (ground (arith, c, i, m, cut), c.1, c.2 ∙ i.2, c.3 ∙ i.3)

-- Too few samples to complete the window always pass.
test_block-short :
    (apt : AdaptiveProportionTest) (xs : List ℕ)
    → apt.sample_count + length xs < apt.window_size
    → (test_block apt xs).0 ≡ true
unfolding test_block
test_block-short apt [] h = refl
test_block-short apt (x ∷ xs) h =
    let i = test-inside apt x (omega arith) in
    rw (i.0, test_block) (test_block-short (test apt x).1 xs (omega arith))

-- The first sample of a window.
test-first :
    (apt : AdaptiveProportionTest) (x : ℕ)
    → apt.sample_count ≡ 0
    → 1 < apt.window_size
    → ((test apt x).1.first_sample ≡ x) × ((test apt x).1.match_count ≡ 1)
unfolding test
test-first apt x z h = ground arith

test-single :
    (apt : AdaptiveProportionTest) (x : ℕ)
    → apt.sample_count ≡ 0
    → 1 ≡ apt.window_size
    → Closes apt (ltb 1 apt.cutoff) (x ∷ [])
unfolding test test_block
test-single apt x z h = ground arith

-- A whole window, from the start of it.
test_block-window :
    (apt : AdaptiveProportionTest) (xs : List ℕ)
    → apt.sample_count ≡ 0
    → 0 < apt.window_size
    → length xs ≡ apt.window_size
    → Closes apt (ltb (first_count xs) apt.cutoff) xs
test_block-window apt [] z p h = absurd (omega arith)
test_block-window apt (x ∷ []) z p h = test-single apt x z (omega arith)
test_block-window apt (x ∷ y ∷ ys) z p h =
    let i = test-inside apt x (omega arith) in
    let f = test-first apt x z (omega arith) in
    let c = test_block-Closes (test apt x).1 y ys (omega arith) (omega arith) in
    let cut : count (test apt x).1.first_sample (y ∷ ys) ≡ count x (y ∷ ys) =
      ap (λ v. count v (y ∷ ys)) f.0 in
    rw (test_block-cons apt x (y ∷ ys) i.0)
      (ground (arith, c, i, f, cut), c.1, c.2 ∙ i.2, c.3 ∙ i.3)

test_block-split :
    (apt : AdaptiveProportionTest) (xs ys : List ℕ)
    → (test_block apt (xs ++ ys)).0
      ≡ (test_block apt xs).0 && (test_block (test_block apt xs).1 ys).0
test_block-split apt xs ys = elim (Bool-cases (test_block apt xs).0) [
  | inl e ↦ rw (test_block-append apt xs ys, e)
  | inr e ↦ rw (test_block-append apt xs ys, e) (unfold test_block in refl)
]

-- From the start of a window, a block passes exactly when each full window in it holds its first
-- sample fewer times than the cutoff; what is left over at the end always passes.
pub test_block-windows :
    (fuel : ℕ) (apt : AdaptiveProportionTest) (xs : List ℕ)
    → apt.sample_count ≡ 0
    → 0 < apt.window_size
    → length xs ≤ fuel
    → (test_block apt xs).0 ≡ windows_pass apt.window_size apt.cutoff fuel xs
test_block-windows zero apt [] z p h = unfold test_block in refl
test_block-windows zero apt (x ∷ xs) z p h = absurd (omega arith)
test_block-windows (suc fuel) apt xs z p h = elim (Bool-cases (ltb (length xs) apt.window_size)) [
  | inl short ↦ rw short (test_block-short apt xs (ground arith))
  | inr full ↦ rw full (
      let cut : length (take apt.window_size xs) ≡ apt.window_size =
        ground (arith, length-take apt.window_size xs) in
      let c = test_block-window apt (take apt.window_size xs) z p cut in
      let next = (test_block apt (take apt.window_size xs)).1 in
      let rest = drop apt.window_size xs in
      let ih =
        test_block-windows fuel next rest c.1 (omega (arith, c.2))
          (omega (arith, length-drop apt.window_size xs)) in
      ap (λ (l : List ℕ). (test_block apt l).0) (sym (take-append-drop apt.window_size xs))
      ∙ test_block-split apt (take apt.window_size xs) rest
      ∙ ap₂ ◌&&◌ c.0 (ih ∙ ap₂ (λ w k. windows_pass w k fuel rest) c.2 c.3))
]
