-- ===== src/Validation/Rct/Runs.antt =====
-- The repetition count test against an independent description: the longest run of equal samples.
use entropy_tdc_gateway.Common.{
  ℕ, suc, ◌+◌, ◌≤◌, ◌<◌, max, ◌≡◌, sym, ◌∙◌, refl, zero, ◌++◌, inl, inr, true, false, List, [], ◌∷◌,
  arith, ltb, ◌==◌, if◌then◌else◌, Bool-cases, replicate,
}
use entropy_tdc_gateway.Validation.Rct.{RepetitionCountTest, test, test_block}

-- How many samples at the front equal `v`.
abbrev pub lead : ℕ → List ℕ → ℕ
lead v [] = 0
lead v (x ∷ xs) = let rest = lead v xs in if x == v then suc rest else 0

-- The length of the longest run of equal samples.
abbrev pub longest : List ℕ → ℕ
longest [] = 0
longest (x ∷ xs) = max (suc (lead x xs)) (longest xs)

-- The run length at which the test fails. The first sample of a run is never tested against the
-- cutoff, so a cutoff of 1 acts as 2.
abbrev pub limit : RepetitionCountTest → ℕ
limit rct = max 2 rct.cutoff

-- The states between calls that all passed: a sample seen, and a run below the limit.
pub record IsRunning (rct : RepetitionCountTest) : Type 0 where
  pub started : rct.initialized ≡ true
  pub positive : 1 ≤ rct.repeat_count
  pub below : rct.repeat_count < limit rct

-- The current run of `rct` continued by the samples.
abbrev pub continued : RepetitionCountTest → List ℕ → ℕ
continued rct xs = max (rct.repeat_count + lead rct.last_sample xs) (longest xs)

test-IsRunning :
    (rct : RepetitionCountTest) (x : ℕ)
    → IsRunning rct
    → (test rct x).0 ≡ true
    → IsRunning (test rct x).1
unfolding test
test-IsRunning rct x v h = ground arith

test-continued :
    (rct : RepetitionCountTest) (x : ℕ) (xs : List ℕ)
    → IsRunning rct
    → (test rct x).0 ≡ true
    → ltb (continued (test rct x).1 xs) (limit (test rct x).1)
      ≡ ltb (continued rct (x ∷ xs)) (limit rct)
unfolding test
test-continued rct x xs v h = ground arith

test-fails :
    (rct : RepetitionCountTest) (x : ℕ) (xs : List ℕ)
    → IsRunning rct
    → (test rct x).0 ≡ false
    → ltb (continued rct (x ∷ xs)) (limit rct) ≡ false
unfolding test
test-fails rct x xs v h = ground arith

-- From a running state the block passes exactly when no run, the current one included, reaches the
-- limit.
pub test_block-running :
    (rct : RepetitionCountTest) (xs : List ℕ)
    → IsRunning rct
    → (test_block rct xs).0 ≡ ltb (continued rct xs) (limit rct)
unfolding test_block
test_block-running rct [] v = ground arith
test_block-running rct (x ∷ xs) v = elim (Bool-cases (test rct x).0) [
  | inl e ↦
      rw (e, test_block)
        (test_block-running (test rct x).1 xs (test-IsRunning rct x v e)
          ∙ test-continued rct x xs v e)
  | inr e ↦ rw (e, test_block) (sym (test-fails rct x xs v e))
]

first-IsRunning :
    (rct : RepetitionCountTest) (x : ℕ)
    → rct.initialized ≡ false
    → IsRunning (test rct x).1 × ((test rct x).0 ≡ true)
unfolding test
first-IsRunning rct x h = ground arith

first-continued :
    (rct : RepetitionCountTest) (x : ℕ) (xs : List ℕ)
    → rct.initialized ≡ false
    → ltb (continued (test rct x).1 xs) (limit (test rct x).1) ≡ ltb (longest (x ∷ xs)) (limit rct)
unfolding test
first-continued rct x xs h = ground arith

-- A test that was just made or reset passes a block exactly when the block's longest run of equal
-- samples is below the limit.
pub test_block-longest :
    (rct : RepetitionCountTest) (xs : List ℕ)
    → rct.initialized ≡ false
    → (test_block rct xs).0 ≡ ltb (longest xs) (limit rct)
unfolding test_block
test_block-longest rct [] h = ground arith
test_block-longest rct (x ∷ xs) h =
    let (v, e) = first-IsRunning rct x h in
    rw (e, test_block) (test_block-running (test rct x).1 xs v ∙ first-continued rct x xs h)

test-cutoff : (rct : RepetitionCountTest) (x : ℕ) → (test rct x).1.cutoff ≡ rct.cutoff
unfolding test
test-cutoff rct x = ground arith

-- What a passed test says of the run that it extends, in any state.
abbrev Bounded : RepetitionCountTest → List ℕ → Type 0
Bounded rct xs =
    (longest xs < limit rct)
    × (rct.initialized ≡ true
        → 0 < lead rct.last_sample xs
        → rct.repeat_count + lead rct.last_sample xs < limit rct)

test-Bounded :
    (rct : RepetitionCountTest) (x : ℕ) (xs : List ℕ)
    → (test rct x).0 ≡ true
    → Bounded (test rct x).1 xs
    → Bounded rct (x ∷ xs)
unfolding test
test-Bounded rct x xs h b = ground arith

test_block-Bounded :
    (rct : RepetitionCountTest) (xs : List ℕ) → (test_block rct xs).0 ≡ true → Bounded rct xs
unfolding test_block
test_block-Bounded rct [] h = (omega arith, λ i p. omega arith)
test_block-Bounded rct (x ∷ xs) h = elim (Bool-cases (test rct x).0) [
  | inl e ↦ test-Bounded rct x xs e (test_block-Bounded (test rct x).1 xs (rw (e, test_block) at h))
  | inr e ↦ absurd (cc (rw (e, test_block) at h))
]

-- In whatever state the test is, a block that passes holds no run that reaches the limit.
pub longest-test_block :
    (rct : RepetitionCountTest) (xs : List ℕ)
    → (test_block rct xs).0 ≡ true
    → longest xs < max 2 rct.cutoff
longest-test_block rct xs h = (test_block-Bounded rct xs h).0

lead-replicate : (n v : ℕ) → lead v (replicate n v) ≡ n
lead-replicate zero v = refl
lead-replicate (suc n) v = ground (arith, lead-replicate n v)

longest-replicate : (n v : ℕ) → n ≤ longest (replicate n v)
longest-replicate zero v = omega arith
longest-replicate (suc n) v = omega (arith, lead-replicate n v)

-- A source that is stuck at one value is found out, in whatever state the test is, within as many
-- samples as the cutoff, or two.
pub test_block-replicate :
    (rct : RepetitionCountTest) (n v : ℕ)
    → max 2 rct.cutoff ≤ n
    → (test_block rct (replicate n v)).0 ≡ false
test_block-replicate rct n v h = elim (Bool-cases (test_block rct (replicate n v)).0) [
  | inl e ↦ absurd (omega (arith, longest-test_block rct (replicate n v) e, longest-replicate n v))
  | inr e ↦ e
]

pub cutoff-test_block :
    (rct : RepetitionCountTest) (xs : List ℕ) → (test_block rct xs).1.cutoff ≡ rct.cutoff
unfolding test_block
cutoff-test_block rct [] = refl
cutoff-test_block rct (x ∷ xs) =
    ground (arith, test-cutoff rct x, cutoff-test_block (test rct x).1 xs)

-- Cutting a block in two does not change the verdict or the state.
pub test_block-append :
    (rct : RepetitionCountTest) (xs ys : List ℕ)
    → test_block rct (xs ++ ys)
      ≡ (if (test_block rct xs).0 then test_block (test_block rct xs).1 ys else test_block rct xs)
unfolding test_block
test_block-append rct [] ys = refl
test_block-append rct (x ∷ xs) ys = elim (Bool-cases (test rct x).0) [
  | inl e ↦ rw (e, test_block) (test_block-append (test rct x).1 xs ys)
  | inr e ↦ rw (e, test_block)
]
