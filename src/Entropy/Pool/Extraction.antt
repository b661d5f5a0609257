-- ===== src/Entropy/Pool/Extraction.antt =====
-- What `ExtractEntropy` returns and what it leaves, on every branch.
use entropy_tdc_gateway.Common.{
  ℕ, zero, suc, ◌≤◌, ◌<◌, max, ◌≡◌, refl, sym, subst, ◌∙◌, ◌⊎◌, inl, inr, true, false, none, some,
  List, [], ◌∷◌, ◌++◌, arith, length, take, drop, length-take, take-append-drop, Bool-cases, ltb,
  All, Option,
}
use entropy_tdc_gateway.Common.Int.{ℤ, pos, negsuc, pos_part, leb_ℤ}
use entropy_tdc_gateway.Validation.Rct
use entropy_tdc_gateway.Validation.Rct.{RepetitionCountTest}
use entropy_tdc_gateway.Validation.Rct.Runs.{lead, longest, longest-test_block, cutoff-test_block}
use entropy_tdc_gateway.Validation.Apt
use entropy_tdc_gateway.Entropy.Pool.{
  WhitenedPool, Extracted, entropy_extraction, entropy_pool_size, examine, extract_entropy,
}

-- The request can be met: it is positive, the reserve is there, and so are the bytes.
pub record IsGranted (pool : WhitenedPool) (n : ℕ) : Type 0 where
  pub positive : 0 < n
  pub reserve : pool.min_pool_size ≤ length pool.whitened
  pub enough : n ≤ length pool.whitened

extract_entropy_granted :
    (pool : WhitenedPool) (n : ℕ) → IsGranted pool n → extract_entropy pool (pos n) ≡ examine pool n
unfolding extract_entropy
extract_entropy_granted pool n g = ground arith

-- A request that can be met and passes both health tests returns the first bytes of the pool,
-- removes them and keeps the advanced tests.
pub extract_entropy_serves :
    (pool : WhitenedPool) (n : ℕ)
    → IsGranted pool n
    → (Rct.test_block pool.rct (take n pool.whitened)).0 ≡ true
    → (Apt.test_block pool.apt (take n pool.whitened)).0 ≡ true
    → extract_entropy pool (pos n) ≡ (
      some (take n pool.whitened),
      record pool {
        whitened = drop n pool.whitened;
        rct = (Rct.test_block pool.rct (take n pool.whitened)).1;
        apt = (Apt.test_block pool.apt (take n pool.whitened)).1;
      },
      entropy_extraction n ∷ entropy_pool_size (length (drop n pool.whitened)) ∷ [],
    )
unfolding examine
extract_entropy_serves pool n g r a = extract_entropy_granted pool n g ∙ rw (r, a)

-- The outcomes of a request: nothing is returned and the bytes stay, or the bytes that are returned
-- are as many as were asked for, stood at the front, passed the tests, and are gone.
abbrev pub Outcome : WhitenedPool → ℕ → Extracted → Type 0
Outcome pool n (output, next, metrics) =
    ((output ≡ none) × (next.whitened ≡ pool.whitened))
    ⊎ ((bytes : List ℕ) × (output ≡ some bytes)
        × (bytes ++ next.whitened ≡ pool.whitened)
        × (length bytes ≡ n)
        × ((Rct.test_block pool.rct bytes).0 ≡ true)
        × IsGranted pool n)

examine-Outcome : (pool : WhitenedPool) (n : ℕ) → IsGranted pool n → Outcome pool n (examine pool n)
unfolding examine
examine-Outcome pool n g = elim (Bool-cases (Rct.test_block pool.rct (take n pool.whitened)).0) [
  | inl r ↦ elim (Bool-cases (Apt.test_block pool.apt (take n pool.whitened)).0) [
    | inl a ↦
        rw (r, a)
          (inr (
            take n pool.whitened,
            refl,
            take-append-drop n pool.whitened,
            omega (arith, length-take n pool.whitened, g),
            r,
            g,
          ))
    | inr a ↦ rw (r, a) (inl (refl, refl))
  ]
  | inr r ↦ rw r (inl (refl, refl))
]

IsGranted-or-none :
    (pool : WhitenedPool) (num_bytes : ℤ)
    → (IsGranted pool (pos_part num_bytes)
        × (extract_entropy pool num_bytes ≡ examine pool (pos_part num_bytes)))
      ⊎ (extract_entropy pool num_bytes ≡ (none, pool, []))
unfolding extract_entropy
IsGranted-or-none pool (negsuc n) = inr (ground arith)
IsGranted-or-none pool (pos n) = elim (Bool-cases (leb_ℤ (pos n) (pos 0))) [
  | inl z ↦ inr (rw z)
  | inr p ↦ elim (Bool-cases (ltb (length pool.whitened) pool.min_pool_size)) [
    | inl low ↦ inr (rw (p, low))
    | inr reserve ↦ elim (Bool-cases (ltb (length pool.whitened) n)) [
      | inl short ↦ inr (rw (p, reserve, short))
      | inr enough ↦ inl (
        record { positive = ground arith; reserve = ground arith; enough = ground arith },
        rw (p, reserve, enough),
      )
    ]
  ]
]

-- Whatever is asked of the pool, either nothing is returned and no byte is removed, or exactly the
-- requested number of bytes is returned, which stood at the front, passed the repetition count test
-- and are gone from the pool.
pub extract_entropy-Outcome :
    (pool : WhitenedPool) (num_bytes : ℤ)
    → Outcome pool (pos_part num_bytes) (extract_entropy pool num_bytes)
extract_entropy-Outcome pool num_bytes = elim (IsGranted-or-none pool num_bytes) [
  | inl (g, e) ↦
      subst (Outcome pool (pos_part num_bytes)) (sym e)
        (examine-Outcome pool (pos_part num_bytes) g)
  | inr e ↦ subst (Outcome pool (pos_part num_bytes)) (sym e) (inl (refl, refl))
]

-- No block with a run of equal bytes as long as the cutoff, or two, is ever returned.
pub longest-extract_entropy :
    (pool : WhitenedPool) (num_bytes : ℤ) (bytes : List ℕ)
    → (extract_entropy pool num_bytes).0 ≡ some bytes
    → longest bytes < max 2 pool.rct.cutoff
longest-extract_entropy pool num_bytes bytes e = elim (extract_entropy-Outcome pool num_bytes) [
  | inl (z, w) ↦ absurd (cc)
  | inr (served, s, w, l, r, g) ↦
      let same : served ≡ bytes = cc in
      subst (λ bs. longest bs < max 2 pool.rct.cutoff) same (longest-test_block pool.rct served r)
]

lead-take : (v n m : ℕ) (xs : List ℕ) → n ≤ m → lead v (take n xs) ≤ lead v (take m xs)
lead-take v zero m xs h = omega arith
lead-take v (suc n) zero xs h = absurd (omega (arith, h))
lead-take v (suc n) (suc m) [] h = omega arith
lead-take v (suc n) (suc m) (x ∷ xs) h = ground (arith, lead-take v n m xs (omega (arith, h)))

longest-take : (n m : ℕ) (xs : List ℕ) → n ≤ m → longest (take n xs) ≤ longest (take m xs)
longest-take zero m xs h = omega arith
longest-take (suc n) zero xs h = absurd (omega (arith, h))
longest-take (suc n) (suc m) [] h = omega arith
longest-take (suc n) (suc m) (x ∷ xs) h =
    let k : n ≤ m = omega (arith, h) in omega (arith, lead-take x n m xs k, longest-take n m xs k)

-- The first n bytes hold a run that the repetition count test rejects in every state.
abbrev pub IsStuck : WhitenedPool → ℕ → Type 0
IsStuck pool n = max 2 pool.rct.cutoff ≤ longest (take n pool.whitened)

-- A larger block has that run too.
IsStuck-more : (pool : WhitenedPool) (n m : ℕ) → n ≤ m → IsStuck pool n → IsStuck pool m
IsStuck-more pool n m h stuck = omega (arith, longest-take n m pool.whitened h)

stuck_fails :
    (pool : WhitenedPool) (n : ℕ)
    → IsStuck pool n
    → (Rct.test_block pool.rct (take n pool.whitened)).0 ≡ false
stuck_fails pool n h = elim (Bool-cases (Rct.test_block pool.rct (take n pool.whitened)).0) [
  | inl e ↦ absurd (omega (arith, longest-test_block pool.rct (take n pool.whitened) e))
  | inr e ↦ e
]

examine_stuck :
    (pool : WhitenedPool) (n : ℕ)
    → IsStuck pool n
    → ((examine pool n).0 ≡ none)
      × ((examine pool n).1.whitened ≡ pool.whitened)
      × ((examine pool n).1.rct.cutoff ≡ pool.rct.cutoff)
unfolding examine Rct.reset
examine_stuck pool n h =
    rw (stuck_fails pool n h) (refl, refl, cutoff-test_block pool.rct (take n pool.whitened))

extract_entropy-IsStuck :
    (pool : WhitenedPool) (n m : ℕ)
    → n ≤ m
    → IsStuck pool n
    → ((extract_entropy pool (pos m)).0 ≡ none) × IsStuck (extract_entropy pool (pos m)).1 n
extract_entropy-IsStuck pool n m le h = elim (IsGranted-or-none pool (pos m)) [
  | inl (g, e) ↦
      let x = examine_stuck pool m (IsStuck-more pool n m le h) in rw e (x.0, rw (x.1, x.2) h)
  | inr e ↦ rw e (refl, h)
]

-- What requests for these numbers of bytes return, one after the other, with no batch in between.
abbrev pub answers : List ℕ → WhitenedPool → List (Option (List ℕ))
answers [] pool = []
answers (m ∷ sizes) pool =
    (extract_entropy pool (pos m)).0 ∷ answers sizes (extract_entropy pool (pos m)).1

-- Resetting the test does not let the pool recover by itself: where the first n bytes hold a run as
-- long as the cutoff, or two, every one of any requests for n bytes or more is refused, as long as
-- nothing else is asked of the pool and no batch comes between, since the bytes stay in front.
pub extract_entropy_stays_stuck :
    (n : ℕ) (sizes : List ℕ) (pool : WhitenedPool)
    → All (λ m. n ≤ m) sizes
    → IsStuck pool n
    → All (λ answer. answer ≡ none) (answers sizes pool)
extract_entropy_stays_stuck n [] pool le h = tt
extract_entropy_stays_stuck n (m ∷ sizes) pool (first, rest) h =
    let (refused, stuck) = extract_entropy-IsStuck pool n m first h in
    (refused, extract_entropy_stays_stuck n sizes (extract_entropy pool (pos m)).1 rest stuck)
