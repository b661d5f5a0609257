-- ===== src/Entropy/Pool/History.antt =====
-- The pool over any history of batches and requests: each byte is served at most once, in order.
use mathlib.Core.Path.{subst₂}
use entropy_tdc_gateway.Common.{
  ℕ, ◌≡◌, refl, sym, subst, ap, ◌∙◌, inl, inr, Option, none, some, List, [], ◌∷◌, ◌++◌, length,
  append_assoc, append-nil,
}
use entropy_tdc_gateway.Common.Int.{ℤ}
use entropy_tdc_gateway.Common.Float.{Float64}
use entropy_tdc_gateway.Mqtt.{TdcEvent}
use entropy_tdc_gateway.Validation.Frequency.{Entries}
use entropy_tdc_gateway.Entropy.Whitening.{parity_preprocess}
use entropy_tdc_gateway.Entropy.Pool.{WhitenedPool, raw_bytes, add_batch, extract_entropy}
use entropy_tdc_gateway.Entropy.Pool.Bounds.{IsValid, add_batch-IsValid, extract_entropy-IsValid}
use entropy_tdc_gateway.Entropy.Pool.Batches.{add_batch-IsNewest}
use entropy_tdc_gateway.Entropy.Pool.Extraction.{extract_entropy-Outcome}

-- `Within xs ys`: xs is ys with some elements left out, in the same order.
pub data Within {ℓ} {A : Type ℓ} : List A → List A → Type ℓ where
  done : Within [] []
  keep : {x : A} {xs ys : List A} → Within xs ys → Within (x ∷ xs) (x ∷ ys)
  skip : {y : A} {xs ys : List A} → Within xs ys → Within xs (y ∷ ys)

pub Within-self {ℓ} : {A : Type ℓ} (xs : List A) → Within xs xs
Within-self [] = done
Within-self (x ∷ xs) = keep (Within-self xs)

pub Within-keep {ℓ} :
    {A : Type ℓ} (zs : List A) {xs ys : List A} → Within xs ys → Within (zs ++ xs) (zs ++ ys)
Within-keep [] w = w
Within-keep (z ∷ zs) w = keep (Within-keep zs w)

pub Within-skip {ℓ} :
    {A : Type ℓ} (zs : List A) {xs ys : List A} → Within xs ys → Within xs (zs ++ ys)
Within-skip [] w = w
Within-skip (z ∷ zs) w = skip (Within-skip zs w)

-- A call on the pool.
pub data Call : Type 0 where
  adds : List TdcEvent → Call
  requests : ℤ → Call

abbrev pub served_by : Option (List ℕ) → List ℕ
served_by none = []
served_by (some bytes) = bytes

module _ (fl : Float64) (range : Entries → Entries) (sum256 : List ℕ → List ℕ) where
  -- The pool after the calls.
  pub run : List Call → WhitenedPool → WhitenedPool
  run [] pool = pool
  run (adds events ∷ calls) pool = run calls (add_batch fl range sum256 pool events).0
  run (requests n ∷ calls) pool = run calls (extract_entropy pool n).1

  -- The bytes that the calls return, one after the other.
  pub served : List Call → WhitenedPool → List ℕ
  served [] pool = []
  served (adds events ∷ calls) pool = served calls (add_batch fl range sum256 pool events).0
  served (requests n ∷ calls) pool =
      served_by (extract_entropy pool n).0 ++ served calls (extract_entropy pool n).1

  -- The digests of the batches that hold an event.
  pub digests : List Call → List ℕ
  digests [] = []
  digests (adds [] ∷ calls) = digests calls
  digests (adds (event ∷ events) ∷ calls) =
      sum256 (parity_preprocess (raw_bytes (event ∷ events))) ++ digests calls
  digests (requests n ∷ calls) = digests calls

  -- From a pool within its bounds, any calls in any order leave a pool within its bounds: a positive
  -- reserve that is at most the maximum, and no more whitened bytes and events than there may be.
  pub run-IsValid :
      (calls : List Call) (pool : WhitenedPool) → IsValid pool → IsValid (run calls pool)
  unfolding run
  run-IsValid [] pool v = v
  run-IsValid (adds events ∷ calls) pool v =
      run-IsValid calls _ (add_batch-IsValid fl range sum256 pool events v)
  run-IsValid (requests n ∷ calls) pool v = run-IsValid calls _ (extract_entropy-IsValid pool n v)

  -- What a request returns and what it leaves make up what there was.
  served_split :
      (pool : WhitenedPool) (n : ℤ)
      → served_by (extract_entropy pool n).0 ++ (extract_entropy pool n).1.whitened ≡ pool.whitened
  served_split pool n = elim (extract_entropy-Outcome pool n) [
    | inl (z, w) ↦ rw z w
    | inr (bytes, s, w, l, r, g) ↦ rw s w
  ]

  pub add_batch_empty : (pool : WhitenedPool) → (add_batch fl range sum256 pool []).0 ≡ pool
  unfolding add_batch
  add_batch_empty pool = refl

  -- Where a digest always has 32 bytes, no byte is served twice, none that was not conditioned is
  -- served, and the order is kept, over any calls from any pool: what
  -- all calls return, followed by what is left, is within the bytes that were there at the start,
  -- followed by the digests of the batches.
  pub served-Within :
      ((message : List ℕ) → length (sum256 message) ≡ 32)
      → (calls : List Call) (pool : WhitenedPool)
      → Within (served calls pool ++ (run calls pool).whitened) (pool.whitened ++ digests calls)
  unfolding served run digests
  served-Within digest [] pool = rw append-nil (Within-self pool.whitened)
  served-Within digest (adds [] ∷ calls) pool =
      subst
        (λ p. Within (served calls p ++ (run calls p).whitened) (pool.whitened ++ digests calls))
        (sym (add_batch_empty pool)) (served-Within digest calls pool)
  served-Within digest (adds (event ∷ events) ∷ calls) pool =
      let next = (add_batch fl range sum256 pool (event ∷ events)).0 in
      let n = (add_batch-IsNewest fl range sum256 digest pool event events).0 in
      subst (Within (served calls next ++ (run calls next).whitened))
        (sym (append_assoc n.dropped next.whitened (digests calls))
          ∙ ap (λ l. l ++ digests calls) (sym n.split)
          ∙ append_assoc pool.whitened (sum256 (parity_preprocess (raw_bytes (event ∷ events))))
              (digests calls))
        (Within-skip n.dropped (served-Within digest calls next))
  served-Within digest (requests n ∷ calls) pool =
      let output = served_by (extract_entropy pool n).0 in
      let next = (extract_entropy pool n).1 in
      subst₂ Within (sym (append_assoc output (served calls next) (run calls next).whitened))
        (sym (append_assoc output next.whitened (digests calls))
          ∙ ap (λ l. l ++ digests calls) (served_split pool n))
        (Within-keep output (served-Within digest calls next))
