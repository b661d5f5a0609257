-- ===== src/Entropy/Pool/Batches.antt =====
-- What `AddBatch` does to the buffers.
use entropy_tdc_gateway.Common.{
  ℕ, zero, suc, ◌/◌, ◌-◌, ◌*◌, ◌<◌, min, ◌≡◌, refl, sym, ap, inl, inr, Bool-cases, List, [], ◌∷◌,
  ◌++◌, arith, length, take, length-append, length-drop, take-append-drop, ltb, is_empty, false,
}
use entropy_tdc_gateway.Common.Float.{Float64}
use entropy_tdc_gateway.Common.Bytes.{little_endian}
use entropy_tdc_gateway.Mqtt.{TdcEvent}
use entropy_tdc_gateway.Validation.Frequency.{Entries}
use entropy_tdc_gateway.Entropy.Whitening.{parity_preprocess}
use entropy_tdc_gateway.Entropy.Whitening.Parity.{dual_stage_digest}
use entropy_tdc_gateway.Entropy.Pool.{WhitenedPool, trim_front, raw_bytes, store, add_batch}

-- `ys` is what is left of `xs` when elements in front are dropped to meet the bound: no more than
-- are in excess of it.
pub record IsNewest {ℓ} {A : Type ℓ} (bound : ℕ) (xs ys : List A) : Type ℓ where
  pub dropped : List A
  pub split : xs ≡ dropped ++ ys
  pub as_many : length ys ≡ min bound (length xs)

trim_front-IsNewest {ℓ} :
    {A : Type ℓ} (bound : ℕ) (xs : List A) → IsNewest bound xs (trim_front bound xs)
unfolding trim_front
trim_front-IsNewest bound xs = elim (Bool-cases (ltb bound (length xs))) [
  | inl e ↦ rw e (record {
    dropped = take (length xs - bound) xs;
    split = sym (take-append-drop (length xs - bound) xs);
    as_many = ground (arith, length-drop (length xs - bound) xs);
  })
  | inr e ↦ rw e (record { dropped = []; split = refl; as_many = ground arith })
]

pub length-little_endian : (n v : ℕ) → length (little_endian n v) ≡ n
unfolding little_endian
length-little_endian zero v = refl
length-little_endian (suc n) v = ap suc (length-little_endian n (v / 256))

pub length-raw_bytes : (events : List TdcEvent) → length (raw_bytes events) ≡ 8 * length events
unfolding raw_bytes
length-raw_bytes [] = refl
length-raw_bytes (event ∷ events) = omega (
  arith,
  length-append (little_endian 8 event.tdc_timestamp_ps) (raw_bytes events),
  length-little_endian 8 event.tdc_timestamp_ps,
  length-raw_bytes events,
)

not_empty : (xs : List ℕ) → 0 < length xs → is_empty xs ≡ false
not_empty [] h = absurd (omega arith)
not_empty (x ∷ xs) h = refl

pub add_batch-trims :
    (fl : Float64) (range : Entries → Entries) (sum256 : List ℕ → List ℕ)
    → ((message : List ℕ) → length (sum256 message) ≡ 32)
    → (pool : WhitenedPool) (event : TdcEvent) (events : List TdcEvent)
    → (add_batch fl range sum256 pool (event ∷ events)).0 ≡ record pool {
      raw_events = trim_front pool.max_raw_events (pool.raw_events ++ event ∷ events);
      whitened =
          trim_front pool.max_pool_size
            (pool.whitened ++ sum256 (parity_preprocess (raw_bytes (event ∷ events))));
    }
unfolding add_batch store
add_batch-trims fl range sum256 digest pool event events =
    let message = parity_preprocess (raw_bytes (event ∷ events)) in
    rw (
      dual_stage_digest sum256 (raw_bytes (event ∷ events)) omega
          (arith, length-raw_bytes (event ∷ events)),
      not_empty (sum256 message) omega (arith, digest message),
    )

-- Where a digest always has 32 bytes, a batch with an event puts one digest of 32 bytes, that of
-- its folded timestamps, at the end of the whitened bytes and its events at the end of the history;
-- of both, the newest within the bound are kept.
pub add_batch-IsNewest :
    (fl : Float64) (range : Entries → Entries) (sum256 : List ℕ → List ℕ)
    → ((message : List ℕ) → length (sum256 message) ≡ 32)
    → (pool : WhitenedPool) (event : TdcEvent) (events : List TdcEvent)
    → let next = (add_batch fl range sum256 pool (event ∷ events)).0 in
      let digest = sum256 (parity_preprocess (raw_bytes (event ∷ events))) in
      IsNewest pool.max_pool_size (pool.whitened ++ digest) next.whitened
      × IsNewest pool.max_raw_events (pool.raw_events ++ event ∷ events) next.raw_events
add_batch-IsNewest fl range sum256 digest pool event events =
    rw (add_batch-trims fl range sum256 digest pool event events)
      (trim_front-IsNewest pool.max_pool_size _, trim_front-IsNewest pool.max_raw_events _)
