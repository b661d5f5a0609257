-- ===== src/Gateway/Feeding.antt =====
-- The pool behind the send loop of the collector.
use entropy_tdc_gateway.Common.{
  ℕ, zero, suc, ◌+◌, ◌-◌, ◌≡◌, ◌≤◌, refl, sym, ap, ◌∙◌, inl, inr, Bool-cases, false, List, [], ◌∷◌,
  ◌++◌, arith, length, drop, length-append, length-drop, append_assoc, append-nil, ltb,
}
use entropy_tdc_gateway.Common.{Bool, Option, Option-cases}
use entropy_tdc_gateway.Common.Int.{ℤ}
use entropy_tdc_gateway.Common.Float.{Float64}
use entropy_tdc_gateway.Mqtt.{TdcEvent}
use entropy_tdc_gateway.Validation.Frequency.{Entries}
use entropy_tdc_gateway.Entropy.Whitening.{parity_preprocess}
use entropy_tdc_gateway.Entropy.Pool.{WhitenedPool, trim_front, raw_bytes, add_batch}
use entropy_tdc_gateway.Entropy.Pool.Bounds.{IsValid, add_batch-IsValid}
use entropy_tdc_gateway.Entropy.Pool.Batches.{add_batch-trims}
use entropy_tdc_gateway.Collector.{BatchCollector, SendRequest, Reach, new_batch_collector}
use entropy_tdc_gateway.Collector.Conservation.{batches, to_list, Reach-sent}
use entropy_tdc_gateway.Grpc.{Client, SendError}
use entropy_tdc_gateway.Gateway.Forwarding.{CloudAwareForwarder, cloud_aware_send_batch}

drop-nil {ℓ} : {A : Type ℓ} (m : ℕ) → drop {A = A} m [] ≡ []
drop-nil zero = refl
drop-nil (suc m) = refl

drop-drop {ℓ} : {A : Type ℓ} (m k n : ℕ) (xs : List A) → n ≡ k + m → drop m (drop k xs) ≡ drop n xs
drop-drop m zero n xs h = ap (λ i. drop i xs) omega (arith, h)
drop-drop m (suc k) zero xs h = absurd (omega (arith, h))
drop-drop m (suc k) (suc n) [] h = drop-nil m
drop-drop m (suc k) (suc n) (x ∷ xs) h = drop-drop m k n xs omega (arith, h)

drop-append {ℓ} :
    {A : Type ℓ} (k : ℕ) (xs ys : List A) → k ≤ length xs → drop k xs ++ ys ≡ drop k (xs ++ ys)
drop-append zero xs ys h = refl
drop-append (suc k) [] ys h = absurd (omega (arith, h))
drop-append (suc k) (x ∷ xs) ys h = drop-append k xs ys omega (arith, h)

trim_front-drop {ℓ} :
    {A : Type ℓ} (bound : ℕ) (xs : List A) → trim_front bound xs ≡ drop (length xs - bound) xs
unfolding trim_front
trim_front-drop bound xs = elim (Bool-cases (ltb bound (length xs))) [
  | inl e ↦ rw e
  | inr e ↦ let none_left : length xs - bound ≡ 0 = ground (arith, e) in rw (e, none_left) refl
]

-- Trimming what was trimmed and extended is trimming the whole.
trim_front-append {ℓ} :
    {A : Type ℓ} (bound : ℕ) (xs ys : List A)
    → trim_front bound (trim_front bound xs ++ ys) ≡ trim_front bound (xs ++ ys)
trim_front-append bound xs ys =
    let k = length xs - bound in
    let m = length (drop k (xs ++ ys)) - bound in
    let shorter : drop k xs ++ ys ≡ drop k (xs ++ ys) = drop-append k xs ys omega arith in
    let counts : length (xs ++ ys) - bound ≡ k + m =
      omega (arith, length-drop k (xs ++ ys), length-append xs ys) in
    rw (trim_front-drop bound xs, shorter)
      (trim_front-drop bound (drop k (xs ++ ys))
        ∙ drop-drop m k (length (xs ++ ys) - bound) (xs ++ ys) counts
        ∙ sym (trim_front-drop bound (xs ++ ys)))

-- What the network and the rest of the program do to one call of the forwarder: the client that is
-- attached then, the answer to the send, and the duration.
pub record Circumstances (F : Type 0) : Type 0 where
  pub client : Option Client
  pub accepted : Bool
  pub duration : F

module _ (fl : Float64) (to_int : fl.F → ℤ) (range : Entries → Entries) (sum256 : List ℕ → List ℕ)
    (error_text : SendError → List ℕ) where
  -- Whatever the cloud does, the batch goes to the pool.
  pub cloud_aware_send_batch-pool :
      (accepted : Bool) (duration : fl.F) (events : List TdcEvent) (sequence : ℕ)
      (f : CloudAwareForwarder)
      → (cloud_aware_send_batch fl to_int range sum256 error_text accepted duration events sequence
          f).1.0.pool
        ≡ (add_batch fl range sum256 f.pool events).0
  unfolding cloud_aware_send_batch
  cloud_aware_send_batch-pool accepted duration events sequence f = elim (Option-cases f.client) [
    | inl e ↦ rw e refl
    | inr (c, e) ↦ rw e refl
  ]

  -- The send loop: the jobs of the collector, in order, each in its circumstances.
  unfoldable pub forward :
      (SendRequest → Circumstances fl.F)
      → List SendRequest
      → CloudAwareForwarder
      → CloudAwareForwarder
  forward at_job [] f = f
  forward at_job (job ∷ jobs) f =
      let c = at_job job in
      forward at_job jobs
        (cloud_aware_send_batch fl to_int range sum256 error_text c.accepted c.duration job.batch
          job.seq (record f { client = c.client })).1.0

  -- One digest for each batch with an event.
  abbrev pub digest_of : List TdcEvent → List ℕ
  digest_of [] = []
  digest_of (event ∷ events) = sum256 (parity_preprocess (raw_bytes (event ∷ events)))

  abbrev pub digests : List SendRequest → List ℕ
  digests [] = []
  digests (job ∷ jobs) = digest_of job.batch ++ digests jobs

  -- The pool as the end of two streams, one of events and one of bytes.
  pub record IsEndOf (pool : WhitenedPool) (events : List TdcEvent) (bytes : List ℕ)
      (next : WhitenedPool) : Type 0 where
    pub bound : next.max_pool_size ≡ pool.max_pool_size
    pub raw_bound : next.max_raw_events ≡ pool.max_raw_events
    pub raw_events : next.raw_events ≡ trim_front pool.max_raw_events (pool.raw_events ++ events)
    pub whitened : next.whitened ≡ trim_front pool.max_pool_size (pool.whitened ++ bytes)

  trim_front_all {ℓ} :
      {A : Type ℓ} (bound : ℕ) (xs : List A) → length xs ≤ bound → trim_front bound (xs ++ []) ≡ xs
  unfolding trim_front
  trim_front_all bound xs h = rw (append-nil xs) ground (arith, h)

  add_batch-IsEndOf :
      ((message : List ℕ) → length (sum256 message) ≡ 32)
      → (pool : WhitenedPool) (events : List TdcEvent) → IsValid pool
      → IsEndOf pool events (digest_of events) (add_batch fl range sum256 pool events).0
  unfolding add_batch
  add_batch-IsEndOf digest pool [] v = record {
    bound = refl;
    raw_bound = refl;
    raw_events = sym (trim_front_all pool.max_raw_events pool.raw_events v.raw_bound);
    whitened = sym (trim_front_all pool.max_pool_size pool.whitened v.whitened_bound);
  }
  add_batch-IsEndOf digest pool (event ∷ events) v =
      let t = add_batch-trims fl range sum256 digest pool event events in
      record {
        bound = ap (λ p. p.max_pool_size) t;
        raw_bound = ap (λ p. p.max_raw_events) t;
        raw_events = ap (λ p. p.raw_events) t;
        whitened = ap (λ p. p.whitened) t;
      }

  -- Two ends, one after the other.
  join-IsEndOf :
      (p q r : WhitenedPool) (es fs : List TdcEvent) (bs cs : List ℕ)
      → IsEndOf p es bs q
      → IsEndOf q fs cs r
      → IsEndOf p (es ++ fs) (bs ++ cs) r
  join-IsEndOf p q r es fs bs cs i j = record {
    bound = j.bound ∙ i.bound;
    raw_bound = j.raw_bound ∙ i.raw_bound;
    raw_events =
        j.raw_events
        ∙ rw (i.raw_bound, i.raw_events)
            (trim_front-append p.max_raw_events (p.raw_events ++ es) fs
              ∙ ap (trim_front p.max_raw_events) (append_assoc p.raw_events es fs));
    whitened =
        j.whitened
        ∙ rw (i.bound, i.whitened)
            (trim_front-append p.max_pool_size (p.whitened ++ bs) cs
              ∙ ap (trim_front p.max_pool_size) (append_assoc p.whitened bs cs));
  }

  forward-IsEndOf :
      ((message : List ℕ) → length (sum256 message) ≡ 32)
      → (at_job : SendRequest → Circumstances fl.F) (jobs : List SendRequest)
        (f : CloudAwareForwarder)
      → IsValid f.pool
      → IsEndOf f.pool (batches jobs) (digests jobs) (forward at_job jobs f).pool
  unfolding forward
  forward-IsEndOf digest at_job [] f v = record {
    bound = refl;
    raw_bound = refl;
    raw_events = sym (trim_front_all f.pool.max_raw_events f.pool.raw_events v.raw_bound);
    whitened = sym (trim_front_all f.pool.max_pool_size f.pool.whitened v.whitened_bound);
  }
  forward-IsEndOf digest at_job (job ∷ jobs) f v =
      let c = at_job job in
      let fed = record f { client = c.client } in
      let next =
        (cloud_aware_send_batch fl to_int range sum256 error_text c.accepted c.duration job.batch
          job.seq fed).1.0 in
      let e : next.pool ≡ (add_batch fl range sum256 f.pool job.batch).0 =
        cloud_aware_send_batch-pool c.accepted c.duration job.batch job.seq fed in
      let first : IsEndOf f.pool job.batch (digest_of job.batch) next.pool =
        rw e (add_batch-IsEndOf digest f.pool job.batch v) in
      let valid : IsValid next.pool = rw e (add_batch-IsValid fl range sum256 f.pool job.batch v) in
      join-IsEndOf f.pool next.pool _ job.batch (batches jobs) (digest_of job.batch) (digests jobs)
        first (forward-IsEndOf digest at_job jobs next valid)

  -- The pool implements the end of a stream. Take a collector of any size in any state that it
  -- reaches without a panic, and send on what it handed over, whatever the cloud, its client and the
  -- network do: the events that were added are those of the batches sent, in order, followed by those
  -- that the collector still holds; the history of the pool is the end of the sent events that fits
  -- it, and its whitened bytes are the end, within the maximum, of the digests of the sent batches,
  -- one of 32 bytes for each.
  pub Reach-IsEndOf :
      ((message : List ℕ) → length (sum256 message) ≡ 32)
      → (max_size : ℕ) (added : List TdcEvent) (bc : BatchCollector)
      → Reach (new_batch_collector max_size) added bc
      → bc.panicked ≡ false
      → (at_job : SendRequest → Circumstances fl.F) (f : CloudAwareForwarder) → IsValid f.pool
      → (added ≡ batches bc.sent ++ (batches (bc.send_queue ++ to_list bc.blocked) ++ bc.events))
        × IsEndOf f.pool (batches bc.sent) (digests bc.sent) (forward at_job bc.sent f).pool
  Reach-IsEndOf digest m added bc reach p at_job f v =
      (Reach-sent m added bc reach p, forward-IsEndOf digest at_job bc.sent f v)
