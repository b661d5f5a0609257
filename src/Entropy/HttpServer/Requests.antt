-- ===== src/Entropy/HttpServer/Requests.antt =====
-- What a request for entropy is answered, and what the answer says of the pool.
use entropy_tdc_gateway.Common.{
  ℕ, ◌≤◌, false, none, some, List, [], ◌∷◌, ◌++◌, append-nil, ◌≡◌, refl, ◌⊎◌, inl, inr, sym, subst,
  Bool-cases, Option-cases, length, arith, ◌||◌,
}
use entropy_tdc_gateway.Common.Int.{ℤ, pos, negsuc, ltb_ℤ, pos_part}
use entropy_tdc_gateway.Entropy.Pool.{WhitenedPool, Extracted, extract_entropy, available_entropy}
use entropy_tdc_gateway.Entropy.Pool.Extraction.{IsGranted, Outcome, extract_entropy-Outcome}
use entropy_tdc_gateway.Entropy.HttpServer.{
  HttpServer, Limiter, Answer, Call, Message, write, http_error, answer, bad_request, invalid_bytes,
  bytes_range, serve_entropy, answer_extracted, limit_exceeded, set_retry_after, requested_bytes,
  handle_entropy, max_request_bytes,
}

-- The bytes that a handler passes to `Write`. The texts that `http.Error` sends stand apart.
abbrev pub written : List Call → List ℕ
written [] = []
written (write bytes ∷ calls) = bytes ++ written calls
written (_ ∷ calls) = written calls

-- The calls of `http.Error`: the message and the status of each.
abbrev pub errors : List Call → List (Message × ℕ)
errors [] = []
errors (http_error message status ∷ calls) = (message, status) ∷ errors calls
errors (_ ∷ calls) = errors calls

-- The query asks for n bytes, which is from 1 to 4096.
abbrev pub Asks : List ℕ → ℤ → Type 0
Asks query n = (requested_bytes query ≡ some n) × (1 ≤ pos_part n) × (pos_part n ≤ 4096)

-- The answer is one error text, with its status, or it answers a request that the pool could meet.
abbrev pub Verdict : WhitenedPool → List ℕ → ℕ → List Call → Type 0
Verdict pool query status calls =
    ((written calls ≡ [])
      × (((status ≡ 400) ⊎ (status ≡ 503))
          × ((message : Message) × (errors calls ≡ (message, status) ∷ []))))
    ⊎ ((n : ℤ) × Asks query n
        × (status ≡ 200)
        × (errors calls ≡ [])
        × (length (written calls) ≡ pos_part n)
        × IsGranted pool (pos_part n))

Asks-requested_bytes :
    (query : List ℕ) (n : ℤ)
    → requested_bytes query ≡ some n
    → (ltb_ℤ n (pos 1) || ltb_ℤ max_request_bytes n) ≡ false
    → Asks query n
Asks-requested_bytes query (pos n) q h = (q, ground arith, ground arith)
Asks-requested_bytes query (negsuc n) q h = absurd (ground (arith, h))

module _ {L : Type 0} where
  -- The bytes written are what the pool loses at its front.
  abbrev pub IsPaid : WhitenedPool → List ℕ → Answer L → Type 0
  IsPaid pool query a =
      (next : WhitenedPool) × (a.server.pool ≡ some next)
      × (written a.calls ++ next.whitened ≡ pool.whitened)
      × Verdict pool query a.status a.calls

  answer_extracted-IsPaid :
      (s : HttpServer L) (pool : WhitenedPool) (query : List ℕ) (n : ℤ) (available : ℕ)
      (x : Extracted)
      → Asks query n
      → Outcome pool (pos_part n) x
      → IsPaid pool query (answer_extracted s n available x)
  unfolding answer_extracted answer set_retry_after
  answer_extracted-IsPaid s pool query n available (none, next, ms) asks (inl (o, w)) =
      (next, refl, w, inl (refl, (inr refl, (_, refl))))
  answer_extracted-IsPaid s pool query n available (some out, next, ms) asks (inl (o, w)) =
      absurd (ground (arith, o))
  answer_extracted-IsPaid s pool query n available (none, next, ms) asks (inr (bs, o, w, l, r, g)) =
      absurd (ground (arith, o))
  answer_extracted-IsPaid s pool query n available (some out, next, ms) asks
        (inr (bs, o, w, l, r, g)) =
      let same : out ≡ bs = ground (arith, o) in
      (
        next,
        refl,
        rw (append-nil out, same) w,
        inr (n, asks, refl, refl, rw (append-nil out, same) l, g),
      )

  serve_entropy-some :
      (s : HttpServer L) (pool : WhitenedPool) (n : ℤ)
      → s.pool ≡ some pool
      → serve_entropy s n ≡ answer_extracted s n (available_entropy pool) (extract_entropy pool n)
  unfolding serve_entropy
  serve_entropy-some s pool n e = simp (serve_entropy, e)

  serve_entropy-IsPaid :
      (s : HttpServer L) (pool : WhitenedPool) (query : List ℕ) (n : ℤ)
      → s.pool ≡ some pool
      → Asks query n
      → IsPaid pool query (serve_entropy s n)
  serve_entropy-IsPaid s pool query n e asks =
      subst (IsPaid pool query) (sym (serve_entropy-some s pool n e))
        (answer_extracted-IsPaid s pool query n _ _ asks (extract_entropy-Outcome pool n))

  -- Whatever the query says and whatever the limiter answers, the bytes that a server with a pool
  -- passes to Write are exactly what the pool loses at its front. Either nothing is passed to Write,
  -- the status is 400 or 503, and one error text is sent, with that status; or the status is 200, no
  -- error text is sent, the query asks for n bytes with n from 1 to 4096, n bytes are passed to
  -- Write, and the pool held them and its reserve.
  pub handle_entropy-IsPaid :
      (limiter : Limiter L) (s : HttpServer L) (pool : WhitenedPool) (query : List ℕ)
      → s.pool ≡ some pool
      → IsPaid pool query (handle_entropy limiter s query)
  unfolding bad_request answer limit_exceeded set_retry_after handle_entropy
  handle_entropy-IsPaid limiter s pool query e =
      let by : (a : Answer L)
          → handle_entropy limiter s query ≡ a
          → IsPaid pool query a
          → IsPaid pool query (handle_entropy limiter s query) =
        λ a eq p. subst (IsPaid pool query) (sym eq) p in
      elim (Option-cases (requested_bytes query)) [
        | inl q ↦
            by (bad_request s invalid_bytes) (simp (handle_entropy, q))
              (pool, e, refl, inl (refl, (inl refl, (_, refl))))
        | inr (n, q) ↦ elim (Bool-cases (ltb_ℤ n (pos 1) || ltb_ℤ max_request_bytes n)) [
          | inl r ↦
              by (bad_request s bytes_range) (simp (handle_entropy, q, r))
                (pool, e, refl, inl (refl, (inl refl, (_, refl))))
          | inr r ↦
              let asks = Asks-requested_bytes query n q r in
              elim (Option-cases s.rate_limiter) [
                | inl l ↦
                    by (serve_entropy s n) (simp (handle_entropy, q, r, l))
                      (serve_entropy-IsPaid s pool query n e asks)
                | inr (bucket, l) ↦
                    let counted : HttpServer L = record s {
                      rate_limiter = some (limiter.allow bucket).2;
                    } in
                    elim (Bool-cases (limiter.allow bucket).0) [
                      | inl a ↦
                          by (serve_entropy counted n) (simp (handle_entropy, q, r, l, a))
                            (serve_entropy-IsPaid counted pool query n e asks)
                      | inr a ↦
                          by (limit_exceeded counted (limiter.allow bucket).1)
                            (simp (handle_entropy, q, r, l, a))
                            (pool, e, refl, inl (refl, (inr refl, (_, refl))))
                    ]
              ]
        ]
      ]
