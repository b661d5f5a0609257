-- ===== src/Entropy/HttpServer/Readiness.antt =====
-- What the readiness endpoint promises.
use entropy_tdc_gateway.Common.{
  ℕ, ◌≤◌, ◌<◌, Bool, true, false, not, some, List, [], ◌∷◌, ◌≡◌, sym, subst, ◌∙◌, arith, inl, inr,
  Bool-cases,
}
use entropy_tdc_gateway.Common.Int.{pos, ltb_ℤ}
use entropy_tdc_gateway.Entropy.Pool.{WhitenedPool, available_entropy}
use entropy_tdc_gateway.Entropy.Pool.Extraction.{IsGranted}
use entropy_tdc_gateway.Entropy.HttpServer.{HttpServer, Call, write_ready, handle_ready}

-- The status and the text agree: 200 with true, or 503 with false.
abbrev pub says_ready : List Call → Bool
says_ready [] = false
says_ready (write_ready b ∷ calls) = b
says_ready (_ ∷ calls) = says_ready calls

available-IsGranted :
    (pool : WhitenedPool) (n : ℕ) → 0 < n → n ≤ available_entropy pool → IsGranted pool n
unfolding available_entropy
available-IsGranted pool n p h = record {
  positive = p;
  reserve = ground arith;
  enough = ground arith;
}

module _ {L : Type 0} where
  says_ready-handle_ready :
      (s : HttpServer L) (pool : WhitenedPool)
      → s.pool ≡ some pool
      → says_ready (handle_ready s) ≡ not (ltb_ℤ (pos (available_entropy pool)) s.ready_threshold)
  unfolding handle_ready
  says_ready-handle_ready s pool e =
      elim (Bool-cases (ltb_ℤ (pos (available_entropy pool)) s.ready_threshold)) [
        | inl l ↦ simp (handle_ready, e, l)
        | inr l ↦ simp (handle_ready, e, l)
      ]

  -- Where the readiness endpoint of a server whose threshold is n > 0 answers that it is ready, the
  -- pool can meet a request of n bytes and still hold its reserve before it.
  pub handle_ready-IsGranted :
      (s : HttpServer L) (pool : WhitenedPool) (n : ℕ)
      → s.pool ≡ some pool
      → s.ready_threshold ≡ pos n
      → 0 < n
      → says_ready (handle_ready s) ≡ true
      → IsGranted pool n
  handle_ready-IsGranted s pool n e t p h =
      let ready : not (ltb_ℤ (pos (available_entropy pool)) (pos n)) ≡ true =
        subst (λ z. not (ltb_ℤ (pos (available_entropy pool)) z) ≡ true) t
          (sym (says_ready-handle_ready s pool e) ∙ h) in
      available-IsGranted pool n p ground (arith, ready)
