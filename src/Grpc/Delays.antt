-- ===== src/Grpc/Delays.antt =====
-- The delays of the reconnecting loops.
use entropy_tdc_gateway.Common.{
  ℕ, suc, ◌*◌, ◌^◌, ◌≡◌, ◌≤◌, ◌<◌, min, inl, inr, refl, sym, ap, ◌∙◌, subst, Bool, Bool-cases,
  Option-cases, List, ◌∷◌, ◌++◌, All, All-append, All-split, arith,
}
use entropy_tdc_gateway.Common.Int.{ℤ, pos, leb_ℤ}
use entropy_tdc_gateway.Config.{CloudForwarder}
use entropy_tdc_gateway.Backoff.{
  delay_after, next_delay, seconds_of, second, scale-pos, delay_after-min,
}
use entropy_tdc_gateway.Grpc.{
  Client, Loop, Receiver, EntropyBatch, checking, waiting, closing, dialing, streaming,
  start_receiver, reset_rotation_timer, connected_client, send_batch, initial_delay, max_delay,
}
use entropy_tdc_gateway.Grpc.Steps.{
  LoopMove, ReceiverMove, Step, Reach, enters, yields, stops, waits, gives_up, wakes, closes,
  build_fails, dials, stream_fails, opens, marks, publishes, starts, leaves, returns, looks, reads,
  sleeps, receives, fails, notes_failure, reports, loop_moves, receiver_moves, sends, rotates,
  timer_stops, cancels, finishes, here, next,
}
use entropy_tdc_gateway.Grpc.Exclusion.{close_conn-loops}

module _ (cfg : CloudForwarder) where
  -- The delay that the loop waits, or waited last, is the one after some failures.
  abbrev IsDelay : ℤ → Type 0
  IsDelay d = (failures : ℕ) × (d ≡ delay_after failures (max_delay cfg) (initial_delay cfg))

  abbrev IsScheduled : Loop → Type 0
  IsScheduled (checking d) = IsDelay d
  IsScheduled (waiting d) = IsDelay d
  IsScheduled (closing d) = IsDelay d
  IsScheduled (dialing d) = IsDelay d
  IsScheduled (streaming d id) = IsDelay d
  IsScheduled _ = Unit

  next_delay-IsDelay : (d : ℤ) → IsDelay d → IsDelay (next_delay (max_delay cfg) d)
  unfolding delay_after
  next_delay-IsDelay d (k, e) = (suc k, ap (next_delay (max_delay cfg)) e)

  initial-IsDelay : IsDelay (initial_delay cfg)
  unfolding delay_after
  initial-IsDelay = (0, refl)

  LoopMove-IsScheduled :
      {c c' : Client} {p : Loop} {rest : List Loop}
      → LoopMove cfg c p rest c'
      → IsScheduled p
      → All IsScheduled rest
  LoopMove-IsScheduled (enters f) h = (initial-IsDelay, tt)
  LoopMove-IsScheduled (yields t) h = tt
  LoopMove-IsScheduled (stops d t) h = (tt, tt)
  LoopMove-IsScheduled (waits d t) h = (h, tt)
  LoopMove-IsScheduled (gives_up d t) h = (tt, tt)
  LoopMove-IsScheduled (wakes d) h = (h, tt)
  LoopMove-IsScheduled (closes d) h = (h, tt)
  LoopMove-IsScheduled (build_fails d) h = (next_delay-IsDelay d h, tt)
  LoopMove-IsScheduled (dials d) h = (h, tt)
  LoopMove-IsScheduled (stream_fails d id) h = (next_delay-IsDelay d h, tt)
  LoopMove-IsScheduled (opens d id t) h = (tt, tt)
  LoopMove-IsScheduled marks h = (tt, tt)
  LoopMove-IsScheduled publishes h = (tt, tt)
  LoopMove-IsScheduled starts h = (tt, tt)
  LoopMove-IsScheduled leaves h = tt

  ReceiverMove-IsScheduled :
      {c c' : Client} {p : Receiver} {rest : List Receiver}
      → ReceiverMove c p rest c'
      → All IsScheduled c.loops
      → All IsScheduled c'.loops
  ReceiverMove-IsScheduled (returns t) h = h
  ReceiverMove-IsScheduled (looks t) h = h
  ReceiverMove-IsScheduled (reads id e) h = h
  ReceiverMove-IsScheduled (sleeps e) h = h
  ReceiverMove-IsScheduled (receives id ack) h = h
  ReceiverMove-IsScheduled (fails id eof) h = h
  ReceiverMove-IsScheduled notes_failure h = h
  ReceiverMove-IsScheduled {c} reports h = All-append IsScheduled c.loops _ h (tt, tt)

  send_batch-IsScheduled :
      (accepted : Bool) (batch : EntropyBatch) (c : Client)
      → All IsScheduled c.loops
      → All IsScheduled (send_batch accepted batch c).1.loops
  unfolding send_batch
  send_batch-IsScheduled accepted batch c h = elim (Bool-cases c.connected) [
    | inr e ↦ simp e h
    | inl e ↦ elim (Option-cases c.stream) [
      | inl n ↦ simp (e, n) h
      | inr (id, s) ↦
          simp (e, s)
            (elim (Bool-cases accepted) [
              | inl a ↦ simp a h
              | inr a ↦ simp a (All-append IsScheduled c.loops _ h (tt, tt))
            ])
    ]
  ]

  Step-IsScheduled :
      {c c' : Client} → Step cfg c c' → All IsScheduled c.loops → All IsScheduled c'.loops
  Step-IsScheduled (loop_moves before after rest p l m) h =
      let split : All IsScheduled before × All IsScheduled (p ∷ after) =
        All-split IsScheduled before (p ∷ after) (subst (All IsScheduled) l h) in
      All-append IsScheduled before (rest ++ after) split.0
        (All-append IsScheduled rest after (LoopMove-IsScheduled m split.1.0) split.1.1)
  Step-IsScheduled (receiver_moves before after rest p l m) h = ReceiverMove-IsScheduled m h
  Step-IsScheduled {c} (sends accepted batch) h = send_batch-IsScheduled accepted batch c h
  Step-IsScheduled {c} (rotates n t) h = All-append IsScheduled c.loops _ h (tt, tt)
  Step-IsScheduled (timer_stops n t) h = h
  Step-IsScheduled cancels h = h
  Step-IsScheduled (finishes t r z) h = rw (close_conn-loops _) h

  Reach-IsScheduled : (c : Client) → Reach cfg c → All IsScheduled c.loops
  unfolding connected_client start_receiver reset_rotation_timer
  Reach-IsScheduled c here = elim (Bool-cases (leb_ℤ cfg.stream_rotate_interval (pos 0))) [
    | inl e ↦ rw e tt
    | inr e ↦ rw e tt
  ]
  Reach-IsScheduled c (next reach step) = Step-IsScheduled step (Reach-IsScheduled _ reach)

seconds_of-pos : (n : ℕ) → second * n < 2 ^ 62 → seconds_of (pos n) ≡ pos (second * n)
unfolding seconds_of
seconds_of-pos n small = scale-pos second n omega arith omega arith

-- Where the configuration gives s seconds as the first delay and m as the maximum, s is at most m,
-- and m is below 146 years, every loop that waits in a reachable state waits s seconds times 2^k for
-- some number k of failures, or m seconds if that is less.
pub Reach-delay :
    (cfg : CloudForwarder) (s m : ℕ)
    → cfg.reconnect_delay ≡ pos s
    → cfg.max_reconnect_sec ≡ pos m
    → s ≤ m
    → second * m < 2 ^ 62
    → (c : Client) → Reach cfg c
    → (before after : List Loop) (d : ℤ) → c.loops ≡ before ++ waiting d ∷ after
    → (k : ℕ) × (d ≡ pos (min (second * m) ((second * s) * 2 ^ k)))
unfolding initial_delay max_delay
Reach-delay cfg s m es em le small c reach before after d l =
    let (k, e) =
      (All-split (IsScheduled cfg) before (waiting d ∷ after)
        (subst (All (IsScheduled cfg)) l (Reach-IsScheduled cfg c reach))).1.0 in
    let e' : d ≡ delay_after k (seconds_of (pos m)) (seconds_of (pos s)) = rw (sym em, sym es) e in
    (
      k,
      e'
          ∙ rw (seconds_of-pos m small, seconds_of-pos s omega arith)
              (delay_after-min k (second * m) (second * s) small omega arith),
    )
