-- ===== src/Grpc/Exclusion.antt =====
-- At most one call of `reconnect` is past the flag, and at most one connection is open.
use entropy_tdc_gateway.Common.{
  ℕ, ◌+◌, ◌≡◌, inl, inr, refl, sym, ◌∙◌, subst, Bool, Bool-cases, Option-cases, List, [], ◌∷◌, ◌++◌,
  arith,
}
use entropy_tdc_gateway.Common.Int.{pos, leb_ℤ}
use entropy_tdc_gateway.Config.{CloudForwarder}
use entropy_tdc_gateway.Grpc.{
  Client, Loop, Receiver, EntropyBatch, entering, close_conn, start_receiver, reset_rotation_timer,
  connected_client, send_batch,
}
use entropy_tdc_gateway.Grpc.Steps.{
  LoopMove, ReceiverMove, Step, Reach, returns, looks, reads, sleeps, receives, fails,
  notes_failure, reports, loop_moves, receiver_moves, sends, rotates, timer_stops, cancels,
  finishes, here, next,
}
use entropy_tdc_gateway.Grpc.Loops.{
  is_past, is_dialing, sum_of, flag, IsGuarded, Fits, sum_of-append, dialing-le-past,
  close_conn-reconnecting, close_conn-closed, LoopMove-IsGuarded, LoopMove-Fits,
}

pub record IsExclusive (c : Client) : Type 0 where
  pub guarded : IsGuarded c
  pub fits : Fits (sum_of is_dialing c.loops) c.conn c.open_conns

sum_of-middle :
    (f : Loop → ℕ) (before after rest : List Loop)
    → sum_of f (before ++ (rest ++ after)) ≡ (sum_of f before + sum_of f after) + sum_of f rest
sum_of-middle f before after rest =
    omega (arith, sum_of-append f before (rest ++ after), sum_of-append f rest after)

sum_of-entering :
    (f : Loop → ℕ) (ps : List Loop) → f entering ≡ 0 → sum_of f (ps ++ entering ∷ []) ≡ sum_of f ps
sum_of-entering f ps z = omega (arith, z, sum_of-append f ps (entering ∷ []))

-- Another call of `reconnect` is before the flag.
spawn-IsExclusive :
    (c : Client) → IsExclusive c → IsExclusive (record c { loops = c.loops ++ entering ∷ [] })
spawn-IsExclusive c i = record {
  guarded = sum_of-entering is_past c.loops refl ∙ i.guarded;
  fits = rw (sum_of-entering is_dialing c.loops refl) i.fits;
}

-- The loops of a client as those of the others and of one.
sum_of-at :
    (f : Loop → ℕ) {ps : List Loop} (before after : List Loop) (p : Loop)
    → ps ≡ before ++ p ∷ after
    → sum_of f ps ≡ (sum_of f before + sum_of f after) + f p
sum_of-at f before after p l = rw l omega (arith, sum_of-middle f before after (p ∷ []))

loop_moves-IsExclusive :
    (cfg : CloudForwarder) {c c' : Client} (before after rest : List Loop) (p : Loop)
    → c.loops ≡ before ++ p ∷ after
    → LoopMove cfg c p rest c'
    → IsExclusive c
    → IsExclusive (record c' { loops = before ++ (rest ++ after) })
loop_moves-IsExclusive cfg {c} before after rest p l m i =
    let at_p : (sum_of is_past before + sum_of is_past after) + is_past p ≡ flag c.reconnecting =
      sym (sum_of-at is_past before after p l) ∙ i.guarded in
    record {
      guarded = sum_of-middle is_past before after rest ∙ LoopMove-IsGuarded cfg _ m at_p;
      fits = rw (sum_of-middle is_dialing before after rest) (
          LoopMove-Fits cfg (sum_of is_past before + sum_of is_past after) _ m omega
            (arith, dialing-le-past before, dialing-le-past after) at_p
            (subst (λ n. Fits n c.conn c.open_conns) (sum_of-at is_dialing before after p l)
              i.fits));
    }

ReceiverMove-IsExclusive :
    {c c' : Client} {p : Receiver} {rest : List Receiver}
    → ReceiverMove c p rest c'
    → IsExclusive c
    → IsExclusive c'
ReceiverMove-IsExclusive (returns t) i = i
ReceiverMove-IsExclusive (looks t) i = i
ReceiverMove-IsExclusive (reads id e) i = i
ReceiverMove-IsExclusive (sleeps e) i = i
ReceiverMove-IsExclusive (receives id ack) i = record { guarded = i.guarded; fits = i.fits }
ReceiverMove-IsExclusive (fails id eof) i = record { guarded = i.guarded; fits = i.fits }
ReceiverMove-IsExclusive notes_failure i = record { guarded = i.guarded; fits = i.fits }
ReceiverMove-IsExclusive {c} reports i = spawn-IsExclusive c i

send_batch-IsExclusive :
    (accepted : Bool) (batch : EntropyBatch) (c : Client)
    → IsExclusive c
    → IsExclusive (send_batch accepted batch c).1
unfolding send_batch
send_batch-IsExclusive accepted batch c i = elim (Bool-cases c.connected) [
  | inr e ↦ simp e i
  | inl e ↦ elim (Option-cases c.stream) [
    | inl n ↦ simp (e, n) i
    | inr (id, s) ↦
        simp (e, s)
          (elim (Bool-cases accepted) [
            | inl a ↦ simp a (record { guarded = i.guarded; fits = i.fits })
            | inr a ↦ simp a (
                let j : IsExclusive _ = spawn-IsExclusive c i in
                record { guarded = j.guarded; fits = j.fits })
          ])
  ]
]

pub close_conn-loops : (c : Client) → (close_conn c).loops ≡ c.loops
unfolding close_conn
close_conn-loops c = elim (Option-cases c.conn) [ inl e ↦ rw e | inr (id, e) ↦ rw e ]

close_conn-IsExclusive : (c : Client) → IsExclusive c → IsExclusive (close_conn c)
close_conn-IsExclusive c i = record {
  guarded = rw (close_conn-loops c, close_conn-reconnecting c) i.guarded;
  fits = inl (close_conn-closed c i.fits);
}

pub Step-IsExclusive :
    (cfg : CloudForwarder) {c c' : Client} → Step cfg c c' → IsExclusive c → IsExclusive c'
Step-IsExclusive cfg (loop_moves before after rest p l m) i =
    loop_moves-IsExclusive cfg before after rest p l m i
Step-IsExclusive cfg (receiver_moves before after rest p l m) i =
    let j : IsExclusive _ = ReceiverMove-IsExclusive m i in
    record { guarded = j.guarded; fits = j.fits }
Step-IsExclusive cfg {c} (sends accepted batch) i = send_batch-IsExclusive accepted batch c i
Step-IsExclusive cfg {c} (rotates n t) i =
    let j : IsExclusive _ = spawn-IsExclusive c i in record { guarded = j.guarded; fits = j.fits }
Step-IsExclusive cfg (timer_stops n t) i = record { guarded = i.guarded; fits = i.fits }
Step-IsExclusive cfg cancels i = record { guarded = i.guarded; fits = i.fits }
Step-IsExclusive cfg {c} (finishes t r z) i =
    close_conn-IsExclusive _ (record { guarded = i.guarded; fits = i.fits })

-- In every state that a client reaches, the loops past the flag are one if the flag is set and none
-- otherwise, and no connection is open but the client's, which nobody is about to replace.
pub Reach-IsExclusive : (cfg : CloudForwarder) (c : Client) → Reach cfg c → IsExclusive c
unfolding connected_client start_receiver reset_rotation_timer
Reach-IsExclusive cfg c here = elim (Bool-cases (leb_ℤ cfg.stream_rotate_interval (pos 0))) [
  | inl e ↦ rw e (record { guarded = refl; fits = inr (refl, (0, (refl, refl))) })
  | inr e ↦ rw e (record { guarded = refl; fits = inr (refl, (0, (refl, refl))) })
]
Reach-IsExclusive cfg c (next reach step) =
    Step-IsExclusive cfg step (Reach-IsExclusive cfg _ reach)
