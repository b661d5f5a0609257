-- ===== src/Grpc/Stuck.antt =====
-- A client that is disconnected while nobody is going to reconnect it.
use entropy_tdc_gateway.Common.{
  suc, ◌≡◌, ◌⊎◌, inl, inr, refl, Bool, true, false, none, some, List, [], ◌∷◌, ◌++◌, All,
  All-append, All-split, ap, sym, ◌∙◌, length, length-append, arith, ◌+◌, subst,
}
use entropy_tdc_gateway.Common.Int.{pos}
use entropy_tdc_gateway.Config.{CloudForwarder}
use entropy_tdc_gateway.Metrics.{Metric, grpc_connected, gauge, whole}
use entropy_tdc_gateway.Metrics.Links.{set_grpc_connected, record_grpc_reconnect, record_grpc_error}
use entropy_tdc_gateway.Grpc.{
  Client, Receiver, EntropyBatch, looking, reading, receiving, failed, reporting, marked,
  close_conn, dial, start_receiver, reset_rotation_timer, connected_client, send_batch,
  not_connected, initial_delay,
}
use entropy_tdc_gateway.Grpc.Steps.{
  Step, Reach, enters, yields, waits, wakes, closes, dials, opens, marks, publishes, starts, leaves,
  looks, reads, fails, notes_failure, reports, loop_moves, receiver_moves, sends, here, next,
  returns, sleeps, receives, rotates, timer_stops, cancels, finishes, ReceiverMove,
}

-- The receiver has not met an error.
abbrev pub is_fine : Receiver → Bool
is_fine looking = true
is_fine reading = true
is_fine (receiving id) = true
is_fine _ = false

abbrev pub IsFine : Receiver → Type 0
IsFine r = is_fine r ≡ true

pub record IsStuck (c : Client) : Type 0 where
  pub live : c.cancelled ≡ false
  pub cut : c.connected ≡ false
  pub idle : c.loops ≡ []
  pub still : c.timers ≡ 0
  pub fine : All IsFine c.receivers

abbrev pub without_rotation : CloudForwarder → CloudForwarder
without_rotation cfg = record cfg { stream_rotate_interval = pos 0 }

abbrev pub is_grpc_connected : Metric → Bool
is_grpc_connected grpc_connected = true
is_grpc_connected _ = false

abbrev batch : EntropyBatch
batch = record { events = []; batch_sequence = 1 }

-- Every client whose stream is not rotated can lose a reconnect: after a send that fails and a loop
-- that reconnects, it reaches a state in which it is not closed, counts as disconnected while the
-- gauge says connected, and no loop and no timer is left. There the receiver of the old stream notes
-- its error after the loop has set the client to connected and before it puts the flag back, so that
-- its own call of `reconnect` returns at once.
pub Reach-IsStuck :
    (cfg : CloudForwarder)
    → (c : Client) × (Reach (without_rotation cfg) c
        × (IsStuck c × (gauge is_grpc_connected none c.updates ≡ some (whole (pos 1)))))
unfolding connected_client start_receiver reset_rotation_timer send_batch close_conn dial
    set_grpc_connected record_grpc_reconnect record_grpc_error initial_delay
Reach-IsStuck cfg =
    let start : Reach (without_rotation cfg) (connected_client (without_rotation cfg)) = here in
    let sent = next start (receiver_moves [] [] _ _ refl (looks refl)) in
    let reads_old = next sent (receiver_moves [] [] _ _ refl (reads 0 refl)) in
    let cut = next reads_old (sends false batch) in
    let entered = next cut (loop_moves [] [] _ _ refl (enters refl)) in
    let waited = next entered (loop_moves [] [] _ _ refl (waits (initial_delay cfg) refl)) in
    let woken = next waited (loop_moves [] [] _ _ refl (wakes (initial_delay cfg))) in
    let closed = next woken (loop_moves [] [] _ _ refl (closes (initial_delay cfg))) in
    let dialed = next closed (loop_moves [] [] _ _ refl (dials (initial_delay cfg))) in
    let streamed = next dialed (loop_moves [] [] _ _ refl (opens (initial_delay cfg) 1 refl)) in
    let connected = next streamed (loop_moves [] [] _ _ refl marks) in
    let failed_old = next connected (receiver_moves [] [] _ _ refl (fails 0 true)) in
    let noted = next failed_old (receiver_moves [] [] _ _ refl notes_failure) in
    let reported = next noted (receiver_moves [] [] _ _ refl reports) in
    let yielded = next reported (loop_moves (marked ∷ []) [] _ _ refl (yields refl)) in
    let shown = next yielded (loop_moves [] [] _ _ refl publishes) in
    let started = next shown (loop_moves [] [] _ _ refl starts) in
    let left = next started (loop_moves [] [] _ _ refl leaves) in
    (
      _,
      (
        left,
        (record { live = refl; cut = refl; idle = refl; still = refl; fine = (refl, tt) }, refl),
      ),
    )

module _ {A : Type 0} where
  not_empty : (before after : List A) (p : A) → [] ≡ before ++ p ∷ after → ⊥
  not_empty before after p e =
      let n : 0 ≡ length before + suc (length after) =
        ap length e ∙ length-append before (p ∷ after) in
      omega (arith, n)

apart : false ≡ true → ⊥
apart e = cc e

-- A receiver that met an error.
abbrev pub Fails : Client → Type 0
Fails c =
    (before : List Receiver) × ((after : List Receiver) × (c.receivers ≡ before ++ failed ∷ after))

with_receivers :
    {c : Client} (rs : List Receiver)
    → All IsFine rs
    → IsStuck c
    → IsStuck (record c { receivers = rs })
with_receivers rs f s = record {
  live = s.live;
  cut = s.cut;
  idle = s.idle;
  still = s.still;
  fine = f;
}

-- The receivers of the list in the place of one among fine ones.
receivers-IsFine :
    (before after rest : List Receiver) (p : Receiver)
    → All IsFine (before ++ p ∷ after)
    → All IsFine rest
    → All IsFine (before ++ (rest ++ after))
receivers-IsFine before after rest p f r =
    let split : All IsFine before × All IsFine (p ∷ after) =
      All-split IsFine before (p ∷ after) f in
    All-append IsFine before (rest ++ after) split.0 (All-append IsFine rest after r split.1.1)

receiver_moves-IsStuck :
    {c c' : Client} (before after rest : List Receiver) (p : Receiver)
    → All IsFine (before ++ p ∷ after)
    → ReceiverMove c p rest c'
    → IsStuck c
    → IsStuck (record c' { receivers = before ++ (rest ++ after) })
      ⊎ Fails (record c' { receivers = before ++ (rest ++ after) })
receiver_moves-IsStuck before after rest p f (returns t) s =
    inl (with_receivers _ (receivers-IsFine before after [] p f tt) s)
receiver_moves-IsStuck before after rest p f (looks t) s =
    inl (with_receivers _ (receivers-IsFine before after (reading ∷ []) p f (refl, tt)) s)
receiver_moves-IsStuck before after rest p f (reads id e) s =
    inl (with_receivers _ (receivers-IsFine before after (receiving id ∷ []) p f (refl, tt)) s)
receiver_moves-IsStuck before after rest p f (sleeps e) s =
    inl (with_receivers _ (receivers-IsFine before after (looking ∷ []) p f (refl, tt)) s)
receiver_moves-IsStuck before after rest p f (receives id ack) s = inl (record {
  live = s.live;
  cut = s.cut;
  idle = s.idle;
  still = s.still;
  fine = receivers-IsFine before after (looking ∷ []) p f (refl, tt);
})
receiver_moves-IsStuck before after rest p f (fails id eof) s = inr (before, (after, refl))
receiver_moves-IsStuck before after rest p f notes_failure s =
    absurd (apart (All-split IsFine before (failed ∷ after) f).1.0)
receiver_moves-IsStuck before after rest p f reports s =
    absurd (apart (All-split IsFine before (reporting ∷ after) f).1.0)

send_batch-cut :
    (accepted : Bool) (b : EntropyBatch) (c : Client)
    → c.connected ≡ false
    → send_batch accepted b c ≡ (some not_connected, c)
unfolding send_batch
send_batch-cut accepted b c e = simp e

-- Whatever happens to a client in such a state, it stays in one, unless it is closed or the
-- receiver of its working stream meets an error.
pub Step-IsStuck :
    (cfg : CloudForwarder) (c c' : Client)
    → IsStuck c
    → Step cfg c c'
    → IsStuck c' ⊎ ((c'.cancelled ≡ true) ⊎ Fails c')
Step-IsStuck cfg c c' s (loop_moves before after rest p l m) =
    absurd (not_empty before after p (sym s.idle ∙ l))
Step-IsStuck cfg c c' s (receiver_moves before after rest p l m) =
    elim (receiver_moves-IsStuck before after rest p (subst (All IsFine) l s.fine) m s) [
      | inl h ↦ inl h
      | inr h ↦ inr (inr h)
    ]
Step-IsStuck cfg c c' s (sends accepted b) = inl (rw (send_batch-cut accepted b c s.cut) s)
Step-IsStuck cfg c c' s (rotates n t) = absurd (omega (arith, t, s.still))
Step-IsStuck cfg c c' s (timer_stops n t) = absurd (omega (arith, t, s.still))
Step-IsStuck cfg c c' s cancels = inr (inl refl)
Step-IsStuck cfg c c' s (finishes t r z) = absurd (apart (sym s.live ∙ t))
