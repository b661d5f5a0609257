-- ===== src/Grpc/Sending.antt =====
-- What `SendBatch` does in the states that a client reaches.
use entropy_tdc_gateway.Common.{
  ℕ, ◌≡◌, ◌⊎◌, refl, inl, inr, Bool, true, false, Bool-cases, Option-cases, none, some, List, [],
  ◌∷◌, ◌++◌, ◌∙◌,
}
use entropy_tdc_gateway.Common.Int.{pos, leb_ℤ}
use entropy_tdc_gateway.Config.{CloudForwarder}
use entropy_tdc_gateway.Metrics.Links.{set_grpc_connected, record_grpc_error}
use entropy_tdc_gateway.Grpc.{
  Client, Loop, Receiver, EntropyBatch, entering, close_conn, dial, start_receiver,
  reset_rotation_timer, connected_client, send_batch, not_connected, send_batch_failed, send_failed,
}
use entropy_tdc_gateway.Grpc.Steps.{
  LoopMove, ReceiverMove, Step, Reach, enters, yields, stops, waits, gives_up, wakes, closes,
  build_fails, dials, stream_fails, opens, marks, publishes, starts, leaves, returns, looks, reads,
  sleeps, receives, fails, notes_failure, reports, loop_moves, receiver_moves, sends, rotates,
  timer_stops, cancels, finishes, here, next,
}

abbrev HasStream : Client → Type 0
HasStream c = (id : ℕ) × (c.stream ≡ some id)

close_conn-stream : (c : Client) → (close_conn c).stream ≡ c.stream
unfolding close_conn
close_conn-stream c = elim (Option-cases c.conn) [ inl e ↦ rw e | inr (id, e) ↦ rw e ]

start_receiver-stream :
    (cfg : CloudForwarder) (c : Client) → (start_receiver cfg c).stream ≡ c.stream
unfolding start_receiver reset_rotation_timer
start_receiver-stream cfg c = elim (Bool-cases (leb_ℤ cfg.stream_rotate_interval (pos 0))) [
  | inl e ↦ rw e
  | inr e ↦ rw e
]

LoopMove-HasStream :
    (cfg : CloudForwarder) {c c' : Client} {p : Loop} {rest : List Loop}
    → LoopMove cfg c p rest c'
    → HasStream c
    → HasStream c'
unfolding dial
LoopMove-HasStream cfg (enters f) h = h
LoopMove-HasStream cfg (yields t) h = h
LoopMove-HasStream cfg (stops d t) h = h
LoopMove-HasStream cfg (waits d t) h = h
LoopMove-HasStream cfg (gives_up d t) h = h
LoopMove-HasStream cfg (wakes d) h = h
LoopMove-HasStream cfg {c} (closes d) (id, h) = (id, close_conn-stream c ∙ h)
LoopMove-HasStream cfg (build_fails d) h = h
LoopMove-HasStream cfg (dials d) h = h
LoopMove-HasStream cfg (stream_fails d id) h = h
LoopMove-HasStream cfg (opens d id t) h = (id, refl)
LoopMove-HasStream cfg marks h = h
LoopMove-HasStream cfg publishes h = h
LoopMove-HasStream cfg {c} starts (id, h) = (id, start_receiver-stream cfg c ∙ h)
LoopMove-HasStream cfg leaves h = h

ReceiverMove-HasStream :
    {c c' : Client} {p : Receiver} {rest : List Receiver}
    → ReceiverMove c p rest c'
    → HasStream c
    → HasStream c'
ReceiverMove-HasStream (returns t) h = h
ReceiverMove-HasStream (looks t) h = h
ReceiverMove-HasStream (reads id e) h = h
ReceiverMove-HasStream (sleeps e) h = h
ReceiverMove-HasStream (receives id ack) h = h
ReceiverMove-HasStream (fails id eof) h = h
ReceiverMove-HasStream notes_failure h = h
ReceiverMove-HasStream reports h = h

-- The three answers of a client with this stream, and the client that each leaves.
abbrev pub IsAnswer : ℕ → Bool → EntropyBatch → Client → Type 0
IsAnswer id accepted batch c =
    ((c.connected ≡ false) × (send_batch accepted batch c ≡ (some not_connected, c)))
    ⊎ (((accepted ≡ true)
          × (send_batch accepted batch c ≡ (none, record c { sent = c.sent ++ (id, batch) ∷ [] })))
        ⊎ ((accepted ≡ false)
            × (send_batch accepted batch c ≡ (
              some send_batch_failed,
              record c {
                connected = false;
                updates = c.updates ++ (set_grpc_connected false ++ record_grpc_error send_failed);
                loops = c.loops ++ entering ∷ [];
              },
            ))))

send_batch-IsAnswer :
    (id : ℕ) (accepted : Bool) (batch : EntropyBatch) (c : Client)
    → c.stream ≡ some id
    → IsAnswer id accepted batch c
unfolding send_batch
send_batch-IsAnswer id accepted batch c s = elim (Bool-cases c.connected) [
  | inr e ↦ inl (e, simp e)
  | inl e ↦ elim (Bool-cases accepted) [
    | inl a ↦ inr (inl (a, simp (e, s, a)))
    | inr a ↦ inr (inr (a, simp (e, s, a)))
  ]
]

send_batch-HasStream :
    (id : ℕ) (accepted : Bool) (batch : EntropyBatch) (c : Client)
    → c.stream ≡ some id
    → IsAnswer id accepted batch c
    → HasStream (send_batch accepted batch c).1
send_batch-HasStream id accepted batch c s (inl (e, q)) = (id, rw q s)
send_batch-HasStream id accepted batch c s (inr (inl (e, q))) = (id, rw q s)
send_batch-HasStream id accepted batch c s (inr (inr (e, q))) = (id, rw q s)

Step-HasStream : (cfg : CloudForwarder) {c c' : Client} → Step cfg c c' → HasStream c → HasStream c'
Step-HasStream cfg (loop_moves before after rest p l m) h = LoopMove-HasStream cfg m h
Step-HasStream cfg (receiver_moves before after rest p l m) h = ReceiverMove-HasStream m h
Step-HasStream cfg {c} (sends accepted batch) (id, h) =
    send_batch-HasStream id accepted batch c h (send_batch-IsAnswer id accepted batch c h)
Step-HasStream cfg (rotates n t) h = h
Step-HasStream cfg (timer_stops n t) h = h
Step-HasStream cfg cancels h = h
Step-HasStream cfg (finishes t r z) (id, h) = (id, close_conn-stream _ ∙ h)

Reach-HasStream : (cfg : CloudForwarder) (c : Client) → Reach cfg c → HasStream c
unfolding connected_client
Reach-HasStream cfg c here = (0, start_receiver-stream cfg _)
Reach-HasStream cfg c (next reach step) = Step-HasStream cfg step (Reach-HasStream cfg _ reach)

-- In every reachable state the client has a stream, so that sending never panics: a batch is refused
-- by a client that is not connected, which it leaves as it is; or the stream of the client takes it;
-- or the send fails, the client is disconnected, two metrics tell it, and a call of `reconnect` is
-- started.
pub Reach-IsAnswer :
    (cfg : CloudForwarder) (c : Client)
    → Reach cfg c
    → (accepted : Bool) (batch : EntropyBatch)
    → (id : ℕ) × ((c.stream ≡ some id) × IsAnswer id accepted batch c)
Reach-IsAnswer cfg c reach accepted batch =
    let (id, h) = Reach-HasStream cfg c reach in
    (id, (h, send_batch-IsAnswer id accepted batch c h))
