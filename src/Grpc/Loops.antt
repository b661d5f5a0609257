-- ===== src/Grpc/Loops.antt =====
-- What one move of a loop does to the number of loops past the flag and to the open connections.
use entropy_tdc_gateway.Common.{
  ℕ, ◌+◌, ◌≡◌, ◌≤◌, ◌⊎◌, inl, inr, refl, ap, Bool, Bool-cases, Option-cases, Option, some, List, [],
  ◌∷◌, ◌++◌, if◌then◌else◌, ◌==◌, ==_self, arith,
}
use entropy_tdc_gateway.Common.Int.{pos, leb_ℤ}
use entropy_tdc_gateway.Config.{CloudForwarder}
use entropy_tdc_gateway.Grpc.{
  Client, Loop, entering, opened, marked, published, leaving, checking, waiting, closing, dialing,
  streaming, remove, close_conn, dial, start_receiver, reset_rotation_timer,
}
use entropy_tdc_gateway.Grpc.Steps.{
  LoopMove, enters, yields, stops, waits, gives_up, wakes, closes, build_fails, dials, stream_fails,
  opens, marks, publishes, starts, leaves,
}

-- Whether a loop is past the flag, and whether it is about to dial.
abbrev pub is_past : Loop → ℕ
is_past entering = 0
is_past _ = 1

abbrev pub is_dialing : Loop → ℕ
is_dialing (dialing delay) = 1
is_dialing _ = 0

abbrev pub sum_of : (Loop → ℕ) → List Loop → ℕ
sum_of f [] = 0
sum_of f (p ∷ ps) = f p + sum_of f ps

abbrev pub flag : Bool → ℕ
flag b = if b then 1 else 0

pub sum_of-append :
    (f : Loop → ℕ) (ps qs : List Loop) → sum_of f (ps ++ qs) ≡ sum_of f ps + sum_of f qs
sum_of-append f [] qs = omega arith
sum_of-append f (p ∷ ps) qs = omega (arith, sum_of-append f ps qs)

pub dialing-le-past : (ps : List Loop) → sum_of is_dialing ps ≤ sum_of is_past ps
dialing-le-past [] = omega arith
dialing-le-past (entering ∷ ps) = omega (arith, dialing-le-past ps)
dialing-le-past (opened ∷ ps) = omega (arith, dialing-le-past ps)
dialing-le-past (marked ∷ ps) = omega (arith, dialing-le-past ps)
dialing-le-past (published ∷ ps) = omega (arith, dialing-le-past ps)
dialing-le-past (leaving ∷ ps) = omega (arith, dialing-le-past ps)
dialing-le-past (checking d ∷ ps) = omega (arith, dialing-le-past ps)
dialing-le-past (waiting d ∷ ps) = omega (arith, dialing-le-past ps)
dialing-le-past (closing d ∷ ps) = omega (arith, dialing-le-past ps)
dialing-le-past (dialing d ∷ ps) = omega (arith, dialing-le-past ps)
dialing-le-past (streaming d id ∷ ps) = omega (arith, dialing-le-past ps)

-- As many loops are past the flag as the flag says, one or none.
abbrev pub IsGuarded : Client → Type 0
IsGuarded c = sum_of is_past c.loops ≡ flag c.reconnecting

pub close_conn-reconnecting : (c : Client) → (close_conn c).reconnecting ≡ c.reconnecting
unfolding close_conn
close_conn-reconnecting c = elim (Option-cases c.conn) [ inl e ↦ rw e | inr (id, e) ↦ rw e ]

start_receiver-reconnecting :
    (cfg : CloudForwarder) (c : Client) → (start_receiver cfg c).reconnecting ≡ c.reconnecting
unfolding start_receiver reset_rotation_timer
start_receiver-reconnecting cfg c = elim (Bool-cases (leb_ℤ cfg.stream_rotate_interval (pos 0))) [
  | inl e ↦ rw e
  | inr e ↦ rw e
]

flag_one : (n : ℕ) (b : Bool) → n + 1 ≡ flag b → n ≡ 0
flag_one n b g = ground arith

-- What a loop does to the flag is what it does to the number of loops past it, where that number is
-- what the flag says.
pub LoopMove-IsGuarded :
    (cfg : CloudForwarder) {c c' : Client} {p : Loop} {rest : List Loop} (others : ℕ)
    → LoopMove cfg c p rest c'
    → others + is_past p ≡ flag c.reconnecting
    → others + sum_of is_past rest ≡ flag c'.reconnecting
unfolding dial
LoopMove-IsGuarded cfg {c} others (enters f) g = ground (arith, f)
LoopMove-IsGuarded cfg {c} others (yields t) g = omega (arith, g)
LoopMove-IsGuarded cfg {c} others (stops d t) g = omega (arith, g)
LoopMove-IsGuarded cfg {c} others (waits d t) g = omega (arith, g)
LoopMove-IsGuarded cfg {c} others (gives_up d t) g = omega (arith, g)
LoopMove-IsGuarded cfg {c} others (wakes d) g = omega (arith, g)
LoopMove-IsGuarded cfg {c} others (closes d) g = rw (close_conn-reconnecting c) omega (arith, g)
LoopMove-IsGuarded cfg {c} others (build_fails d) g = omega (arith, g)
LoopMove-IsGuarded cfg {c} others (dials d) g = omega (arith, g)
LoopMove-IsGuarded cfg {c} others (stream_fails d id) g = omega (arith, g)
LoopMove-IsGuarded cfg {c} others (opens d id t) g = omega (arith, g)
LoopMove-IsGuarded cfg {c} others marks g = omega (arith, g)
LoopMove-IsGuarded cfg {c} others publishes g = omega (arith, g)
LoopMove-IsGuarded cfg {c} others starts g = rw (start_receiver-reconnecting cfg c) omega (arith, g)
LoopMove-IsGuarded cfg {c} others leaves g = omega (arith, flag_one others c.reconnecting g)

-- The open connections, where so many loops are about to dial: none, or the client's alone, while
-- nobody is about to dial another.
abbrev pub Fits : ℕ → Option ℕ → List ℕ → Type 0
Fits dialers conn open_conns =
    (open_conns ≡ []) ⊎ ((dialers ≡ 0) × ((id : ℕ) × ((conn ≡ some id) × (open_conns ≡ id ∷ []))))

fewer-Fits :
    {n : ℕ} (m : ℕ) {conn : Option ℕ} {os : List ℕ} → m ≤ n → Fits n conn os → Fits m conn os
fewer-Fits m le (inl e) = inl e
fewer-Fits m le (inr (z, w)) = inr (omega arith, w)

remove-Fits :
    {n : ℕ} {conn : Option ℕ} (id : ℕ) (os : List ℕ) → Fits n conn os → Fits n conn (remove id os)
remove-Fits id os (inl e) = inl (rw e)
remove-Fits id os (inr (z, (k, (c, o)))) = elim (Bool-cases (k == id)) [
  | inl e ↦ inl (rw (o, e))
  | inr e ↦ inr (z, (k, (c, rw (o, e))))
]

-- Closing the client's connection leaves none open.
pub close_conn-closed :
    {n : ℕ} (c : Client) → Fits n c.conn c.open_conns → (close_conn c).open_conns ≡ []
unfolding close_conn
close_conn-closed c (inl e) = elim (Option-cases c.conn) [
  | inl n ↦ rw n e
  | inr (id, h) ↦ rw (h, e)
]
close_conn-closed c (inr (z, (k, (h, o)))) = rw (h, o, ==_self k)

start_receiver-Fits :
    {n : ℕ} (cfg : CloudForwarder) (c : Client)
    → Fits n c.conn c.open_conns
    → Fits n (start_receiver cfg c).conn (start_receiver cfg c).open_conns
unfolding start_receiver reset_rotation_timer
start_receiver-Fits cfg c f = elim (Bool-cases (leb_ℤ cfg.stream_rotate_interval (pos 0))) [
  | inl e ↦ rw e f
  | inr e ↦ rw e f
]

pub LoopMove-Fits :
    (cfg : CloudForwarder) {c c' : Client} {p : Loop} {rest : List Loop} (others dialers : ℕ)
    → LoopMove cfg c p rest c'
    → dialers ≤ others
    → others + is_past p ≡ flag c.reconnecting
    → Fits (dialers + is_dialing p) c.conn c.open_conns
    → Fits (dialers + sum_of is_dialing rest) c'.conn c'.open_conns
unfolding dial
LoopMove-Fits cfg others dialers (enters f) le g fits = fewer-Fits _ omega arith fits
LoopMove-Fits cfg others dialers (yields t) le g fits = fewer-Fits _ omega arith fits
LoopMove-Fits cfg others dialers (stops d t) le g fits = fewer-Fits _ omega arith fits
LoopMove-Fits cfg others dialers (waits d t) le g fits = fewer-Fits _ omega arith fits
LoopMove-Fits cfg others dialers (gives_up d t) le g fits = fewer-Fits _ omega arith fits
LoopMove-Fits cfg others dialers (wakes d) le g fits = fewer-Fits _ omega arith fits
LoopMove-Fits cfg {c} others dialers (closes d) le g fits = inl (close_conn-closed c fits)
LoopMove-Fits cfg others dialers (build_fails d) le g fits = fewer-Fits _ omega arith fits
LoopMove-Fits cfg {c} others dialers (dials d) le g (inl e) =
    inr (omega (arith, flag_one _ _ g), (c.dialed, (refl, ap (λ os. c.dialed ∷ os) e)))
LoopMove-Fits cfg others dialers (dials d) le g (inr (z, w)) = absurd (omega (arith, z))
LoopMove-Fits cfg others dialers (stream_fails d id) le g fits =
    fewer-Fits _ omega arith (remove-Fits id _ fits)
LoopMove-Fits cfg others dialers (opens d id t) le g fits = fewer-Fits _ omega arith fits
LoopMove-Fits cfg others dialers marks le g fits = fewer-Fits _ omega arith fits
LoopMove-Fits cfg others dialers publishes le g fits = fewer-Fits _ omega arith fits
LoopMove-Fits cfg {c} others dialers starts le g fits =
    start_receiver-Fits cfg c (fewer-Fits _ omega arith fits)
LoopMove-Fits cfg others dialers leaves le g fits = fewer-Fits _ omega arith fits
