-- ===== src/Mqtt/Sessions.antt =====
-- What a client does over any series of connections.
use entropy_tdc_gateway.Common.{
  ℕ, ◌+◌, ◌-◌, ◌%◌, ◌^◌, ◌≡◌, ◌≤◌, ◌<◌, refl, sym, subst, ◌∙◌, inl, inr, Bool, true, false,
  Bool-cases, Option-cases, Option, none, some, List, [], ◌∷◌, ◌++◌, arith, length, if◌then◌else◌,
}
use entropy_tdc_gateway.Metrics.{Metric, Update, mqtt_connects, mqtt_reconnects, total}
use entropy_tdc_gateway.Metrics.Accounts.{total-append}
use entropy_tdc_gateway.Metrics.Links.{
  set_mqtt_connected, record_mqtt_reconnect, record_mqtt_connect,
}
use entropy_tdc_gateway.Mqtt.Client.{Text}
use entropy_tdc_gateway.Mqtt.Session.{
  Answer, ConnectError, subscribe, Client, fresh_client, complete_initial_subscription,
  is_reconnect, handle_connect,
}

-- The state after a series of connections, each with the answers of the broker to it.
unfoldable pub run_connections : List Text → List (Text → Answer) → Client → Client
run_connections topics [] c = c
run_connections topics (broker ∷ brokers) c =
    run_connections topics brokers (handle_connect broker topics c)

-- The result of a subscription to all topics.
abbrev pub result_of : List Text → (Text → Answer) → Option ConnectError
result_of topics broker = (subscribe broker topics).1

abbrev pub one_if_none : Option ConnectError → ℕ
one_if_none none = 1
one_if_none (some e) = 0

abbrev pub successes : List Text → List (Text → Answer) → ℕ
successes topics [] = 0
successes topics (broker ∷ brokers) =
    one_if_none (result_of topics broker) + successes topics brokers

-- The first of the results.
abbrev kept : Option (Option ConnectError) → Option ConnectError → Option ConnectError
kept none result = result
kept (some r) result = r

abbrev pub is_connects : Metric → Bool
is_connects mqtt_connects = true
is_connects _ = false

abbrev pub is_reconnects : Metric → Bool
is_reconnects mqtt_reconnects = true
is_reconnects _ = false

-- The counters show the successful subscriptions, and those after the first.
abbrev pub IsCounted : Client → Type 0
IsCounted c =
    (total is_connects c.updates ≡ c.connect_attempts)
    × (total is_reconnects c.updates ≡ c.connect_attempts - 1)

-- A client after one more connection: another success or not, and the first result kept.
abbrev pub IsNext : Option ConnectError → Client → Client → Type 0
IsNext result c next =
    IsCounted next
    × ((next.connect_attempts ≡ c.connect_attempts + one_if_none result)
        × (next.initial ≡ some (kept c.initial result)))

completed-IsNext :
    (result : Option ConnectError) (c d : Client)
    → IsCounted d
    → d.connect_attempts ≡ c.connect_attempts + one_if_none result
    → d.initial ≡ c.initial
    → IsNext result c (complete_initial_subscription result d)
unfolding complete_initial_subscription
completed-IsNext result c d counted attempts same = elim (Option-cases d.initial) [
  | inl n ↦
      let first : c.initial ≡ none = sym same ∙ n in
      simp (complete_initial_subscription, n) (counted, (attempts, rw first refl))
  | inr (r, h) ↦
      let later : c.initial ≡ some r = sym same ∙ h in
      simp (complete_initial_subscription, h) (counted, (attempts, rw later refl))
]

-- The calls of metrics after a success, where there were n before it.
abbrev success_updates : ℕ → List (Update Unit)
success_updates n =
    (if is_reconnect ((n + 1) % 2 ^ 32) then record_mqtt_reconnect else [])
    ++ (set_mqtt_connected true ++ record_mqtt_connect)

success_updates-connects : (n : ℕ) → n + 1 < 2 ^ 31 → total is_connects (success_updates n) ≡ 1
unfolding record_mqtt_reconnect set_mqtt_connected record_mqtt_connect
success_updates-connects n small = elim (Bool-cases (is_reconnect ((n + 1) % 2 ^ 32))) [
  | inl e ↦ rw e
  | inr e ↦ rw e
]

success_updates-reconnects :
    (n : ℕ) → n + 1 < 2 ^ 31 → total is_reconnects (success_updates n) + (n - 1) ≡ n
unfolding record_mqtt_reconnect set_mqtt_connected record_mqtt_connect
success_updates-reconnects n small = elim (Bool-cases (is_reconnect ((n + 1) % 2 ^ 32))) [
  | inl e ↦ rw e ground (arith, e)
  | inr e ↦ rw e ground (arith, e)
]

success-IsCounted :
    (c : Client)
    → IsCounted c
    → c.connect_attempts + 1 < 2 ^ 31
    → IsCounted (record c {
      connect_attempts = (c.connect_attempts + 1) % 2 ^ 32;
      updates = c.updates ++ success_updates c.connect_attempts;
    })
success-IsCounted c (k, r) small =
    let n = c.connect_attempts in
    (
      omega (
        arith,
        total-append is_connects c.updates (success_updates n),
        k,
        success_updates-connects n small,
      ),
      omega (
        arith,
        total-append is_reconnects c.updates (success_updates n),
        r,
        success_updates-reconnects n small,
      ),
    )

failure-IsCounted :
    (c : Client)
    → IsCounted c
    → IsCounted (record c { updates = c.updates ++ set_mqtt_connected false })
unfolding set_mqtt_connected
failure-IsCounted c (k, r) = (
  omega (arith, total-append is_connects c.updates (set_mqtt_connected false), k),
  omega (arith, total-append is_reconnects c.updates (set_mqtt_connected false), r),
)

handle_connect-succeeds :
    (broker : Text → Answer) (topics : List Text) (c : Client)
    → result_of topics broker ≡ none
    → handle_connect broker topics c
      ≡ complete_initial_subscription none (record c {
        connect_attempts = (c.connect_attempts + 1) % 2 ^ 32;
        updates = c.updates ++ success_updates c.connect_attempts;
      })
unfolding handle_connect
handle_connect-succeeds broker topics c n = rw (handle_connect, n)

handle_connect-fails :
    (broker : Text → Answer) (topics : List Text) (c : Client) (e : ConnectError)
    → result_of topics broker ≡ some e
    → handle_connect broker topics c
      ≡ complete_initial_subscription
          (some e)
          (record c { updates = c.updates ++ set_mqtt_connected false })
unfolding handle_connect
handle_connect-fails broker topics c e h = rw (handle_connect, h)

handle_connect-IsNext :
    (broker : Text → Answer) (topics : List Text) (c : Client)
    → IsCounted c
    → c.connect_attempts + 1 < 2 ^ 31
    → IsNext (result_of topics broker) c (handle_connect broker topics c)
handle_connect-IsNext broker topics c counted small =
    elim (Option-cases (result_of topics broker)) [
      | inl n ↦
          subst (λ r. IsNext r c (handle_connect broker topics c)) (sym n)
            (subst (IsNext none c) (sym (handle_connect-succeeds broker topics c n)) (
              completed-IsNext none c _ (success-IsCounted c counted small) omega (arith, small)
                refl))
      | inr (e, h) ↦
          subst (λ r. IsNext r c (handle_connect broker topics c)) (sym h)
            (subst (IsNext (some e) c) (sym (handle_connect-fails broker topics c e h))
              (completed-IsNext (some e) c _ (failure-IsCounted c counted) omega arith refl))
    ]

one_if_none-le : (r : Option ConnectError) → one_if_none r ≤ 1
one_if_none-le none = omega arith
one_if_none-le (some e) = omega arith

-- After the connections: counted, with so many successes, and this result.
abbrev IsAfter : ℕ → Option ConnectError → Client → Type 0
IsAfter n result c = IsCounted c × ((c.connect_attempts ≡ n) × (c.initial ≡ some result))

run_connections-IsAfter :
    (topics : List Text) (brokers : List (Text → Answer)) (n : ℕ) (r : Option ConnectError)
    (c : Client)
    → n + length brokers < 2 ^ 31
    → IsAfter n r c
    → IsAfter (n + successes topics brokers) r (run_connections topics brokers c)
unfolding run_connections
run_connections-IsAfter topics [] n r c small (k, (a, i)) = (k, (omega (arith, a), i))
run_connections-IsAfter topics (broker ∷ brokers) n r c small (k, (a, i)) =
    let (counted, (attempts, initial)) =
      handle_connect-IsNext broker topics c k omega (arith, small, a) in
    let b = one_if_none (result_of topics broker) in
    let (k', (a', i')) =
      run_connections-IsAfter topics brokers (n + b) r (handle_connect broker topics c) omega
        (arith, small, one_if_none-le (result_of topics broker))
        (counted, (omega (arith, attempts, a), initial ∙ rw i refl)) in
    (k', (omega (arith, a'), i'))

-- Over any connections, fewer than 2^31, the channel of the initial subscription gets exactly the
-- result of the first; the metrics count every connection after which all topics are acknowledged,
-- and each of those but the first as a reconnect.
pub run_connections_lem :
    (topics : List Text) (broker : Text → Answer) (brokers : List (Text → Answer))
    → length (broker ∷ brokers) < 2 ^ 31
    → let c = run_connections topics (broker ∷ brokers) fresh_client in
      let n = successes topics (broker ∷ brokers) in
      (c.initial ≡ some (result_of topics broker))
      × ((total is_connects c.updates ≡ n) × (total is_reconnects c.updates ≡ n - 1))
unfolding run_connections fresh_client
run_connections_lem topics broker brokers small =
    let (counted, (attempts, initial)) =
      handle_connect-IsNext broker topics fresh_client (refl, refl) omega arith in
    let b = one_if_none (result_of topics broker) in
    let ((k, r), (a, i)) =
      run_connections-IsAfter topics brokers b (result_of topics broker)
        (handle_connect broker topics fresh_client) omega
        (arith, small, one_if_none-le (result_of topics broker))
        (counted, (omega (arith, attempts), initial)) in
    (i, (k ∙ a, rw a at r))
