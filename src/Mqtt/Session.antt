-- ===== src/Mqtt/Session.antt =====
-- internal/mqtt/client.go: the subscriptions and the connections of a client, over the answers of
-- the broker. Logging is left out.
use entropy_tdc_gateway.Common.{
  ℕ, ◌+◌, ◌%◌, ◌^◌, Bool, true, false, ◌&&◌, Option, none, some, List, [], ◌∷◌, ◌++◌, if◌then◌else◌,
  ltb,
}
use entropy_tdc_gateway.Metrics.{Update}
use entropy_tdc_gateway.Metrics.Links.{
  set_mqtt_connected, record_mqtt_reconnect, record_mqtt_connect, record_mqtt_disconnect,
}
use entropy_tdc_gateway.Mqtt.Client.{Text}

-- What the broker answers to a subscription.
pub data Answer : Type 0 where
  acknowledged timed_out denied : Answer

pub data ConnectError : Type 0 where
  subscribe_timeout subscribe_denied : Text → ConnectError
  not_initialized connect_timeout connect_failed initial_timeout : ConnectError

-- The topics that are asked for, and the first error.
unfoldable pub subscribe : (Text → Answer) → List Text → List Text × Option ConnectError
subscribe broker [] = ([], none)
subscribe broker (topic ∷ topics) =
    let rest = subscribe broker topics in
    elim (broker topic) [
      | acknowledged ↦ (topic ∷ rest.0, rest.1)
      | timed_out ↦ (topic ∷ [], some (subscribe_timeout topic))
      | denied ↦ (topic ∷ [], some (subscribe_denied topic))
    ]

-- What changes after the client is made. `initial` is what was sent on the channel of the initial
-- subscription, of capacity one, which is closed then; the counter is an int32.
pub record Client : Type 0 where
  pub initial : Option (Option ConnectError)
  pub connect_attempts : ℕ
  pub updates : List (Update Unit)

unfoldable pub fresh_client : Client
fresh_client = record { initial = none; connect_attempts = 0; updates = [] }

-- `initialSubscriptionOnce`
unfoldable pub complete_initial_subscription : Option ConnectError → Client → Client
complete_initial_subscription result c = elim c.initial [
  | none ↦ record c { initial = some result }
  | some r ↦ c
]

-- `atomic.AddInt32(...) > 1`: the counter as the 32-bit pattern.
abbrev pub is_reconnect : ℕ → Bool
is_reconnect attempts = ltb 1 attempts && ltb attempts (2 ^ 31)

unfoldable pub handle_connect : (Text → Answer) → List Text → Client → Client
handle_connect broker topics c = elim (subscribe broker topics).1 [
  | some e ↦
      complete_initial_subscription (some e)
        (record c { updates = c.updates ++ set_mqtt_connected false })
  | none ↦
      let attempts = (c.connect_attempts + 1) % 2 ^ 32 in
      complete_initial_subscription none (record c {
        connect_attempts = attempts;
        updates =
            c.updates
            ++ ((if is_reconnect attempts then record_mqtt_reconnect else [])
                ++ (set_mqtt_connected true ++ record_mqtt_connect));
      })
]

-- What `token.WaitTimeout` and `token.Error` say of the connection.
pub data Token : Type 0 where
  token_timeout token_error token_ok : Token

-- `Connect` with a client of paho: `arrived` is what is received in time on the channel.
unfoldable pub connect :
    Token → Option (Option ConnectError) → Client → Option ConnectError × Client
connect token_timeout arrived c =
    (some connect_timeout, record c { updates = c.updates ++ set_mqtt_connected false })
connect token_error arrived c =
    (some connect_failed, record c { updates = c.updates ++ set_mqtt_connected false })
connect token_ok none c =
    (some initial_timeout, record c { updates = c.updates ++ set_mqtt_connected false })
connect token_ok (some none) c = (none, c)
connect token_ok (some (some e)) c =
    (some e, record c { updates = c.updates ++ set_mqtt_connected false })

-- The handler of a lost connection.
unfoldable pub connection_lost : Client → Client
connection_lost c = record c {
  updates = c.updates ++ (set_mqtt_connected false ++ record_mqtt_disconnect);
}

unfoldable pub close : Bool → Client → Client
close is_open c = record c {
  updates =
      c.updates ++ (set_mqtt_connected false ++ (if is_open then record_mqtt_disconnect else []));
}
