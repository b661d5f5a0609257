-- ===== src/Entropy/HttpServer/Serving.antt =====
-- internal/entropy/http_entropy_server.go: the start and the stop of the server, over what net,
-- net/http and the TLS helpers answer.
use entropy_tdc_gateway.Common.{Bool, Option, none, some, if◌then◌else◌}
use entropy_tdc_gateway.Entropy.HttpServer.{HttpServer}

pub data StartError : Type 0 where
  nil_pool tls_not_configured cannot_listen : StartError

-- The listener of the server, whose requests a goroutine serves.
pub data Listener : Type 0 where
  no_listener tcp_listener tls_listener : Listener

module _ {L : Type 0} where
  unfoldable pub start : Bool → HttpServer L → Option StartError × Listener
  start listens s = elim s.pool [
    | none ↦ (some nil_pool, no_listener)
    | some pool ↦ if listens then (none, tcp_listener) else (some cannot_listen, no_listener)
  ]

  unfoldable pub start_tls : Bool → Bool → HttpServer L → Option StartError × Listener
  start_tls configures listens s = elim s.pool [
    | none ↦ (some nil_pool, no_listener)
    | some pool ↦
        if configures
        then if listens then (none, tls_listener) else (some cannot_listen, no_listener)
        else (some tls_not_configured, no_listener)
  ]

-- What `server.Shutdown` returns, and what the method makes of it.
pub data ShutdownAnswer : Type 0 where
  shut_down server_closed failed : ShutdownAnswer

unfoldable pub shutdown : Bool → ShutdownAnswer → Option ShutdownAnswer
shutdown initialized shut_down = none
shutdown initialized server_closed = none
shutdown initialized failed = if initialized then some failed else none
