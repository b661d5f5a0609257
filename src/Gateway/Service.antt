-- ===== src/Gateway/Service.antt =====
-- From the collector to the answers over HTTP: the pool that the forwarder fills is the one that the
-- entropy server serves. Each request and each batch is one step under the mutex of the pool.
use entropy_tdc_gateway.Common.{ℕ, ◌≡◌, none, some, List, [], ◌∷◌, ◌++◌}
use entropy_tdc_gateway.Common.Float.{Float64}
use entropy_tdc_gateway.Mqtt.{TdcEvent}
use entropy_tdc_gateway.Validation.Frequency.{Entries}
use entropy_tdc_gateway.Entropy.Whitening.{parity_preprocess}
use entropy_tdc_gateway.Entropy.Pool.{WhitenedPool, raw_bytes, add_batch}
use entropy_tdc_gateway.Entropy.Pool.History.{Within}
use entropy_tdc_gateway.Entropy.HttpServer.{HttpServer, Limiter, handle_entropy}
use entropy_tdc_gateway.Entropy.HttpServer.Requests.{written}
use entropy_tdc_gateway.Collector.{SendRequest}

-- What reaches the pool: the query of a request, or a batch of the collector.
pub data Traffic : Type 0 where
  asks : List ℕ → Traffic
  brings : SendRequest → Traffic

-- The batches among the traffic.
abbrev pub brought : List Traffic → List SendRequest
brought [] = []
brought (asks query ∷ traffic) = brought traffic
brought (brings job ∷ traffic) = job ∷ brought traffic

module _ {L : Type 0} (fl : Float64) (range : Entries → Entries) (sum256 : List ℕ → List ℕ)
    (limiter : Limiter L) where
  unfoldable pub bring : SendRequest → HttpServer L → HttpServer L
  bring job s = elim s.pool [
    | none ↦ s
    | some pool ↦ record s { pool = some (add_batch fl range sum256 pool job.batch).0 }
  ]

  -- The server after the traffic, and all bytes that it passed to `Write`, in order.
  unfoldable pub server_after : List Traffic → HttpServer L → HttpServer L
  server_after [] s = s
  server_after (asks query ∷ traffic) s =
      server_after traffic (handle_entropy limiter s query).server
  server_after (brings job ∷ traffic) s = server_after traffic (bring job s)

  unfoldable pub written_for : List Traffic → HttpServer L → List ℕ
  written_for [] s = []
  written_for (asks query ∷ traffic) s =
      let a = handle_entropy limiter s query in written a.calls ++ written_for traffic a.server
  written_for (brings job ∷ traffic) s = written_for traffic (bring job s)

  -- The digests of the batches that hold an event.
  abbrev pub digest_of : List TdcEvent → List ℕ
  digest_of [] = []
  digest_of (event ∷ events) = sum256 (parity_preprocess (raw_bytes (event ∷ events)))

  abbrev pub digests : List SendRequest → List ℕ
  digests [] = []
  digests (job ∷ jobs) = digest_of job.batch ++ digests jobs

  -- What the written bytes and the rest of the pool are made of.
  abbrev pub IsServed : List ℕ → HttpServer L → List ℕ → Type 0
  IsServed out s source =
      (next : WhitenedPool) × ((s.pool ≡ some next) × Within (out ++ next.whitened) source)
