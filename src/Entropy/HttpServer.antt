-- ===== src/Entropy/HttpServer.antt =====
-- internal/entropy/http_entropy_server.go: the handlers of the HTTP interface over the pool. A
-- handler returns its calls of the ResponseWriter and of package metrics, in order. The rate
-- limiter is used by its one operation. Package net is a parameter of the check of the address.
pub mod Limit
pub mod Serving
pub mod Requests
pub mod Readiness
pub mod Address
use entropy_tdc_gateway.Common.{
  ℕ, zero, suc, ◌+◌, ◌^◌, Bool, true, false, not, ◌||◌, Option, none, some, List, [], ◌∷◌, ◌++◌,
  if◌then◌else◌, ◌==◌, is_empty, length,
}
use entropy_tdc_gateway.Common.Int.{ℤ, pos, negsuc, leb_ℤ, ltb_ℤ}
use entropy_tdc_gateway.Common.Text.{atoi, trim_space, to_lower, same_text}
use entropy_tdc_gateway.Entropy.Pool.{
  WhitenedPool, Metric, Extracted, extract_entropy, available_entropy, pool_status,
}

pub data Header : Type 0 where
  cache_control pragma content_type x_entropy_available x_entropy_request retry_after
        x_ready_threshold :
      Header

pub data Value : Type 0 where
  no_store no_cache octet_stream plain_text : Value
  -- `strconv.Itoa`
  itoa : ℤ → Value

pub data Message : Type 0 where
  invalid_bytes bytes_range rate_limit_exceeded pool_unavailable : Message
  insufficient_entropy : ℤ → ℕ → Message

-- The calls of the ResponseWriter.
pub data Call : Type 0 where
  set_header : Header → Value → Call
  http_error : Message → ℕ → Call
  write : List ℕ → Call
  write_header : ℕ → Call
  write_health : ℕ → ℕ → ℕ → Call
  write_ready : Bool → Call

pub data HttpMetric : Type 0 where
  entropy_http_request : ℕ → HttpMetric
  entropy_http_503 entropy_http_rate_limited : HttpMetric

-- The server, with what its rate limiter knows; `pool` and the limiter may be nil.
pub record HttpServer (L : Type 0) : Type 0 where
  pub pool : Option WhitenedPool
  pub rate_limiter : Option L
  pub ready_threshold : ℤ
  pub retry_after_seconds : ℤ

-- `tokenBucket`, as its client sees it: whether a request may pass, and else how long to wait. The
-- wait comes as `int(math.Ceil(wait.Seconds()))`, and none where it is not positive.
pub record Limiter (L : Type 0) : Type 0 where
  pub allow : L → Bool × Option ℤ × L

abbrev pub default_retry_after_seconds : ℤ
default_retry_after_seconds = pos 1

abbrev pub default_request_bytes : ℤ
default_request_bytes = pos 32

abbrev pub max_request_bytes : ℤ
max_request_bytes = pos 4096

unfoldable pub set_retry_after : ℤ → Option ℤ → Call
set_retry_after configured wait =
    let seconds : ℤ = elim wait [
      | none ↦ configured
      | some calc ↦ if ltb_ℤ configured calc then calc else configured
    ] in
    set_header retry_after
      (itoa (if ltb_ℤ seconds (pos 1) then default_retry_after_seconds else seconds))

abbrev pub set_no_store_headers : List Call
set_no_store_headers = set_header cache_control no_store ∷ set_header pragma no_cache ∷ []

-- The metrics of the deferred function.
unfoldable pub deferred : ℕ → Bool → List HttpMetric
deferred status rate_limited =
    entropy_http_request status
    ∷ (if status == 503
        then entropy_http_503 ∷ (if rate_limited then entropy_http_rate_limited ∷ [] else [])
        else [])

pub record Answer (L : Type 0) : Type 0 where
  pub server : HttpServer L
  pub calls : List Call
  pub status : ℕ
  pub metrics : List HttpMetric
  pub pool_metrics : List Metric

-- The `bytes` parameter: the default where it is absent or empty, none where it is no integer.
unfoldable pub requested_bytes : List ℕ → Option ℤ
requested_bytes [] = some default_request_bytes
requested_bytes (c ∷ cs) = atoi (c ∷ cs)

abbrev pub entropy_headers : ℕ → ℤ → List Call
entropy_headers available n =
    set_no_store_headers
    ++ set_header content_type octet_stream
      ∷ set_header x_entropy_available (itoa (pos available))
      ∷ set_header x_entropy_request (itoa n)
      ∷ []

module _ {L : Type 0} where
  -- The end of a request, with the deferred metrics.
  unfoldable pub answer : HttpServer L → List Call → ℕ → Bool → List Metric → Answer L
  answer server calls status limited pool_metrics = record {
    server = server;
    calls = calls;
    status = status;
    metrics = deferred status limited;
    pool_metrics = pool_metrics;
  }

  unfoldable pub bad_request : HttpServer L → Message → Answer L
  bad_request server message =
      answer server (set_header cache_control no_store ∷ http_error message 400 ∷ []) 400 false []

  -- What the pool gave, or none with the time to wait.
  unfoldable pub answer_extracted : HttpServer L → ℤ → ℕ → Extracted → Answer L
  answer_extracted s n available (none, next, pool_metrics) =
      answer (record s { pool = some next })
        (entropy_headers available n
          ++ set_retry_after s.retry_after_seconds none
            ∷ http_error (insufficient_entropy n available) 503
            ∷ [])
        503 false pool_metrics
  answer_extracted s n available (some bytes, next, pool_metrics) =
      answer (record s { pool = some next }) (entropy_headers available n ++ write bytes ∷ []) 200
        false pool_metrics

  -- The part of `handleEntropy` after the rate limiter.
  unfoldable pub serve_entropy : HttpServer L → ℤ → Answer L
  serve_entropy s n = elim s.pool [
    | none ↦
        answer s
          (entropy_headers 0 n
            ++ set_retry_after s.retry_after_seconds none ∷ http_error pool_unavailable 503 ∷ [])
          503 false []
    | some pool ↦ answer_extracted s n (available_entropy pool) (extract_entropy pool n)
  ]

  unfoldable pub limit_exceeded : HttpServer L → Option ℤ → Answer L
  limit_exceeded s wait =
      answer s
        (set_no_store_headers
          ++ set_retry_after s.retry_after_seconds wait ∷ http_error rate_limit_exceeded 503 ∷ [])
        503 true []

  unfoldable pub handle_entropy : Limiter L → HttpServer L → List ℕ → Answer L
  handle_entropy limiter s query = elim (requested_bytes query) [
    | none ↦ bad_request s invalid_bytes
    | some n ↦
        if ltb_ℤ n (pos 1) || ltb_ℤ max_request_bytes n
        then bad_request s bytes_range
        else elim s.rate_limiter [
          | none ↦ serve_entropy s n
          | some bucket ↦
              let (allowed, wait, after) = limiter.allow bucket in
              let counted = record s { rate_limiter = some after } in
              if allowed then serve_entropy counted n else limit_exceeded counted wait
        ]
  ]

  unfoldable pub handle_health : HttpServer L → List Call
  handle_health s =
      let status : ℕ × ℕ = elim s.pool [ none ↦ (0, 0) | some pool ↦ pool_status pool ] in
      let available : ℕ = elim s.pool [ none ↦ 0 | some pool ↦ available_entropy pool ] in
      set_no_store_headers
      ++ set_header content_type plain_text
        ∷ write_header 200
        ∷ write_health status.0 status.1 available
        ∷ []

  unfoldable pub handle_ready : HttpServer L → List Call
  handle_ready s =
      let available : ℕ = elim s.pool [ none ↦ 0 | some pool ↦ available_entropy pool ] in
      let ready = not (ltb_ℤ (pos available) s.ready_threshold) in
      set_no_store_headers
      ++ set_header content_type plain_text
        ∷ set_header x_entropy_available (itoa (pos available))
        ∷ set_header x_ready_threshold (itoa s.ready_threshold)
        ∷ (if ready
            then write_header 200 ∷ write_ready true ∷ []
            else write_header 503 ∷ write_ready false ∷ [])

-- Package net: SplitHostPort, JoinHostPort, ParseIP with IsLoopback and String.
pub record Net : Type 1 where
  pub Ip : Type 0
  pub split_host_port : List ℕ → Option (List ℕ × List ℕ)
  pub join_host_port : List ℕ → List ℕ → List ℕ
  pub parse_ip : List ℕ → Option Ip
  pub is_loopback : Ip → Bool
  pub ip_string : Ip → List ℕ

pub data AddressError : Type 0 where
  invalid_address no_host not_loopback : AddressError

-- "127.0.0.1:9797"
abbrev pub default_http_address : List ℕ
default_http_address = 49 ∷ 50 ∷ 55 ∷ 46 ∷ 48 ∷ 46 ∷ 48 ∷ 46 ∷ 49 ∷ 58 ∷ 57 ∷ 55 ∷ 57 ∷ 55 ∷ []

abbrev pub localhost : List ℕ
localhost = 108 ∷ 111 ∷ 99 ∷ 97 ∷ 108 ∷ 104 ∷ 111 ∷ 115 ∷ 116 ∷ []

pub data Checked : Type 0 where
  bound : List ℕ → Checked
  refused : AddressError → Checked

unfoldable pub or_default_address : List ℕ → List ℕ
or_default_address [] = default_http_address
or_default_address (c ∷ cs) = c ∷ cs

module _ (net : Net) where
  unfoldable pub check_ip : List ℕ → List ℕ → List ℕ → Bool → Checked
  check_ip address host port allow_public = elim (net.parse_ip host) [
    | none ↦ if allow_public then bound address else refused not_loopback
    | some ip ↦
        if net.is_loopback ip
        then bound (net.join_host_port (net.ip_string ip) port)
        else if allow_public
        then bound (net.join_host_port (net.ip_string ip) port)
        else refused not_loopback
  ]

  unfoldable pub enforce_loopback_addr : List ℕ → Bool → Checked
  enforce_loopback_addr raw allow_public =
      let address = or_default_address (trim_space raw) in
      elim (net.split_host_port address) [
        | none ↦ refused invalid_address
        | some (host, port) ↦
            if is_empty host
            then refused no_host
            else if same_text (to_lower host) localhost
            then bound (net.join_host_port localhost port)
            else check_ip address host port allow_public
      ]
