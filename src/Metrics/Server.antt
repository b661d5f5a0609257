-- ===== src/Metrics/Server.antt =====
-- internal/metrics/http_metric_server.go: the check of the address, and the server's start and stop
-- over what net/http answers. Its routes are calls of the Prometheus library.
use entropy_tdc_gateway.Common.{
  ℕ, Bool, true, false, ◌||◌, Option, none, some, List, [], ◌∷◌, ◌≡◌, ◌⊎◌, inl, inr, Bool-cases,
  Option-cases, if◌then◌else◌, is_empty,
}
use entropy_tdc_gateway.Common.Text.{same_text}
use entropy_tdc_gateway.Entropy.HttpServer.{Net}

pub data AddressError : Type 0 where
  empty_address invalid_host_port no_port unresolved : AddressError

-- "0.0.0.0" and "::"
abbrev pub any_ipv4 : List ℕ
any_ipv4 = 48 ∷ 46 ∷ 48 ∷ 46 ∷ 48 ∷ 46 ∷ 48 ∷ []

abbrev pub any_ipv6 : List ℕ
any_ipv6 = 58 ∷ 58 ∷ []

abbrev pub is_wildcard : List ℕ → Bool
is_wildcard host = is_empty host || (same_text host any_ipv4 || same_text host any_ipv6)

-- `resolves` is whether `net.LookupHost` finds the host. No error is `none`.
unfoldable pub validate_address : Net → (List ℕ → Bool) → List ℕ → Option AddressError
validate_address net resolves addr =
    if is_empty addr then some empty_address else elim (net.split_host_port addr) [
      | none ↦ some invalid_host_port
      | some (host, port) ↦
          if is_empty port
          then some no_port
          else if is_wildcard host
          then none
          else elim (net.parse_ip host) [
            | some ip ↦ none
            | none ↦ if resolves host then none else some unresolved
          ]
    ]

pub data ServerError : Type 0 where
  not_initialized tls_not_configured serve_error shutdown_error : ServerError
  invalid_address : AddressError → ServerError

-- Why `ListenAndServe` returned: after a shutdown, or with another error.
pub data ServeAnswer : Type 0 where
  server_closed failed : ServeAnswer

abbrev served : ServeAnswer → Option ServerError
served server_closed = none
served failed = some serve_error

abbrev checked : Option AddressError → Option ServerError → Option ServerError
checked (some e) rest = some (invalid_address e)
checked none rest = rest

-- `initialized` is whether there is a server of net/http.
unfoldable pub start : Net → (List ℕ → Bool) → List ℕ → Bool → ServeAnswer → Option ServerError
start net resolves addr initialized answer =
    if initialized
    then checked (validate_address net resolves addr) (served answer)
    else some not_initialized

unfoldable pub start_tls :
    Net → (List ℕ → Bool) → List ℕ → Bool → Bool → ServeAnswer → Option ServerError
start_tls net resolves addr initialized configures answer =
    if initialized
    then checked (validate_address net resolves addr)
        (if configures then served answer else some tls_not_configured)
    else some not_initialized

unfoldable pub shutdown : Bool → Bool → Option ServerError
shutdown initialized stops =
    if initialized then if stops then none else some shutdown_error else none

-- What an accepted address is: it has a host and a port that is not empty, and the host stands for
-- all interfaces, is an IP address, or resolves.
abbrev pub IsReachable : Net → (List ℕ → Bool) → List ℕ → Type 0
IsReachable net resolves addr =
    (host : List ℕ) × ((port : List ℕ) × ((net.split_host_port addr ≡ some (host, port))
        × ((is_empty port ≡ false)
            × ((is_wildcard host ≡ true)
                ⊎ (((ip : net.Ip) × (net.parse_ip host ≡ some ip)) ⊎ (resolves host ≡ true))))))

-- An address that is accepted can be reached.
pub validate_address-IsReachable :
    (net : Net) (resolves : List ℕ → Bool) (addr : List ℕ)
    → validate_address net resolves addr ≡ none
    → IsReachable net resolves addr
unfolding validate_address
validate_address-IsReachable net resolves [] h = absurd (cc h)
validate_address-IsReachable net resolves (c ∷ cs) h =
    elim (Option-cases (net.split_host_port (c ∷ cs))) [
      | inl e ↦ absurd (cc (rw (validate_address, e) at h))
      | inr ((host, port), e) ↦ elim (Bool-cases (is_empty port)) [
        | inl p ↦ absurd (cc (rw (validate_address, e, p) at h))
        | inr p ↦ (
          host,
          (
            port,
            (
              e,
              (
                p,
                elim (Bool-cases (is_wildcard host)) [
                  | inl w ↦ inl w
                  | inr w ↦ inr (elim (Option-cases (net.parse_ip host)) [
                    | inr (ip, i) ↦ inl (ip, i)
                    | inl n ↦ elim (Bool-cases (resolves host)) [
                      | inl r ↦ inr r
                      | inr r ↦ absurd (cc (rw (validate_address, e, p, w, n, r) at h))
                    ]
                  ])
                ],
              ),
            ),
          ),
        )
      ]
    ]
