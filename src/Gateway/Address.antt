-- ===== src/Gateway/Address.antt =====
-- The two checks of the entropy address, one after the other.
use entropy_tdc_gateway.Common.{
  ℕ, ◌≡◌, refl, sym, ◌∙◌, inl, inr, true, false, Bool-cases, Option-cases, none, some, List, [],
  ◌∷◌, is_empty,
}
use entropy_tdc_gateway.Common.Text.{same_text, same_text→path, trim_space, to_lower}
use entropy_tdc_gateway.Entropy.HttpServer.{
  Net, localhost, enforce_loopback_addr, check_ip, bound, or_default_address,
}
use entropy_tdc_gateway.Gateway.{validate_entropy_addr}

-- What package net documents: no host and port are in the empty text, and the empty text is no
-- address.
pub record IsNet (net : Net) : Type 0 where
  pub no_address : net.split_host_port [] ≡ none
  pub no_ip : net.parse_ip [] ≡ none

-- The server's answer to an address that splits so.
module _ (net : Net) (addr host port : List ℕ) where
  abbrev IsBound : Type 0
  IsBound = (address : List ℕ) × (enforce_loopback_addr net addr false ≡ bound address)

  localhost-IsBound :
      net.split_host_port (or_default_address (trim_space addr)) ≡ some (host, port)
      → same_text host localhost ≡ true
      → IsBound
  unfolding enforce_loopback_addr to_lower same_text
  localhost-IsBound s l = (
    net.join_host_port localhost port,
    rw (enforce_loopback_addr, s, same_text→path host localhost l),
  )

  ip-IsBound :
      net.split_host_port (or_default_address (trim_space addr)) ≡ some (host, port)
      → is_empty host ≡ false
      → (ip : net.Ip) → net.parse_ip host ≡ some ip
      → net.is_loopback ip ≡ true
      → IsBound
  unfolding enforce_loopback_addr check_ip
  ip-IsBound s e ip p l = elim (Bool-cases (same_text (to_lower host) localhost)) [
    | inl h ↦ (net.join_host_port localhost port, rw (enforce_loopback_addr, s, e, h))
    | inr h ↦ (
      net.join_host_port (net.ip_string ip) port,
      rw (enforce_loopback_addr, s, e, h, check_ip, p, l),
    )
  ]

has_ip :
    (net : Net)
    → IsNet net
    → (host : List ℕ) (ip : net.Ip) → net.parse_ip host ≡ some ip
    → is_empty host ≡ false
has_ip net doc [] ip p = absurd (cc (sym doc.no_ip ∙ p))
has_ip net doc (c ∷ cs) ip p = refl

-- An address without spaces around it that the main program accepts while public addresses are not
-- allowed is accepted by the entropy server as well.
pub validate_entropy_addr-enforce :
    (net : Net)
    → IsNet net
    → (addr : List ℕ) → trim_space addr ≡ addr
    → validate_entropy_addr net addr false ≡ none
    → (address : List ℕ) × (enforce_loopback_addr net addr false ≡ bound address)
unfolding validate_entropy_addr or_default_address
validate_entropy_addr-enforce net doc [] trimmed valid =
    absurd (cc (rw (validate_entropy_addr, doc.no_address) at valid))
validate_entropy_addr-enforce net doc (c ∷ cs) trimmed valid =
    elim (Option-cases (net.split_host_port (c ∷ cs))) [
      | inl e ↦ absurd (cc (rw (validate_entropy_addr, e) at valid))
      | inr ((host, port), e) ↦
          let s : net.split_host_port (or_default_address (trim_space (c ∷ cs)))
              ≡ some (host, port) =
            rw trimmed e in
          elim (Option-cases (net.parse_ip host)) [
            | inl n ↦ elim (Bool-cases (same_text host localhost)) [
              | inl l ↦ localhost-IsBound net (c ∷ cs) host port s l
              | inr l ↦ absurd (cc (rw (validate_entropy_addr, e, n, l) at valid))
            ]
            | inr (ip, p) ↦ elim (Bool-cases (net.is_loopback ip)) [
              | inl l ↦ ip-IsBound net (c ∷ cs) host port s (has_ip net doc host ip p) ip p l
              | inr l ↦ absurd (cc (rw (validate_entropy_addr, e, p, l) at valid))
            ]
          ]
    ]
